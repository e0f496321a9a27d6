-- ===== src/Ir/Jumps.antt =====
-- Where control may go from an instruction, beside the one behind it (crates/rtcl-ir/src/opcode.rs):
-- the operands that its documentation calls a target, and the table of them.
use rtcl.Prelude.{
  ℕ, ◌≡◌, subst, Bool, true, false, ◌||◌, List, [], ◌∷◌, ◌==◌, arith, Bool-cases, inl, inr,
}
use rtcl.Prelude.Int.{ℤ}
use rtcl.Ir.OpCode.{
  OpCode, jump, jump_true, jump_false, catch_start, cmp_slot_slot_jump_true,
  cmp_slot_slot_jump_false, cmp_slot_imm_jump_true, cmp_slot_imm_jump_false, cmp_var_var_jump_true,
  cmp_var_var_jump_false, cmp_var_imm_jump_true, cmp_var_imm_jump_false, foreach_next,
  foreach_next_close, for_next_incr_local, for_next_incr_var, loop_enter, foreach_start,
}
use rtcl.Ir.Targets.{targets_of}

pub data JumpsTo : OpCode → ℕ → Type 0 where
  always : {t : ℕ} → JumpsTo (jump t) t
  if_true : {t : ℕ} → JumpsTo (jump_true t) t
  if_false : {t : ℕ} → JumpsTo (jump_false t) t
  on_error : {t : ℕ} → JumpsTo (catch_start t) t
  slot_slot_if_true : {a b cc t : ℕ} → JumpsTo (cmp_slot_slot_jump_true a b cc t) t
  slot_slot_if_false : {a b cc t : ℕ} → JumpsTo (cmp_slot_slot_jump_false a b cc t) t
  slot_imm_if_true : {a cc t : ℕ} {k : ℤ} → JumpsTo (cmp_slot_imm_jump_true a k cc t) t
  slot_imm_if_false : {a cc t : ℕ} {k : ℤ} → JumpsTo (cmp_slot_imm_jump_false a k cc t) t
  var_var_if_true : {a b cc t : ℕ} → JumpsTo (cmp_var_var_jump_true a b cc t) t
  var_var_if_false : {a b cc t : ℕ} → JumpsTo (cmp_var_var_jump_false a b cc t) t
  var_imm_if_true : {a cc t : ℕ} {k : ℤ} → JumpsTo (cmp_var_imm_jump_true a k cc t) t
  var_imm_if_false : {a cc t : ℕ} {k : ℤ} → JumpsTo (cmp_var_imm_jump_false a k cc t) t
  foreach_body : {info t : ℕ} → JumpsTo (foreach_next info t) t
  close_body : {info t : ℕ} → JumpsTo (foreach_next_close info t) t
  for_local : {site x t : ℕ} {k : ℤ} → JumpsTo (for_next_incr_local site x k t) t
  for_var : {site x t : ℕ} {k : ℤ} → JumpsTo (for_next_incr_var site x k t) t
  to_continue : {cont brk : ℕ} → JumpsTo (loop_enter cont brk) cont
  to_break : {cont brk : ℕ} → JumpsTo (loop_enter cont brk) brk
  to_step : {info next end : ℕ} → JumpsTo (foreach_start info next end) next
  to_end : {info next end : ℕ} → JumpsTo (foreach_start info next end) end

-- Some instruction of the list jumps there.
pub data JumpedTo (t : ℕ) : List OpCode → Type 0 where
  here : {op : OpCode} {ops : List OpCode} → JumpsTo op t → JumpedTo t (op ∷ ops)
  there : {op : OpCode} {ops : List OpCode} → JumpedTo t ops → JumpedTo t (op ∷ ops)

abbrev pub has : ℕ → List ℕ → Bool
has t [] = false
has t (u ∷ ts) = u == t || has t ts

one : (op : OpCode) (u t : ℕ) → JumpsTo op u → has t (u ∷ []) ≡ true → JumpsTo op t
one op u t j h = let e : u ≡ t = ground arith in subst (JumpsTo op) e j

two :
    (op : OpCode) (u v t : ℕ)
    → JumpsTo op u
    → JumpsTo op v
    → has t (u ∷ v ∷ []) ≡ true
    → JumpsTo op t
two op u v t j k h = elim (Bool-cases (u == t)) [
  | inl e ↦ let e' : u ≡ t = ground arith in subst (JumpsTo op) e' j
  | inr e ↦ let e' : v ≡ t = ground arith in subst (JumpsTo op) e' k
]

same : (t : ℕ) → has t (t ∷ []) ≡ true
same t = ground arith

JumpsTo-of : (op : OpCode) (t : ℕ) → has t (targets_of op) ≡ true → JumpsTo op t
unfolding targets_of
JumpsTo-of (jump u) t h = one (jump u) u t always h
JumpsTo-of (jump_true u) t h = one (jump_true u) u t if_true h
JumpsTo-of (jump_false u) t h = one (jump_false u) u t if_false h
JumpsTo-of (catch_start u) t h = one (catch_start u) u t on_error h
JumpsTo-of (cmp_slot_slot_jump_true a b cc u) t h =
    one (cmp_slot_slot_jump_true a b cc u) u t slot_slot_if_true h
JumpsTo-of (cmp_slot_slot_jump_false a b cc u) t h =
    one (cmp_slot_slot_jump_false a b cc u) u t slot_slot_if_false h
JumpsTo-of (cmp_slot_imm_jump_true a k cc u) t h =
    one (cmp_slot_imm_jump_true a k cc u) u t slot_imm_if_true h
JumpsTo-of (cmp_slot_imm_jump_false a k cc u) t h =
    one (cmp_slot_imm_jump_false a k cc u) u t slot_imm_if_false h
JumpsTo-of (cmp_var_var_jump_true a b cc u) t h =
    one (cmp_var_var_jump_true a b cc u) u t var_var_if_true h
JumpsTo-of (cmp_var_var_jump_false a b cc u) t h =
    one (cmp_var_var_jump_false a b cc u) u t var_var_if_false h
JumpsTo-of (cmp_var_imm_jump_true a k cc u) t h =
    one (cmp_var_imm_jump_true a k cc u) u t var_imm_if_true h
JumpsTo-of (cmp_var_imm_jump_false a k cc u) t h =
    one (cmp_var_imm_jump_false a k cc u) u t var_imm_if_false h
JumpsTo-of (foreach_next info u) t h = one (foreach_next info u) u t foreach_body h
JumpsTo-of (foreach_next_close info u) t h = one (foreach_next_close info u) u t close_body h
JumpsTo-of (for_next_incr_local site x k u) t h =
    one (for_next_incr_local site x k u) u t for_local h
JumpsTo-of (for_next_incr_var site x k u) t h = one (for_next_incr_var site x k u) u t for_var h
JumpsTo-of (loop_enter u v) t h = two (loop_enter u v) u v t to_continue to_break h
JumpsTo-of (foreach_start info u v) t h = two (foreach_start info u v) u v t to_step to_end h
JumpsTo-of op t h = cc

JumpsTo-has : {op : OpCode} {t : ℕ} → JumpsTo op t → has t (targets_of op) ≡ true
unfolding targets_of
JumpsTo-has {t = t} always = same t
JumpsTo-has {t = t} if_true = same t
JumpsTo-has {t = t} if_false = same t
JumpsTo-has {t = t} on_error = same t
JumpsTo-has {t = t} slot_slot_if_true = same t
JumpsTo-has {t = t} slot_slot_if_false = same t
JumpsTo-has {t = t} slot_imm_if_true = same t
JumpsTo-has {t = t} slot_imm_if_false = same t
JumpsTo-has {t = t} var_var_if_true = same t
JumpsTo-has {t = t} var_var_if_false = same t
JumpsTo-has {t = t} var_imm_if_true = same t
JumpsTo-has {t = t} var_imm_if_false = same t
JumpsTo-has {t = t} foreach_body = same t
JumpsTo-has {t = t} close_body = same t
JumpsTo-has {t = t} for_local = same t
JumpsTo-has {t = t} for_var = same t
JumpsTo-has (to_continue {cont = t} {brk = u}) = ground arith
JumpsTo-has (to_break {cont = u} {brk = t}) = ground arith
JumpsTo-has (to_step {next = t} {end = u}) = ground arith
JumpsTo-has (to_end {next = u} {end = t}) = ground arith

-- The list of the code, and the jumps.
unfoldable pub targeted : ℕ → List OpCode → Bool
targeted t [] = false
targeted t (op ∷ ops) = has t (targets_of op) || targeted t ops

pub JumpedTo-of : (t : ℕ) (ops : List OpCode) → targeted t ops ≡ true → JumpedTo t ops
unfolding targeted
JumpedTo-of t [] h = cc
JumpedTo-of t (op ∷ ops) h = elim (Bool-cases (has t (targets_of op))) [
  | inl e ↦ here (JumpsTo-of op t e)
  | inr e ↦ there (JumpedTo-of t ops (ground arith))
]

pub JumpedTo-targeted : {t : ℕ} {ops : List OpCode} → JumpedTo t ops → targeted t ops ≡ true
unfolding targeted
JumpedTo-targeted (here j) = let e = JumpsTo-has j in ground arith
JumpedTo-targeted (there j) = let e = JumpedTo-targeted j in ground arith
