-- ===== src/Ir/Fuse/Sound.antt =====
-- Expansions of the windows that `fuse_pairs` rewrites (crates/rtcl-ir/src/bytecode.rs), and the four kinds
-- of windows that have to be told apart.
use rtcl.Prelude.{
  ℕ, ◌+◌, ◌≡◌, refl, ◌⊎◌, inl, inr, Bool, true, false, List, [], ◌∷◌, Option, some, take, if_intro,
  length, ◌≤◌, get_elem?, arith,
}
use rtcl.Prelude.Int.{ℤ}
use rtcl.Ir.OpCode.{
  OpCode, push_const, push_const_wide, push_empty, push_int, push_float, push_true, push_false, pop,
  load_var, jump, jump_true, jump_false, foreach_next, add, sub, cmp_var_imm, eq, ne, lt, gt, le,
  ge, swap_to_next_mark, foreach_next_close, next_mark, nop, body_mark, body_mark_framed,
}
use rtcl.Ir.Unfuse.{cmp_cc_of, cmp_op_of, expansion, expand_ops}
use rtcl.Ir.Fuse.Window.{
  Fusion, Found, no_window, out_of_range, found, pair_if, cmp_cc_mirror, add_or_compare, before_pop,
  before_sub, third, branch_if, dead_push,
}

-- A push without an effect but the pushed value.
abbrev pub IsPush : OpCode → Type 0
IsPush push_empty = Unit
IsPush push_true = Unit
IsPush push_false = Unit
IsPush (push_int k) = Unit
IsPush (push_float x) = Unit
IsPush (push_const i) = Unit
IsPush (push_const_wide i) = Unit
IsPush op = ⊥

-- The instruction that starts the body of a loop.
abbrev pub IsBodyMark : Option OpCode → Type 0
IsBodyMark o = (o ≡ some body_mark) ⊎ (o ≡ some body_mark_framed)

-- The jumps at `i` to the instruction behind them, in the unit `all`: to the mark of the step of a
-- loop, and to a `foreach` step whose body starts with a mark, which is skipped.
pub data ToNext (i : ℕ) (all : List OpCode) : List OpCode → OpCode → Type 0 where
  to_mark : ToNext i all (jump (i + 1) ∷ next_mark ∷ []) swap_to_next_mark
  to_foreach :
      {info body : ℕ}
      → IsBodyMark (get_elem? all body)
      → ToNext i all
          (jump (i + 1) ∷ foreach_next info body ∷ [])
          (foreach_next_close info (body + 1))

-- The windows that are no expansion: a comparison with the operands swapped, a push that is
-- dropped, and the two jumps to the next instruction.
pub data Special (i : ℕ) (all : List OpCode) : List OpCode → OpCode → Type 0 where
  mirrored :
      {k : ℤ} {b cc : ℕ} {op : OpCode}
      → cmp_cc_of op ≡ some cc
      → Special i all (push_int k ∷ load_var b ∷ op ∷ []) (cmp_var_imm b k (cmp_cc_mirror cc))
  dead : {op : OpCode} → IsPush op → Special i all (op ∷ pop ∷ []) nop
  to_next : {window : List OpCode} {op : OpCode} → ToNext i all window op → Special i all window op

-- The fusion stands for the first instructions of the window: they expand as the superinstruction
-- does, or are special. It takes targets to itself exactly if it is a jump at `i` to the next
-- instruction, and else its tail has no target.
pub record Stands (free free3 free4 : Bool) (i : ℕ) (all window : List OpCode) (f : Fusion)
    : Type 0 where
  pub same :
      (expand_ops (take f.width window) ≡ expansion f.op) ⊎ Special i all (take f.width window) f.op
  pub tail :
      ((f.trampoline ≡ true) × (f.width ≡ 2) × ToNext i all (take f.width window) f.op)
      ⊎ ((f.trampoline ≡ false)
          × ((f.width ≡ 2) × (free ≡ true)
              ⊎ ((f.width ≡ 3) × (free3 ≡ true) ⊎ (f.width ≡ 4) × (free4 ≡ true))))

-- An index behind the window is read only where the tests of its tail say that it is there.
abbrev pub Sound : Bool → Bool → Bool → ℕ → List OpCode → List OpCode → Found → Type 0
Sound free free3 free4 i all window no_window = Unit
Sound free free3 free4 i all window out_of_range =
    ((free3 ≡ true) × (length window ≤ 2)) ⊎ ((free4 ≡ true) × (length window ≤ 3))
Sound free free3 free4 i all window (found f) = Stands free free3 free4 i all window f

module _ (free free3 free4 : Bool) (i : ℕ) (all : List OpCode) where
  pub Sound-pair :
      (op first second : OpCode) (ops : List OpCode)
      → expand_ops (first ∷ second ∷ []) ≡ expansion op
      → Sound free free3 free4 i all (first ∷ second ∷ ops) (pair_if free op)
  Sound-pair op first second ops h =
      if_intro (Sound free free3 free4 i all (first ∷ second ∷ ops)) free
        (λ e. record { same = inl h; tail = inr (refl, inl (refl, e)) }) (λ _. tt)

  pub Sound-dead :
      (first op : OpCode) (ops : List OpCode)
      → IsPush first
      → Sound free free3 free4 i all (first ∷ op ∷ ops) (dead_push free op)
  Sound-dead first pop ops h =
      if_intro (Sound free free3 free4 i all (first ∷ pop ∷ ops)) free
        (λ e. record { same = inr (dead h); tail = inr (refl, inl (refl, e)) }) (λ _. tt)
  Sound-dead first op ops h = tt

  pub Sound-branch_if :
      (if_true if_false : ℕ → OpCode) (first op : OpCode) (ops : List OpCode)
      → ((t : ℕ) → expand_ops (first ∷ jump_true t ∷ []) ≡ expansion (if_true t))
      → ((t : ℕ) → expand_ops (first ∷ jump_false t ∷ []) ≡ expansion (if_false t))
      → Sound free free3 free4 i all (first ∷ op ∷ ops) (branch_if free if_true if_false op)
  Sound-branch_if f g first (jump_true t) ops h k = Sound-pair (f t) first (jump_true t) ops (h t)
  Sound-branch_if f g first (jump_false t) ops h k = Sound-pair (g t) first (jump_false t) ops (k t)
  Sound-branch_if f g first op ops h k = tt

  -- A window of three, if its third instruction allows it.
  pub Sound-third :
      (f : OpCode → Found) (first second : OpCode) (ops : List OpCode)
      → ((op : OpCode) (rest : List OpCode)
          → free3 ≡ true
          → Sound free free3 free4 i all (first ∷ second ∷ op ∷ rest) (f op))
      → Sound free free3 free4 i all (first ∷ second ∷ ops) (third free3 f ops)
  Sound-third f first second [] h =
      if_intro (Sound free free3 free4 i all (first ∷ second ∷ [])) free3
        (λ e. inl (e, omega arith)) (λ _. tt)
  Sound-third f first second (op ∷ ops) h =
      if_intro (Sound free free3 free4 i all (first ∷ second ∷ op ∷ ops)) free3 (h op ops) (λ _. tt)

  pub Sound-add_or_compare :
      (sum : OpCode) (f : ℕ → OpCode) (first second op : OpCode) (rest : List OpCode)
      → free3 ≡ true
      → expand_ops (first ∷ second ∷ add ∷ []) ≡ expansion sum
      → ((cc : ℕ) (o : OpCode)
          → o ≡ cmp_op_of cc
          → expansion o ≡ o ∷ []
          → expand_ops (first ∷ second ∷ o ∷ []) ≡ expansion (f cc))
      → Sound free free3 free4 i all (first ∷ second ∷ op ∷ rest) (add_or_compare sum f op)
  unfolding add_or_compare cmp_op_of expansion
  Sound-add_or_compare sum f first second add rest e s h = record {
    same = inl s;
    tail = inr (refl, inr (inl (refl, e)));
  }
  Sound-add_or_compare sum f first second lt rest e s h = record {
    same = inl (h 0 lt refl refl);
    tail = inr (refl, inr (inl (refl, e)));
  }
  Sound-add_or_compare sum f first second gt rest e s h = record {
    same = inl (h 1 gt refl refl);
    tail = inr (refl, inr (inl (refl, e)));
  }
  Sound-add_or_compare sum f first second le rest e s h = record {
    same = inl (h 2 le refl refl);
    tail = inr (refl, inr (inl (refl, e)));
  }
  Sound-add_or_compare sum f first second ge rest e s h = record {
    same = inl (h 3 ge refl refl);
    tail = inr (refl, inr (inl (refl, e)));
  }
  Sound-add_or_compare sum f first second eq rest e s h = record {
    same = inl (h 4 eq refl refl);
    tail = inr (refl, inr (inl (refl, e)));
  }
  Sound-add_or_compare sum f first second ne rest e s h = record {
    same = inl (h 5 ne refl refl);
    tail = inr (refl, inr (inl (refl, e)));
  }
  Sound-add_or_compare sum f first second op rest e s h = tt

  pub Sound-before_pop :
      (op' first second op : OpCode) (rest : List OpCode)
      → free3 ≡ true
      → expand_ops (first ∷ second ∷ pop ∷ []) ≡ expansion op'
      → Sound free free3 free4 i all (first ∷ second ∷ op ∷ rest) (before_pop op' op)
  unfolding before_pop
  Sound-before_pop op' first second pop rest e h = record {
    same = inl h;
    tail = inr (refl, inr (inl (refl, e)));
  }
  Sound-before_pop op' first second op rest e h = tt

  pub Sound-before_sub :
      (op' first second op : OpCode) (rest : List OpCode)
      → free3 ≡ true
      → expand_ops (first ∷ second ∷ sub ∷ []) ≡ expansion op'
      → Sound free free3 free4 i all (first ∷ second ∷ op ∷ rest) (before_sub op' op)
  unfolding before_sub
  Sound-before_sub op' first second sub rest e h = record {
    same = inl h;
    tail = inr (refl, inr (inl (refl, e)));
  }
  Sound-before_sub op' first second op rest e h = tt
