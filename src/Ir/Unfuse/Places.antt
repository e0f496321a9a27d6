-- ===== src/Ir/Unfuse/Places.antt =====
-- Where the expansion of each instruction stands in the unfused unit.
use rtcl.Prelude.{
  ℕ, zero, suc, ◌+◌, ◌-◌, ◌≡◌, refl, ap, ◌∙◌, false, List, [], ◌∷◌, ◌++◌, map, none, some, length,
  length-append, get_elem?, drop, ◌==◌, if_intro, arith, Bool-cases, inl, inr,
}
use rtcl.Ir.OpCode.{
  OpCode, jump, cmp_var_imm, cmp_var_var, cmp_slot_slot_jump_true, cmp_slot_slot_jump_false,
  cmp_slot_imm_jump_true, cmp_slot_imm_jump_false, cmp_var_var_jump_true, cmp_var_var_jump_false,
  cmp_var_imm_jump_true, cmp_var_imm_jump_false, for_next_incr_local, for_next_incr_var,
  foreach_next_close,
}
use rtcl.Ir.Targets.{map_targets, targets_of}
use rtcl.Ir.Unfuse.{
  cmp_op_of, is_fused, any_fused, expansion, expand_ops, heads, remap, remap_targets,
}

unfoldable pub head_of : List OpCode → ℕ → ℕ
head_of ops zero = 0
head_of [] (suc i) = 0
head_of (op ∷ ops) (suc i) = length (expansion op) + head_of ops i

-- The table of `unfused`, with its default.
pub remap_lem :
    (offset n : ℕ) (ops : List OpCode) (t : ℕ)
    → n ≡ offset + length (expand_ops ops)
    → remap (heads offset ops) n t ≡ offset + head_of ops t
unfolding remap heads head_of expand_ops
remap_lem offset n [] zero h = h
remap_lem offset n [] (suc t) h = h
remap_lem offset n (op ∷ ops) zero h = omega arith
remap_lem offset n (op ∷ ops) (suc t) h =
    let l = length-append (expansion op) (expand_ops ops) in
    remap_lem (offset + length (expansion op)) n ops t (omega (arith, h, l)) ∙ omega arith

drop-append {ℓ} :
    {A : Type ℓ} (xs ys : List A) (n : ℕ) → drop (length xs + n) (xs ++ ys) ≡ drop n ys
drop-append [] ys n = let e : 0 + n ≡ n = omega arith in ap (λ k. drop k ys) e
drop-append (x ∷ xs) ys n =
    let e : suc (length xs) + n ≡ suc (length xs + n) = omega arith in
    ap (λ k. drop k (x ∷ (xs ++ ys))) e ∙ drop-append xs ys n

-- The expansion of the instruction at `pc` stands at its head.
pub drop-expand_ops :
    (ops : List OpCode) (pc : ℕ) → drop (head_of ops pc) (expand_ops ops) ≡ expand_ops (drop pc ops)
unfolding head_of expand_ops
drop-expand_ops ops zero = refl
drop-expand_ops [] (suc pc) = refl
drop-expand_ops (op ∷ ops) (suc pc) =
    drop-append (expansion op) (expand_ops ops) (head_of ops pc) ∙ drop-expand_ops ops pc

-- The expansions follow one another.
pub head_of-suc :
    (ops : List OpCode) (pc : ℕ) (op : OpCode)
    → get_elem? ops pc ≡ some op
    → head_of ops (suc pc) ≡ head_of ops pc + length (expansion op)
unfolding head_of
head_of-suc [] pc op h = cc
head_of-suc (x ∷ ops) zero op h = let e : x ≡ op = cc in rw e (omega arith)
head_of-suc (x ∷ ops) (suc pc) op h = omega (arith, head_of-suc ops pc op h)

pub length-expansion : (op : OpCode) → length (expansion op) ≡ suc (length (expansion op) - 1)
unfolding expansion
length-expansion (jump t) = refl
length-expansion op = refl

module _ {ℓ} {A : Type ℓ} where
  pub drop-some :
      (xs : List A) (n : ℕ) (x : A) → get_elem? xs n ≡ some x → drop n xs ≡ x ∷ drop (suc n) xs
  drop-some [] n x h = cc
  drop-some (y ∷ xs) zero x h = let e : y ≡ x = cc in rw e refl
  drop-some (y ∷ xs) (suc n) x h = drop-some xs n x h

  pub drop-none : (xs : List A) (n : ℕ) → get_elem? xs n ≡ none → drop n xs ≡ []
  drop-none [] zero h = refl
  drop-none [] (suc n) h = refl
  drop-none (y ∷ xs) zero h = cc
  drop-none (y ∷ xs) (suc n) h = drop-none xs n h

  pub get_elem?-drop-none : (xs : List A) (n : ℕ) → drop n xs ≡ [] → get_elem? xs n ≡ none
  get_elem?-drop-none [] zero h = refl
  get_elem?-drop-none [] (suc n) h = refl
  get_elem?-drop-none (y ∷ xs) zero h = cc
  get_elem?-drop-none (y ∷ xs) (suc n) h = get_elem?-drop-none xs n h

  pub get_elem?-drop :
      (xs : List A) (n : ℕ) (x : A) (ys : List A)
      → drop n xs ≡ x ∷ ys
      → (get_elem? xs n ≡ some x) × (drop (suc n) xs ≡ ys)
  get_elem?-drop [] zero x ys h = cc
  get_elem?-drop [] (suc n) x ys h = cc
  get_elem?-drop (y ∷ xs) zero x ys h = let h' : y ∷ xs ≡ x ∷ ys = h in (cc, cc)
  get_elem?-drop (y ∷ xs) (suc n) x ys h = get_elem?-drop xs n x ys h

-- Where no superinstruction is left, the two ways to rewrite targets agree.
remap_targets-free :
    (f : ℕ → ℕ) (op : OpCode) → is_fused op ≡ false → remap_targets f op ≡ map_targets f op
unfolding is_fused remap_targets map_targets
remap_targets-free f (cmp_slot_slot_jump_true a b k t) h = cc
remap_targets-free f (cmp_slot_slot_jump_false a b k t) h = cc
remap_targets-free f (cmp_slot_imm_jump_true a b k t) h = cc
remap_targets-free f (cmp_slot_imm_jump_false a b k t) h = cc
remap_targets-free f (cmp_var_var_jump_true a b k t) h = cc
remap_targets-free f (cmp_var_var_jump_false a b k t) h = cc
remap_targets-free f (cmp_var_imm_jump_true a b k t) h = cc
remap_targets-free f (cmp_var_imm_jump_false a b k t) h = cc
remap_targets-free f (for_next_incr_local site x k t) h = cc
remap_targets-free f (for_next_incr_var site x k t) h = cc
remap_targets-free f (foreach_next_close info body) h = cc
remap_targets-free f op h = refl

pub map-remap_targets :
    (f : ℕ → ℕ) (ops : List OpCode)
    → any_fused ops ≡ false
    → map (remap_targets f) ops ≡ map (map_targets f) ops
unfolding any_fused
map-remap_targets f [] h = refl
map-remap_targets f (op ∷ ops) h = elim (Bool-cases (is_fused op)) [
  | inl e ↦ absurd (ground arith)
  | inr e ↦ rw (remap_targets-free f op e, map-remap_targets f ops (rw e at h))
]

-- The targets of the last instruction.
abbrev pub last_targets : List OpCode → List ℕ
last_targets [] = []
last_targets (op ∷ []) = targets_of op
last_targets (op ∷ op' ∷ ops) = last_targets (op' ∷ ops)

targets_of-cmp_op_of : (k : ℕ) → targets_of (cmp_op_of k) ≡ []
unfolding targets_of cmp_op_of
targets_of-cmp_op_of k =
    let P = λ (op : OpCode). targets_of op ≡ [] in
    if_intro P (k == 0) (λ _. refl)
      (λ _.
        if_intro P (k == 1) (λ _. refl)
          (λ _.
            if_intro P (k == 2) (λ _. refl)
              (λ _.
                if_intro P (k == 3) (λ _. refl)
                  (λ _. if_intro P (k == 4) (λ _. refl) (λ _. refl)))))

-- The last instruction of an expansion jumps where the instruction does.
pub last_targets-expansion : (op : OpCode) → last_targets (expansion op) ≡ targets_of op
unfolding expansion targets_of
last_targets-expansion (cmp_var_imm a b k) = targets_of-cmp_op_of k
last_targets-expansion (cmp_var_var a b k) = targets_of-cmp_op_of k
last_targets-expansion op = refl
