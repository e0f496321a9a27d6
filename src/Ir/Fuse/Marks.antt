-- ===== src/Ir/Fuse/Marks.antt =====
-- The table of jump targets, and the windows that it lets `fuse_pairs` replace.
use rtcl.Prelude.{
  ℕ, zero, suc, ◌+◌, ◌≡◌, ◌≤◌, refl, ap, ◌∙◌, inl, inr, Bool, true, false, ◌&&◌, ◌||◌, not, List,
  [], ◌∷◌, ◌++◌, take, length, ◌⊎◌, ◌↔◌, ◌==◌, ltb, leb, arith,
}
use rtcl.Ir.OpCode.{OpCode}
use rtcl.Ir.Targets.{targets_of}
use rtcl.Ir.Jumps.{JumpedTo, has, targeted, JumpedTo-of, JumpedTo-targeted}
use rtcl.Ir.Fuse.{
  all_false, mark, mark_all, mark_targets, collect_jump_targets, is_target, tail_free, window_at,
}
use rtcl.Ir.Fuse.Window.{Fusion, found}
use rtcl.Ir.Fuse.Sound.{ToNext, Stands}
use rtcl.Ir.Fuse.Whole.{Stands-fuse_window}

length-mark : (t : ℕ) (marks : List Bool) → length (mark t marks) ≡ length marks
unfolding mark
length-mark t [] = refl
length-mark zero (b ∷ marks) = refl
length-mark (suc t) (b ∷ marks) = ap suc (length-mark t marks)

length-mark_all : (ts : List ℕ) (marks : List Bool) → length (mark_all ts marks) ≡ length marks
unfolding mark_all
length-mark_all [] marks = refl
length-mark_all (t ∷ ts) marks = length-mark_all ts (mark t marks) ∙ length-mark t marks

is_target-mark :
    (t : ℕ) (marks : List Bool) (j : ℕ)
    → is_target (mark t marks) j ≡ (t == j && ltb j (length marks)) || is_target marks j
unfolding mark is_target
is_target-mark t [] j = ground arith
is_target-mark zero (b ∷ marks) zero = ground arith
is_target-mark zero (b ∷ marks) (suc j) = ground arith
is_target-mark (suc t) (b ∷ marks) zero = ground arith
is_target-mark (suc t) (b ∷ marks) (suc j) = ground (arith, is_target-mark t marks j)

is_target-mark_all :
    (ts : List ℕ) (marks : List Bool) (j : ℕ)
    → is_target (mark_all ts marks) j ≡ (has j ts && ltb j (length marks)) || is_target marks j
unfolding mark_all
is_target-mark_all [] marks j = refl
is_target-mark_all (t ∷ ts) marks j =
    ground
      (arith, is_target-mark_all ts (mark t marks) j, is_target-mark t marks j, length-mark t marks)

is_target-mark_targets :
    (ops : List OpCode) (marks : List Bool) (j : ℕ)
    → is_target (mark_targets ops marks) j
      ≡ (targeted j ops && ltb j (length marks)) || is_target marks j
unfolding mark_targets targeted
is_target-mark_targets [] marks j = refl
is_target-mark_targets (op ∷ ops) marks j = ground (
  arith,
  is_target-mark_targets ops (mark_all (targets_of op) marks) j,
  is_target-mark_all (targets_of op) marks j,
  length-mark_all (targets_of op) marks,
)

length-all_false : (n : ℕ) → length (all_false n) ≡ n
length-all_false zero = refl
length-all_false (suc n) = ap suc (length-all_false n)

is_target-all_false : (n j : ℕ) → is_target (all_false n) j ≡ false
unfolding is_target
is_target-all_false zero j = refl
is_target-all_false (suc n) zero = refl
is_target-all_false (suc n) (suc j) = is_target-all_false n j

is_target-targeted :
    (ops : List OpCode) (j : ℕ)
    → is_target (collect_jump_targets ops) j ≡ (targeted j ops && leb j (length ops))
unfolding collect_jump_targets
is_target-targeted ops j =
    let n = length ops + 1 in
    ground (
      arith,
      is_target-mark_targets ops (all_false n) j,
      length-all_false n,
      is_target-all_false n j,
    )

-- The table marks exactly the indices, up to the end of the unit, that some instruction can send
-- control to: a jump, a branch, an error handler, or an end or a step of a loop.
pub is_target-collect_jump_targets :
    (ops : List OpCode) (j : ℕ)
    → (is_target (collect_jump_targets ops) j ≡ true) ↔ (JumpedTo j ops × (j ≤ length ops))
is_target-collect_jump_targets ops j =
    let e = is_target-targeted ops j in
    (
      λ h. (JumpedTo-of j ops (ground arith), ground arith),
      λ (k, b). let h = JumpedTo-targeted k in ground arith,
    )

-- Inside a window of this width, after its head, nothing is targeted.
abbrev pub Untargeted : List OpCode → ℕ → ℕ → Type 0
Untargeted all i zero = Unit
Untargeted all i (suc zero) = Unit
Untargeted all i (suc (suc w)) = Untargeted all i (suc w) × ¬ JumpedTo (i + suc w) all

module _ (all : List OpCode) (i : ℕ) where
  untargeted :
      (j : ℕ) → j ≤ length all → is_target (collect_jump_targets all) j ≡ false → ¬ JumpedTo j all
  untargeted j b h k =
      let e = is_target-targeted all j in let t = JumpedTo-targeted k in ground arith

  tail_free-Untargeted :
      (w : ℕ) → tail_free (collect_jump_targets all) (length all) i w ≡ true → Untargeted all i w
  unfolding tail_free
  tail_free-Untargeted zero h = tt
  tail_free-Untargeted (suc zero) h = tt
  tail_free-Untargeted (suc (suc w)) h = (
    tail_free-Untargeted (suc w) (ground arith),
    untargeted (i + suc w) (ground arith) (ground arith),
  )

  -- The two kinds of windows: nothing jumps into the tail, or a jump to the next instruction.
  abbrev pub Replaces : List OpCode → List OpCode → Fusion → Type 0
  Replaces unit window f =
      ((f.trampoline ≡ false) × Untargeted all i f.width)
      ⊎ ((f.trampoline ≡ true) × (f.width ≡ 2) × ToNext i unit (take f.width window) f.op)

  Stands-Replaces :
      (unit window : List OpCode) (f : Fusion)
      → i + 1 ≤ length all
      → Stands
          (not (is_target (collect_jump_targets all) (i + 1)))
          (tail_free (collect_jump_targets all) (length all) i 3)
          (tail_free (collect_jump_targets all) (length all) i 4)
          i
          unit
          window
          f
      → Replaces unit window f
  Stands-Replaces unit window f b s = elim s.tail [
    | inl t ↦ inr t
    | inr (n, inl (w, free)) ↦ inl (n, rw w (tt, untargeted (i + 1) b (ground arith)))
    | inr (n, inr (inl (w, free))) ↦ inl (n, rw w (tail_free-Untargeted 3 free))
    | inr (n, inr (inr (w, free))) ↦ inl (n, rw w (tail_free-Untargeted 4 free))
  ]

-- Where the loop of `fuse_pairs` replaces the window at `i`, no instruction of the unit can send
-- control into the window's tail, unless the window is a jump to the instruction behind it, a mark
-- of a step or a `foreach` step with a marked body; exactly then the loop keeps `i` for retargeting.
pub Untargeted-window_at :
    (all : List OpCode) (i : ℕ) (done : List OpCode) (op : OpCode) (ops : List OpCode) (f : Fusion)
    → i + 1 ≤ length all
    → window_at (collect_jump_targets all) (length all) i done op ops ≡ found f
    → ((f.trampoline ≡ false) × Untargeted all i f.width)
      ⊎ ((f.trampoline ≡ true)
          × (f.width ≡ 2)
          × ToNext i (done ++ op ∷ ops) (take f.width (op ∷ ops)) f.op)
Untargeted-window_at all i done op [] f b h = cc
Untargeted-window_at all i done op (op' ∷ ops) f b h =
    Stands-Replaces all i (done ++ op ∷ op' ∷ ops) (op ∷ op' ∷ ops) f b
      (Stands-fuse_window _ _ _ i (done ++ op ∷ op' ∷ ops) op op' ops f h)
