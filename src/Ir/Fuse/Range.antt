-- ===== src/Ir/Fuse/Range.antt =====
-- Lemmas on lengths and targets for the windows of `fuse_pairs` (crates/rtcl-ir/src/bytecode.rs).
use rtcl.Prelude.{
  ℕ, zero, suc, ◌+◌, ◌-◌, ◌<◌, ◌≡◌, refl, sym, ap, ◌∙◌, subst, Bool, true, false, ◌&&◌, List, [],
  ◌∷◌, ◌++◌, length, length-append, take, get_elem?, ◌==◌, inl, inr, arith, if_intro,
}
use rtcl.Ir.OpCode.{OpCode, jump, foreach_next, next_mark}
use rtcl.Ir.Targets.{targets_of}
use rtcl.Ir.Strip.Run.{AllLe, TargetsFit}
use rtcl.Ir.Unfuse.{expansion, expand_ops}
use rtcl.Ir.Unfuse.Places.{last_targets, last_targets-expansion, length-expansion}
use rtcl.Ir.Fuse.Window.{
  Fusion, Found, no_window, out_of_range, found, fuse_window, is_body_mark, fuse_trampoline,
}
use rtcl.Ir.Fuse.Sound.{Special, mirrored, dead, to_next, to_mark, to_foreach, Stands}
use rtcl.Ir.Fuse.Whole.{Stands-fuse_window}

last_targets-append :
    (xs : List OpCode) (y : OpCode) (ys : List OpCode)
    → last_targets (xs ++ y ∷ ys) ≡ last_targets (y ∷ ys)
last_targets-append [] y ys = refl
last_targets-append (x ∷ []) y ys = refl
last_targets-append (x ∷ x' ∷ xs) y ys = last_targets-append (x' ∷ xs) y ys

-- A list that is not empty, as its length says.
last_targets-append_long :
    (xs ys : List OpCode) (k : ℕ) → length ys ≡ suc k → last_targets (xs ++ ys) ≡ last_targets ys
last_targets-append_long xs [] k h = absurd (omega (arith, h))
last_targets-append_long xs (y ∷ ys) k h = last_targets-append xs y ys

append_nil : (xs : List OpCode) → xs ++ [] ≡ xs
append_nil [] = refl
append_nil (x ∷ xs) = ap (λ t. x ∷ t) (append_nil xs)

-- The last instruction of an expanded window jumps where the window's last one does.
last_targets-expand_ops : (xs : List OpCode) → last_targets (expand_ops xs) ≡ last_targets xs
unfolding expand_ops
last_targets-expand_ops [] = refl
last_targets-expand_ops (x ∷ []) =
    ap last_targets (append_nil (expansion x)) ∙ last_targets-expansion x
last_targets-expand_ops (x ∷ y ∷ xs) =
    let rest = expand_ops (y ∷ xs) in
    let l = length-append (expansion y) (expand_ops xs) in
    let k : length rest ≡ suc (length rest - 1) = omega (arith, l, length-expansion y) in
    last_targets-append_long (expansion x) rest (length rest - 1) k
    ∙ last_targets-expand_ops (y ∷ xs)

AllLe-last_targets : (n : ℕ) (xs : List OpCode) → TargetsFit n xs → AllLe n (last_targets xs)
AllLe-last_targets n [] h = tt
AllLe-last_targets n (x ∷ []) h = h.0
AllLe-last_targets n (x ∷ y ∷ xs) h = AllLe-last_targets n (y ∷ xs) h.1

TargetsFit-take : (n k : ℕ) (xs : List OpCode) → TargetsFit n xs → TargetsFit n (take k xs)
TargetsFit-take n zero xs h = tt
TargetsFit-take n (suc k) [] h = tt
TargetsFit-take n (suc k) (x ∷ xs) (h, hs) = (h, TargetsFit-take n k xs hs)

abbrev pub is_jump : OpCode → Bool
is_jump (jump t) = true
is_jump op = false

abbrev starts_with_jump : List OpCode → Bool
starts_with_jump [] = false
starts_with_jump (x ∷ xs) = is_jump x

Special-targets :
    {i : ℕ} {all : List OpCode} (w : List OpCode) (op : OpCode)
    → Special i all w op
    → starts_with_jump w ≡ false
    → targets_of op ≡ []
unfolding targets_of
Special-targets _ _ (mirrored e) h = refl
Special-targets _ _ (dead p) h = refl
Special-targets _ _ (to_next to_mark) h = cc
Special-targets _ _ (to_next (to_foreach b)) h = cc

get_elem?-lt : (xs : List OpCode) (k : ℕ) → is_body_mark (get_elem? xs k) ≡ true → k < length xs
get_elem?-lt [] k h = cc
get_elem?-lt (x ∷ xs) zero h = omega arith
get_elem?-lt (x ∷ xs) (suc k) h = omega (arith, get_elem?-lt xs k h)

abbrev Fits : ℕ → Found → Type 0
Fits n no_window = Unit
Fits n out_of_range = Unit
Fits n (found f) = AllLe n (targets_of f.op)

Fits-trampoline :
    (i : ℕ) (all : List OpCode) (t : ℕ) (op : OpCode)
    → Fits (length all) (fuse_trampoline i all t op)
unfolding fuse_trampoline targets_of
Fits-trampoline i all t next_mark = if_intro (Fits (length all)) (t == i + 1) (λ _. tt) (λ _. tt)
Fits-trampoline i all t (foreach_next info body) =
    if_intro (Fits (length all)) (t == i + 1 && is_body_mark (get_elem? all body))
      (λ h. (omega (arith, get_elem?-lt all body (ground arith)), tt)) (λ _. tt)
Fits-trampoline i all t op = tt

Fits-found : (n : ℕ) (o : Found) (f : Fusion) → o ≡ found f → Fits n o → AllLe n (targets_of f.op)
Fits-found n no_window f e h = cc
Fits-found n out_of_range f e h = cc
Fits-found n (found g) f e h =
    let e' : g ≡ f = cc in subst (λ (g : Fusion). AllLe n (targets_of g.op)) e' h

width-suc :
    {free free3 free4 : Bool} {i : ℕ} {all : List OpCode} (w : List OpCode) (f : Fusion)
    → Stands free free3 free4 i all w f
    → (k : ℕ) × (f.width ≡ suc k)
width-suc w f s = elim s.tail [
  | inl (_, e, _) ↦ (1, e)
  | inr (_, inl (e, _)) ↦ (1, e)
  | inr (_, inr (inl (e, _))) ↦ (2, e)
  | inr (_, inr (inr (e, _))) ↦ (3, e)
]

Stands-AllLe :
    {free free3 free4 : Bool} {i : ℕ} {all : List OpCode} (n : ℕ) (first : OpCode)
    (ops : List OpCode) (f : Fusion)
    → is_jump first ≡ false
    → TargetsFit n (first ∷ ops)
    → Stands free free3 free4 i all (first ∷ ops) f
    → AllLe n (targets_of f.op)
Stands-AllLe n first ops f h fit s =
    let w = take f.width (first ∷ ops) in
    elim s.same [
      | inl e ↦
          subst (AllLe n)
            (sym (last_targets-expand_ops w) ∙ ap last_targets e ∙ last_targets-expansion f.op)
            (AllLe-last_targets n w (TargetsFit-take n f.width (first ∷ ops) fit))
      | inr p ↦
          let (k, e) = width-suc (first ∷ ops) f s in
          let j : starts_with_jump w ≡ false = rw e h in
          subst (AllLe n) (sym (Special-targets w f.op p j)) tt
    ]

pub fuse_window-AllLe :
    (free free3 free4 : Bool) (i : ℕ) (all : List OpCode) (first op : OpCode) (ops : List OpCode)
    (f : Fusion)
    → TargetsFit (length all) (first ∷ op ∷ ops)
    → fuse_window free free3 free4 i all first op ops ≡ found f
    → AllLe (length all) (targets_of f.op)
unfolding fuse_window
fuse_window-AllLe free free3 free4 i all (jump t) op ops f fit e =
    Fits-found (length all) (fuse_trampoline i all t op) f e (Fits-trampoline i all t op)
fuse_window-AllLe free free3 free4 i all first op ops f fit e =
    Stands-AllLe (length all) first (op ∷ ops) f refl fit
      (Stands-fuse_window free free3 free4 i all first op ops f e)
