-- ===== src/Ir/Fuse/Keeps.antt =====
-- Lemmas on lengths and targets for `fuse_pairs` as a whole (crates/rtcl-ir/src/bytecode.rs).
use rtcl.Prelude.{
  ℕ, zero, suc, ◌+◌, ◌-◌, ◌≤◌, ◌≡◌, refl, sym, ap, ◌∙◌, subst, Bool, true, false, List, [], ◌∷◌,
  ◌++◌, map, Option, some, length, length-append, ◌==◌, ltb, ◌⊎◌, ◌<◌, inl, inr, arith, if_intro,
  not,
}
use rtcl.Ir.OpCode.{OpCode, nop}
use rtcl.Ir.Targets.{map_targets, targets_of, targets_of-map_targets}
use rtcl.Ir.ByteCode.{ByteCode}
use rtcl.Ir.Strip.Run.{AllLe, TargetsFit}
use rtcl.Ir.Strip.Whole.{AllLe-map}
use rtcl.Ir.Fuse.{
  Fused, keep, replace, window_at, fuse_from, retarget, collect_jump_targets, is_target, tail_free,
  retargeted, fuse_pairs,
}
use rtcl.Ir.Fuse.Window.{Fusion, Found, no_window, out_of_range, found}
use rtcl.Ir.Fuse.Sound.{Sound}
use rtcl.Ir.Fuse.Whole.{Sound-fuse_window}
use rtcl.Ir.Fuse.Range.{fuse_window-AllLe}

TargetsFit-append :
    (n : ℕ) (xs ys : List OpCode) → TargetsFit n xs → TargetsFit n ys → TargetsFit n (xs ++ ys)
TargetsFit-append n [] ys h g = g
TargetsFit-append n (x ∷ xs) ys (h, hs) g = (h, TargetsFit-append n xs ys hs g)

pub length-snoc : (xs : List OpCode) (x : OpCode) → length (xs ++ x ∷ []) ≡ suc (length xs)
length-snoc xs x = omega (arith, length-append xs (x ∷ []))

-- The tests of a tail say that the window lies within the unit.
tail_free-within :
    (marks : List Bool) (len i w : ℕ) → tail_free marks len i (suc (suc w)) ≡ true → i + suc w < len
unfolding tail_free
tail_free-within marks len i w h = ground arith

-- No window is read behind the end of the unit.
window_at-in_range :
    (marks : List Bool) (i : ℕ) (done : List OpCode) (op : OpCode) (ops : List OpCode)
    → ¬ (window_at marks (i + suc (length ops)) i done op ops ≡ out_of_range)
window_at-in_range marks i done op [] e = cc
window_at-in_range marks i done op (op' ∷ ops) e =
    let len = i + suc (length (op' ∷ ops)) in
    let all = done ++ op ∷ op' ∷ ops in
    let s =
      Sound-fuse_window (not (is_target marks (i + 1))) (tail_free marks len i 3)
        (tail_free marks len i 4) i all op op' ops in
    let s' : Sound (not (is_target marks (i + 1))) (tail_free marks len i 3)
        (tail_free marks len i 4) i all (op ∷ op' ∷ ops) out_of_range =
      subst (Sound _ _ _ i all (op ∷ op' ∷ ops)) e s in
    elim s' [
      | inl (h, l) ↦ absurd (omega (arith, l, tail_free-within marks len i 1 h))
      | inr (h, l) ↦ absurd (omega (arith, l, tail_free-within marks len i 2 h))
    ]

pub Found-cases :
    (o : Found) → (o ≡ no_window) ⊎ ((o ≡ out_of_range) ⊎ ((g : Fusion) × (o ≡ found g)))
Found-cases no_window = inl refl
Found-cases out_of_range = inr (inl refl)
Found-cases (found g) = inr (inr (g, refl))

module _ (marks : List Bool) (n : ℕ) where
  window_at-AllLe :
      (i : ℕ) (done : List OpCode) (op : OpCode) (ops : List OpCode) (g : Fusion)
      → length done + suc (length ops) ≡ n
      → TargetsFit n (op ∷ ops)
      → window_at marks n i done op ops ≡ found g
      → AllLe n (targets_of g.op)
  window_at-AllLe i done op [] g l fit e = cc
  window_at-AllLe i done op (op' ∷ ops) g l fit e =
      let all = done ++ op ∷ op' ∷ ops in
      let same : length all ≡ n = omega (arith, l, length-append done (op ∷ op' ∷ ops)) in
      subst (λ k. AllLe k (targets_of g.op)) same
        (fuse_window-AllLe (not (is_target marks (i + 1))) (tail_free marks n i 3)
          (tail_free marks n i 4) i all op op' ops g
          (subst (λ k. TargetsFit k (op ∷ op' ∷ ops)) (sym same) fit) e)

  module _ (i : ℕ) (f : Fused) (op : OpCode) (ops : List OpCode) where
    pub fuse_from-keep :
        window_at marks n i f.done op ops ≡ no_window
        → fuse_from marks n 0 i f (op ∷ ops) ≡ fuse_from marks n 0 (suc i) (keep op f) ops
    unfolding fuse_from
    fuse_from-keep e = ground arith

    pub fuse_from-replace :
        (g : Fusion)
        → window_at marks n i f.done op ops ≡ found g
        → fuse_from marks n 0 i f (op ∷ ops)
          ≡ fuse_from marks n (g.width - 1) (suc i) (replace i g f) ops
    unfolding fuse_from
    fuse_from-replace g e = ground arith

    pub window_at-cases :
        i + suc (length ops) ≡ n
        → (window_at marks n i f.done op ops ≡ no_window)
          ⊎ ((g : Fusion) × (window_at marks n i f.done op ops ≡ found g))
    window_at-cases l = elim (Found-cases (window_at marks n i f.done op ops)) [
      | inl e ↦ inl e
      | inr (inl e) ↦ absurd (
          window_at-in_range marks i f.done op ops
            (subst (λ k. window_at marks k i f.done op ops ≡ out_of_range) (sym l) e))
      | inr (inr p) ↦ inr p
    ]

  -- What the loop has done and what it has left are the whole unit.
  record Within (i : ℕ) (f : Fused) (ops : List OpCode) : Type 0 where
    index : length f.done ≡ i
    whole : i + length ops ≡ n
    done_fits : TargetsFit n f.done
    rest_fits : TargetsFit n ops

  -- The loop ends, within the unit.
  abbrev Ends : Option Fused → Type 0
  Ends o = (f : Fused) × (o ≡ some f) × (length f.done ≡ n) × TargetsFit n f.done

  fuse_from-Within :
      (skip i : ℕ) (f : Fused) (ops : List OpCode)
      → Within i f ops
      → Ends (fuse_from marks n skip i f ops)
  unfolding fuse_from targets_of
  fuse_from-Within zero i f [] w = (f, refl, omega (arith, w.index, w.whole), w.done_fits)
  fuse_from-Within (suc skip) i f [] w = (f, refl, omega (arith, w.index, w.whole), w.done_fits)
  fuse_from-Within (suc skip) i f (op ∷ ops) w =
      fuse_from-Within skip (suc i) (keep nop f) ops (record {
        index = omega (arith, w.index, length-snoc f.done nop);
        whole = omega (arith, w.whole);
        done_fits = TargetsFit-append n f.done (nop ∷ []) w.done_fits (tt, tt);
        rest_fits = w.rest_fits.1;
      })
  fuse_from-Within zero i f (op ∷ ops) w = elim (window_at-cases i f op ops w.whole) [
    | inl e ↦ subst Ends (sym (fuse_from-keep i f op ops e)) (
        fuse_from-Within zero (suc i) (keep op f) ops (record {
          index = omega (arith, w.index, length-snoc f.done op);
          whole = omega (arith, w.whole);
          done_fits = TargetsFit-append n f.done (op ∷ []) w.done_fits (w.rest_fits.0, tt);
          rest_fits = w.rest_fits.1;
        }))
    | inr (g, e) ↦
        let l : length f.done + suc (length ops) ≡ n = omega (arith, w.index, w.whole) in
        subst Ends (sym (fuse_from-replace i f op ops g e)) (
          fuse_from-Within (g.width - 1) (suc i) (replace i g f) ops (record {
            index = omega (arith, w.index, length-snoc f.done g.op);
            whole = omega (arith, w.whole);
            done_fits =
                TargetsFit-append n f.done (g.op ∷ []) w.done_fits
                  (window_at-AllLe i f.done op ops g l w.rest_fits e, tt);
            rest_fits = w.rest_fits.1;
          }))
  ]

retarget_bound : (is : List ℕ) (t : ℕ) → retarget is t ≤ t
unfolding retarget
retarget_bound [] t = omega arith
retarget_bound (i ∷ is) t =
    if_intro (λ (u : ℕ). retarget is u ≤ t) (t == i + 1) {x = i} {y = t}
      (λ e. omega (arith, retarget_bound is i, below e)) (λ _. retarget_bound is t)
  where
    below : (t == i + 1) ≡ true → i ≤ t
    below e = ground arith

TargetsFit-map :
    (f : ℕ → ℕ) (n : ℕ) (xs : List OpCode)
    → ((t : ℕ) → f t ≤ t)
    → TargetsFit n xs
    → TargetsFit n (map (map_targets f) xs)
TargetsFit-map f n [] b h = tt
TargetsFit-map f n (x ∷ xs) b (h, hs) = (
  subst (AllLe n) (sym (targets_of-map_targets f x))
      (AllLe-map f n n (targets_of x) (λ t l. omega (arith, b t, l)) h),
  TargetsFit-map f n xs b hs,
)

length-map : (f : OpCode → OpCode) (xs : List OpCode) → length (map f xs) ≡ length xs
length-map f [] = refl
length-map f (x ∷ xs) = ap suc (length-map f xs)

-- Targets within the unit or at its end.
abbrev pub InUnit : ByteCode → Type 0
InUnit code = TargetsFit (length code.ops) code.ops

-- The fusion returns a unit of the same length with the same lines.
abbrev pub Fuses : ByteCode → Option (Bool × ByteCode) → Type 0
Fuses code o =
    (r : Bool × ByteCode) × (o ≡ some r)
    × (length r.1.ops ≡ length code.ops)
    × (r.1.line_map ≡ code.line_map)
    × InUnit r.1

pub fuse_pairs-InUnit : (code : ByteCode) → InUnit code → Fuses code (fuse_pairs code)
unfolding fuse_pairs
fuse_pairs-InUnit code h =
    let n = length code.ops in
    let start : Fused = record { done = []; retargets = []; changed = false } in
    let marks = collect_jump_targets code.ops in
    let (f, e, m, fits) =
      fuse_from-Within marks n 0 0 start code.ops
        (record { index = refl; whole = omega arith; done_fits = tt; rest_fits = h }) in
    let ops = map (map_targets (retarget f.retargets)) f.done in
    let l : length ops ≡ n = length-map _ f.done ∙ m in
    let fits' : TargetsFit (length ops) ops =
      subst (λ k. TargetsFit k ops) (sym l)
        (TargetsFit-map (retarget f.retargets) n f.done (retarget_bound f.retargets) fits) in
    if_intro (Fuses code) (ltb n 2) {x = some (false, code)}
      {y = retargeted code (fuse_from marks n 0 0 start code.ops)}
      (λ _. ((false, code), refl, refl, refl, h))
      (λ _.
        subst (λ o. Fuses code (retargeted code o)) (sym e)
          ((f.changed, record code { ops = ops }), refl, l, refl, fits'))
