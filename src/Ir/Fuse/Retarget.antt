-- ===== src/Ir/Fuse/Retarget.antt =====
-- The jumps of `fuse_pairs` to the next instruction (crates/rtcl-ir/src/bytecode.rs), and its pass over
-- `retargets`.
use rtcl.Prelude.{
  ℕ, zero, suc, ◌+◌, ◌-◌, ◌≤◌, ◌≡◌, ◌≢◌, ◌⊎◌, refl, sym, ap, ◌∙◌, subst, Bool, true, false, not,
  ◌&&◌, List, [], ◌∷◌, ◌++◌, append_assoc, map, Option, none, some, length, get_elem?, ◌==◌, ltb,
  inl, inr, arith, if_intro, Bool-cases, if◌then◌else◌,
}
use mathlib.Core.Option.{some-injective}
use rtcl.Ir.OpCode.{OpCode, nop, jump, next_mark, foreach_next}
use rtcl.Ir.Targets.{map_targets}
use rtcl.Ir.Jumps.{JumpedTo, JumpedTo-targeted}
use rtcl.Ir.ByteCode.{ByteCode}
use rtcl.Ir.Fuse.{
  Fused, keep, replace, window_at, fuse_from, retarget, retargeted, collect_jump_targets, is_target,
  tail_free, fuse_pairs,
}
use rtcl.Ir.Fuse.Window.{
  Fusion, Found, no_window, out_of_range, found, is_body_mark, fuse_trampoline, fuse_window,
}
use rtcl.Ir.Fuse.Sound.{Stands}
use rtcl.Ir.Fuse.Whole.{Stands-fuse_window}
use rtcl.Ir.Fuse.Range.{is_jump}
use rtcl.Ir.Fuse.Spaced.{
  Among, Early, Spaced, Early-more, Early-snoc, Spaced-snoc, Among-left, Among-last, retarget-Among,
  targeted-map, get_elem?-bound, get_elem?-snoc, get_elem?-map,
}
use rtcl.Ir.Fuse.Keeps.{Found-cases, fuse_from-keep, fuse_from-replace, length-snoc}

-- What the loop has made of the jumps before: they are kept, or lie in the tail of a window, or are
-- kept for retargeting.
abbrev Traces : List OpCode → List OpCode → List ℕ → Type 0
Traces before after is =
    (k t : ℕ) (op : OpCode)
    → get_elem? before k ≡ some (jump t)
    → get_elem? after k ≡ some op
    → (op ≡ nop) ⊎ ((op ≡ jump t) ⊎ Among k is)

Traces-snoc :
    (before after : List OpCode) (is js : List ℕ) (old new : OpCode)
    → length after ≡ length before
    → Traces before after is
    → ((k : ℕ) → Among k is → Among k js)
    → ((t : ℕ) → old ≡ jump t → (new ≡ nop) ⊎ ((new ≡ jump t) ⊎ Among (length before) js))
    → Traces (before ++ old ∷ []) (after ++ new ∷ []) js
Traces-snoc before after is js old new l kept more h k t op e q =
    elim (get_elem?-snoc before old k (jump t) e) [
      | inl e' ↦ elim (get_elem?-snoc after new k op q) [
        | inl q' ↦ elim (kept k t op e' q') [
          | inl z ↦ inl z
          | inr (inl z) ↦ inr (inl z)
          | inr (inr z) ↦ inr (inr (more k z))
        ]
        | inr (q', _) ↦ absurd (omega (arith, get_elem?-bound before k (jump t) e', q', l))
      ]
      | inr (e', o) ↦ elim (get_elem?-snoc after new k op q) [
        | inl q' ↦ absurd (omega (arith, get_elem?-bound after k op q', e', l))
        | inr (_, w) ↦
            subst (λ x. (op ≡ nop) ⊎ ((op ≡ jump t) ⊎ Among x js)) (sym e')
              (subst (λ x. (x ≡ nop) ⊎ ((x ≡ jump t) ⊎ Among (length before) js)) w (h t o))
      ]
    ]

-- What replaces a jump takes its targets to itself, and is a window of two.
abbrev Trampoline : Found → Type 0
Trampoline no_window = Unit
Trampoline out_of_range = Unit
Trampoline (found g) = g.trampoline ≡ true

Trampoline-jump :
    (i : ℕ) (all : List OpCode) (t : ℕ) (op : OpCode) → Trampoline (fuse_trampoline i all t op)
unfolding fuse_trampoline
Trampoline-jump i all t next_mark = if_intro Trampoline (t == i + 1) (λ _. refl) (λ _. tt)
Trampoline-jump i all t (foreach_next info body) =
    if_intro Trampoline (t == i + 1 && is_body_mark (get_elem? all body)) (λ _. refl) (λ _. tt)
Trampoline-jump i all t op = tt

Trampoline-found : (o : Found) (g : Fusion) → o ≡ found g → Trampoline o → g.trampoline ≡ true
Trampoline-found no_window g e h = cc
Trampoline-found out_of_range g e h = cc
Trampoline-found (found f) g e h =
    let e' : f ≡ g = cc in subst (λ (x : Fusion). x.trampoline ≡ true) e' h

Stands-width :
    {free free3 free4 : Bool} {i : ℕ} {all : List OpCode} (window : List OpCode) (g : Fusion)
    → Stands free free3 free4 i all window g
    → g.trampoline ≡ true
    → g.width ≡ 2
Stands-width window g s h = elim s.tail [
  | inl (_, w, _) ↦ w
  | inr (n, _) ↦ let x : true ≡ false = sym h ∙ n in cc
]

append_nil : (xs : List OpCode) → xs ++ [] ≡ xs
append_nil [] = refl
append_nil (x ∷ xs) = ap (λ t. x ∷ t) (append_nil xs)

module _ (marks : List Bool) (n i : ℕ) (done : List OpCode) where
  window_at-jump :
      (op : OpCode) (ops : List OpCode) (g : Fusion) (t : ℕ)
      → window_at marks n i done op ops ≡ found g
      → op ≡ jump t
      → g.trampoline ≡ true
  unfolding fuse_window
  window_at-jump op [] g t h e = cc
  window_at-jump op (op' ∷ ops) g t h e =
      let h' = subst (λ o. window_at marks n i done o (op' ∷ ops) ≡ found g) e h in
      Trampoline-found (fuse_trampoline i (done ++ jump t ∷ op' ∷ ops) t op') g h'
        (Trampoline-jump i (done ++ jump t ∷ op' ∷ ops) t op')

  window_at-width :
      (op : OpCode) (ops : List OpCode) (g : Fusion)
      → window_at marks n i done op ops ≡ found g
      → g.trampoline ≡ true
      → g.width ≡ 2
  window_at-width op [] g h e = cc
  window_at-width op (op' ∷ ops) g h e =
      Stands-width (op ∷ op' ∷ ops) g
        (Stands-fuse_window (not (is_target marks (i + 1))) (tail_free marks n i 3)
          (tail_free marks n i 4) i (done ++ op ∷ op' ∷ ops) op op' ops g h)
        e

-- The indices kept for retargeting, with a window at `i`.
abbrev kept_indices : Bool → List ℕ → ℕ → List ℕ
kept_indices b is i = if b then is ++ i ∷ [] else is

kept_indices-Early :
    (b : Bool) (is : List ℕ) (i m : ℕ)
    → (b ≡ true → i + 2 ≤ m)
    → i ≤ m
    → Early i is
    → Early m (kept_indices b is i)
kept_indices-Early true is i m h l e = Early-snoc m i is (h refl) (Early-more i m is l e)
kept_indices-Early false is i m h l e = Early-more i m is l e

kept_indices-Spaced :
    (b : Bool) (is : List ℕ) (i : ℕ) → Early i is → Spaced is → Spaced (kept_indices b is i)
kept_indices-Spaced true is i e s = Spaced-snoc i is e s
kept_indices-Spaced false is i e s = s

kept_indices-Among : (b : Bool) (is : List ℕ) (i k : ℕ) → Among k is → Among k (kept_indices b is i)
kept_indices-Among true is i k a = Among-left (i ∷ []) a
kept_indices-Among false is i k a = a

kept_indices-here : (b : Bool) (is : List ℕ) (i : ℕ) → b ≡ true → Among i (kept_indices b is i)
kept_indices-here true is i h = Among-last i is
kept_indices-here false is i h = cc

module _ (marks : List Bool) (n : ℕ) (whole : List OpCode) where
  record Traced (skip i : ℕ) (f : Fused) (before ops : List OpCode) : Type 0 where
    index : length f.done ≡ i
    place : length before ≡ i
    parts : before ++ ops ≡ whole
    early : Early (i + skip) f.retargets
    spaced : Spaced f.retargets
    traces : Traces before f.done f.retargets

  abbrev TracedEnd : Fused → Type 0
  TracedEnd f = Spaced f.retargets × Traces whole f.done f.retargets

  at_end_of_unit :
      (skip i : ℕ) (f r : Fused) (before : List OpCode)
      → Traced skip i f before []
      → some f ≡ some r
      → TracedEnd r
  at_end_of_unit skip i f r before w h =
      let p = sym (append_nil before) ∙ w.parts in
      subst TracedEnd (some-injective f r h)
        (w.spaced, subst (λ b. Traces b f.done f.retargets) p w.traces)

  -- An instruction that is no start of a window.
  Traced-keep :
      (skip skip' i : ℕ) (f : Fused) (before ops : List OpCode) (old new : OpCode)
      → i + skip ≤ suc i + skip'
      → ((t : ℕ) → old ≡ jump t → (new ≡ nop) ⊎ (new ≡ jump t))
      → Traced skip i f before (old ∷ ops)
      → Traced skip' (suc i) (keep new f) (before ++ old ∷ []) ops
  Traced-keep skip skip' i f before ops old new l h w = record {
    index = omega (arith, w.index, length-snoc f.done new);
    place = omega (arith, w.place, length-snoc before old);
    parts = append_assoc before (old ∷ []) ops ∙ w.parts;
    early = Early-more (i + skip) (suc i + skip') f.retargets l w.early;
    spaced = w.spaced;
    traces =
        Traces-snoc before f.done f.retargets f.retargets old new (w.index ∙ sym w.place) w.traces
          (λ _ a. a) (λ t e. elim (h t e) [ inl z ↦ inl z | inr z ↦ inr (inl z) ]);
  }

  Traced-replace :
      (i : ℕ) (f : Fused) (before ops : List OpCode) (op : OpCode) (g : Fusion)
      → window_at marks n i f.done op ops ≡ found g
      → Traced 0 i f before (op ∷ ops)
      → Traced (g.width - 1) (suc i) (replace i g f) (before ++ op ∷ []) ops
  Traced-replace i f before ops op g h w =
      let b = g.trampoline in
      let is = f.retargets in
      let early : Early i is = Early-more (i + 0) i is (omega arith) w.early in
      let room : b ≡ true → i + 2 ≤ suc i + (g.width - 1) =
        λ e. omega (arith, window_at-width marks n i f.done op ops g h e) in
      record {
        index = omega (arith, w.index, length-snoc f.done g.op);
        place = omega (arith, w.place, length-snoc before op);
        parts = append_assoc before (op ∷ []) ops ∙ w.parts;
        early = kept_indices-Early b is i (suc i + (g.width - 1)) room (omega arith) early;
        spaced = kept_indices-Spaced b is i early w.spaced;
        traces =
            Traces-snoc before f.done is (kept_indices b is i) op g.op (w.index ∙ sym w.place)
              w.traces (kept_indices-Among b is i)
              (λ t e. inr (
                inr (
                  subst (λ k. Among k (kept_indices b is i)) (sym w.place)
                    (kept_indices-here b is i (window_at-jump marks n i f.done op ops g t h e)))));
      }

  fuse_from-out :
      (i : ℕ) (f : Fused) (op : OpCode) (ops : List OpCode)
      → window_at marks n i f.done op ops ≡ out_of_range
      → fuse_from marks n 0 i f (op ∷ ops) ≡ none
  unfolding fuse_from
  fuse_from-out i f op ops e = ground arith

  fuse_from-Traced :
      (skip i : ℕ) (f r : Fused) (before ops : List OpCode)
      → Traced skip i f before ops
      → fuse_from marks n skip i f ops ≡ some r
      → TracedEnd r
  unfolding fuse_from
  fuse_from-Traced zero i f r before [] w h = at_end_of_unit zero i f r before w h
  fuse_from-Traced (suc skip) i f r before [] w h = at_end_of_unit (suc skip) i f r before w h
  fuse_from-Traced (suc skip) i f r before (op ∷ ops) w h =
      fuse_from-Traced skip (suc i) (keep nop f) r (before ++ op ∷ []) ops
        (Traced-keep (suc skip) skip i f before ops op nop (omega arith) (λ _ _. inl refl) w) h
  fuse_from-Traced zero i f r before (op ∷ ops) w h =
      elim (Found-cases (window_at marks n i f.done op ops)) [
        | inl e ↦
            fuse_from-Traced zero (suc i) (keep op f) r (before ++ op ∷ []) ops
              (Traced-keep 0 0 i f before ops op op (omega arith) (λ _ q. inr q) w)
              (sym (fuse_from-keep marks n i f op ops e) ∙ h)
        | inr (inl e) ↦ let x : none ≡ some r = sym (fuse_from-out i f op ops e) ∙ h in cc
        | inr (inr (g, e)) ↦
            fuse_from-Traced (g.width - 1) (suc i) (replace i g f) r (before ++ op ∷ []) ops
              (Traced-replace i f before ops op g e w)
              (sym (fuse_from-replace marks n i f op ops g e) ∙ h)
      ]

-- The pass over `retargets`, behind the loop.
retargeted_lem :
    (f : Fused) (ops : List OpCode) (i t : ℕ) (op : OpCode)
    → Spaced f.retargets × Traces ops f.done f.retargets
    → get_elem? ops i ≡ some (jump t)
    → get_elem? (map (map_targets (retarget f.retargets)) f.done) i ≡ some op
    → op ≢ nop
    → is_jump op ≡ false
    → ¬ JumpedTo (i + 1) (map (map_targets (retarget f.retargets)) f.done)
unfolding map_targets
retargeted_lem f ops i t op (s, tr) e q n no_jump j =
    let g = map_targets (retarget f.retargets) in
    let (x, y, z) = get_elem?-map g f.done i op q in
    elim (tr i t x e y) [
      | inl k ↦ absurd (n (sym z ∙ ap g k))
      | inr (inl k) ↦
          let d : is_jump (g (jump t)) ≡ false =
            subst (λ o. is_jump o ≡ false) (sym (sym (ap g k) ∙ z)) no_jump in
          cc
      | inr (inr k) ↦
          let m =
            targeted-map (retarget f.retargets) (i + 1) f.done
              (λ u. retarget-Among i f.retargets u k s) in
          let x : true ≡ false = sym (JumpedTo-targeted j) ∙ m in cc
    ]

retargeted-some :
    (code : ByteCode) (o : Option Fused) (r : Bool × ByteCode)
    → retargeted code o ≡ some r
    → (f : Fused) × (o ≡ some f) × (map (map_targets (retarget f.retargets)) f.done ≡ r.1.ops)
retargeted-some code none r h = cc
retargeted-some code (some f) r h =
    (f, refl, ap (λ (x : Bool × ByteCode). x.1.ops) (some-injective _ r h))

-- A unit of one instruction is not changed.
unchanged :
    (code : ByteCode) (r : Bool × ByteCode) (i t : ℕ) (op : OpCode)
    → some (false, code) ≡ some r
    → get_elem? code.ops i ≡ some (jump t)
    → get_elem? r.1.ops i ≡ some op
    → is_jump op ≡ false
    → ⊥
unchanged code r i t op h e q no_jump =
    let same : code.ops ≡ r.1.ops =
      ap (λ (x : Bool × ByteCode). x.1.ops) (some-injective (false, code) r h) in
    let k : jump t ≡ op =
      some-injective (jump t) op (sym e ∙ ap (λ ops. get_elem? ops i) same ∙ q) in
    let d : is_jump (jump t) ≡ false = subst (λ o. is_jump o ≡ false) (sym k) no_jump in cc

-- Where `fuse_pairs` puts an instruction that is neither a jump nor a `Nop` in the place of a jump,
-- no instruction of the unit that it returns can send control to the index behind, whatever could
-- before.
pub fuse_pairs-Retargeted :
    (code code' : ByteCode) (changed : Bool) (i t : ℕ) (op : OpCode)
    → fuse_pairs code ≡ some (changed, code')
    → get_elem? code.ops i ≡ some (jump t)
    → get_elem? code'.ops i ≡ some op
    → op ≢ nop
    → is_jump op ≡ false
    → ¬ JumpedTo (i + 1) code'.ops
unfolding fuse_pairs
fuse_pairs-Retargeted code code' changed i t op h e q n no_jump =
    let len = length code.ops in
    let marks = collect_jump_targets code.ops in
    let start : Fused = record { done = []; retargets = []; changed = false } in
    let o = fuse_from marks len 0 0 start code.ops in
    elim (Bool-cases (ltb len 2)) [
      | inl short ↦ absurd (unchanged code (changed, code') i t op (rw short at h) e q no_jump)
      | inr long ↦
          let (f, found_f, ops_eq) = retargeted-some code o (changed, code') (rw long at h) in
          let traced =
            fuse_from-Traced marks len code.ops 0 0 start f [] code.ops
              (record {
                index = refl;
                place = refl;
                parts = refl;
                early = tt;
                spaced = tt;
                traces = λ k u x a b. cc;
              })
              found_f in
          subst (λ ops. ¬ JumpedTo (i + 1) ops) ops_eq
            (retargeted_lem f code.ops i t op traced e
              (subst (λ ops. get_elem? ops i ≡ some op) (sym ops_eq) q) n no_jump)
    ]
