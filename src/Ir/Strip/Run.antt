-- ===== src/Ir/Strip/Run.antt =====
-- The runs, on the machine of Ir/Machine, of a unit and of its `strip_nops` (crates/rtcl-ir/src/bytecode.rs).
use rtcl.Prelude.{
  ℕ, zero, suc, ◌+◌, ◌≤◌, ◌<◌, ◌≡◌, refl, sym, ap, ◌∙◌, subst, ◌≢◌, ◌↔◌, true, false, List, [], ◌∷◌,
  map, none, some, length, get_elem?, drop, drop-map, get_elem?-map, All, arith, Bool-cases,
  Option-cases, inl, inr,
}
use mathlib.Core.Option.{some-injective}
use rtcl.Ir.OpCode.{OpCode, nop}
use rtcl.Ir.Targets.{
  map_targets, targets_of, is_nop, is_nop→eq, erase, targets_of-map_targets, erase-map_targets,
}
use rtcl.Ir.Machine.{
  Machine, Config, config, Outcome, finished, out_of_fuel, Flow, fall, branch, save, discard,
  unwind, finish, Next, go, end, target_at, jump_to, follow, step, run, step-some, step-none,
  run-go, run-end, run-suc, EndsWith, Next-cases,
}
use rtcl.Ir.Strip.{compact_ops}
use rtcl.Ir.Strip.Table.{
  kept_before, get_elem?-compact_ops, get_elem?-compact_ops_end, kept_before-nop,
}

abbrev pub AllLe : ℕ → List ℕ → Type 0
AllLe n = All (λ t. t ≤ n)

-- No target of the unit lies past its end.
abbrev pub TargetsFit : ℕ → List OpCode → Type 0
TargetsFit n = All (λ op. AllLe n (targets_of op))

abbrev pub FramesFit : ℕ → List (List ℕ) → Type 0
FramesFit n = All (AllLe n)

All-get_elem? {ℓ} :
    {A : Type ℓ} (P : A → Type 0) (xs : List A) (k : ℕ) (x : A)
    → All P xs
    → get_elem? xs k ≡ some x
    → P x
All-get_elem? P [] k x h e = cc
All-get_elem? P (y ∷ xs) zero x h e = subst P (some-injective _ _ e) h.0
All-get_elem? P (y ∷ xs) (suc k) x h e = All-get_elem? P xs k x h.1 e

All-drop {ℓ} : {A : Type ℓ} (P : A → Type 0) (n : ℕ) (xs : List A) → All P xs → All P (drop n xs)
All-drop P zero xs h = h
All-drop P (suc n) [] h = h
All-drop P (suc n) (x ∷ xs) h = All-drop P n xs h.1

get_elem?-some-lt {ℓ} :
    {A : Type ℓ} (xs : List A) (k : ℕ) (x : A) → get_elem? xs k ≡ some x → k < length xs
get_elem?-some-lt [] k x h = cc
get_elem?-some-lt (y ∷ xs) zero x h = omega arith
get_elem?-some-lt (y ∷ xs) (suc k) x h = omega (arith, get_elem?-some-lt xs k x h)

-- The table `f` sends a place of the unit `ops` to its place in the stripped unit.
module _ {S : Type 0} (m : Machine S) (ops : List OpCode) (f : ℕ → ℕ)
    (forwards : (t : ℕ) → t ≤ length ops → f t ≡ kept_before ops t)
    (fit : TargetsFit (length ops) ops) where
  unfoldable pub stripped : List OpCode
  stripped = compact_ops (map (map_targets f) ops)

  abbrev pub image : Config S → Config S
  image c = config (kept_before ops c.pc) (map (map f) c.frames) c.state

  abbrev image_next : Next S → Next S
  image_next (go c) = go (image c)
  image_next (end o) = end o

  abbrev Fits : Next S → Type 0
  Fits (go c) = FramesFit (length ops) c.frames
  Fits (end o) = Unit

  jump_to-image :
      (ts : List ℕ) (k : ℕ) (frames : List (List ℕ)) (s : S)
      → AllLe (length ops) ts
      → FramesFit (length ops) frames
      → (jump_to (get_elem? (map f ts) k) (map (map f) frames) s
          ≡ image_next (jump_to (get_elem? ts k) frames s))
        × Fits (jump_to (get_elem? ts k) frames s)
  jump_to-image ts k frames s h g = elim (Option-cases (get_elem? ts k)) [
    | inl e ↦ rw (get_elem?-map f ts k none e, e) (refl, tt)
    | inr (t, e) ↦
        rw
          (
            get_elem?-map f ts k (some t) e,
            e,
            forwards t (All-get_elem? (λ t. t ≤ length ops) ts k t h e),
          )
          (refl, g)
  ]

  unwind-image :
      (k : ℕ) (below : List (List ℕ)) (s : S)
      → FramesFit (length ops) below
      → (jump_to (target_at (map (map f) below) k) (map (map f) below) s
          ≡ image_next (jump_to (target_at below k) below s))
        × Fits (jump_to (target_at below k) below s)
  unfolding target_at
  unwind-image k [] s g = (refl, tt)
  unwind-image k (ts ∷ below) s g = jump_to-image ts k (ts ∷ below) s g.0 g

  follow-image :
      (ts : List ℕ) (pc pc' : ℕ) (frames : List (List ℕ)) (flow : Flow S)
      → AllLe (length ops) ts
      → FramesFit (length ops) frames
      → kept_before ops (suc pc) ≡ suc pc'
      → (follow (map f ts) pc' (map (map f) frames) flow ≡ image_next (follow ts pc frames flow))
        × Fits (follow ts pc frames flow)
  unfolding follow
  follow-image ts pc pc' frames (fall s) h g e = rw (← e) (refl, g)
  follow-image ts pc pc' frames (branch k s) h g e = jump_to-image ts k frames s h g
  follow-image ts pc pc' frames (save s) h g e = rw (← e) (refl, (h, g))
  follow-image ts pc pc' frames (discard s) h g e =
      rw (← e, drop-map (map f) 1 frames) (refl, All-drop _ 1 frames g)
  follow-image ts pc pc' frames (unwind n k s) h g e =
      rw (drop-map (map f) n frames) (unwind-image k (drop n frames) s (All-drop _ n frames g))
  follow-image ts pc pc' frames (finish s) h g e = (refl, tt)

  -- A step at a kept instruction is the same step of the stripped unit.
  step-image :
      (c : Config S) (op : OpCode)
      → get_elem? ops c.pc ≡ some op
      → is_nop op ≡ false
      → FramesFit (length ops) c.frames
      → (step m stripped (image c) ≡ image_next (step m ops c)) × Fits (step m ops c)
  unfolding stripped
  step-image c op e k g =
      let (at', next') = get_elem?-compact_ops f ops c.pc op e k in
      rw
        (
          step-some m ops c op e,
          step-some m stripped (image c) (map_targets f op) at',
          targets_of-map_targets f op,
          erase-map_targets f op,
        )
        (follow-image (targets_of op) c.pc (kept_before ops c.pc) c.frames
          (m.exec (erase op) c.state) (All-get_elem? _ ops c.pc op fit e) g next')

  step-nop :
      (c : Config S) (op : OpCode)
      → get_elem? ops c.pc ≡ some op
      → is_nop op ≡ true
      → (step m ops c ≡ go (config (suc c.pc) c.frames c.state))
        × (image (config (suc c.pc) c.frames c.state) ≡ image c)
  unfolding follow erase
  step-nop c op e k =
      let e' : get_elem? ops c.pc ≡ some nop = rw (is_nop→eq op k) at e in
      (rw (step-some m ops c nop e', m.exec-nop c.state) refl, rw (kept_before-nop ops c.pc op e k))

  step-end :
      (c : Config S)
      → get_elem? ops c.pc ≡ none
      → (step m ops c ≡ end (finished c.state))
        × (step m stripped (image c) ≡ end (finished c.state))
  unfolding stripped
  step-end c e =
      (step-none m ops c e, step-none m stripped (image c) (get_elem?-compact_ops_end f ops c.pc e))

  step-go :
      (c c' : Config S) (op : OpCode)
      → get_elem? ops c.pc ≡ some op
      → is_nop op ≡ false
      → FramesFit (length ops) c.frames
      → step m ops c ≡ go c'
      → (step m stripped (image c) ≡ go (image c')) × FramesFit (length ops) c'.frames
  step-go c c' op e k g h = let (p, q) = step-image c op e k g in (p ∙ ap image_next h, rw h at q)

  step-stop :
      (c : Config S) (o : Outcome S) (op : OpCode)
      → get_elem? ops c.pc ≡ some op
      → is_nop op ≡ false
      → FramesFit (length ops) c.frames
      → step m ops c ≡ end o
      → step m stripped (image c) ≡ end o
  step-stop c o op e k g h = (step-image c op e k g).0 ∙ ap image_next h

  -- The stripped unit needs no more fuel.
  run-image :
      (fuel : ℕ) (c : Config S) (o : Outcome S)
      → FramesFit (length ops) c.frames
      → o ≢ out_of_fuel
      → run m fuel ops c ≡ o
      → run m fuel stripped (image c) ≡ o
  unfolding run
  run-image zero c o g n h = absurd (n (sym h))
  run-image (suc fuel) c o g n h = elim (Option-cases (get_elem? ops c.pc)) [
    | inl e ↦
        let (p, q) = step-end c e in
        run-end m fuel stripped (image c) _ q ∙ (sym (run-end m fuel ops c _ p) ∙ h)
    | inr (op, e) ↦ elim (Bool-cases (is_nop op)) [
      | inl k ↦
          let (p, q) = step-nop c op e k in
          let next = config (suc c.pc) c.frames c.state in
          run-suc m fuel stripped (image c) o
            (rw q at (run-image fuel next o g n (sym (run-go m fuel ops c next p) ∙ h))) n
      | inr k ↦ elim (Next-cases (step m ops c)) [
        | inl (c', p) ↦
            let (q, g') = step-go c c' op e k g p in
            run-go m fuel stripped (image c) (image c') q
            ∙ run-image fuel c' o g' n (sym (run-go m fuel ops c c' p) ∙ h)
        | inr (o', p) ↦
            run-end m fuel stripped (image c) o' (step-stop c o' op e k g p)
            ∙ (sym (run-end m fuel ops c o' p) ∙ h)
      ]
    ]
  ]

  ended :
      (fuel : ℕ) (c : Config S) (o : Outcome S)
      → get_elem? ops c.pc ≡ none
      → run m (suc fuel) stripped (image c) ≡ o
      → EndsWith m ops c o
  ended fuel c o e h =
      let (p, q) = step-end c e in
      (1, run-end m 0 ops c _ p ∙ (sym (run-end m fuel stripped (image c) _ q) ∙ h))

  -- A run of the stripped unit is one of the unit, which takes a step more for each removed
  -- instruction that it passes; `gap` bounds how many of those follow one another.
  image-run :
      (fuel gap : ℕ) (c : Config S) (o : Outcome S)
      → length ops ≤ c.pc + gap
      → FramesFit (length ops) c.frames
      → o ≢ out_of_fuel
      → run m fuel stripped (image c) ≡ o
      → EndsWith m ops c o
  unfolding run
  image-run zero gap c o b g n h = absurd (n (sym h))
  image-run (suc fuel) zero c o b g n h = elim (Option-cases (get_elem? ops c.pc)) [
    | inl e ↦ ended fuel c o e h
    | inr (op, e) ↦ absurd (omega (arith, get_elem?-some-lt ops c.pc op e))
  ]
  image-run (suc fuel) (suc gap) c o b g n h = elim (Option-cases (get_elem? ops c.pc)) [
    | inl e ↦ ended fuel c o e h
    | inr (op, e) ↦ elim (Bool-cases (is_nop op)) [
      | inl k ↦
          let (p, q) = step-nop c op e k in
          let next = config (suc c.pc) c.frames c.state in
          let h' : run m (suc fuel) stripped (image next) ≡ o = rw q h in
          let (more, r) = image-run (suc fuel) gap next o (omega arith) g n h' in
          (suc more, run-go m more ops c next p ∙ r)
      | inr k ↦ elim (Next-cases (step m ops c)) [
        | inl (c', p) ↦
            let (q, g') = step-go c c' op e k g p in
            let (more, r) =
              image-run fuel (length ops) c' o (omega arith) g' n
                (sym (run-go m fuel stripped (image c) (image c') q) ∙ h) in
            (suc more, run-go m more ops c c' p ∙ r)
        | inr (o', p) ↦ (
          1,
          run-end m 0 ops c o' p
              ∙ (sym (run-end m fuel stripped (image c) o' (step-stop c o' op e k g p)) ∙ h),
        )
      ]
    ]
  ]

  pub EndsWith-image :
      (c : Config S) (o : Outcome S)
      → FramesFit (length ops) c.frames
      → o ≢ out_of_fuel
      → EndsWith m ops c o ↔ EndsWith m stripped (image c) o
  EndsWith-image c o g n = (
    λ (fuel, h). (fuel, run-image fuel c o g n h),
    λ (fuel, h). image-run fuel (length ops) c o (omega arith) g n h,
  )
