-- ===== src/Ir/Unfuse/Run.antt =====
-- The runs, on the machine of Ir/Machine, of a unit and of its `unfused` (crates/rtcl-ir/src/bytecode.rs).
use rtcl.Prelude.{
  ℕ, zero, suc, ◌+◌, ◌-◌, ◌≡◌, ◌<◌, ◌≢◌, ◌↔◌, refl, sym, ap, ◌∙◌, subst, true, false, List, [], ◌∷◌,
  ◌++◌, map, none, some, length, get_elem?, drop, drop-map, get_elem?-map, All, arith, Bool-cases,
  Option-cases, inl, inr,
}
use rtcl.Ir.OpCode.{OpCode}
use rtcl.Ir.Targets.{map_targets, targets_of, erase}
use rtcl.Ir.ByteCode.{ByteCode}
use rtcl.Ir.Machine.{
  Machine, Config, config, Outcome, out_of_fuel, Flow, fall, branch, save, discard, unwind, finish,
  Next, go, end, Next-cases, target_at, jump_to, follow, step, run, step-some, step-none, run-go,
  run-end, EndsWith,
}
use rtcl.Ir.Unfuse.{has_fused_ops, expansion, expand_ops, heads, remap, remap_targets, unfused}
use rtcl.Ir.Unfuse.Free.{any_fused-expand_ops}
use rtcl.Ir.Unfuse.Places.{
  head_of, remap_lem, drop-expand_ops, head_of-suc, length-expansion, drop-some, drop-none,
  get_elem?-drop-none, map-remap_targets, last_targets-expansion,
}
use rtcl.Ir.Unfuse.Windows.{
  Straight, LeadsTo, now, after, LeadsTo-go, LeadsTo-end, go-LeadsTo, end-LeadsTo, Straight-LeadsTo,
}

-- The machine executes the instruction as it executes its expansion.
abbrev pub AsWindow : {S : Type 0} → Machine S → OpCode → Type 0
AsWindow {S = S} m op = (s : S) → Straight m (expansion op) s (m.exec (erase op) s)

module _ {S : Type 0} (m : Machine S) (ops : List OpCode) (windows : All (AsWindow m) ops) where
  abbrev place : ℕ → ℕ
  place = remap (heads 0 ops) (length (expand_ops ops))

  unfoldable expanded : List OpCode
  expanded = map (map_targets place) (expand_ops ops)

  place_lem : (t : ℕ) → place t ≡ head_of ops t
  place_lem t = remap_lem 0 (length (expand_ops ops)) ops t (omega arith) ∙ omega arith

  abbrev image : Config S → Config S
  image c = config (head_of ops c.pc) (map (map place) c.frames) c.state

  abbrev image_next : Next S → Next S
  image_next (go c) = go (image c)
  image_next (end o) = end o

  jump_to-image :
      (ts : List ℕ) (k : ℕ) (frames : List (List ℕ)) (s : S)
      → jump_to (get_elem? (map place ts) k) (map (map place) frames) s
        ≡ image_next (jump_to (get_elem? ts k) frames s)
  jump_to-image ts k frames s = elim (Option-cases (get_elem? ts k)) [
    | inl e ↦ rw (get_elem?-map place ts k none e, e) refl
    | inr (t, e) ↦ rw (get_elem?-map place ts k (some t) e, e, place_lem t) refl
  ]

  unwind-image :
      (k : ℕ) (below : List (List ℕ)) (s : S)
      → jump_to (target_at (map (map place) below) k) (map (map place) below) s
        ≡ image_next (jump_to (target_at below k) below s)
  unfolding target_at
  unwind-image k [] s = refl
  unwind-image k (ts ∷ below) s = jump_to-image ts k (ts ∷ below) s

  follow-image :
      (ts : List ℕ) (pc p : ℕ) (frames : List (List ℕ)) (flow : Flow S)
      → suc p ≡ head_of ops (suc pc)
      → follow (map place ts) p (map (map place) frames) flow
        ≡ image_next (follow ts pc frames flow)
  unfolding follow
  follow-image ts pc p frames (fall s) h = rw h refl
  follow-image ts pc p frames (branch k s) h = jump_to-image ts k frames s
  follow-image ts pc p frames (save s) h = rw h refl
  follow-image ts pc p frames (discard s) h = rw (h, drop-map (map place) 1 frames) refl
  follow-image ts pc p frames (unwind n k s) h =
      rw (drop-map (map place) n frames) (unwind-image k (drop n frames) s)
  follow-image ts pc p frames (finish s) h = refl

  All-get_elem? :
      (xs : List OpCode) (k : ℕ) (op : OpCode)
      → All (AsWindow m) xs
      → get_elem? xs k ≡ some op
      → AsWindow m op
  All-get_elem? [] k op h e = cc
  All-get_elem? (x ∷ xs) zero op h e = let e' : x ≡ op = cc in subst (AsWindow m) e' h.0
  All-get_elem? (x ∷ xs) (suc k) op h e = All-get_elem? xs k op h.1 e

  map-append :
      (xs ys : List OpCode)
      → map (map_targets place) (xs ++ ys)
        ≡ map (map_targets place) xs ++ map (map_targets place) ys
  map-append [] ys = refl
  map-append (x ∷ xs) ys = ap (λ t. map_targets place x ∷ t) (map-append xs ys)

  drop-expanded :
      (pc : ℕ) → drop (head_of ops pc) expanded ≡ map (map_targets place) (expand_ops (drop pc ops))
  unfolding expanded
  drop-expanded pc =
      drop-map (map_targets place) (head_of ops pc) (expand_ops ops)
      ∙ ap (map (map_targets place)) (drop-expand_ops ops pc)

  window :
      (pc : ℕ) (op : OpCode)
      → get_elem? ops pc ≡ some op
      → drop (head_of ops pc) expanded
        ≡ map (map_targets place) (expansion op)
          ++ map (map_targets place) (expand_ops (drop (suc pc) ops))
  unfolding expand_ops
  window pc op e =
      drop-expanded pc
      ∙ rw (drop-some ops pc op e) (map-append (expansion op) (expand_ops (drop (suc pc) ops)))

  expanded-end : (pc : ℕ) → get_elem? ops pc ≡ none → get_elem? expanded (head_of ops pc) ≡ none
  unfolding expand_ops
  expanded-end pc e =
      get_elem?-drop-none expanded (head_of ops pc)
        (drop-expanded pc ∙ rw (drop-none ops pc e) refl)

  step-LeadsTo-some :
      (c : Config S) (op : OpCode)
      → get_elem? ops c.pc ≡ some op
      → (k : ℕ) × LeadsTo m expanded k (image c) (image_next (step m ops c))
  step-LeadsTo-some c op e =
      let n = head_of ops c.pc in
      let p = n + (length (expansion op) - 1) in
      let here : suc p ≡ n + length (expansion op) = omega (arith, length-expansion op) in
      let there : suc p ≡ head_of ops (suc c.pc) = here ∙ sym (head_of-suc ops c.pc op e) in
      let flow = m.exec (erase op) c.state in
      let r = All-get_elem? ops c.pc op windows e c.state in
      let (k, l) =
        Straight-LeadsTo m expanded place n p (map (map place) c.frames) (expansion op) c.state flow
          _ r (window c.pc op e) here in
      (
        k,
        rw
            (
              step-some m ops c op e,
              ← follow-image (targets_of op) c.pc p c.frames flow there,
              ← last_targets-expansion op,
            )
            l,
      )

  -- A step of the unit is the steps of the expansion.
  step-LeadsTo :
      (c : Config S) → (k : ℕ) × LeadsTo m expanded k (image c) (image_next (step m ops c))
  step-LeadsTo c = elim (Option-cases (get_elem? ops c.pc)) [
    | inl e ↦ (
      0,
      now (step-none m expanded (image c) (expanded-end c.pc e) ∙ rw (step-none m ops c e) refl),
    )
    | inr (op, e) ↦ step-LeadsTo-some c op e
  ]

  run-image :
      (fuel : ℕ) (c : Config S) (o : Outcome S)
      → o ≢ out_of_fuel
      → run m fuel ops c ≡ o
      → EndsWith m expanded (image c) o
  unfolding run
  run-image zero c o x h = absurd (x (sym h))
  run-image (suc fuel) c o x h = elim (Next-cases (step m ops c)) [
    | inl (c', e) ↦
        let (k, l) = step-LeadsTo c in
        let l' : LeadsTo m expanded k (image c) (go (image c')) = rw e at l in
        let (n, r) = run-image fuel c' o x (sym (run-go m fuel ops c c' e) ∙ h) in
        (after m expanded k n, LeadsTo-go m expanded l' n ∙ r)
    | inr (o', e) ↦
        let (k, l) = step-LeadsTo c in
        let l' : LeadsTo m expanded k (image c) (end o') = rw e at l in
        (after m expanded k 0, LeadsTo-end m expanded l' ∙ (sym (run-end m fuel ops c o' e) ∙ h))
  ]

  -- By recursion on a bound of the fuel.
  image-run :
      (bound fuel : ℕ) (c : Config S) (o : Outcome S)
      → fuel < bound
      → o ≢ out_of_fuel
      → run m fuel expanded (image c) ≡ o
      → EndsWith m ops c o
  image-run zero fuel c o b x h = absurd (omega (arith, b))
  image-run (suc bound) fuel c o b x h = elim (Next-cases (step m ops c)) [
    | inl (c', e) ↦
        let (k, l) = step-LeadsTo c in
        let l' : LeadsTo m expanded k (image c) (go (image c')) = rw e at l in
        let (n, b', r) = go-LeadsTo m expanded fuel o l' x h in
        let (more, r') = image-run bound n c' o (omega (arith, b, b')) x r in
        (suc more, run-go m more ops c c' e ∙ r')
    | inr (o', e) ↦
        let (k, l) = step-LeadsTo c in
        let l' : LeadsTo m expanded k (image c) (end o') = rw e at l in
        (1, run-end m 0 ops c o' e ∙ end-LeadsTo m expanded fuel o l' x h)
  ]

  EndsWith-expanded :
      (c : Config S) (o : Outcome S)
      → o ≢ out_of_fuel
      → EndsWith m ops c o ↔ EndsWith m expanded (image c) o
  EndsWith-expanded c o x = (
    λ (fuel, h). run-image fuel c o x h,
    λ (fuel, h). image-run (suc fuel) fuel c o (omega arith) x h,
  )

  expanded-remap_targets : map (remap_targets place) (expand_ops ops) ≡ expanded
  unfolding expanded
  expanded-remap_targets = map-remap_targets place (expand_ops ops) (any_fused-expand_ops ops)

unfused-ops :
    (code : ByteCode)
    → has_fused_ops code ≡ true
    → (unfused code).ops
      ≡ map
          (remap_targets (remap (heads 0 code.ops) (length (expand_ops code.ops))))
          (expand_ops code.ops)
unfolding unfused
unfused-ops code h = rw h refl

unfused-same : (code : ByteCode) → has_fused_ops code ≡ false → (unfused code).ops ≡ code.ops
unfolding unfused
unfused-same code h = rw h refl

-- On a machine that executes each superinstruction of the unit as its expansion, the unfused unit,
-- entered at its start, ends with an outcome exactly if the unit does, whatever the jump targets
-- are.
pub EndsWith-unfused :
    {S : Type 0} (m : Machine S) (code : ByteCode) (s : S) (o : Outcome S)
    → All (AsWindow m) code.ops
    → o ≢ out_of_fuel
    → EndsWith m code.ops (config 0 [] s) o ↔ EndsWith m (unfused code).ops (config 0 [] s) o
unfolding head_of
EndsWith-unfused m code s o w x = elim (Bool-cases (has_fused_ops code)) [
  | inl e ↦
      subst (λ ops. EndsWith m code.ops (config 0 [] s) o ↔ EndsWith m ops (config 0 [] s) o)
        (sym (unfused-ops code e ∙ expanded-remap_targets m code.ops w))
        (EndsWith-expanded m code.ops w (config 0 [] s) o x)
  | inr e ↦
      subst (λ ops. EndsWith m code.ops (config 0 [] s) o ↔ EndsWith m ops (config 0 [] s) o)
        (sym (unfused-same code e)) (λ h. h, λ h. h)
]
