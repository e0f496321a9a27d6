-- ===== src/Ir/Unfuse/Windows.antt =====
-- Straight-line execution of a window, and the steps of the machine through it.
use rtcl.Prelude.{
  ℕ, zero, suc, ◌+◌, ◌≡◌, ◌<◌, ◌≢◌, refl, sym, ◌∙◌, subst, List, [], ◌∷◌, ◌++◌, map, length, drop,
  arith,
}
use rtcl.Ir.OpCode.{OpCode}
use rtcl.Ir.Targets.{map_targets, targets_of, targets_of-map_targets, erase, erase-map_targets}
use rtcl.Ir.Machine.{
  Machine, Config, config, Outcome, out_of_fuel, Flow, fall, branch, save, discard, unwind, finish,
  Next, go, end, follow, step, run, step-some, run-go, run-end,
}
use rtcl.Ir.Unfuse.Places.{last_targets, get_elem?-drop}

-- The unit ends, or an error goes to a saved target.
abbrev pub IsExit : {S : Type 0} → Flow S → Type 0
IsExit (unwind n k s) = Unit
IsExit (finish s) = Unit
IsExit flow = ⊥

-- The instructions, executed one after the other from a state, ask for `flow` in the end: each
-- falls through to the next, up to the last or to one that exits.
pub data Straight {S : Type 0} (m : Machine S) : List OpCode → S → Flow S → Type 0 where
  last :
      {op : OpCode} {s : S} {flow : Flow S}
      → m.exec (erase op) s ≡ flow
      → Straight m (op ∷ []) s flow
  exits :
      {op : OpCode} {ops : List OpCode} {s : S} {flow : Flow S}
      → m.exec (erase op) s ≡ flow
      → IsExit flow
      → Straight m (op ∷ ops) s flow
  next :
      {op : OpCode} {ops : List OpCode} {s s' : S} {flow : Flow S}
      → m.exec (erase op) s ≡ fall s'
      → Straight m ops s' flow
      → Straight m (op ∷ ops) s flow

last_targets-next :
    {S : Type 0} (m : Machine S) (op : OpCode) {ops : List OpCode} {s : S} {flow : Flow S}
    → Straight m ops s flow
    → last_targets (op ∷ ops) ≡ last_targets ops
last_targets-next m op (last e) = refl
last_targets-next m op (exits e x) = refl
last_targets-next m op (next e r) = refl

module _ {S : Type 0} (m : Machine S) (xs : List OpCode) where
  -- After `k` steps that go on, a step leads to `x`.
  pub data LeadsTo : ℕ → Config S → Next S → Type 0 where
    now : {c : Config S} {x : Next S} → step m xs c ≡ x → LeadsTo 0 c x
    later :
        {k : ℕ} {c c' : Config S} {x : Next S}
        → step m xs c ≡ go c'
        → LeadsTo k c' x
        → LeadsTo (suc k) c x

  abbrev pub after : ℕ → ℕ → ℕ
  after zero n = suc n
  after (suc k) n = suc (after k n)

  pub LeadsTo-go :
      {k : ℕ} {c c' : Config S}
      → LeadsTo k c (go c')
      → (n : ℕ) → run m (after k n) xs c ≡ run m n xs c'
  LeadsTo-go {c = c} {c' = c'} (now e) n = run-go m n xs c c' e
  LeadsTo-go (later {k = k} {c = c} {c' = c1} e l) n =
      run-go m (after k n) xs c c1 e ∙ LeadsTo-go l n

  pub LeadsTo-end :
      {k : ℕ} {c : Config S} {o : Outcome S} → LeadsTo k c (end o) → run m (after k 0) xs c ≡ o
  LeadsTo-end {c = c} {o = o} (now e) = run-end m 0 xs c o e
  LeadsTo-end (later {k = k} {c = c} {c' = c1} e l) = run-go m (after k 0) xs c c1 e ∙ LeadsTo-end l

  -- A run that ends has fuel for these steps, and less for what follows.
  pub go-LeadsTo :
      (fuel : ℕ) (o : Outcome S) {k : ℕ} {c c' : Config S}
      → LeadsTo k c (go c')
      → o ≢ out_of_fuel
      → run m fuel xs c ≡ o
      → (n : ℕ) × (n < fuel) × (run m n xs c' ≡ o)
  unfolding run
  go-LeadsTo zero o l x h = absurd (x (sym h))
  go-LeadsTo (suc fuel) o {c = c} {c' = c'} (now e) x h =
      (fuel, omega arith, sym (run-go m fuel xs c c' e) ∙ h)
  go-LeadsTo (suc fuel) o (later {k = k} {c = c} {c' = c1} e l) x h =
      let (n, b, r) = go-LeadsTo fuel o l x (sym (run-go m fuel xs c c1 e) ∙ h) in
      (n, omega (arith, b), r)

  pub end-LeadsTo :
      (fuel : ℕ) (o : Outcome S) {k : ℕ} {c : Config S} {o' : Outcome S}
      → LeadsTo k c (end o')
      → o ≢ out_of_fuel
      → run m fuel xs c ≡ o
      → o' ≡ o
  unfolding run
  end-LeadsTo zero o l x h = absurd (x (sym h))
  end-LeadsTo (suc fuel) o {c = c} {o' = o'} (now e) x h = sym (run-end m fuel xs c o' e) ∙ h
  end-LeadsTo (suc fuel) o (later {k = k} {c = c} {c' = c1} e l) x h =
      end-LeadsTo fuel o l x (sym (run-go m fuel xs c c1 e) ∙ h)

  follow-exit :
      (ts ts' : List ℕ) (pc pc' : ℕ) (frames : List (List ℕ)) (flow : Flow S)
      → IsExit flow
      → follow ts pc frames flow ≡ follow ts' pc' frames flow
  unfolding follow
  follow-exit ts ts' pc pc' frames (unwind n k s) x = refl
  follow-exit ts ts' pc pc' frames (finish s) x = refl
  follow-exit ts ts' pc pc' frames (fall s) x = elim x [ ]
  follow-exit ts ts' pc pc' frames (branch k s) x = elim x [ ]
  follow-exit ts ts' pc pc' frames (save s) x = elim x [ ]
  follow-exit ts ts' pc pc' frames (discard s) x = elim x [ ]

  module _ (f : ℕ → ℕ) where
    -- One instruction of the window.
    step-window :
        (n : ℕ) (frames : List (List ℕ)) (op : OpCode) (s : S) (flow : Flow S) (ys : List OpCode)
        → drop n xs ≡ map_targets f op ∷ ys
        → m.exec (erase op) s ≡ flow
        → step m xs (config n frames s) ≡ follow (map f (targets_of op)) n frames flow
    step-window n frames op s flow ys d e =
        let (at', _) = get_elem?-drop xs n (map_targets f op) ys d in
        step-some m xs (config n frames s) (map_targets f op) at'
        ∙ rw (targets_of-map_targets f op, erase-map_targets f op, e)

    -- The whole window, which ends at `p`.
    pub Straight-LeadsTo :
        (n p : ℕ) (frames : List (List ℕ)) (ops : List OpCode) (s : S) (flow : Flow S)
        (rest : List OpCode)
        → Straight m ops s flow
        → drop n xs ≡ map (map_targets f) ops ++ rest
        → suc p ≡ n + length ops
        → (k : ℕ) × LeadsTo k (config n frames s) (follow (map f (last_targets ops)) p frames flow)
    unfolding follow
    Straight-LeadsTo n p frames _ s flow rest (last {op = op} e) d h =
        let w : n ≡ p = omega (arith, h) in
        (0, now (step-window n frames op s flow rest d e ∙ rw w))
    Straight-LeadsTo n p frames _ s flow rest (exits {op = op} {ops = ops} e x) d h =
        (0, now (step-window n frames op s flow _ d e ∙ follow-exit _ _ n p frames flow x))
    Straight-LeadsTo n p frames _ s flow rest (next {op = op} {ops = ops} {s' = s'} e r) d h =
        let (_, d') = get_elem?-drop xs n (map_targets f op) (map (map_targets f) ops ++ rest) d in
        let (k, l) = Straight-LeadsTo (suc n) p frames ops s' flow rest r d' (omega (arith, h)) in
        (
          suc k,
          later (step-window n frames op s (fall s') _ d e) (
              subst (λ ts. LeadsTo k (config (suc n) frames s') (follow (map f ts) p frames flow))
                (sym (last_targets-next m op r)) l),
        )
