-- ===== src/Ir/Fuse/Spaced.antt =====
-- Lemmas on the indices that `fuse_pairs` keeps for retargeting (crates/rtcl-ir/src/bytecode.rs), and on
-- lists of instructions that grow at the end.
use rtcl.Prelude.{
  ℕ, zero, suc, ◌+◌, ◌≤◌, ◌<◌, ◌≡◌, ◌≢◌, ◌⊎◌, refl, ap, false, List, [], ◌∷◌, ◌++◌, map, some,
  length, get_elem?, ◌==◌, inl, inr, arith, if_intro, if◌then◌else◌,
}
use mathlib.Core.Option.{some-injective}
use rtcl.Ir.OpCode.{OpCode}
use rtcl.Ir.Targets.{map_targets, targets_of, targets_of-map_targets}
use rtcl.Ir.Jumps.{has, targeted}
use rtcl.Ir.Fuse.{retarget}

pub data Among (k : ℕ) : List ℕ → Type 0 where
  here : {is : List ℕ} → Among k (k ∷ is)
  there : {i : ℕ} {is : List ℕ} → Among k is → Among k (i ∷ is)

pub Among-left : {k : ℕ} {is : List ℕ} (js : List ℕ) → Among k is → Among k (is ++ js)
Among-left js here = here
Among-left js (there a) = there (Among-left js a)

pub Among-last : (k : ℕ) (is : List ℕ) → Among k (is ++ k ∷ [])
Among-last k [] = here
Among-last k (i ∷ is) = there (Among-last k is)

-- Every index is at least two before `n`; every index is behind `n`.
abbrev pub Early : ℕ → List ℕ → Type 0
Early n [] = Unit
Early n (i ∷ is) = (i + 2 ≤ n) × Early n is

abbrev Behind : ℕ → List ℕ → Type 0
Behind n [] = Unit
Behind n (i ∷ is) = (n < i) × Behind n is

-- No index stands behind another directly: the loop passes the window of each.
abbrev pub Spaced : List ℕ → Type 0
Spaced [] = Unit
Spaced (i ∷ is) = Behind (i + 1) is × Spaced is

pub Early-more : (n m : ℕ) (is : List ℕ) → n ≤ m → Early n is → Early m is
Early-more n m [] h e = tt
Early-more n m (i ∷ is) h e = (omega (arith, h, e.0), Early-more n m is h e.1)

pub Early-snoc : (n i : ℕ) (is : List ℕ) → i + 2 ≤ n → Early n is → Early n (is ++ i ∷ [])
Early-snoc n i [] h e = (h, tt)
Early-snoc n i (k ∷ is) h e = (e.0, Early-snoc n i is h e.1)

Behind-snoc : (n i : ℕ) (is : List ℕ) → n < i → Behind n is → Behind n (is ++ i ∷ [])
Behind-snoc n i [] h b = (h, tt)
Behind-snoc n i (k ∷ is) h b = (b.0, Behind-snoc n i is h b.1)

pub Spaced-snoc : (i : ℕ) (is : List ℕ) → Early i is → Spaced is → Spaced (is ++ i ∷ [])
Spaced-snoc i [] e s = (tt, tt)
Spaced-snoc i (k ∷ is) e s =
    (Behind-snoc (k + 1) i is (omega (arith, e.0)) s.0, Spaced-snoc i is e.1 s.1)

-- Targets behind a later index are made into none before it.
retarget-Behind : (j : ℕ) (is : List ℕ) (t : ℕ) → Behind j is → t ≢ j → retarget is t ≢ j
unfolding retarget
retarget-Behind j [] t b n = n
retarget-Behind j (i ∷ is) t b n =
    if_intro (λ (u : ℕ). retarget is u ≢ j) (t == i + 1) {x = i} {y = t}
      (λ _. retarget-Behind j is i b.1 (λ e. omega (arith, b.0, e)))
      (λ _. retarget-Behind j is t b.1 n)

pub retarget-Among : (k : ℕ) (is : List ℕ) (t : ℕ) → Among k is → Spaced is → retarget is t ≢ k + 1
unfolding retarget
retarget-Among k _ t (here {is = is}) s =
    if_intro (λ (u : ℕ). retarget is u ≢ k + 1) (t == k + 1) {x = k} {y = t}
      (λ _. retarget-Behind (k + 1) is k s.0 (λ e. omega (arith, e)))
      (λ h. retarget-Behind (k + 1) is t s.0 (λ e. ground arith))
retarget-Among k _ t (there {i = i} {is = is} a) s =
    retarget-Among k is (if t == i + 1 then i else t) a s.1

has-map : (f : ℕ → ℕ) (j : ℕ) (ts : List ℕ) → ((t : ℕ) → f t ≢ j) → has j (map f ts) ≡ false
has-map f j [] n = refl
has-map f j (t ∷ ts) n =
    let e : (f t == j) ≡ false = no_match (f t) (n t) in rw (e, has-map f j ts n) refl
  where
    no_match : (u : ℕ) → u ≢ j → (u == j) ≡ false
    no_match u n = ground arith

pub targeted-map :
    (f : ℕ → ℕ) (j : ℕ) (ops : List OpCode)
    → ((t : ℕ) → f t ≢ j)
    → targeted j (map (map_targets f) ops) ≡ false
unfolding targeted
targeted-map f j [] n = refl
targeted-map f j (op ∷ ops) n =
    rw (targets_of-map_targets f op, has-map f j (targets_of op) n, targeted-map f j ops n) refl

module _ {A : Type 0} where
  pub get_elem?-bound : (xs : List A) (k : ℕ) (y : A) → get_elem? xs k ≡ some y → k < length xs
  get_elem?-bound [] k y h = cc
  get_elem?-bound (x ∷ xs) zero y h = omega arith
  get_elem?-bound (x ∷ xs) (suc k) y h = omega (arith, get_elem?-bound xs k y h)

  pub get_elem?-snoc :
      (xs : List A) (x : A) (k : ℕ) (y : A)
      → get_elem? (xs ++ x ∷ []) k ≡ some y
      → (get_elem? xs k ≡ some y) ⊎ ((k ≡ length xs) × (x ≡ y))
  get_elem?-snoc [] x zero y h = inr (refl, some-injective x y h)
  get_elem?-snoc [] x (suc k) y h = cc
  get_elem?-snoc (z ∷ xs) x zero y h = inl h
  get_elem?-snoc (z ∷ xs) x (suc k) y h = elim (get_elem?-snoc xs x k y h) [
    | inl e ↦ inl e
    | inr (e, q) ↦ inr (ap suc e, q)
  ]

pub get_elem?-map :
    (f : OpCode → OpCode) (xs : List OpCode) (k : ℕ) (y : OpCode)
    → get_elem? (map f xs) k ≡ some y
    → (x : OpCode) × (get_elem? xs k ≡ some x) × (f x ≡ y)
get_elem?-map f [] k y h = cc
get_elem?-map f (x ∷ xs) zero y h = (x, refl, some-injective (f x) y h)
get_elem?-map f (x ∷ xs) (suc k) y h = get_elem?-map f xs k y h
