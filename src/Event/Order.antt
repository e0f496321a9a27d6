-- ===== src/Event/Order.antt =====
-- Lemmas on the order of the queue of crates/rtcl-vm/src/interp/commands/event.rs.
use rtcl.Prelude.{
  ℕ, ◌+◌, ◌≤◌, ◌<◌, ◌≡◌, subst, Bool, true, false, List, [], ◌∷◌, ◌++◌, none, some, arith,
  Bool-cases, Option-cases, inl, inr, All,
}
use mathlib.Core.Option.{some-injective}
use rtcl.Event.{TimedEvent, retain, remove_first}

-- The ids rise strictly from `lo` and stay below `hi`.
abbrev pub Increasing : ℕ → List TimedEvent → ℕ → Type 0
Increasing lo [] hi = lo ≤ hi
Increasing lo (e ∷ q) hi = (lo ≤ e.id) × Increasing (e.id + 1) q hi

pub Increasing-mono :
    (lo lo' : ℕ) (q : List TimedEvent) (hi : ℕ)
    → lo' ≤ lo
    → Increasing lo q hi
    → Increasing lo' q hi
Increasing-mono lo lo' [] hi h i = omega arith
Increasing-mono lo lo' (e ∷ q) hi h i = (omega arith, i.1)

pub Increasing-le : (lo : ℕ) (q : List TimedEvent) (hi : ℕ) → Increasing lo q hi → lo ≤ hi
Increasing-le lo [] hi i = i
Increasing-le lo (e ∷ q) hi i = omega (arith, Increasing-le (e.id + 1) q hi i.1)

pub Increasing-append :
    (lo : ℕ) (q : List TimedEvent) (hi : ℕ) (e : TimedEvent)
    → e.id ≡ hi
    → Increasing lo q hi
    → Increasing lo (q ++ (e ∷ [])) (hi + 1)
Increasing-append lo [] hi e same i = (omega arith, omega arith)
Increasing-append lo (f ∷ q) hi e same i = (i.0, Increasing-append (f.id + 1) q hi e same i.1)

pub Increasing-retain :
    (p : TimedEvent → Bool) (lo : ℕ) (q : List TimedEvent) (hi : ℕ)
    → Increasing lo q hi
    → Increasing lo (retain p q) hi
unfolding retain
Increasing-retain p lo [] hi i = i
Increasing-retain p lo (e ∷ q) hi i = elim (Bool-cases (p e)) [
  | inl keep ↦ rw keep (i.0, Increasing-retain p (e.id + 1) q hi i.1)
  | inr lose ↦ rw lose (
      Increasing-mono (e.id + 1) lo (retain p q) hi (omega arith)
        (Increasing-retain p (e.id + 1) q hi i.1))
]

-- What `remove_first` returns: the first event that passes, and the queue without it.
pub data Removed (p : TimedEvent → Bool) (e : TimedEvent)
    : List TimedEvent → List TimedEvent → Type 0 where
  first : {q : List TimedEvent} → p e ≡ true → Removed p e (e ∷ q) q
  later :
      {f : TimedEvent} {q r : List TimedEvent}
      → p f ≡ false
      → Removed p e q r
      → Removed p e (f ∷ q) (f ∷ r)

Removed-of :
    {p : TimedEvent → Bool} {l : List TimedEvent} (x y : TimedEvent × List TimedEvent)
    → some x ≡ some y
    → Removed p x.0 l x.1
    → Removed p y.0 l y.1
Removed-of {p} {l} x y h rm = subst (λ z. Removed p z.0 l z.1) (some-injective x y h) rm

pub remove_first_lem :
    (p : TimedEvent → Bool) (q : List TimedEvent) {e : TimedEvent} {r : List TimedEvent}
    → remove_first p q ≡ some (e, r)
    → Removed p e q r
unfolding remove_first
remove_first_lem p [] h = cc
remove_first_lem p (f ∷ q) h = elim (Bool-cases (p f)) [
  | inl yes_f ↦ Removed-of _ _ (rw yes_f at h) (first yes_f)
  | inr no_f ↦ elim (Option-cases (remove_first p q)) [
    | inl nothing ↦ cc (rw (no_f, nothing) at h)
    | inr ((g, s), found) ↦
        Removed-of _ _ (rw (no_f, found) at h) (later no_f (remove_first_lem p q found))
  ]
]

pub remove_first-none :
    (p : TimedEvent → Bool) (q : List TimedEvent)
    → remove_first p q ≡ none
    → All (λ f. p f ≡ false) q
unfolding remove_first
remove_first-none p [] h = tt
remove_first-none p (f ∷ q) h = elim (Bool-cases (p f)) [
  | inl yes_f ↦ cc (rw yes_f at h)
  | inr no_f ↦ elim (Option-cases (remove_first p q)) [
    | inl nothing ↦ (no_f, remove_first-none p q nothing)
    | inr ((g, s), found) ↦ cc (rw (no_f, found) at h)
  ]
]

Increasing-All :
    (p : TimedEvent → Bool) (n lo : ℕ) (q : List TimedEvent) (hi : ℕ)
    → n < lo
    → Increasing lo q hi
    → All (λ f. p f ≡ true → n < f.id) q
Increasing-All p n lo [] hi h i = tt
Increasing-All p n lo (f ∷ q) hi h i =
    (λ _. omega arith, Increasing-All p n (f.id + 1) q hi (omega arith) i.1)

pub Increasing-Removed :
    {p : TimedEvent → Bool} {e : TimedEvent} {q r : List TimedEvent} (lo hi : ℕ)
    → Removed p e q r
    → Increasing lo q hi
    → Increasing lo r hi
Increasing-Removed {e} {r} lo hi (first yes_e) i =
    Increasing-mono (e.id + 1) lo r hi (omega arith) i.1
Increasing-Removed lo hi (later {f} no_f rm) i = (i.0, Increasing-Removed (f.id + 1) hi rm i.1)

-- An event that passes and stays has a greater id.
pub Removed-least :
    {p : TimedEvent → Bool} {e : TimedEvent} {q r : List TimedEvent} (lo hi : ℕ)
    → Removed p e q r
    → Increasing lo q hi
    → All (λ f. p f ≡ true → e.id < f.id) r
Removed-least {p} {e} {r} lo hi (first yes_e) i =
    Increasing-All p e.id (e.id + 1) r hi (omega arith) i.1
Removed-least lo hi (later {f} no_f rm) i = (λ yes_f. cc, Removed-least (f.id + 1) hi rm i.1)
