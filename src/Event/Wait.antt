-- ===== src/Event/Wait.antt =====
-- `vwait` of crates/rtcl-vm/src/interp/commands/event.rs in a round that fires nothing.
use rtcl.Prelude.{
  ℕ, zero, suc, ◌+◌, ◌-◌, ◌≤◌, ◌≡◌, ◌≢◌, refl, Bool, true, false, List, [], ◌∷◌, Option, none, some,
  arith, ap, ◌∙◌, sym, All, Option-cases, inl, inr, Bool-cases, ltb, leb, if◌then◌else◌,
}
use rtcl.Prelude.Decimal.{Text}
use rtcl.Event.{TimedEvent, Interp, Host, remove_first, is_ready}
use rtcl.Event.Fire.{process_loop-none, process_loop-some}
use rtcl.Event.Loop.{
  Run, done, process_loop, process_events, vwait_loop, vwait_round, wait_for, next_fire, same_value,
  is_empty,
}
use rtcl.Event.Order.{remove_first-none}

abbrev pub Found : (TimedEvent → Bool) → List TimedEvent → Type 0
Found p q = (r : TimedEvent × List TimedEvent) × (remove_first p q ≡ some r)

Found-cons :
    (p : TimedEvent → Bool) (e : TimedEvent) (q : List TimedEvent) → Found p q → Found p (e ∷ q)
unfolding remove_first
Found-cons p e q ((f, r), h) = elim (Bool-cases (p e)) [
  | inl yes_e ↦ ((e, q), rw yes_e)
  | inr no_e ↦ ((f, e ∷ r), rw (no_e, h))
]

Found-head :
    (p : TimedEvent → Bool) (e : TimedEvent) (q : List TimedEvent) → p e ≡ true → Found p (e ∷ q)
unfolding remove_first
Found-head p e q h = ((e, q), rw h)

not_idle : (now : ℕ) (e : TimedEvent) → is_ready now false e ≡ false → e.is_idle ≡ false
unfolding is_ready
not_idle now e h = ground arith

ready_at : (now : ℕ) (e : TimedEvent) → e.fire_at_ms ≤ now → is_ready now false e ≡ true
unfolding is_ready
ready_at now e h = elim (Bool-cases e.is_idle) [ inl i ↦ rw i | inr i ↦ rw i (ground arith) ]

-- A queue without an idle event has a least fire time, and from then on an event that is ready.
next_fire-Found :
    (now : ℕ) (e : TimedEvent) (q : List TimedEvent)
    → All (λ f. is_ready now false f ≡ false) (e ∷ q)
    → (m : ℕ) × (next_fire (e ∷ q) ≡ some m)
      × ((later : ℕ) → m ≤ later → Found (is_ready later false) (e ∷ q))
unfolding next_fire
next_fire-Found now e [] h = (
  e.fire_at_ms,
  rw (not_idle now e h.0),
  λ later le. Found-head (is_ready later false) e [] (ready_at later e le),
)
next_fire-Found now e (f ∷ q) h =
    let (m, found, due) = next_fire-Found now f q h.1 in
    (
      (if leb e.fire_at_ms m then e.fire_at_ms else m),
      rw (not_idle now e h.0, found),
      λ later le. elim (Bool-cases (leb e.fire_at_ms later)) [
        | inl soon ↦ Found-head (is_ready later false) e (f ∷ q) (ready_at later e (ground arith))
        | inr late ↦ Found-cons (is_ready later false) e (f ∷ q) (due later (ground arith))
      ],
    )

result_or {ℓ} : {S : Type 0} {A : Type ℓ} → A → Run S A → A
result_or a (done b) = b
result_or a r = a

done-injective {ℓ} :
    {S : Type 0} {A : Type ℓ} (a b : A) → ◌≡◌ {A = Run S A} (done a) (done b) → a ≡ b
unfolding result_or
done-injective a b h = ap (result_or a) h

module _ {W : Type 0} (host : Host W) where
  -- If the loop fires nothing, then nothing was ready, and the state is the same.
  process_loop-idle :
      (fuel now : ℕ) (idle_only : Bool) (s : Interp W) (fired : ℕ) (errors : Option (List Text))
      (s' : Interp W) (n : ℕ) (errors' : Option (List Text))
      → process_loop host fuel now idle_only s fired errors ≡ done (s', n, errors')
      → (fired ≤ n)
        × (n ≡ fired → (s' ≡ s) × (remove_first (is_ready now idle_only) s.event_queue ≡ none))
  unfolding process_loop
  process_loop-idle zero now idle_only s fired errors s' n errors' h = cc
  process_loop-idle (suc fuel) now idle_only s fired errors s' n errors' h =
      elim (Option-cases (remove_first (is_ready now idle_only) s.event_queue)) [
        | inl nothing ↦
            let same =
              done-injective (s, fired, errors) (s', n, errors')
                (sym (process_loop-none host fuel now idle_only s fired errors nothing) ∙ h) in
            (omega (arith, ap (λ r. r.1) same), λ _. (sym (ap (λ r. r.0) same), nothing))
        | inr ((e, q), found) ↦
            let ih =
              process_loop-idle fuel now idle_only _ (fired + 1) _ s' n errors'
                (sym (process_loop-some host fuel now idle_only s fired errors e q found) ∙ h) in
            (omega (arith, ih.0), λ same. absurd (omega (arith, ih.0)))
      ]

  -- What the clock promises: a sleep succeeds and takes as long as it was asked to.
  abbrev pub Sleeps : Type 0
  Sleeps =
      (ms : ℕ) (w : W)
      → (w' : W) × (host.sleep_ms ms w ≡ (w', none)) × (host.now_ms w + ms ≤ host.now_ms w')

  -- The wait goes on in a state in which an event is ready.
  wait_for-Found :
      Sleeps
      → (rounds : ℕ) (more : Interp W → Run (Interp W) (Interp W)) (fire_at : ℕ) (s : Interp W)
      → ((later : ℕ) → fire_at ≤ later → Found (is_ready later false) s.event_queue)
      → (u : Interp W) × (wait_for host rounds more (some fire_at) s ≡ more u)
        × (u.event_queue ≡ s.event_queue)
        × Found (is_ready (host.now_ms u.world) false) u.event_queue
  unfolding wait_for
  wait_for-Found sleeps rounds more fire_at s due =
      elim (Bool-cases (ltb (host.now_ms s.world) fire_at)) [
        | inl early ↦
            let (w, slept, long) = sleeps (fire_at - host.now_ms s.world) s.world in
            (record s { world = w }, rw (early, slept), refl, due (host.now_ms w) (ground arith))
        | inr late ↦ (s, rw late, refl, due (host.now_ms s.world) (ground arith))
      ]

  vwait_round-waits :
      (rounds : ℕ) (more : Interp W → Run (Interp W) (Interp W)) (name : Text)
      (initial : Option Text) (s : Interp W) (fire : Option ℕ)
      → same_value (host.get_var name s.world) initial ≡ true
      → is_empty host s.event_queue ≡ false
      → next_fire s.event_queue ≡ fire
      → vwait_round host rounds more name initial s 0 ≡ wait_for host rounds more fire s
  unfolding vwait_round
  vwait_round-waits rounds more name initial s fire unchanged full found =
      rw (unchanged, full, found)

  -- The least fire time of a queue that is not empty, and what is ready from then on.
  first_due :
      (now : ℕ) (q : List TimedEvent)
      → q ≢ []
      → All (λ f. is_ready now false f ≡ false) q
      → (is_empty host q ≡ false)
        × ((m : ℕ) × (next_fire q ≡ some m)
            × ((later : ℕ) → m ≤ later → Found (is_ready later false) q))
  first_due now [] full h = absurd (full refl)
  first_due now (e ∷ q) full h = (refl, next_fire-Found now e q h)

  -- The clock's promise given, a round of `vwait` that fires nothing, while the queue is not empty
  -- and the variable is as before, waits and goes on to a round that finds an event ready.
  pub vwait_loop-Found :
      Sleeps
      → (rounds fuel : ℕ) (name : Text) (initial : Option Text) (s s' : Interp W)
        (errors : Option (List Text))
      → process_events host rounds false none s ≡ done (s', 0, errors)
      → s'.event_queue ≢ []
      → same_value (host.get_var name s'.world) initial ≡ true
      → (u : Interp W) × (vwait_loop host rounds (suc fuel) name initial s
          ≡ vwait_loop host rounds fuel name initial u)
        × (u.event_queue ≡ s'.event_queue)
        × Found (is_ready (host.now_ms u.world) false) u.event_queue
  unfolding vwait_loop process_events
  vwait_loop-Found sleeps rounds fuel name initial s s' errors idle full unchanged =
      let now = host.now_ms s.world in
      let (same, nothing) = (process_loop-idle rounds now false s 0 none s' 0 errors idle).1 refl in
      let none_ready =
        remove_first-none (is_ready now false) s'.event_queue
          (ap (λ t. remove_first (is_ready now false) t.event_queue) same ∙ nothing) in
      let (empty_not, least) = first_due now s'.event_queue full none_ready in
      let (m, found, due) = least in
      let more = vwait_loop host rounds fuel name initial in
      let (u, waited, keeps, ready) = wait_for-Found sleeps rounds more m s' due in
      (
        u,
        rw idle (
            vwait_round-waits rounds more name initial s' (some m) unchanged empty_not found
            ∙ waited),
        keeps,
        ready,
      )
