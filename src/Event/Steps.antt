-- ===== src/Event/Steps.antt =====
-- What the code of crates/rtcl-vm/src/interp/commands/event.rs may do to the queue, as a relation
-- of steps, and the loops and commands as sequences of such steps.
use rtcl.Prelude.{
  ℕ, zero, suc, ◌+◌, ◌<◌, ◌%◌, ◌≡◌, refl, Bool, List, [], ◌∷◌, ◌++◌, Option, some, arith,
  Option-cases, inl, inr,
}
use rtcl.Prelude.Decimal.{Text, word_size}
use rtcl.Event.{TimedEvent, Interp, Host, remove_first, is_ready, push_event, cancel}
use rtcl.Event.Loop.{Run, done, failed, out_of_fuel, process_loop}
use rtcl.Event.Fire.{process_loop-none, process_loop-some}
use rtcl.Event.Order.{
  Increasing, Increasing-append, Increasing-retain, Increasing-Removed, remove_first_lem,
}

Increasing-push :
    (q : List TimedEvent) (e : TimedEvent)
    → e.id + 1 < word_size
    → Increasing 0 q e.id
    → Increasing 0 (q ++ (e ∷ [])) ((e.id + 1) % word_size)
Increasing-push q e small i =
    let wraps_not : (e.id + 1) % word_size ≡ e.id + 1 = omega arith in
    rw wraps_not (Increasing-append 0 q e.id e refl i)

module _ {W : Type 0} where
  -- One step. An id may be given out if it is not the last of the 2^64.
  pub data Act (s : Interp W) (u : Interp W) : Type 0 where
    outside : u.event_queue ≡ s.event_queue → u.next_event_id ≡ s.next_event_id → Act s u
    push :
        (fire_at : ℕ) (script : Text) (idle : Bool)
        → s.next_event_id + 1 < word_size
        → u ≡ (push_event fire_at script idle s).0
        → Act s u
    drop : (keep : TimedEvent → Bool) → u ≡ cancel keep s → Act s u
    take :
        (p : TimedEvent → Bool) (e : TimedEvent) (q : List TimedEvent)
        → remove_first p s.event_queue ≡ some (e, q)
        → u ≡ record s { event_queue = q }
        → Act s u

  pub data Acts (s : Interp W) : Interp W → Type 0 where
    here : Acts s s
    next : {t u : Interp W} → Acts s t → Act t u → Acts s u

  pub Acts-trans : {s t u : Interp W} → Acts s t → Acts t u → Acts s u
  Acts-trans st here = st
  Acts-trans st (next tu a) = next (Acts-trans st tu) a

  pub one : {s u : Interp W} → Act s u → Acts s u
  one a = next here a

  -- The queue stands in the order in which the events were scheduled, no id twice, and the next id
  -- is new.
  abbrev pub IsOrdered : Interp W → Type 0
  IsOrdered s = Increasing 0 s.event_queue s.next_event_id

  Act-IsOrdered : {s u : Interp W} → Act s u → IsOrdered s → IsOrdered u
  unfolding push_event cancel
  Act-IsOrdered {s} {u} (outside same_queue same_id) o = rw (same_queue, same_id) o
  Act-IsOrdered {s} {u} (push fire_at script idle small e) o =
      rw e (Increasing-push s.event_queue _ small o)
  Act-IsOrdered {s} {u} (drop keep e) o =
      rw e (Increasing-retain keep 0 s.event_queue s.next_event_id o)
  Act-IsOrdered {s} {u} (take p f q h e) o =
      rw e (Increasing-Removed 0 s.next_event_id (remove_first_lem p s.event_queue h) o)

  pub Acts-IsOrdered : {s u : Interp W} → Acts s u → IsOrdered s → IsOrdered u
  Acts-IsOrdered here o = o
  Acts-IsOrdered (next r a) o = Act-IsOrdered a (Acts-IsOrdered r o)

module _ {W : Type 0} (host : Host W)
    (acts : (script : Text) (s : Interp W) → Acts s (host.eval_isolated script s).0) where
  -- Where a loop ends, it has taken such steps.
  abbrev pub After {ℓ} : {A : Type ℓ} → (A → Interp W) → Interp W → Run (Interp W) A → Type 0
  After final s (done r) = Acts s (final r)
  After final s (failed u e) = Acts s u
  After final s out_of_fuel = Unit

  pub After-trans {ℓ} :
      {A : Type ℓ} (final : A → Interp W) {s t : Interp W} (r : Run (Interp W) A)
      → Acts s t
      → After final t r
      → After final s r
  After-trans final (done r) st a = Acts-trans st a
  After-trans final (failed u e) st a = Acts-trans st a
  After-trans final out_of_fuel st a = a

  pub process_loop-Acts :
      (fuel now : ℕ) (idle_only : Bool) (s : Interp W) (fired : ℕ) (errors : Option (List Text))
      → After (λ r. r.0) s (process_loop host fuel now idle_only s fired errors)
  unfolding process_loop
  process_loop-Acts zero now idle_only s fired errors = tt
  process_loop-Acts (suc fuel) now idle_only s fired errors =
      elim (Option-cases (remove_first (is_ready now idle_only) s.event_queue)) [
        | inl nothing ↦ rw (process_loop-none host fuel now idle_only s fired errors nothing) here
        | inr ((e, q), found) ↦
            rw (process_loop-some host fuel now idle_only s fired errors e q found) (
              After-trans (λ r. r.0) _ (Acts-trans (one (take _ e q found refl)) (acts e.script _))
                (process_loop-Acts fuel now idle_only _ (fired + 1) _))
      ]
