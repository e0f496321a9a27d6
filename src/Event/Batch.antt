-- ===== src/Event/Batch.antt =====
-- `process_events` of crates/rtcl-vm/src/interp/commands/event.rs beside a fold over the events that
-- are ready.
use rtcl.Prelude.{
  ℕ, zero, suc, ◌+◌, ◌<◌, ◌≡◌, refl, Bool, false, not, List, [], ◌∷◌, Option, length, arith, ap,
  ◌∙◌, sym, Option-cases, All, inl, inr,
}
use rtcl.Prelude.Decimal.{Text}
use rtcl.Event.{TimedEvent, Interp, Host, retain, remove_first, is_ready}
use rtcl.Event.Fire.{process_loop-none, process_loop-some}
use rtcl.Event.Loop.{done, process_loop, process_events, collect}
use rtcl.Event.Order.{Removed, first, later, remove_first_lem, remove_first-none}

abbrev pub waits : (TimedEvent → Bool) → TimedEvent → Bool
waits p e = not (p e)

retain-Removed :
    {p : TimedEvent → Bool} {e : TimedEvent} {q r : List TimedEvent}
    → Removed p e q r
    → (retain p q ≡ e ∷ retain p r)
      × (retain (waits p) q ≡ retain (waits p) r)
      × (length q ≡ suc (length r))
unfolding retain
retain-Removed (first h) = (rw h, rw h, refl)
retain-Removed (later {f} h rm) =
    let ih = retain-Removed rm in (rw h ih.0, rw h (ap (λ t. f ∷ t) ih.1), ap suc ih.2)

retain-none :
    (p : TimedEvent → Bool) (q : List TimedEvent)
    → All (λ e. p e ≡ false) q
    → (retain p q ≡ []) × (retain (waits p) q ≡ q)
unfolding retain
retain-none p [] h = (refl, refl)
retain-none p (e ∷ q) h =
    let ih = retain-none p q h.1 in (rw h.0 ih.0, rw h.0 (ap (λ t. e ∷ t) ih.1))

-- `run` is what a script does to the world, and the message of its error.
module _ {W : Type 0} (run : Text → W → W × Option Text) where
  -- The scripts of the events, one after another.
  unfoldable pub run_all : List TimedEvent → W → Option (List Text) → W × Option (List Text)
  run_all [] w errors = (w, errors)
  run_all (e ∷ q) w errors = run_all q (run e.script w).0 (collect (run e.script w).1 errors)

  -- A host whose scripts leave the queue alone.
  abbrev pub LeavesQueue : Host W → Type 0
  LeavesQueue host =
      (script : Text) (s : Interp W)
      → host.eval_isolated script s
        ≡ (record s { world = (run script s.world).0 }, (run script s.world).1)

  -- The events that are due have run, and the others stay.
  abbrev ran :
      List TimedEvent
      → List TimedEvent
      → Interp W
      → ℕ
      → Option (List Text)
      → Interp W × ℕ × Option (List Text)
  ran due stay s fired errors = (
    record s { event_queue = stay; world = (run_all due s.world errors).0 },
    fired + length due,
    (run_all due s.world errors).1,
  )

  ran-nil :
      (s : Interp W) (fired : ℕ) (errors : Option (List Text))
      → ran [] s.event_queue s fired errors ≡ (s, fired, errors)
  unfolding run_all
  ran-nil s fired errors = ap (λ n. (s, n, errors)) (omega arith)

  ran-cons :
      (e : TimedEvent) (due stay q : List TimedEvent) (s : Interp W) (fired : ℕ)
      (errors : Option (List Text))
      → ran due stay
          (record s { event_queue = q; world = (run e.script s.world).0 })
          (fired + 1)
          (collect (run e.script s.world).1 errors)
        ≡ ran (e ∷ due) stay s fired errors
  unfolding run_all
  ran-cons e due stay q s fired errors =
      let r = ran (e ∷ due) stay s fired errors in ap (λ n. (r.0, n, r.2)) (omega arith)

  process_loop-ran :
      (host : Host W)
      → LeavesQueue host
      → (fuel now : ℕ) (idle_only : Bool) (s : Interp W) (fired : ℕ) (errors : Option (List Text))
      → length s.event_queue < fuel
      → process_loop host fuel now idle_only s fired errors
        ≡ done (
            ran
              (retain (is_ready now idle_only) s.event_queue)
              (retain (waits (is_ready now idle_only)) s.event_queue)
              s
              fired
              errors)
  process_loop-ran host quiet zero now idle_only s fired errors h = absurd (omega arith)
  process_loop-ran host quiet (suc fuel) now idle_only s fired errors h =
      let p = is_ready now idle_only in
      elim (Option-cases (remove_first p s.event_queue)) [
        | inl nothing ↦
            let eqs = retain-none p s.event_queue (remove_first-none p s.event_queue nothing) in
            process_loop-none host fuel now idle_only s fired errors nothing
            ∙ ap done (sym (ran-nil s fired errors))
            ∙ ap (λ l. done (ran l s.event_queue s fired errors)) (sym eqs.0)
            ∙ ap (λ l. done (ran (retain p s.event_queue) l s fired errors)) (sym eqs.1)
        | inr ((e, q), found) ↦
            let eqs = retain-Removed (remove_first_lem p s.event_queue found) in
            process_loop-some host fuel now idle_only s fired errors e q found
            ∙ ap (λ r. process_loop host fuel now idle_only r.0 (fired + 1) (collect r.1 errors))
                (quiet e.script (record s { event_queue = q }))
            ∙ process_loop-ran host quiet fuel now idle_only _ (fired + 1) _ (omega (arith, eqs.2))
            ∙ ap done (ran-cons e (retain p q) (retain (waits p) q) q s fired errors)
            ∙ ap (λ l. done (ran l (retain (waits p) q) s fired errors)) (sym eqs.0)
            ∙ ap (λ l. done (ran (retain p s.event_queue) l s fired errors)) (sym eqs.1)
      ]

  -- If scripts leave the queue alone, then one round more than there are events is enough for
  -- `process_events`: it runs the scripts of the events that are ready, in the order of the queue,
  -- keeps the others in theirs, and returns how many it ran and the messages of their errors.
  pub process_events-ran :
      (host : Host W)
      → LeavesQueue host
      → (idle_only : Bool) (errors : Option (List Text)) (s : Interp W)
      → let p = is_ready (host.now_ms s.world) idle_only in
        let due = retain p s.event_queue in
        process_events host (length s.event_queue + 1) idle_only errors s
        ≡ done (
          record s {
            event_queue = retain (waits p) s.event_queue;
            world = (run_all due s.world errors).0;
          },
          length due,
          (run_all due s.world errors).1,
        )
  unfolding process_events
  process_events-ran host quiet idle_only errors s =
      let p = is_ready (host.now_ms s.world) idle_only in
      let after = run_all (retain p s.event_queue) s.world errors in
      let stay = retain (waits p) s.event_queue in
      process_loop-ran host quiet (length s.event_queue + 1) _ idle_only s 0 errors (omega arith)
      ∙ ap (λ n. done (record s { event_queue = stay; world = after.0 }, n, after.1)) (omega arith)
