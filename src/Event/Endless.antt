-- ===== src/Event/Endless.antt =====
-- The loops of crates/rtcl-vm/src/interp/commands/event.rs on a script that schedules itself by
-- `after idle`.
use rtcl.Prelude.{
  ℕ, zero, suc, ◌+◌, ◌≡◌, refl, Bool, true, false, List, [], ◌∷◌, ◌++◌, Option, none, ap, ◌∙◌, All,
  Option-cases, inl, inr, ◌⊎◌,
}
use rtcl.Prelude.Decimal.{Text}
use rtcl.Event.{TimedEvent, Interp, Host, remove_first, is_ready, schedule_event}
use rtcl.Event.Fire.{process_loop-some}
use rtcl.Event.Loop.{
  out_of_fuel, process_loop, process_events, update_loop, cmd_update, update_next, vwait_next,
  cmd_vwait,
}
use rtcl.Event.Order.{Removed, first, later, remove_first_lem, remove_first-none}

abbrev pub HasIdle : List TimedEvent → Type 0
HasIdle [] = ⊥
HasIdle (e ∷ q) = (e.is_idle ≡ true) ⊎ HasIdle q

abbrev pub Runs : Text → TimedEvent → Type 0
Runs script e = e.script ≡ script

HasIdle-append : (q : List TimedEvent) (e : TimedEvent) → e.is_idle ≡ true → HasIdle (q ++ (e ∷ []))
HasIdle-append [] e h = inl h
HasIdle-append (f ∷ q) e h = inr (HasIdle-append q e h)

All-append :
    (script : Text) (q : List TimedEvent) (e : TimedEvent)
    → All (Runs script) q
    → Runs script e
    → All (Runs script) (q ++ (e ∷ []))
All-append script [] e a r = (r, tt)
All-append script (f ∷ q) e a r = (a.0, All-append script q e a.1 r)

idle_is_ready :
    (now : ℕ) (idle_only : Bool) (e : TimedEvent)
    → e.is_idle ≡ true
    → is_ready now idle_only e ≡ true
unfolding is_ready
idle_is_ready now true e h = h
idle_is_ready now false e h = rw h

not-HasIdle :
    (now : ℕ) (idle_only : Bool) (q : List TimedEvent)
    → All (λ e. is_ready now idle_only e ≡ false) q
    → HasIdle q
    → ⊥
not-HasIdle now idle_only [] a h = h
not-HasIdle now idle_only (e ∷ q) a (inl h) = cc (idle_is_ready now idle_only e h)
not-HasIdle now idle_only (e ∷ q) a (inr h) = not-HasIdle now idle_only q a.1 h

Removed-Runs :
    {p : TimedEvent → Bool} {e : TimedEvent} {q r : List TimedEvent} (script : Text)
    → Removed p e q r
    → All (Runs script) q
    → Runs script e × All (Runs script) r
Removed-Runs script (first h) a = a
Removed-Runs script (later h rm) a = let ih = Removed-Runs script rm a.1 in (ih.0, (a.0, ih.1))

module _ {W : Type 0} (host : Host W) (script : Text)
    (again : (s : Interp W)
      → (host.eval_isolated script s).0 ≡ (schedule_event host 0 script true s).0) where
  next_queue :
      (e : TimedEvent) (q : List TimedEvent) (s : Interp W)
      → Runs script e
      → (host.eval_isolated e.script (record s { event_queue = q })).0.event_queue
        ≡ q
          ++ (record { id = s.next_event_id; fire_at_ms = 0; script = script; is_idle = true } ∷ [])
  unfolding schedule_event
  next_queue e q s r =
      ap (λ t. (host.eval_isolated t (record s { event_queue = q })).0.event_queue) r
      ∙ ap (λ (t : Interp W). t.event_queue) (again (record s { event_queue = q }))

  process_loop-endless :
      (fuel now : ℕ) (idle_only : Bool) (s : Interp W) (fired : ℕ) (errors : Option (List Text))
      (queue : List TimedEvent)
      → s.event_queue ≡ queue
      → All (Runs script) queue
      → HasIdle queue
      → process_loop host fuel now idle_only s fired errors ≡ out_of_fuel
  unfolding process_loop
  process_loop-endless zero now idle_only s fired errors queue same a h = refl
  process_loop-endless (suc fuel) now idle_only s fired errors queue same a h =
      let p = is_ready now idle_only in
      elim (Option-cases (remove_first p queue)) [
        | inl nothing ↦
            absurd (not-HasIdle now idle_only queue (remove_first-none p queue nothing) h)
        | inr ((e, q), found) ↦
            let runs = Removed-Runs script (remove_first_lem p queue found) a in
            process_loop-some host fuel now idle_only s fired errors e q
              (ap (remove_first p) same ∙ found)
            ∙ process_loop-endless fuel now idle_only _ (fired + 1) _ _ (next_queue e q s runs.0)
                (All-append script q _ runs.1 refl) (HasIdle-append q _ refl)
      ]

  -- If every event of the queue runs a script that schedules itself by `after idle`, and one of them
  -- is idle, then no number of rounds is enough for `process_events`, `update` or `vwait`: they do not
  -- return.
  pub endless :
      (fuel : ℕ) (idle_only : Bool) (errors : Option (List Text)) (name : Text) (s : Interp W)
      → All (Runs script) s.event_queue
      → HasIdle s.event_queue
      → (process_events host fuel idle_only errors s ≡ out_of_fuel)
        × (cmd_update host fuel [] s ≡ out_of_fuel)
        × (cmd_vwait host fuel (name ∷ []) s ≡ out_of_fuel)
  unfolding process_events cmd_update cmd_vwait
  endless zero idle_only errors name s a h = (refl, refl, refl)
  endless (suc fuel) idle_only errors name s a h =
      let stuck =
        process_loop-endless (suc fuel) (host.now_ms s.world) false s 0 none s.event_queue refl a
          h in
      (
        process_loop-endless (suc fuel) _ idle_only s 0 errors s.event_queue refl a h,
        ap (update_next host (update_loop host (suc fuel) fuel false)) stuck,
        ap (vwait_next host _) stuck,
      )
