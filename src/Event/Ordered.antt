-- ===== src/Event/Ordered.antt =====
-- The order of the queue under the commands and loops of
-- crates/rtcl-vm/src/interp/commands/event.rs.
use rtcl.Prelude.{
  ℕ, suc, ◌+◌, ◌<◌, ◌≡◌, refl, Bool, true, false, List, [], ◌∷◌, Option, none, some, All, if_intro,
  codes,
}
use rtcl.Prelude.Decimal.{Text, word_size, eq_text, parse_u64}
use rtcl.Event.{TimedEvent, Interp, Host, Error, Result, post_event, remove_first, is_ready}
use rtcl.Event.After.{
  schedule_command, after_idle, after_cancel, cancel_target, after_info, after_ms, slept, cmd_after,
  join, event_id,
}
use rtcl.Event.Loop.{
  Run, done, failed, out_of_fuel, process_loop, cmd_update, pump_events, cmd_vwait, collect,
}
use rtcl.Event.Fire.{process_loop-some, evaluated}
use rtcl.Event.Order.{remove_first_lem, Removed-least, Removed}
use rtcl.Event.Runs.{cmd_update-Acts, pump_loop-Acts, cmd_vwait-Acts}
use rtcl.Event.Steps.{outside, push, drop, Acts, here, one, IsOrdered, Acts-IsOrdered, After}

module _ {W : Type 0} (host : Host W) (s : Interp W) (room : s.next_event_id + 1 < word_size) where
  schedule_command-Acts :
      (delay : ℕ) (script : Text) (idle : Bool)
      → Acts s (schedule_command host delay script idle s).0
  unfolding schedule_command
  schedule_command-Acts delay script idle = one (push _ script idle room refl)

  cancel_target-Acts : (id : Option ℕ) (script : Text) → Acts s (cancel_target host id script s).0
  cancel_target-Acts none script = one (drop _ refl)
  cancel_target-Acts (some id) script = one (drop _ refl)

  after_idle-Acts : (ts : List Text) → Acts s (after_idle host ts s).0
  unfolding after_idle
  after_idle-Acts [] = here
  after_idle-Acts (t ∷ ts) = schedule_command-Acts 0 (join (t ∷ ts)) true

  after_cancel-Acts : (ts : List Text) → Acts s (after_cancel host ts s).0
  unfolding after_cancel
  after_cancel-Acts [] = here
  after_cancel-Acts (t ∷ ts) = cancel_target-Acts (event_id t) (join (t ∷ ts))

  after_info-Acts : (ts : List Text) → Acts s (after_info host ts s).0
  unfolding after_info
  after_info-Acts [] = here
  after_info-Acts (t ∷ []) = here
  after_info-Acts (t ∷ u ∷ ts) = here

  slept-Acts : (w : W × Option Text) → Acts s (slept host s w).0
  slept-Acts (w, none) = one (outside refl refl)
  slept-Acts (w, some e) = one (outside refl refl)

  after_ms-Acts :
      (sub : Text) (ms : Option ℕ) (ts : List Text) → Acts s (after_ms host sub ms ts s).0
  after_ms-Acts sub none ts = here
  after_ms-Acts sub (some ms) [] = slept-Acts (host.sleep_ms ms s.world)
  after_ms-Acts sub (some ms) (t ∷ ts) = schedule_command-Acts ms (join (t ∷ ts)) false

  cmd_after-Acts : (ts : List Text) → Acts s (cmd_after host ts s).0
  unfolding cmd_after
  cmd_after-Acts [] = here
  cmd_after-Acts (sub ∷ ts) =
      if_intro (λ (r : Interp W × Result Text). Acts s r.0) (eq_text sub (codes "cancel"))
        (λ _. after_cancel-Acts ts)
        λ _.
          if_intro (λ (r : Interp W × Result Text). Acts s r.0) (eq_text sub (codes "info"))
            (λ _. after_info-Acts ts)
            λ _.
              if_intro (λ (r : Interp W × Result Text). Acts s r.0) (eq_text sub (codes "idle"))
                (λ _. after_idle-Acts ts) (λ _. after_ms-Acts sub (parse_u64 sub) ts)

  post_event-Acts : (script : Text) → Acts s (post_event script s)
  unfolding post_event
  post_event-Acts script = one (push 0 script false room refl)

  -- If the queue stands in the order of scheduling, no id twice and none the next one, then it does
  -- so after every form of `after` and after an injected event, unless the ids are used up.
  pub IsOrdered-cmd_after :
      (ts : List Text) (script : Text)
      → IsOrdered s
      → IsOrdered (cmd_after host ts s).0 × IsOrdered (post_event script s)
  IsOrdered-cmd_after ts script o =
      (Acts-IsOrdered (cmd_after-Acts ts) o, Acts-IsOrdered (post_event-Acts script) o)

-- The queue is ordered where a loop ends, with or without an error.
abbrev pub EndsOrdered {ℓ} : {W : Type 0} {A : Type ℓ} → (A → Interp W) → Run (Interp W) A → Type 0
EndsOrdered final (done r) = IsOrdered (final r)
EndsOrdered final (failed s e) = IsOrdered s
EndsOrdered final out_of_fuel = Unit

module _ {W : Type 0} (host : Host W)
    (acts : (script : Text) (s : Interp W) → Acts s (host.eval_isolated script s).0) where
  EndsOrdered-After {ℓ} :
      {A : Type ℓ} (final : A → Interp W) (s : Interp W) (r : Run (Interp W) A)
      → IsOrdered s
      → After host acts final s r
      → EndsOrdered final r
  EndsOrdered-After final s (done r) o a = Acts-IsOrdered a o
  EndsOrdered-After final s (failed u e) o a = Acts-IsOrdered a o
  EndsOrdered-After final s out_of_fuel o a = tt

  -- If scripts change the queue only by the steps that the commands take, then `vwait`, `update` and
  -- `pump_events`, whatever ends them, leave an ordered queue ordered.
  pub EndsOrdered-loops :
      (fuel : ℕ) (names ts : List Text) (show : Error → Text) (s : Interp W)
      → IsOrdered s
      → EndsOrdered (λ u. u) (cmd_vwait host fuel names s)
        × EndsOrdered (λ u. u) (cmd_update host fuel ts s)
        × EndsOrdered (λ u. u.0) (pump_events host show fuel s)
  unfolding pump_events
  EndsOrdered-loops fuel names ts show s o = (
    EndsOrdered-After (λ u. u) s _ o (cmd_vwait-Acts host acts fuel names s),
    EndsOrdered-After (λ u. u) s _ o (cmd_update-Acts host acts fuel ts s),
    EndsOrdered-After (λ u. u.0) s _ o (pump_loop-Acts host acts show fuel fuel [] s),
  )

module _ {W : Type 0} (host : Host W) where
  Removed-passes :
      {p : TimedEvent → Bool} {e : TimedEvent} {q r : List TimedEvent}
      → Removed p e q r
      → p e ≡ true
  Removed-passes (Removed.first h) = h
  Removed-passes (Removed.later h r) = Removed-passes r

  -- Where a round of `process_events` fires an event on an ordered queue, that event is ready and
  -- is the one that was scheduled first of all ready events: every other has a greater id.
  pub process_loop-first :
      (fuel now : ℕ) (idle_only : Bool) (s : Interp W) (fired : ℕ) (errors : Option (List Text))
      {e : TimedEvent} {q : List TimedEvent}
      → IsOrdered s
      → remove_first (is_ready now idle_only) s.event_queue ≡ some (e, q)
      → (process_loop host (suc fuel) now idle_only s fired errors
          ≡ process_loop host fuel now idle_only
              (evaluated host fuel now idle_only s fired errors e q).0
              (fired + 1)
              (collect (evaluated host fuel now idle_only s fired errors e q).1 errors))
        × (is_ready now idle_only e ≡ true)
        × All (λ f. is_ready now idle_only f ≡ true → e.id < f.id) q
  process_loop-first fuel now idle_only s fired errors {e} {q} o h =
      let rm = remove_first_lem (is_ready now idle_only) s.event_queue h in
      (
        process_loop-some host fuel now idle_only s fired errors e q h,
        Removed-passes rm,
        Removed-least 0 s.next_event_id rm o,
      )
