-- ===== src/Event/Tests.antt =====
-- Runs of the event loop of crates/rtcl-vm/src/interp/commands/event.rs on a clock that counts, and
-- the theorems at such runs.
use rtcl.Prelude.{
  ℕ, ◌+◌, ◌<◌, ◌≡◌, refl, Bool, true, false, [], ◌∷◌, Option, none, some, codes, arith, All, length,
  inl,
}
use rtcl.Prelude.Decimal.{Text, digits}
use rtcl.Event.{
  TimedEvent, Interp, Host, Error, ok, err, schedule_event, remove_first, is_ready, retain,
  push_event, post_event,
}
use rtcl.Event.After.{cmd_after, schedule_command}
use rtcl.Event.Batch.{process_events-ran, run_all, waits}
use rtcl.Event.Endless.{endless}
use rtcl.Event.Loop.{
  done, failed, out_of_fuel, process_loop, process_events, cmd_vwait, cmd_update, pump_events,
  vwait_loop,
}
use rtcl.Event.Names.{schedule_command-names}
use rtcl.Event.Ordered.{IsOrdered-cmd_after, EndsOrdered-loops, EndsOrdered, process_loop-first}
use rtcl.Event.Steps.{Acts, outside, one, IsOrdered}
use rtcl.Event.Wait.{vwait_loop-Found, Sleeps, Found}

-- The world is the clock; each script takes a millisecond, and no variable is ever set.
abbrev ticking : Host ℕ
ticking = record {
  now_ms = λ w. w;
  sleep_ms = λ ms w. (w + ms, none);
  get_var = λ name w. none;
  eval_isolated = λ script s. (record s { world = s.world + 1 }, none);
}

-- Each script schedules itself.
abbrev again_and_again : Host ℕ
again_and_again = record {
  now_ms = λ w. w;
  sleep_ms = λ ms w. (w + ms, none);
  get_var = λ name w. none;
  eval_isolated = λ script s. ((push_event 0 script true s).0, none);
}

abbrev event : ℕ → ℕ → Bool → TimedEvent
event id fire_at idle = record { id = id; fire_at_ms = fire_at; script = codes "x"; is_idle = idle }

abbrev later_one : Interp ℕ
later_one = record {
  event_queue = event 1 70 false ∷ event 2 50 false ∷ [];
  next_event_id = 3;
  world = 10;
}

abbrev mixed : Interp ℕ
mixed = record {
  event_queue = event 1 70 false ∷ event 2 0 true ∷ event 4 5 false ∷ [];
  next_event_id = 5;
  world = 10;
}

after_schedules : cmd_after ticking (codes "25" ∷ codes "set" ∷ codes "x" ∷ []) later_one ≡ (
  record later_one {
    event_queue =
        event 1 70 false
        ∷ event 2 50 false
        ∷ record { id = 3; fire_at_ms = 35; script = codes "set x"; is_idle = false }
        ∷ [];
    next_event_id = 4;
  },
  ok (codes "after#3"),
)
unfolding cmd_after digits
after_schedules = refl

after_info_lists :
    (cmd_after ticking (codes "info" ∷ []) mixed).1 ≡ ok (codes "after#1 after#2 after#4")
unfolding cmd_after digits
after_info_lists = refl

after_bad : (cmd_after ticking (codes "-5" ∷ []) mixed).1 ≡ err (Error.bad_argument (codes "-5"))
unfolding cmd_after
after_bad = refl

-- The greatest delay wraps: the event is ready at once.
after_wraps :
    (schedule_event ticking 18446744073709551615 (codes "x") false mixed).0.event_queue
    ≡ event 1 70 false ∷ event 2 0 true ∷ event 4 5 false ∷ event 5 9 false ∷ []
unfolding schedule_event
after_wraps = refl

update_fires :
    cmd_update ticking 5 [] mixed
    ≡ done (record mixed { event_queue = event 1 70 false ∷ []; world = 12 })
unfolding cmd_update
update_fires = refl

vwait_gives_up :
    cmd_vwait ticking 9 (codes "v" ∷ []) later_one
    ≡ failed (record later_one { event_queue = []; world = 71 }) (Error.wait_forever (codes "v"))
unfolding cmd_vwait
vwait_gives_up = refl

acts : (script : Text) (s : Interp ℕ) → Acts s (ticking.eval_isolated script s).0
acts script s = one (outside refl refl)

sleeps : Sleeps ticking
sleeps ms w = (w + ms, refl, omega arith)

process_events_idle : process_events ticking 4 false none later_one ≡ done (later_one, 0, none)
unfolding process_events
process_events_idle = refl

first_ready :
    remove_first (is_ready 10 false) mixed.event_queue
    ≡ some (event 2 0 true, event 1 70 false ∷ event 4 5 false ∷ [])
unfolding remove_first is_ready
first_ready = refl

abbrev tick_script : Text → ℕ → ℕ × Option Text
tick_script script w = (w + 1, none)

process_events-ran_example :
    process_events ticking 4 false none mixed
    ≡ done (
      record mixed {
        event_queue = retain (waits (is_ready 10 false)) mixed.event_queue;
        world = (run_all tick_script (retain (is_ready 10 false) mixed.event_queue) 10 none).0;
      },
      length (retain (is_ready 10 false) mixed.event_queue),
      (run_all tick_script (retain (is_ready 10 false) mixed.event_queue) 10 none).1,
    )
process_events-ran_example =
    process_events-ran tick_script ticking (λ script s. refl) false none mixed

EndsOrdered-loops_example :
    EndsOrdered (λ u. u) (cmd_vwait ticking 9 (codes "v" ∷ []) mixed)
    × EndsOrdered (λ u. u) (cmd_update ticking 9 [] mixed)
    × EndsOrdered (λ u. u.0) (pump_events ticking (λ e. []) 9 mixed)
EndsOrdered-loops_example =
    EndsOrdered-loops ticking acts 9 (codes "v" ∷ []) [] (λ e. []) mixed (omega arith)

IsOrdered-cmd_after_example :
    IsOrdered (cmd_after ticking (codes "25" ∷ codes "x" ∷ []) mixed).0
    × IsOrdered (post_event (codes "x") mixed)
IsOrdered-cmd_after_example =
    IsOrdered-cmd_after ticking mixed (omega arith) (codes "25" ∷ codes "x" ∷ []) (codes "x")
      (omega arith)

process_loop-first_example :
    (process_loop ticking 4 10 false mixed 0 none
      ≡ process_loop ticking 3 10 false
          (record mixed { event_queue = event 1 70 false ∷ event 4 5 false ∷ []; world = 11 })
          1
          none)
    × (is_ready 10 false (event 2 0 true) ≡ true)
    × All (λ f. is_ready 10 false f ≡ true → 2 < f.id) (event 1 70 false ∷ event 4 5 false ∷ [])
process_loop-first_example =
    process_loop-first ticking 3 10 false mixed 0 none (omega arith) first_ready

vwait_loop-Found_example :
    (u : Interp ℕ) × (vwait_loop ticking 4 6 (codes "v") none later_one
      ≡ vwait_loop ticking 4 5 (codes "v") none u)
    × (u.event_queue ≡ later_one.event_queue)
    × Found (is_ready u.world false) u.event_queue
vwait_loop-Found_example =
    vwait_loop-Found ticking sleeps 4 5 (codes "v") none later_one later_one none
      process_events_idle (λ e. cc) refl

schedule_command-names_example :
    (name : Text) × ((schedule_command ticking 25 (codes "set x 1") false mixed).1 ≡ ok name)
    × ((cmd_after ticking
          (codes "info" ∷ name ∷ [])
          (schedule_command ticking 25 (codes "set x 1") false mixed).0).1
        ≡ ok (codes "set x 1 timer"))
    × (cmd_after ticking
          (codes "cancel" ∷ name ∷ [])
          (schedule_command ticking 25 (codes "set x 1") false mixed).0
        ≡ (record mixed { next_event_id = 6 }, ok []))
schedule_command-names_example =
    schedule_command-names ticking 25 (codes "set x 1") false mixed (omega arith) (omega arith)

abbrev only_idle : Interp ℕ
only_idle = record { event_queue = event 1 0 true ∷ []; next_event_id = 2; world = 10 }

same_schedule :
    (s : Interp ℕ)
    → (again_and_again.eval_isolated (codes "x") s).0
      ≡ (schedule_event again_and_again 0 (codes "x") true s).0
unfolding schedule_event
same_schedule s = refl

endless_example :
    (process_events again_and_again 1000 true none only_idle ≡ out_of_fuel)
    × (cmd_update again_and_again 1000 [] only_idle ≡ out_of_fuel)
    × (cmd_vwait again_and_again 1000 (codes "v" ∷ []) only_idle ≡ out_of_fuel)
endless_example =
    endless again_and_again (codes "x") same_schedule 1000 true none (codes "v") only_idle
      (refl, tt) (inl refl)
