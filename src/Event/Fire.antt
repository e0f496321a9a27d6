-- ===== src/Event/Fire.antt =====
-- Lemmas on one round of the loop of `process_events`, crates/rtcl-vm/src/interp/commands/event.rs.
use rtcl.Prelude.{ℕ, suc, ◌+◌, ◌≡◌, Bool, List, Option, none, some}
use rtcl.Prelude.Decimal.{Text}
use rtcl.Event.{TimedEvent, Interp, Host, remove_first, is_ready}
use rtcl.Event.Loop.{done, process_loop, collect}

module _ {W : Type 0} (host : Host W) (fuel now : ℕ) (idle_only : Bool) (s : Interp W) (fired : ℕ)
    (errors : Option (List Text)) where
  -- What the evaluation of an event's script, removed from the queue, returns.
  abbrev pub evaluated : TimedEvent → List TimedEvent → Interp W × Option Text
  evaluated e q = host.eval_isolated e.script (record s { event_queue = q })

  pub process_loop-none :
      remove_first (is_ready now idle_only) s.event_queue ≡ none
      → process_loop host (suc fuel) now idle_only s fired errors ≡ done (s, fired, errors)
  unfolding process_loop
  process_loop-none h = rw (h, process_loop)

  pub process_loop-some :
      (e : TimedEvent) (q : List TimedEvent)
      → remove_first (is_ready now idle_only) s.event_queue ≡ some (e, q)
      → process_loop host (suc fuel) now idle_only s fired errors
        ≡ process_loop host fuel now idle_only
            (evaluated e q).0
            (fired + 1)
            (collect (evaluated e q).1 errors)
  unfolding process_loop
  process_loop-some e q h = rw (h, process_loop)
