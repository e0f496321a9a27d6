-- ===== src/Event/Names.antt =====
-- The names that `after` of crates/rtcl-vm/src/interp/commands/event.rs gives to events, read back
-- by `after info` and `after cancel`.
use rtcl.Prelude.{
  ℕ, ◌+◌, ◌<◌, ◌≡◌, refl, Bool, false, not, List, [], ◌∷◌, ◌++◌, some, ◌==◌, arith, if◌then◌else◌,
  codes, ap, ◌∙◌, ◌%◌,
}
use rtcl.Prelude.Decimal.{Text, word_size, strip_prefix-append, parse_u64-show_u64, show_u64}
use rtcl.Event.{TimedEvent, Interp, Host, ok, retain}
use rtcl.Event.After.{
  schedule_command, event_name, event_id, parse_id, after_prefix, find_event, describe, cmd_after,
}
use rtcl.Event.Order.{Increasing, Increasing-le}
use rtcl.Event.Steps.{IsOrdered}

event_id-event_name : (id : ℕ) → id < word_size → event_id (event_name id) ≡ some id
unfolding event_id event_name
event_id-event_name id h =
    ap parse_id (strip_prefix-append after_prefix (show_u64 id)) ∙ parse_u64-show_u64 id h

-- An event of the queue has another id than the next one.
older :
    (lo : ℕ) (f : TimedEvent) (q : List TimedEvent) (id : ℕ)
    → Increasing lo (f ∷ q) id
    → (f.id == id) ≡ false
older lo f q id i = ground (arith, Increasing-le (f.id + 1) q id i.1)

find_event-append :
    (lo : ℕ) (q : List TimedEvent) (e : TimedEvent)
    → Increasing lo q e.id
    → find_event e.id (q ++ (e ∷ [])) ≡ some e
unfolding find_event
find_event-append lo [] e i = ground arith
find_event-append lo (f ∷ q) e i = rw (older lo f q e.id i) (find_event-append (f.id + 1) q e i.1)

retain-append :
    (lo : ℕ) (q : List TimedEvent) (e : TimedEvent)
    → Increasing lo q e.id
    → retain (λ f. not (f.id == e.id)) (q ++ (e ∷ [])) ≡ q
unfolding retain
retain-append lo [] e i = ground arith
retain-append lo (f ∷ q) e i =
    rw (older lo f q e.id i) (ap (λ t. f ∷ t) (retain-append (f.id + 1) q e i.1))

module _ {W : Type 0} (host : Host W) (delay : ℕ) (script : Text) (idle : Bool) (s : Interp W) where
  -- What `after ms script` and `after idle script` return names the event: `after info` with that
  -- name returns the script and the kind, and `after cancel` with it takes that event, and no other,
  -- out of an ordered queue.
  pub schedule_command-names :
      IsOrdered s
      → s.next_event_id < word_size
      → (name : Text) × ((schedule_command host delay script idle s).1 ≡ ok name)
        × ((cmd_after host
              (codes "info" ∷ name ∷ [])
              (schedule_command host delay script idle s).0).1
            ≡ ok (script ++ (32 ∷ (if idle then codes "idle" else codes "timer"))))
        × (cmd_after host (codes "cancel" ∷ name ∷ []) (schedule_command host delay script idle s).0
            ≡ (record s { next_event_id = (s.next_event_id + 1) % word_size }, ok []))
  unfolding schedule_command cmd_after describe
  schedule_command-names o small =
      let q = s.event_queue in
      let e : TimedEvent = record {
        id = s.next_event_id;
        fire_at_ms = if idle then 0 else (host.now_ms s.world + delay) % word_size;
        script = script;
        is_idle = idle;
      } in
      (
        event_name s.next_event_id,
        refl,
        rw (event_id-event_name s.next_event_id small)
            (ap (describe (event_name s.next_event_id)) (find_event-append 0 q e o)),
        rw (event_id-event_name s.next_event_id small) (
            ap
              (λ l. (
                record s { event_queue = l; next_event_id = (s.next_event_id + 1) % word_size },
                ok [],
              ))
              (retain-append 0 q e o)),
      )
