-- ===== src/Event.antt =====
-- crates/rtcl-vm/src/interp/commands/event.rs: the queue of scheduled scripts, `after`, `update`,
-- `vwait` and the events that a host injects.
pub mod After
pub mod Loop
pub mod Fire
pub mod Order
pub mod Steps
pub mod Runs
pub mod Ordered
pub mod Batch
pub mod Wait
pub mod Names
pub mod Endless
pub mod Tests
use rtcl.Prelude.{
  ℕ, suc, ◌+◌, ◌%◌, Bool, true, false, not, ◌||◌, List, [], ◌∷◌, ◌++◌, Option, none, some, ◌==◌,
  leb, if◌then◌else◌,
}
use rtcl.Prelude.Decimal.{Text, word_size}

pub record TimedEvent : Type 0 where
  pub id : ℕ
  pub fire_at_ms : ℕ
  pub script : Text
  pub is_idle : Bool

-- The interpreter: the queue, the next id, and all the rest of its state and of its host.
pub record Interp (W : Type 0) : Type 0 where
  pub event_queue : List TimedEvent
  pub next_event_id : ℕ
  pub world : W

pub data Error : Type 0 where
  wrong_args : Error
  bad_argument : Text → Error
  not_found : Text → Error
  bad_option : Text → Error
  sleep_failed : Text → Error
  wait_forever : Text → Error

pub data Result {ℓ} (A : Type ℓ) : Type ℓ where
  ok : A → Result A
  err : Error → Result A

-- What the commands use of the rest of the interpreter and of its host: the clock, a sleep, the
-- value of a variable, and the evaluation of a script, with the message of its error.
pub record Host (W : Type 0) : Type 0 where
  pub now_ms : W → ℕ
  pub sleep_ms : ℕ → W → W × Option Text
  pub get_var : Text → W → Option Text
  pub eval_isolated : Text → Interp W → Interp W × Option Text

-- `Vec::retain`, `Vec::remove` at the first event that passes a test, with that event.
unfoldable pub retain : (TimedEvent → Bool) → List TimedEvent → List TimedEvent
retain p [] = []
retain p (e ∷ q) = let rest = retain p q in if p e then e ∷ rest else rest

abbrev pub behind_event :
    TimedEvent → Option (TimedEvent × List TimedEvent) → Option (TimedEvent × List TimedEvent)
behind_event e none = none
behind_event e (some (f, q)) = some (f, e ∷ q)

unfoldable pub remove_first :
    (TimedEvent → Bool) → List TimedEvent → Option (TimedEvent × List TimedEvent)
remove_first p [] = none
remove_first p (e ∷ q) =
    let rest = remove_first p q in if p e then some (e, q) else behind_event e rest

-- What makes an event ready for `process_events`.
unfoldable pub is_ready : ℕ → Bool → TimedEvent → Bool
is_ready now idle_only e = if idle_only then e.is_idle else e.is_idle || leb e.fire_at_ms now

module _ {W : Type 0} where
  unfoldable pub push_event : ℕ → Text → Bool → Interp W → Interp W × ℕ
  push_event fire_at script idle s = (
    record s {
      event_queue =
          s.event_queue
          ++ (record { id = s.next_event_id; fire_at_ms = fire_at; script = script; is_idle = idle }
              ∷ []);
      next_event_id = (s.next_event_id + 1) % word_size;
    },
    s.next_event_id,
  )

  -- The sum of a u64 wraps.
  unfoldable pub schedule_event : Host W → ℕ → Text → Bool → Interp W → Interp W × ℕ
  unfolding push_event
  schedule_event host delay script idle s =
      push_event (if idle then 0 else (host.now_ms s.world + delay) % word_size) script idle s

  unfoldable pub post_event : Text → Interp W → Interp W
  unfolding push_event
  post_event script s = (push_event 0 script false s).0

  unfoldable pub cancel : (TimedEvent → Bool) → Interp W → Interp W
  unfolding retain
  cancel keep s = record s { event_queue = retain keep s.event_queue }
