-- ===== src/Event/After.antt =====
-- crates/rtcl-vm/src/interp/commands/event.rs: `after` and its subcommands. The arguments are those
-- behind the command's name.
use rtcl.Prelude.{
  ℕ, Bool, true, false, not, List, [], ◌∷◌, ◌++◌, Option, none, some, ◌==◌, if◌then◌else◌, codes,
  map,
}
use rtcl.Prelude.Decimal.{Text, eq_text, strip_prefix, parse_u64, show_u64}
use rtcl.Event.{TimedEvent, Interp, Error, Result, ok, err, Host, schedule_event, cancel}

-- `join(" ")`.
unfoldable pub join : List Text → Text
join [] = []
join (t ∷ []) = t
join (t ∷ u ∷ ts) = t ++ (32 ∷ join (u ∷ ts))

abbrev pub after_prefix : Text
after_prefix = codes "after#"

unfoldable pub event_name : ℕ → Text
unfolding show_u64
event_name id = after_prefix ++ show_u64 id

abbrev pub parse_id : Option Text → Option ℕ
parse_id none = none
parse_id (some t) = parse_u64 t

-- The number in `after#N`.
unfoldable pub event_id : Text → Option ℕ
unfolding strip_prefix parse_u64
event_id t = parse_id (strip_prefix after_prefix t)

unfoldable pub find_event : ℕ → List TimedEvent → Option TimedEvent
find_event id [] = none
find_event id (e ∷ q) = if e.id == id then some e else find_event id q

unfoldable pub describe : Text → Option TimedEvent → Result Text
describe target none = err (Error.not_found target)
describe target (some e) =
    ok (e.script ++ (32 ∷ (if e.is_idle then codes "idle" else codes "timer")))

module _ {W : Type 0} (host : Host W) where
  abbrev pub Command : Type 0
  Command = Interp W → Interp W × Result Text

  unfoldable pub schedule_command : ℕ → Text → Bool → Command
  unfolding schedule_event event_name
  schedule_command delay script idle s =
      let (s', id) = schedule_event host delay script idle s in (s', ok (event_name id))

  unfoldable pub after_idle : List Text → Command
  unfolding schedule_command join
  after_idle [] s = (s, err Error.wrong_args)
  after_idle (t ∷ ts) s = schedule_command 0 (join (t ∷ ts)) true s

  abbrev pub cancel_target : Option ℕ → Text → Command
  cancel_target (some id) script s = (cancel (λ e. not (e.id == id)) s, ok [])
  cancel_target none script s = (cancel (λ e. not (eq_text e.script script)) s, ok [])

  unfoldable pub after_cancel : List Text → Command
  unfolding cancel event_id join eq_text
  after_cancel [] s = (s, err Error.wrong_args)
  after_cancel (t ∷ ts) s = cancel_target (event_id t) (join (t ∷ ts)) s

  abbrev pub info_of : Text → Option ℕ → List TimedEvent → Result Text
  info_of target none q = err (Error.not_found target)
  info_of target (some id) q = describe target (find_event id q)

  unfoldable pub after_info : List Text → Command
  unfolding join event_name event_id find_event describe
  after_info [] s = (s, ok (join (map (λ e. event_name e.id) s.event_queue)))
  after_info (t ∷ []) s = (s, info_of t (event_id t) s.event_queue)
  after_info (t ∷ u ∷ ts) s = (s, err Error.wrong_args)

  abbrev pub slept : Interp W → W × Option Text → Interp W × Result Text
  slept s (w, none) = (record s { world = w }, ok [])
  slept s (w, some e) = (record s { world = w }, err (Error.sleep_failed e))

  abbrev pub after_ms : Text → Option ℕ → List Text → Command
  after_ms sub none ts s = (s, err (Error.bad_argument sub))
  after_ms sub (some ms) [] s = slept s (host.sleep_ms ms s.world)
  after_ms sub (some ms) (t ∷ ts) s = schedule_command ms (join (t ∷ ts)) false s

  unfoldable pub cmd_after : List Text → Command
  unfolding after_cancel after_info after_idle schedule_command join eq_text parse_u64
  cmd_after [] s = (s, err Error.wrong_args)
  cmd_after (sub ∷ ts) s =
      if eq_text sub (codes "cancel")
      then after_cancel ts s
      else if eq_text sub (codes "info")
      then after_info ts s
      else if eq_text sub (codes "idle")
      then after_idle ts s
      else after_ms sub (parse_u64 sub) ts s
