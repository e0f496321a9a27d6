-- ===== src/Event/Loop.antt =====
-- crates/rtcl-vm/src/interp/commands/event.rs: the loops that fire events, `process_events`,
-- `update`, `vwait` and `pump_events`. What a loop may not end is counted in fuel.
use rtcl.Prelude.{
  ℕ, zero, suc, ◌+◌, ◌-◌, Bool, true, false, not, List, [], ◌∷◌, ◌++◌, Option, none, some, ◌==◌,
  leb, ltb, if◌then◌else◌, codes,
}
use rtcl.Prelude.Decimal.{Text, eq_text}
use rtcl.Event.{TimedEvent, Interp, Error, Host, remove_first, is_ready}

-- How a loop ends: with a result, with an error in some state, or without fuel.
pub data Run {ℓ} (S : Type 0) (A : Type ℓ) : Type ℓ where
  done : A → Run S A
  failed : S → Error → Run S A
  out_of_fuel : Run S A

-- The messages of the scripts' errors, where the caller wants them.
abbrev pub collect : Option Text → Option (List Text) → Option (List Text)
collect none errors = errors
collect (some e) none = none
collect (some e) (some errors) = some (errors ++ (e ∷ []))

abbrev pub same_value : Option Text → Option Text → Bool
same_value none none = true
same_value none (some b) = false
same_value (some a) none = false
same_value (some a) (some b) = eq_text a b

-- The least fire time of the events that are not idle.
abbrev pub min_fire : TimedEvent → Option ℕ → Option ℕ
min_fire e rest = elim rest [
  | none ↦ some e.fire_at_ms
  | some m ↦ some (if leb e.fire_at_ms m then e.fire_at_ms else m)
]

unfoldable pub next_fire : List TimedEvent → Option ℕ
next_fire [] = none
next_fire (e ∷ q) = let rest = next_fire q in if e.is_idle then rest else min_fire e rest

module _ {W : Type 0} (host : Host W) where
  abbrev pub Processed : Type 0
  Processed = Interp W × ℕ × Option (List Text)

  abbrev pub fire_event :
      (Interp W → ℕ → Option (List Text) → Run (Interp W) Processed)
      → ℕ
      → Option (List Text)
      → Interp W
      → TimedEvent
      → List TimedEvent
      → Run (Interp W) Processed
  fire_event more fired errors s e q =
      let (s', message) = host.eval_isolated e.script (record s { event_queue = q }) in
      more s' (fired + 1) (collect message errors)

  -- The loop of `process_events`.
  unfoldable pub process_loop :
      ℕ → ℕ → Bool → Interp W → ℕ → Option (List Text) → Run (Interp W) Processed
  unfolding remove_first is_ready
  process_loop zero now idle_only s fired errors = out_of_fuel
  process_loop (suc fuel) now idle_only s fired errors =
      elim (remove_first (is_ready now idle_only) s.event_queue) [
        | none ↦ done (s, fired, errors)
        | some (e, q) ↦ fire_event (process_loop fuel now idle_only) fired errors s e q
      ]

  unfoldable pub process_events :
      ℕ → Bool → Option (List Text) → Interp W → Run (Interp W) Processed
  unfolding process_loop
  process_events fuel idle_only errors s =
      process_loop fuel (host.now_ms s.world) idle_only s 0 errors

  -- A round of `update` behind `process_events`.
  abbrev pub update_next :
      (Interp W → Run (Interp W) (Interp W)) → Run (Interp W) Processed → Run (Interp W) (Interp W)
  update_next more (done (s, zero, errors)) = done s
  update_next more (done (s, suc n, errors)) = more s
  update_next more (failed s e) = failed s e
  update_next more out_of_fuel = out_of_fuel

  -- The loop of `update`.
  unfoldable pub update_loop : ℕ → ℕ → Bool → Interp W → Run (Interp W) (Interp W)
  unfolding process_events
  update_loop rounds zero idle_only s = out_of_fuel
  update_loop rounds (suc fuel) idle_only s =
      update_next (update_loop rounds fuel idle_only) (process_events rounds idle_only none s)

  unfoldable pub cmd_update : ℕ → List Text → Interp W → Run (Interp W) (Interp W)
  unfolding update_loop eq_text
  cmd_update fuel [] s = update_loop fuel fuel false s
  cmd_update fuel (sub ∷ ts) s =
      if eq_text sub (codes "idletasks")
      then update_loop fuel fuel true s
      else failed s (Error.bad_option sub)

  abbrev pub messages : Option (List Text) → List Text
  messages none = []
  messages (some errors) = errors

  -- A round of `pump_events` behind `process_events`; `show` is the text of an error.
  abbrev pub pump_next :
      (Error → Text)
      → List Text
      → (List Text → Interp W → Run (Interp W) (Interp W × List Text))
      → Run (Interp W) Processed
      → Run (Interp W) (Interp W × List Text)
  pump_next show sent more (done (s, zero, errors)) = done (s, messages errors)
  pump_next show sent more (done (s, suc n, errors)) = more (messages errors) s
  pump_next show sent more (failed s e) = done (s, sent ++ (show e ∷ []))
  pump_next show sent more out_of_fuel = out_of_fuel

  unfoldable pub pump_loop :
      (Error → Text) → ℕ → ℕ → List Text → Interp W → Run (Interp W) (Interp W × List Text)
  unfolding process_events
  pump_loop show rounds zero errors s = out_of_fuel
  pump_loop show rounds (suc fuel) errors s =
      pump_next show errors (pump_loop show rounds fuel)
        (process_events rounds false (some errors) s)

  unfoldable pub pump_events : (Error → Text) → ℕ → Interp W → Run (Interp W) (Interp W × List Text)
  unfolding pump_loop
  pump_events show fuel s = pump_loop show fuel fuel [] s

  abbrev pub after_sleep :
      (Interp W → Run (Interp W) (Interp W))
      → Interp W
      → W × Option Text
      → Run (Interp W) (Interp W)
  after_sleep more s (w, none) = more (record s { world = w })
  after_sleep more s (w, some e) = failed (record s { world = w }) (Error.sleep_failed e)

  abbrev pub after_idles :
      (Interp W → Run (Interp W) (Interp W)) → Run (Interp W) Processed → Run (Interp W) (Interp W)
  after_idles more (done (s, fired, errors)) = more s
  after_idles more (failed s e) = failed s e
  after_idles more out_of_fuel = out_of_fuel

  -- Until the next timed event, if nothing was fired.
  unfoldable pub wait_for :
      ℕ → (Interp W → Run (Interp W) (Interp W)) → Option ℕ → Interp W → Run (Interp W) (Interp W)
  unfolding process_events
  wait_for rounds more (some fire_at) s =
      let now = host.now_ms s.world in
      if ltb now fire_at then after_sleep more s (host.sleep_ms (fire_at - now) s.world) else more s
  wait_for rounds more none s = after_idles more (process_events rounds true none s)

  abbrev pub is_empty : List TimedEvent → Bool
  is_empty [] = true
  is_empty (e ∷ q) = false

  -- One round of `vwait` behind `process_events`.
  unfoldable pub vwait_round :
      ℕ
      → (Interp W → Run (Interp W) (Interp W))
      → Text
      → Option Text
      → Interp W
      → ℕ
      → Run (Interp W) (Interp W)
  unfolding wait_for next_fire eq_text
  vwait_round rounds more name initial s fired =
      if not (same_value (host.get_var name s.world) initial)
      then done s
      else if fired == 0
      then (if is_empty s.event_queue
          then failed s (Error.wait_forever name)
          else wait_for rounds more (next_fire s.event_queue) s)
      else more s

  abbrev pub vwait_next :
      (Interp W → ℕ → Run (Interp W) (Interp W))
      → Run (Interp W) Processed
      → Run (Interp W) (Interp W)
  vwait_next round (done (s, fired, errors)) = round s fired
  vwait_next round (failed s e) = failed s e
  vwait_next round out_of_fuel = out_of_fuel

  unfoldable pub vwait_loop : ℕ → ℕ → Text → Option Text → Interp W → Run (Interp W) (Interp W)
  unfolding process_events vwait_round
  vwait_loop rounds zero name initial s = out_of_fuel
  vwait_loop rounds (suc fuel) name initial s =
      vwait_next (vwait_round rounds (vwait_loop rounds fuel name initial) name initial)
        (process_events rounds false none s)

  unfoldable pub cmd_vwait : ℕ → List Text → Interp W → Run (Interp W) (Interp W)
  unfolding vwait_loop
  cmd_vwait fuel [] s = failed s Error.wrong_args
  cmd_vwait fuel (name ∷ []) s = vwait_loop fuel fuel name (host.get_var name s.world) s
  cmd_vwait fuel (name ∷ t ∷ ts) s = failed s Error.wrong_args
