-- ===== src/Event/Runs.antt =====
-- The commands of crates/rtcl-vm/src/interp/commands/event.rs as sequences of the steps of
-- Event/Steps.
use rtcl.Prelude.{
  ℕ, zero, suc, refl, Bool, true, false, not, List, [], ◌∷◌, Option, none, some, ◌==◌, ltb,
  if_intro, codes,
}
use rtcl.Prelude.Decimal.{Text, eq_text}
use rtcl.Event.{Interp, Host, Error}
use rtcl.Event.Loop.{
  Run, done, failed, out_of_fuel, process_events, update_loop, cmd_update, pump_loop, after_sleep,
  after_idles, wait_for, is_empty, vwait_round, vwait_loop, cmd_vwait, next_fire, same_value,
  Processed, update_next, pump_next, messages, vwait_next,
}
use rtcl.Event.Steps.{outside, Acts, here, one, After, After-trans, process_loop-Acts}

module _ {W : Type 0} (host : Host W)
    (acts : (script : Text) (s : Interp W) → Acts s (host.eval_isolated script s).0) where
  process_events-Acts :
      (fuel : ℕ) (idle_only : Bool) (errors : Option (List Text)) (s : Interp W)
      → After host acts (λ r. r.0) s (process_events host fuel idle_only errors s)
  unfolding process_events
  process_events-Acts fuel idle_only errors s =
      process_loop-Acts host acts fuel (host.now_ms s.world) idle_only s 0 errors

  update_next-Acts :
      (more : Interp W → Run (Interp W) (Interp W))
      → ((s : Interp W) → After host acts (λ r. r) s (more s))
      → (s : Interp W) (r : Run (Interp W) (Processed host)) → After host acts (λ r. r.0) s r
      → After host acts (λ r. r) s (update_next host more r)
  update_next-Acts more after s (done (s', zero, errors)) a = a
  update_next-Acts more after s (done (s', suc n, errors)) a =
      After-trans host acts (λ r. r) _ a (after s')
  update_next-Acts more after s (failed s' e) a = a
  update_next-Acts more after s out_of_fuel a = a

  update_loop-Acts :
      (rounds fuel : ℕ) (idle_only : Bool) (s : Interp W)
      → After host acts (λ r. r) s (update_loop host rounds fuel idle_only s)
  unfolding update_loop
  update_loop-Acts rounds zero idle_only s = tt
  update_loop-Acts rounds (suc fuel) idle_only s =
      update_next-Acts (update_loop host rounds fuel idle_only)
        (update_loop-Acts rounds fuel idle_only) s (process_events host rounds idle_only none s)
        (process_events-Acts rounds idle_only none s)

  pub cmd_update-Acts :
      (fuel : ℕ) (ts : List Text) (s : Interp W)
      → After host acts (λ r. r) s (cmd_update host fuel ts s)
  unfolding cmd_update
  cmd_update-Acts fuel [] s = update_loop-Acts fuel fuel false s
  cmd_update-Acts fuel (sub ∷ ts) s =
      if_intro (After host acts (λ r. r) s) (eq_text sub (codes "idletasks"))
        (λ _. update_loop-Acts fuel fuel true s) (λ _. here)

  pump_next-Acts :
      (show : Error → Text) (sent : List Text)
      (more : List Text → Interp W → Run (Interp W) (Interp W × List Text))
      → ((errors : List Text) (s : Interp W) → After host acts (λ r. r.0) s (more errors s))
      → (s : Interp W) (r : Run (Interp W) (Processed host)) → After host acts (λ r. r.0) s r
      → After host acts (λ r. r.0) s (pump_next host show sent more r)
  pump_next-Acts show sent more after s (done (s', zero, errors)) a = a
  pump_next-Acts show sent more after s (done (s', suc n, errors)) a =
      After-trans host acts (λ r. r.0) _ a (after (messages host errors) s')
  pump_next-Acts show sent more after s (failed s' e) a = a
  pump_next-Acts show sent more after s out_of_fuel a = a

  pub pump_loop-Acts :
      (show : Error → Text) (rounds fuel : ℕ) (errors : List Text) (s : Interp W)
      → After host acts (λ r. r.0) s (pump_loop host show rounds fuel errors s)
  unfolding pump_loop
  pump_loop-Acts show rounds zero errors s = tt
  pump_loop-Acts show rounds (suc fuel) errors s =
      pump_next-Acts show errors (pump_loop host show rounds fuel) (pump_loop-Acts show rounds fuel)
        s (process_events host rounds false (some errors) s)
        (process_events-Acts rounds false (some errors) s)

  after_sleep-Acts :
      (more : Interp W → Run (Interp W) (Interp W))
      → ((s : Interp W) → After host acts (λ r. r) s (more s))
      → (s : Interp W) (w : W × Option Text)
      → After host acts (λ r. r) s (after_sleep host more s w)
  after_sleep-Acts more after s (w, none) =
      After-trans host acts (λ r. r) _ (one (outside refl refl)) (after (record s { world = w }))
  after_sleep-Acts more after s (w, some e) = one (outside refl refl)

  after_idles-Acts :
      (more : Interp W → Run (Interp W) (Interp W))
      → ((s : Interp W) → After host acts (λ r. r) s (more s))
      → (s : Interp W) (r : Run (Interp W) (Processed host)) → After host acts (λ r. r.0) s r
      → After host acts (λ r. r) s (after_idles host more r)
  after_idles-Acts more after s (done (s', fired, errors)) a =
      After-trans host acts (λ r. r) _ a (after s')
  after_idles-Acts more after s (failed s' e) a = a
  after_idles-Acts more after s out_of_fuel a = a

  wait_for-Acts :
      (rounds : ℕ) (more : Interp W → Run (Interp W) (Interp W))
      → ((s : Interp W) → After host acts (λ r. r) s (more s))
      → (fire : Option ℕ) (s : Interp W)
      → After host acts (λ r. r) s (wait_for host rounds more fire s)
  unfolding wait_for
  wait_for-Acts rounds more after (some fire_at) s =
      if_intro (After host acts (λ r. r) s) (ltb (host.now_ms s.world) fire_at)
        (λ _. after_sleep-Acts more after s _) (λ _. after s)
  wait_for-Acts rounds more after none s =
      after_idles-Acts more after s _ (process_events-Acts rounds true none s)

  vwait_round-Acts :
      (rounds : ℕ) (more : Interp W → Run (Interp W) (Interp W))
      → ((s : Interp W) → After host acts (λ r. r) s (more s))
      → (name : Text) (initial : Option Text) (s : Interp W) (fired : ℕ)
      → After host acts (λ r. r) s (vwait_round host rounds more name initial s fired)
  unfolding vwait_round
  vwait_round-Acts rounds more after name initial s fired =
      if_intro (After host acts (λ r. r) s) (not (same_value (host.get_var name s.world) initial))
        (λ _. here)
        λ _.
          if_intro (After host acts (λ r. r) s) (fired == 0)
            (λ _.
              if_intro (After host acts (λ r. r) s) (is_empty host s.event_queue) (λ _. here)
                (λ _. wait_for-Acts rounds more after (next_fire s.event_queue) s))
            (λ _. after s)

  vwait_next-Acts :
      (round : Interp W → ℕ → Run (Interp W) (Interp W))
      → ((s : Interp W) (fired : ℕ) → After host acts (λ r. r) s (round s fired))
      → (s : Interp W) (r : Run (Interp W) (Processed host)) → After host acts (λ r. r.0) s r
      → After host acts (λ r. r) s (vwait_next host round r)
  vwait_next-Acts round after s (done (s', fired, errors)) a =
      After-trans host acts (λ r. r) _ a (after s' fired)
  vwait_next-Acts round after s (failed s' e) a = a
  vwait_next-Acts round after s out_of_fuel a = a

  vwait_loop-Acts :
      (rounds fuel : ℕ) (name : Text) (initial : Option Text) (s : Interp W)
      → After host acts (λ r. r) s (vwait_loop host rounds fuel name initial s)
  unfolding vwait_loop
  vwait_loop-Acts rounds zero name initial s = tt
  vwait_loop-Acts rounds (suc fuel) name initial s =
      vwait_next-Acts _
        (vwait_round-Acts rounds _ (vwait_loop-Acts rounds fuel name initial) name initial) s _
        (process_events-Acts rounds false none s)

  pub cmd_vwait-Acts :
      (fuel : ℕ) (ts : List Text) (s : Interp W)
      → After host acts (λ r. r) s (cmd_vwait host fuel ts s)
  unfolding cmd_vwait
  cmd_vwait-Acts fuel [] s = here
  cmd_vwait-Acts fuel (name ∷ []) s = vwait_loop-Acts fuel fuel name _ s
  cmd_vwait-Acts fuel (name ∷ t ∷ ts) s = here
