-- ===== src/Runs/Fake/Replays.antt =====
-- How a replayed run ends.
use insatomcat_webui.Base.{
  ℕ, ℤ, String, Value, ◌≡◌, refl, ap, ◌∙◌, inl, inr, Bool, true, false, not, none, some, List, [],
  ◌∷◌, if◌then◌else◌, map, any, Bool-cases, ok,
}
use insatomcat_webui.Runs.Models.{
  RunState, success, failed, cancelled, interrupted, RunProgress, new_progress, RunRecord,
}
use insatomcat_webui.Runs.Progress.{Event, apply_events}
use insatomcat_webui.Runs.Progress.Recap.{is_recap, apply_events-final}
use insatomcat_webui.Runs.Adapter.{Process, RunRequest, prepare}
use insatomcat_webui.Runs.Service.{ServiceState}
use insatomcat_webui.Runs.Execution.{is_zero, final_state, new_thread, execute, finish}
use insatomcat_webui.Runs.Execution.Callbacks.{events_of, callbacks_lem}
use insatomcat_webui.Runs.Fake.{replay, execute_fake}

abbrev pub is_stopped : List (Event × Bool) → Bool
is_stopped script = any (λ p. p.1) script

abbrev pub events_in : List (Event × Bool) → List Event
events_in script = map (λ p. p.0) script

-- How a script ends, by its events, its return code and whether a stop is asked.
abbrev pub end_of : ℤ → List (Event × Bool) → RunState
end_of return_code script =
    if is_stopped script
    then cancelled
    else if not (any is_recap (events_in script))
    then interrupted
    else if is_zero (some return_code)
    then success
    else failed

module _ (command : List String) (return_code : ℤ) (output : String) where
  replay_stopped :
      (script : List (Event × Bool))
      → (replay command return_code output script).1.cancelled ≡ is_stopped script
  unfolding replay
  replay_stopped [] = refl
  replay_stopped ((e, true) ∷ script) = refl
  replay_stopped ((e, false) ∷ script) = replay_stopped script

  replay_events :
      (script : List (Event × Bool))
      → is_stopped script ≡ false
      → (events_of (replay command return_code output script).0 ≡ events_in script)
        × ((replay command return_code output script).1 ≡ record {
          return_code = some return_code;
          command = command;
          cancelled = false;
          error = none;
        })
  unfolding replay
  replay_events [] h = (refl, refl)
  replay_events ((e, true) ∷ script) h = absurd (cc h)
  replay_events ((e, false) ∷ script) h =
      let (events, outcome) = replay_events script h in (ap (λ l. e ∷ l) events, outcome)

  -- of a state that the events made
  final_lem :
      (script : List (Event × Bool)) (q : RunProgress)
      → q ≡ apply_events new_progress (events_of (replay command return_code output script).0)
      → final_state (replay command return_code output script).1 q ≡ end_of return_code script
  unfolding final_state
  final_lem script q e = elim (Bool-cases (is_stopped script)) [
    | inl stopped ↦ rw (stopped, replay_stopped script, stopped) refl
    | inr going ↦
        let (events, outcome) = replay_events script going in
        let seen : q.final_status_seen ≡ any is_recap (events_in script) =
          ap (λ (x : RunProgress). x.final_status_seen) (e ∙ ap (apply_events new_progress) events)
          ∙ apply_events-final new_progress (events_in script) in
        rw (going, outcome, seen) refl
  ]

-- A run that the fake adapter executes ends as cancelled if a stop is asked in front of some event; otherwise
-- as interrupted if its script has no recap, and else by the return code.
pub execute_fake-ends :
    (cut : String → String) (json : Value → String) (now : ℕ) (process : Process)
    (request : RunRequest) (return_code : ℤ) (output : String) (script : List (Event × Bool))
    (r : RunRecord) (s : ServiceState)
    → let (cs, outcome) = execute_fake json process request return_code output script in
      (execute cut now cs (ok outcome) r s).1.state ≡ end_of return_code script
unfolding execute_fake execute finish
execute_fake-ends cut json now process request return_code output script r s =
    let cs = (replay (prepare json process request).command return_code output script).0 in
    let (_, made, _, _, _) = callbacks_lem cut cs (new_thread r) s in
    final_lem (prepare json process request).command return_code output script _ made
