-- ===== src/Runs/Fake.antt =====
-- app/runs/fake.py: the adapter that replays a script instead of converging a machine, and its scripts.
pub mod Replays
use insatomcat_webui.Base.{
  ℕ, ℤ, pos, String, Value, ◌==◌, ◌=?◌, Bool, true, false, Option, none, some, List, [], ◌∷◌,
  if◌then◌else◌,
}
use insatomcat_webui.Runs.Progress.{Event, EventData}
use insatomcat_webui.Runs.Adapter.{RunOutcome, Process, RunRequest, prepare}
use insatomcat_webui.Runs.Execution.{Callback}

abbrev no_data : EventData
no_data = record {
  play = none;
  task = none;
  host = none;
  res_changed = false;
  msg = none;
  stderr = none;
  reason = none;
  stats = (λ k. []);
}

unfoldable pub play_start : String → Event
play_start play = record {
  event = "playbook_on_play_start";
  event_data = record no_data { play = some play };
}

unfoldable pub task_start : String → String → Event
task_start task play = record {
  event = "playbook_on_task_start";
  event_data = record no_data { task = some task; play = some play };
}

-- `ok`
unfoldable pub ok_event : String → String → Bool → Event
ok_event host task changed = record {
  event = "runner_on_ok";
  event_data = record no_data { host = some host; task = some task; res_changed = changed };
}

-- `failed`
unfoldable pub failed_event : String → String → String → Event
failed_event host task message = record {
  event = "runner_on_failed";
  event_data = record no_data { host = some host; task = some task; msg = some message };
}

-- `unreachable`
unfoldable pub unreachable_event : String → String → Event
unreachable_event host task = record {
  event = "runner_on_unreachable";
  event_data = record no_data {
    host = some host;
    task = some task;
    msg = some "Failed to connect to the host via ssh";
  };
}

abbrev counts : String → ℕ → ℕ → ℕ → String → List (String × ℕ)
counts host ok_count changed failures key =
    if key == "ok"
    then (host, ok_count) ∷ []
    else if key == "changed"
    then (host, changed) ∷ []
    else if key == "failures"
    then (if failures =? 0 then [] else (host, failures) ∷ [])
    else []

-- `stats`
unfoldable pub stats_event : String → ℕ → ℕ → ℕ → Event
stats_event host ok_count changed failures = record {
  event = "playbook_on_stats";
  event_data = record no_data { stats = counts host ok_count changed failures };
}

abbrev detection : String
detection = "Detect Seapath distribution"

unfoldable pub successful_run : String → List Event
unfolding play_start task_start ok_event stats_event
successful_run host =
    play_start detection
    ∷ task_start "Gather the distribution" detection
    ∷ ok_event host "Gather the distribution" false
    ∷ play_start "Import seapath_setup_network playbook"
    ∷ task_start "Apply the network configuration" detection
    ∷ ok_event host "Apply the network configuration" true
    ∷ stats_event host 2 1 0
    ∷ []

unfoldable pub failed_run : String → List Event
unfolding play_start task_start failed_event stats_event
failed_run host =
    play_start detection
    ∷ task_start "Apply the network configuration" detection
    ∷ failed_event host "Apply the network configuration" "eno1 does not exist"
    ∷ stats_event host 0 0 1
    ∷ []

unfoldable pub interrupted_run : String → List Event
unfolding play_start task_start ok_event
interrupted_run host =
    play_start detection
    ∷ task_start "Restart to configure SEAPATH" detection
    ∷ ok_event host "Restart to configure SEAPATH" true
    ∷ []

module _ (command : List String) (return_code : ℤ) (output : String) where
  abbrev before : Event → List Callback × RunOutcome → List Callback × RunOutcome
  before e (cs, outcome) = (Callback.event e ∷ cs, outcome)

  -- the loop of `execute`, over the events with what `should_cancel` answers in front of each
  unfoldable pub replay : List (Event × Bool) → List Callback × RunOutcome
  replay [] = (
    Callback.output output ∷ [],
    record { return_code = some return_code; command = command; cancelled = false; error = none },
  )
  replay ((e, stop) ∷ script) =
      let rest = replay script in
      if stop
      then ([], record { return_code = none; command = command; cancelled = true; error = none })
      else before e rest

-- `FakeRunAdapter.execute`
unfoldable pub execute_fake :
    (Value → String)
    → Process
    → RunRequest
    → ℤ
    → String
    → List (Event × Bool)
    → List Callback × RunOutcome
unfolding replay prepare
execute_fake json process request return_code output script =
    replay (prepare json process request).command return_code output script
