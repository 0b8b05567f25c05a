-- ===== src/Tests/Runs.antt =====
-- Runs at concrete inputs.
use insatomcat_webui.Base.{
  is_some, ◌⊎◌, pos, ◌+◌, String, ◌≡◌, ◌↔◌, ◌⊎◌, refl, true, false, none, some, List, [], ◌∷◌, ◌==◌,
  arith, lookup, lookup-nil, values, null, member, All, ok, strip, text_of, sorted,
}
use insatomcat_webui.Inventory.Validation.{valid}
use insatomcat_webui.Inventory.Service.{InventoryState}
use insatomcat_webui.Trust.Relations.{TrustRelation}
use insatomcat_webui.Runs.Models.{
  running, success, interrupted, cancelled, new_progress, RunRecord, is_final, finished,
}
use insatomcat_webui.Runs.Progress.{Event, EventData, StatField, apply_events}
use insatomcat_webui.Runs.Progress.Counts.{counted, results_of, apply_events-total}
use insatomcat_webui.Runs.Catalogue.{get}
use insatomcat_webui.Runs.Catalogue.Entries.{PlaybookEntry, playbook}
use insatomcat_webui.Runs.Store.{
  RunStore, empty_store, load, save, create, lock_holder, acquire, release, reconcile,
}
use insatomcat_webui.Runs.Catalogue.Machine.{seapath_setup_network}
use insatomcat_webui.Runs.Store.Lock.{IsRunId, succeeds, acquire-release}
use insatomcat_webui.Runs.Store.Listing.{closed}
use insatomcat_webui.Runs.Store.Recovery.{any_going, reconcile-closes}
use insatomcat_webui.Runs.Adapter.{RunOutcome}
use insatomcat_webui.Runs.Availability.{unmet_preconditions, blocking}
use insatomcat_webui.Runs.Availability.Conditions.{Meets, blocking_iff}
use insatomcat_webui.Runs.Variables.{accepted_variables}
use insatomcat_webui.Runs.Service.{
  ServiceState, Surroundings, starting, launch, new_record, as_running,
}
use insatomcat_webui.Runs.Service.Guards.{is_ok, IsLaunchable}
use insatomcat_webui.Runs.Service.Faults.{Stays, SameRuns}
use insatomcat_webui.Runs.Service.Launches.{
  IsLaunched, launch_iff, launch_refused, launch-IsLaunched,
}
use insatomcat_webui.Runs.Execution.{Callback, final_state, has_error, execute, new_thread}
use insatomcat_webui.Runs.Execution.Callbacks.{events_of}
use insatomcat_webui.Runs.Execution.Endings.{final_state_iff, HasEnded, execute-HasEnded}
use insatomcat_webui.Runs.Execution.Exclusion.{
  System, Step, Reach, start, later, IsIdle, IsBusy, Reach-excludes,
}
use insatomcat_webui.Tests.Machines.{inventory}

abbrev quiet_data : EventData
quiet_data = record {
  play = none;
  task = some "Gather";
  host = some "seapath";
  res_changed = true;
  msg = none;
  stderr = none;
  reason = none;
  stats = (λ k. []);
}

abbrev result_event : Event
result_event = record { event = "runner_on_ok"; event_data = quiet_data }

abbrev recap : Event
recap = record { event = "playbook_on_stats"; event_data = quiet_data }

abbrev lost_event : Event
lost_event = record { event = "runner_on_async_failed"; event_data = quiet_data }

apply_events-total_example :
    counted StatField.failed "seapath"
      (apply_events new_progress (result_event ∷ lost_event ∷ lost_event ∷ []))
    ≡ counted StatField.failed "seapath" new_progress
      + results_of StatField.failed "seapath" (result_event ∷ lost_event ∷ lost_event ∷ [])
apply_events-total_example =
    apply_events-total StatField.failed "seapath" new_progress
      (result_event ∷ lost_event ∷ lost_event ∷ []) refl

r1-IsRunId : IsRunId "r1"
unfolding strip text_of
r1-IsRunId = (refl, refl)

abbrev locked_store : RunStore
locked_store = record empty_store { lock = some "r1" }

acquire-release_example :
    ((succeeds (acquire "r1" locked_store) ≡ true) ↔ (locked_store.lock ≡ none))
    × (succeeds (acquire "r1" locked_store) ≡ true
        → lock_holder (acquire "r1" locked_store).0 ≡ some "r1")
    × (succeeds (acquire "r1" locked_store) ≡ false → (acquire "r1" locked_store).0 ≡ locked_store)
    × (locked_store.lock ≡ some "r1" → (release "r1" locked_store).lock ≡ none)
    × (locked_store.lock ≡ some "r1"
        → ("r1" == "r2") ≡ false
        → release "r2" locked_store ≡ locked_store)
acquire-release_example = acquire-release "r1" "r2" locked_store r1-IsRunId

abbrev pub going : RunRecord
going = record {
  id = "r1";
  playbook = "seapath.ansible.seapath_setup_network";
  playbook_id = "network";
  state = running;
  check = false;
  started_at = some 5;
  finished_at = none;
  launched_by = "alice";
  inventory_commit = none;
  collection_version = "1.0";
  command = [];
  return_code = none;
  progress = new_progress;
  message = none;
}

abbrev pub crashed_store : RunStore
crashed_store = record empty_store { records = ("r1", going) ∷ []; lock = some "r1" }

reconcile-closes_example :
    ((id : String)
      → lookup id (reconcile 9 crashed_store).0.records
        ≡ closed 9 (lookup id crashed_store.records))
    × (any_going (values crashed_store.records) ≡ true → (reconcile 9 crashed_store).0.lock ≡ none)
    × (any_going (values crashed_store.records) ≡ false
        → (reconcile 9 crashed_store).0 ≡ crashed_store)
reconcile-closes_example =
    reconcile-closes 9 crashed_store (refl, lookup-nil "r1", tt) (ground arith)

abbrev state : InventoryState
state = record {
  inventory = some inventory;
  commit = some "c0ffee";
  validation = [];
  seeded = true;
  parse_error = none;
}

abbrev relation : TrustRelation
relation = record {
  comment = "seapath-webui:seapath->seapath";
  peer = "seapath";
  kind = "self";
  fingerprint = "SHA256:x";
  from_addresses = [];
  installed = true;
}

abbrev around : Surroundings
around = record {
  version = "1.0";
  checked = some state;
  relations = relation ∷ [];
  missing = [];
  read = some state;
  raw = "all:";
  run_id = "r2";
  now = 7;
  fault = none;
}

abbrev settled : ServiceState
settled = record { store = empty_store; stopping = [] }

abbrev busy : ServiceState
busy = record { store = crashed_store; stopping = [] }

abbrev entry : PlaybookEntry
entry = seapath_setup_network

blocking_iff_example :
    (null (blocking "1.0" entry (unmet_preconditions state (relation ∷ [])) []) ≡ true)
    ↔ ((member entry.id [] ≡ false) × All (Meets state (relation ∷ [])) entry.requires)
blocking_iff_example = blocking_iff "1.0" state (relation ∷ []) [] entry

launch_iff_example :
    (is_ok (launch around "seapath_setup_network" "alice" none false settled).1 ≡ true) ↔ (
      IsLaunchable around "seapath_setup_network" [] false
      × (is_some around.read ≡ true)
      × (settled.store.lock ≡ none)
      × (around.fault ≡ none))
launch_iff_example = launch_iff around "alice" false settled "seapath_setup_network" none

r2-IsRunId : IsRunId around.run_id
unfolding strip text_of
r2-IsRunId = (refl, refl)

launch_locked : is_ok (launch around "seapath_setup_network" "alice" none false busy).1 ≡ false
unfolding launch get accepted_variables acquire strip text_of sorted blocking unmet_preconditions
    valid
launch_locked = refl

-- the record is created and then cannot be saved as running
abbrev failing : Surroundings
failing = record around { fault = some starting }

launch_failed : is_ok (launch failing "seapath_setup_network" "alice" none false settled).1 ≡ false
unfolding launch get accepted_variables acquire strip text_of sorted blocking unmet_preconditions
    valid
launch_failed = refl

launch_refused_example :
    SameRuns (launch failing "seapath_setup_network" "alice" none false settled).0 settled
    ⊎ ((settled.store.lock ≡ none)
        × Stays
            (some starting)
            "r2"
            settled
            (launch failing "seapath_setup_network" "alice" none false settled).0)
launch_refused_example =
    launch_refused failing "alice" false settled "seapath_setup_network" none r2-IsRunId
      launch_failed

abbrev launched : RunRecord
launched = as_running 7 (new_record around entry "alice" false)

launch_ok : (launch around "seapath_setup_network" "alice" none false settled).1 ≡ ok launched
unfolding launch get accepted_variables acquire strip text_of sorted blocking unmet_preconditions
    valid playbook
launch_ok = refl

launch-IsLaunched_example :
    IsLaunched around "alice" false settled
      (launch around "seapath_setup_network" "alice" none false settled).0
      launched
launch-IsLaunched_example =
    launch-IsLaunched around "alice" false settled "seapath_setup_network" none launched launch_ok

abbrev outcome : RunOutcome
outcome = record { return_code = some (pos 0); command = []; cancelled = false; error = none }

final_state_iff_example :
    (is_final (final_state outcome new_progress) ≡ true)
    × ((final_state outcome new_progress ≡ cancelled) ↔ (outcome.cancelled ≡ true))
    × ((final_state outcome new_progress ≡ interrupted) ↔ (
        (outcome.cancelled ≡ false)
        × (has_error outcome.error ≡ false)
        × (new_progress.final_status_seen ≡ false)))
    × ((final_state outcome new_progress ≡ success) ↔ (
        (outcome.cancelled ≡ false)
        × (has_error outcome.error ≡ false)
        × (new_progress.final_status_seen ≡ true)
        × (outcome.return_code ≡ some (pos 0))))
final_state_iff_example = final_state_iff outcome new_progress

abbrev cut : String → String
cut text = text

abbrev calls : List Callback
calls = Callback.event result_event ∷ Callback.output "ok: [seapath]" ∷ Callback.event recap ∷ []

execute-HasEnded_example :
    HasEnded cut 9 "r1"
      (apply_events new_progress (events_of calls))
      busy
      (execute cut 9 calls (ok outcome) going busy).0
      (execute cut 9 calls (ok outcome) going busy).1
execute-HasEnded_example = execute-HasEnded cut 9 calls (ok outcome) going busy r1-IsRunId

no_records : (id : String) (r : RunRecord) → load id settled.store ≡ some r → finished r ≡ true
unfolding load
no_records id r h = absurd (cc (lookup-nil id, h))

abbrev after_launch : ServiceState
after_launch = (launch around "seapath_setup_network" "alice" none false settled).0

second_refused :
    is_ok (launch around "seapath_setup_network" "alice" none false after_launch).1 ≡ false
unfolding launch get accepted_variables acquire strip text_of sorted blocking unmet_preconditions
    valid save create
second_refused = refl

abbrev two_asked : System
two_asked = record {
  service = (launch around "seapath_setup_network" "alice" none false after_launch).0;
  threads = new_thread launched ∷ [];
}

two_launches : Reach cut settled two_asked
two_launches =
    later
      (later (start refl no_records) (
        Step.launches around "seapath_setup_network" "alice" none false launched r2-IsRunId
          launch_ok))
      (Step.refuses around "seapath_setup_network" "alice" none false r2-IsRunId refl
        second_refused)

Reach-excludes_example : IsIdle two_asked ⊎ IsBusy two_asked
Reach-excludes_example = Reach-excludes cut settled two_asked two_launches
