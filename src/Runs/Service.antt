-- ===== src/Runs/Service.antt =====
-- app/runs/service.py: how `RunService` launches and cancels runs. The state is the store of the
-- artefacts and the set of runs that are asked to stop. What the other services, the clock and the
-- disk answer during an operation is an argument of it.
pub mod Faults
pub mod Guards
pub mod Launches
use insatomcat_webui.Base.{
  ℕ, ℤ, pos, negsuc, zero, suc, String, ◌==◌, Bool, true, false, not, ◌&&◌, ◌||◌, Option, none,
  some, List, [], ◌∷◌, if◌then◌else◌, concat, join, map, keep, member, null, Dict, keys, lookup,
  insert, Value, list_of, or_else, sorted, Result, ok, err,
}
use insatomcat_webui.Core.Errors.{ApiError}
use insatomcat_webui.Inventory.Service.{InventoryState}
use insatomcat_webui.Trust.Relations.{TrustRelation}
use insatomcat_webui.Runs.Models.{
  RunState, pending, running, success, failed, cancelled, interrupted, run_state_value,
  HostProgress, reached, RunProgress, new_progress, RunRecord, finished,
}
use insatomcat_webui.Runs.Progress.{Event, apply_event, Summary, summarise}
use insatomcat_webui.Runs.Catalogue.{catalogue, get}
use insatomcat_webui.Runs.Catalogue.Entries.{PlaybookEntry, playbook, previewable}
use insatomcat_webui.Runs.Store.{
  RunStore, save, create, load, append_event, append_log, acquire, release,
}
use insatomcat_webui.Runs.Adapter.{RunRequest, RunOutcome}
use insatomcat_webui.Runs.Availability.{unmet_preconditions, blocking}
use insatomcat_webui.Runs.Variables.{accepted_variables}

pub record ServiceState : Type 0 where
  pub store : RunStore
  -- `_cancelled`
  pub stopping : List String

-- Where the disk or the system may fail a launch that is let through: before there is a lock file; in
-- writing the run into it; after some of the writes of `create`; in saving the record as running; in
-- starting the thread.
pub data Fault : Type 0 where
  opening locking : Fault
  creating : ℕ → Fault
  starting threading : Fault

-- What a launch is told: by the inventory, whose state it reads twice and which may raise, by the trust
-- service, by the file system, by the clock, and where it fails, if it does.
pub record Surroundings : Type 0 where
  pub version : String
  pub checked : Option InventoryState
  pub relations : List TrustRelation
  pub missing : List String
  pub read : Option InventoryState
  pub raw : String
  pub run_id : String
  pub now : ℕ
  pub fault : Option Fault

-- An answer of the API, or another exception that is passed on.
pub data Failure : Type 0 where
  api : ApiError → Failure
  raised : Failure

abbrev conflict : String → String → Dict Value → ApiError
conflict code message detail = record {
  code = code;
  message = message;
  status = 409;
  detail = detail;
}

abbrev unblocked : List String → Result ApiError (Unit {0})
unblocked [] = ok tt
unblocked (reason ∷ reasons) = err (
    conflict "precondition_failed" reason
      (("unmet", list_of (map Value.str (reason ∷ reasons))) ∷ []))

abbrev with_variables :
    PlaybookEntry → Result ApiError (Dict Value) → Result ApiError (PlaybookEntry × Dict Value)
with_variables entry (ok extra) = ok (entry, extra)
with_variables entry (err e) = err e

abbrev previewed :
    Surroundings
    → PlaybookEntry
    → Dict Value
    → Bool
    → Result ApiError (Unit {0})
    → Result ApiError (PlaybookEntry × Dict Value)
previewed around entry variables check (err e) = err e
previewed around entry variables check (ok _) =
    if check && not (previewable entry)
    then err (
        conflict "not_previewable"
          (concat (
            entry.title
            ∷ " is driven by commands rather than by file templates, so check mode would report nothing meaningful."
            ∷ []))
          [])
    else with_variables entry (accepted_variables entry variables)

abbrev lifted :
    Result ApiError (PlaybookEntry × Dict Value) → Result Failure (PlaybookEntry × Dict Value)
lifted (err e) = err (Failure.api e)
lifted (ok x) = ok x

-- the guards behind the state of the inventory
abbrev checks_in :
    Surroundings
    → PlaybookEntry
    → Dict Value
    → Bool
    → Option InventoryState
    → Result Failure (PlaybookEntry × Dict Value)
checks_in around entry variables check none = err Failure.raised
checks_in around entry variables check (some state) = lifted (
    previewed around entry variables check (
      unblocked (
        blocking around.version entry (unmet_preconditions state around.relations) around.missing)))

abbrev checks :
    Surroundings
    → String
    → Dict Value
    → Bool
    → Option PlaybookEntry
    → Result Failure (PlaybookEntry × Dict Value)
checks around playbook_id variables check none = err (
    Failure.api (record {
      code = "unknown_playbook";
      message = concat (playbook_id ∷ " is not in the catalogue." ∷ []);
      status = 404;
      detail = ("available", list_of (map Value.str (sorted (map (λ e. e.id) catalogue)))) ∷ [];
    }))
checks around playbook_id variables check (some entry) =
    checks_in around entry variables check around.checked

-- The guards of `launch`, in order: the entry and the variables that it goes on with.
unfoldable pub check_launch :
    Surroundings → String → Dict Value → Bool → Result Failure (PlaybookEntry × Dict Value)
check_launch around playbook_id variables check =
    checks around playbook_id variables check (get playbook_id)

abbrev commit_of : Option InventoryState → Option String
commit_of none = none
commit_of (some state) = state.commit

abbrev pub new_record : Surroundings → PlaybookEntry → String → Bool → RunRecord
new_record around entry launched_by check = record {
  id = around.run_id;
  playbook = playbook entry;
  playbook_id = entry.id;
  state = pending;
  check = check;
  started_at = none;
  finished_at = none;
  launched_by = launched_by;
  inventory_commit = commit_of around.read;
  collection_version = around.version;
  command = [];
  return_code = none;
  progress = new_progress;
  message = none;
}

-- What a `create` that fails leaves: the files written by then, out of the inventory, the events,
-- the log and the record.
abbrev partly : ℕ → RunRecord → String → RunStore → RunStore
partly zero r raw store = store
partly (suc zero) r raw store = record store { inventories = insert r.id raw store.inventories }
partly (suc (suc zero)) r raw store = record store {
  inventories = insert r.id raw store.inventories;
  event_files = insert r.id (or_else (lookup r.id store.event_files) []) store.event_files;
}
partly (suc (suc (suc _))) r raw store = record store {
  inventories = insert r.id raw store.inventories;
  event_files = insert r.id (or_else (lookup r.id store.event_files) []) store.event_files;
  logs = insert r.id (or_else (lookup r.id store.logs) "") store.logs;
}

abbrev pub as_running : ℕ → RunRecord → RunRecord
as_running now r = record r { state = running; started_at = some now }

abbrev created :
    Surroundings
    → RunRecord
    → ServiceState
    → Option Fault
    → RunStore × Result String (Unit {0})
    → ServiceState × Result Failure RunRecord
created around r s fails (store, err message) =
    (record s { store = store }, err (Failure.api (conflict "run_in_progress" message [])))
created around r s (some opening) (store, ok _) = (s, err Failure.raised)
created around r s (some locking) (store, ok _) =
    (record s { store = record store { lock = some "" } }, err Failure.raised)
created around r s (some (creating n)) (store, ok _) =
    (record s { store = release r.id (partly n r around.raw store) }, err Failure.raised)
created around r s (some starting) (store, ok _) =
    (record s { store = create r around.raw store }, err Failure.raised)
created around r s (some threading) (store, ok _) = (
  record s { store = save (as_running around.now r) (create r around.raw store) },
  err Failure.raised,
)
created around r s none (store, ok _) = (
  record s { store = save (as_running around.now r) (create r around.raw store) },
  ok (as_running around.now r),
)

-- behind the second reading of the state
abbrev started_in :
    Surroundings
    → String
    → Bool
    → ServiceState
    → PlaybookEntry
    → Option InventoryState
    → ServiceState × Result Failure RunRecord
started_in around launched_by check s entry none = (s, err Failure.raised)
started_in around launched_by check s entry (some state) =
    created around (new_record around entry launched_by check) s around.fault
      (acquire around.run_id s.store)

abbrev started :
    Surroundings
    → String
    → Bool
    → ServiceState
    → Result Failure (PlaybookEntry × Dict Value)
    → ServiceState × Result Failure RunRecord
started around launched_by check s (err e) = (s, err e)
started around launched_by check s (ok (entry, _)) =
    started_in around launched_by check s entry around.read

-- `launch`, up to the start of the thread that executes the run
unfoldable pub launch :
    Surroundings
    → String
    → String
    → Option (Dict Value)
    → Bool
    → ServiceState
    → ServiceState × Result Failure RunRecord
unfolding check_launch
launch around playbook_id launched_by variables check s =
    started around launched_by check s
      (check_launch around playbook_id (or_else variables []) check)

abbrev pub asked :
    String → ServiceState → Option RunRecord → ServiceState × Result ApiError RunRecord
asked run_id s none = (
  s,
  err (record {
    code = "unknown_run";
    message = concat ("There is no run " ∷ run_id ∷ "." ∷ []);
    status = 404;
    detail = [];
  }),
)
asked run_id s (some r) =
    if finished r
    then (
      s,
      err (
          conflict "run_finished"
            (concat ("Run " ∷ run_id ∷ " is already " ∷ run_state_value r.state ∷ "." ∷ [])) []),
    )
    else (
      record s { stopping = if member run_id s.stopping then s.stopping else run_id ∷ s.stopping },
      ok r,
    )

unfoldable pub cancel : String → ServiceState → ServiceState × Result ApiError RunRecord
cancel run_id s = asked run_id s (load run_id s.store)
