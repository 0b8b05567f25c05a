-- ===== src/Runs/Execution.antt =====
-- app/runs/service.py: how `RunService` executes a run, from the adapter's callbacks to the final
-- state.
pub mod Callbacks
pub mod Endings
pub mod Exclusion
use insatomcat_webui.Base.{
  ℕ, ℤ, pos, negsuc, zero, suc, String, ◌==◌, Bool, true, false, not, ◌&&◌, ◌||◌, Option, none,
  some, List, [], ◌∷◌, if◌then◌else◌, concat, join, map, keep, member, null, Dict, keys, lookup,
  insert, Value, list_of, or_else, sorted, Result, ok, err,
}
use insatomcat_webui.Core.Errors.{ApiError}
use insatomcat_webui.Inventory.Service.{InventoryState}
use insatomcat_webui.Trust.Relations.{TrustRelation}
use insatomcat_webui.Runs.Models.{
  RunState, pending, running, success, failed, cancelled, interrupted, run_state_value,
  HostProgress, reached, RunProgress, new_progress, RunRecord, finished,
}
use insatomcat_webui.Runs.Progress.{Event, apply_event, Summary, summarise}
use insatomcat_webui.Runs.Catalogue.{catalogue, get}
use insatomcat_webui.Runs.Catalogue.Entries.{PlaybookEntry, playbook, previewable}
use insatomcat_webui.Runs.Store.{
  RunStore, save, create, load, append_event, append_log, acquire, release,
}
use insatomcat_webui.Runs.Adapter.{RunRequest, RunOutcome}
use insatomcat_webui.Runs.Availability.{unmet_preconditions, blocking}
use insatomcat_webui.Runs.Variables.{accepted_variables}
use insatomcat_webui.Runs.Service.{ServiceState}

-- What `execute` is asked to run; the paths are those of the service.
unfoldable pub request_of : String → String → String → String → RunRecord → Dict Value → RunRequest
request_of directory collections_path private_key_file known_hosts_file r extra_vars = record {
  run_id = r.id;
  playbook = r.playbook;
  inventory_file = concat (directory ∷ "/inventory.yaml" ∷ []);
  private_data_dir = directory;
  collections_path = collections_path;
  private_key_file = private_key_file;
  known_hosts_file = known_hosts_file;
  extra_vars = extra_vars;
  check = r.check;
}

-- `if outcome.error`
abbrev pub has_error : Option String → Bool
has_error none = false
has_error (some e) = not (e == "")

abbrev pub is_zero : Option ℤ → Bool
is_zero (some (pos zero)) = true
is_zero (some (pos (suc _))) = false
is_zero (some (negsuc _)) = false
is_zero none = false

-- `_final_state`
unfoldable pub final_state : RunOutcome → RunProgress → RunState
final_state outcome progress =
    if outcome.cancelled
    then RunState.cancelled
    else if has_error outcome.error
    then failed
    else if not progress.final_status_seen
    then interrupted
    else if is_zero outcome.return_code
    then success
    else failed

abbrev names_or_none : String → String
names_or_none names = if names == "" then "none" else names

reached_hosts : Dict HostProgress → List String
reached_hosts [] = []
reached_hosts ((host, h) ∷ hosts) =
    let rest = reached_hosts hosts in if reached h then host ∷ rest else rest

abbrev message_for : RunProgress → RunState → Option String
message_for progress interrupted = some (
    concat (
      "The run ended without a final status, which usually means the playbook rebooted the machine it was running from. Relaunching is safe: the playbooks are idempotent. Hosts reached: "
      ∷ names_or_none (join ", " (sorted (reached_hosts progress.hosts)))
      ∷ "."
      ∷ []))
message_for progress cancelled =
    some
      "Cancelled. A convergence stopped part way leaves the machine between two states, so relaunch or check it before relying on it."
message_for progress failed =
    some
      "A host failed and any_errors_fatal stopped everything. The per host results below name which ones were reached."
message_for progress pending = none
message_for progress running = none
message_for progress success = none

-- `_final_message`, of the record with its final state
unfoldable pub final_message : RunRecord → RunOutcome → Option String
unfolding reached_hosts
final_message r outcome =
    if has_error outcome.error then outcome.error else message_for r.progress r.state

-- The thread that executes a run: its record and `run_progress`.
pub record Thread : Type 0 where
  pub run : RunRecord
  pub progress : RunProgress

abbrev pub new_thread : RunRecord → Thread
new_thread r = record { run = r; progress = new_progress }

-- what the adapter calls while it runs
pub data Callback : Type 0 where
  event : Event → Callback
  output : String → Callback

abbrev summarised : String → Option Summary → RunStore → RunStore
summarised id none store = store
summarised id (some summary) store = append_event id summary store

module _ (cut : String → String) where
  -- `on_event`
  unfoldable pub on_event : Event → Thread × ServiceState → Thread × ServiceState
  on_event e (t, s) =
      let progress = apply_event t.progress e in
      let r = record t.run { progress = progress } in
      (
        record { run = r; progress = progress },
        record s { store = save r (summarised r.id (summarise cut e) s.store) },
      )

  -- `on_output`
  unfoldable pub on_output : String → Thread × ServiceState → Thread × ServiceState
  on_output text (t, s) = (t, record s { store = append_log t.run.id text s.store })

  -- `should_cancel`
  unfoldable pub should_cancel : Thread → ServiceState → Bool
  should_cancel t s = member t.run.id s.stopping

  abbrev concluded : Result String RunOutcome → Thread → RunRecord
  concluded (err text) t = record t.run { state = failed; message = some text }
  concluded (ok outcome) t =
      let r = record t.run {
        command = outcome.command;
        return_code = outcome.return_code;
        state = final_state outcome t.progress;
      } in
      record r { message = final_message r outcome }

  -- What `_execute` does after the adapter returned or raised, where the disk takes the record. A save
  -- that raises there ends the thread with the store and the requests to stop as they are.
  unfoldable pub finish :
      ℕ → Result String RunOutcome → Thread × ServiceState → ServiceState × RunRecord
  finish now outcome (t, s) =
      let r = record (concluded outcome t) { finished_at = some now; progress = t.progress } in
      (
        record s {
          store = release r.id (save r s.store);
          stopping = keep (λ id. not (id == r.id)) s.stopping;
        },
        r,
      )

  unfoldable pub callback : Callback → Thread × ServiceState → Thread × ServiceState
  unfolding on_event on_output
  callback (Callback.event e) ts = on_event e ts
  callback (Callback.output text) ts = on_output text ts

  unfoldable pub callbacks : List Callback → Thread × ServiceState → Thread × ServiceState
  unfolding callback
  callbacks [] ts = ts
  callbacks (c ∷ cs) ts = callbacks cs (callback c ts)

  -- `_execute`: the adapter calls back and then returns an outcome or raises
  unfoldable pub execute :
      ℕ
      → List Callback
      → Result String RunOutcome
      → RunRecord
      → ServiceState
      → ServiceState × RunRecord
  unfolding callbacks finish
  execute now cs outcome r s = finish now outcome (callbacks cs (new_thread r, s))
