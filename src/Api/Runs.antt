-- ===== src/Api/Runs.antt =====
-- app/api/v1/runs.py: the endpoints of the runs, behind their guards, and the stream of events.
pub mod Frames
pub mod Stream
use insatomcat_webui.Base.{
  ℕ, ◌+◌, zero, suc, ℤ, String, ◌==◌, Bool, true, false, Option, none, some, List, [], ◌∷◌, ◌++◌,
  if◌then◌else◌, concat, length, first, Dict, Value, Result, ok, err,
}
use insatomcat_webui.Core.Errors.{ApiError}
use insatomcat_webui.Core.Auth.{User}
use insatomcat_webui.Runs.Models.{
  RunState, pending, running, success, failed, cancelled, interrupted, run_state_value,
  HostProgress, RunProgress, RunRecord, finished,
}
use insatomcat_webui.Runs.Progress.{Summary}
use insatomcat_webui.Runs.Catalogue.Entries.{PlaybookEntry, preview_value}
use insatomcat_webui.Runs.Store.{RunStore, load, events, log, list_runs}
use insatomcat_webui.Runs.Availability.{PlaybookAvailability}
use insatomcat_webui.Runs.Service.{ServiceState, Surroundings, Failure, launch, cancel}
use insatomcat_webui.Api.Endpoint.{Problem, Reply}

pub record LaunchRequest : Type 0 where
  pub playbook : String
  pub check : Bool
  pub variables : Dict Value

pub record LaunchResponse : Type 0 where
  pub run_id : String
  pub state : String
  pub preview : String

abbrev pub unknown_run : String → ApiError
unknown_run run_id = record {
  code = "unknown_run";
  message = concat ("There is no run " ∷ run_id ∷ "." ∷ []);
  status = 404;
  detail = [];
}

-- the answer once the entry is found again
abbrev responded : RunRecord → Option PlaybookAvailability → Reply LaunchResponse
responded r none = err Problem.raised
responded r (some item) = ok (record {
  run_id = r.id;
  state = run_state_value r.state;
  preview = preview_value item.entry.preview;
})

abbrev launched :
    String
    → List PlaybookAvailability
    → ServiceState × Result Failure RunRecord
    → ServiceState × Reply LaunchResponse
launched playbook_id offered (s, err (Failure.api e)) = (s, err (Problem.api e))
launched playbook_id offered (s, err Failure.raised) = (s, err Problem.raised)
launched playbook_id offered (s, ok r) =
    (s, responded r (first (λ item. item.entry.id == playbook_id) offered))

-- `launch`; `offered` is what `playbooks` answers afterwards
unfoldable pub launch_run :
    Surroundings
    → List PlaybookAvailability
    → LaunchRequest
    → User
    → ServiceState
    → ServiceState × Reply LaunchResponse
launch_run around offered payload user s =
    launched payload.playbook offered
      (launch around payload.playbook user.username (some payload.variables) payload.check s)

abbrev or_unknown : String → Option RunRecord → Reply RunRecord
or_unknown run_id none = err (Problem.api (unknown_run run_id))
or_unknown run_id (some r) = ok r

-- `run`
unfoldable pub get_run : String → RunStore → Reply RunRecord
get_run run_id store = or_unknown run_id (load run_id store)

-- `runs`
unfoldable pub get_runs : ℕ → RunStore → List RunRecord
get_runs limit store = list_runs limit store

abbrev log_of : String → RunStore → Reply RunRecord → Reply String
log_of run_id store (err e) = err e
log_of run_id store (ok _) = ok (log run_id store)

-- `log`
unfoldable pub get_log : String → RunStore → Reply String
unfolding get_run
get_log run_id store = log_of run_id store (get_run run_id store)

abbrev cancelling : ServiceState × Result ApiError RunRecord → ServiceState × Reply RunRecord
cancelling (s, err e) = (s, err (Problem.api e))
cancelling (s, ok r) = (s, ok r)

-- `cancel`
unfoldable pub cancel_run : String → User → ServiceState → ServiceState × Reply RunRecord
cancel_run run_id user s = cancelling (cancel run_id s)

-- `_final`
pub record Verdict : Type 0 where
  pub state : String
  pub message : Option String
  pub return_code : Option ℤ
  pub hosts : Dict HostProgress

unfoldable pub verdict : RunRecord → Verdict
verdict r = record {
  state = run_state_value r.state;
  message = r.message;
  return_code = r.return_code;
  hosts = r.progress.hosts;
}

-- What the client is sent: an event under its index, or how the run ended.
pub data Frame : Type 0 where
  event : ℕ → Summary → Frame
  ended : Verdict → Frame

-- One round of `stream`: the store when the events are read and, later, when the record is, and
-- whether the client has gone by then.
pub record Round : Type 0 where
  pub reading : RunStore
  pub judging : RunStore
  pub gone : Bool

-- the events of a round, from an index on
unfoldable pub numbered : ℕ → List Summary → List Frame
numbered index [] = []
numbered index (e ∷ es) = Frame.event index e ∷ numbered (index + 1) es

abbrev pub final_of : Option RunRecord → Option Verdict
final_of none = none
final_of (some r) = if finished r then some (verdict r) else none

-- the end of a round: with the verdict, without one, or on to the next round
abbrev closing : Option Verdict → Bool → List Frame × Bool → List Frame × Bool
closing (some v) gone later = (Frame.ended v ∷ [], true)
closing none true later = ([], true)
closing none false later = later

abbrev pub after : List Frame → List Frame × Bool → List Frame × Bool
after frames (more, closed) = (frames ++ more, closed)

-- `stream` over its rounds: the frames, and whether it has returned by the end of them
unfoldable pub stream : String → ℕ → List Round → List Frame × Bool
unfolding numbered
stream run_id index [] = ([], false)
stream run_id index (r ∷ rounds) =
    let found = events run_id index r.reading in
    let later = stream run_id (index + length found) rounds in
    after (numbered index found) (closing (final_of (load run_id r.judging)) r.gone later)

abbrev streamed : String → ℕ → List Round → Option RunRecord → Reply (List Frame × Bool)
streamed run_id offset rounds none = err (Problem.api (unknown_run run_id))
streamed run_id offset rounds (some _) = ok (stream run_id offset rounds)

-- `events`, asked at a store
unfoldable pub event_stream : String → ℕ → RunStore → List Round → Reply (List Frame × Bool)
unfolding stream
event_stream run_id offset store rounds = streamed run_id offset rounds (load run_id store)
