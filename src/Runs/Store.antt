-- ===== src/Runs/Store.antt =====
-- app/runs/store.py: the artefacts of the runs on disk, and the run lock. The file system is a
-- record: for each run the files of its directory, and beside them the lock file. A record that
-- cannot be read is one that is not there.
pub mod Lock
pub mod Listing
pub mod Recovery
use insatomcat_webui.Base.{
  ℕ, ◌+◌, String, Bool, true, false, not, ◌&&◌, ◌||◌, Option, none, some, List, [], ◌∷◌, ◌++◌, ◌==◌,
  leb, ltb, if◌then◌else◌, Dict, lookup, insert, values, take, or_else, text_of, codes, strip,
  concat, str_lt, null, Result, ok, err,
}
use insatomcat_webui.Runs.Models.{
  RunState, pending, running, success, failed, cancelled, interrupted, RunRecord, is_final,
}
use insatomcat_webui.Runs.Progress.{Summary}

-- A line of an events file: an event; a line that is blank or no JSON, as one that was half written when
-- the machine went down; or a half written last one, without its line end.
pub data Line : Type 0 where
  whole : Summary → Line
  torn unended : Line

pub record RunStore : Type 0 where
  pub records : Dict RunRecord
  pub inventories : Dict String
  pub event_files : Dict (List Line)
  pub logs : Dict String
  -- the text of the lock file, if there is one
  pub lock : Option String

abbrev pub empty_store : RunStore
empty_store = record { records = []; inventories = []; event_files = []; logs = []; lock = none }

unfoldable pub save : RunRecord → RunStore → RunStore
save r store = record store { records = insert r.id r store.records }

-- `create`; touching a file that is there leaves it as it is
unfoldable pub create : RunRecord → String → RunStore → RunStore
unfolding save
create r inventory store = save r (record store {
  inventories = insert r.id inventory store.inventories;
  event_files = insert r.id (or_else (lookup r.id store.event_files) []) store.event_files;
  logs = insert r.id (or_else (lookup r.id store.logs) "") store.logs;
})

unfoldable pub load : String → RunStore → Option RunRecord
load id store = lookup id store.records

insert_desc : RunRecord → List RunRecord → List RunRecord
insert_desc r [] = r ∷ []
insert_desc r (s ∷ rs) =
    let rest = s ∷ insert_desc r rs in if str_lt r.id s.id then rest else r ∷ s ∷ rs

pub sort_desc : List RunRecord → List RunRecord
unfolding insert_desc
sort_desc [] = []
sort_desc (r ∷ rs) = insert_desc r (sort_desc rs)

-- `list`: the newest first
unfoldable pub list_runs : ℕ → RunStore → List RunRecord
unfolding sort_desc
list_runs limit store = take limit (sort_desc (values store.records))

unfoldable pub inventory_of : String → RunStore → String
inventory_of id store = or_else (lookup id store.inventories) ""

-- writing behind a line without its end makes one line of both, which is no JSON
append_line : List Line → Summary → List Line
append_line [] event = whole event ∷ []
append_line (unended ∷ []) event = torn ∷ []
append_line (unended ∷ l ∷ ls) event = unended ∷ append_line (l ∷ ls) event
append_line (torn ∷ ls) event = torn ∷ append_line ls event
append_line (whole e ∷ ls) event = whole e ∷ append_line ls event

unfoldable pub append_event : String → Summary → RunStore → RunStore
unfolding append_line
append_event id event store = record store {
  event_files =
      insert id (append_line (or_else (lookup id store.event_files) []) event) store.event_files;
}

unfoldable pub append_log : String → String → RunStore → RunStore
append_log id text store = record store {
  logs = insert id (concat (or_else (lookup id store.logs) "" ∷ text ∷ [])) store.logs;
}

abbrev pub drop {ℓ} : {A : Type ℓ} → ℕ → List A → List A
drop Prim.Native.Nat.ℕ.zero es = es
drop (Prim.Native.Nat.ℕ.suc n) [] = []
drop (Prim.Native.Nat.ℕ.suc n) (e ∷ es) = drop n es

-- the events of some lines; the others are skipped
abbrev pub wholes : List Line → List Summary
wholes [] = []
wholes (whole e ∷ ls) = e ∷ wholes ls
wholes (torn ∷ ls) = wholes ls
wholes (unended ∷ ls) = wholes ls

-- the lines of the events file
abbrev pub lines_of : String → RunStore → List Line
lines_of id store = or_else (lookup id store.event_files) []

-- `events` from an offset, which counts lines, for a client that reconnected
unfoldable pub events : String → ℕ → RunStore → List Summary
events id offset store = wholes (drop offset (lines_of id store))

unfoldable pub log : String → RunStore → String
log id store = or_else (lookup id store.logs) ""

abbrev pub stripped : String → String
stripped s = text_of (strip (codes s))

abbrev read_lock : Option String → Option String
read_lock none = none
read_lock (some text) = if stripped text == "" then none else some (stripped text)

-- `_lock_holder`
unfoldable pub lock_holder : RunStore → Option String
lock_holder store = read_lock store.lock

abbrev pub shown : Option String → String
shown none = "None"
shown (some id) = id

-- `acquire`; the error is the message of `RunLocked`
abbrev acquired : String → RunStore → Option String → RunStore × Result String (Unit {0})
acquired id store none = (record store { lock = some id }, ok tt)
acquired id store (some text) = (
  store,
  err (
      concat (
        "Run "
        ∷ shown (read_lock (some text))
        ∷ " is already going. Two operators must not converge the same machines at once."
        ∷ [])),
)

unfoldable pub acquire : String → RunStore → RunStore × Result String (Unit {0})
acquire id store = acquired id store store.lock

abbrev is_or_none : String → Option String → Bool
is_or_none id none = true
is_or_none id (some holder) = holder == id

unfoldable pub release : String → RunStore → RunStore
unfolding lock_holder
release id store = if is_or_none id (lock_holder store) then record store { lock = none } else store

abbrev pub restart_message : String
restart_message =
    "The service restarted while this run was going. The run is relaunchable: the playbooks are idempotent, so converging again is the recovery."

abbrev pub interrupt : ℕ → RunRecord → RunRecord
interrupt now r = record r {
  state = interrupted;
  finished_at = some now;
  message = some restart_message;
}

unfoldable pub is_going : RunState → Bool
is_going pending = true
is_going running = true
is_going success = false
is_going failed = false
is_going cancelled = false
is_going interrupted = false

-- the loop of `reconcile`: the store and the records that were closed
unfoldable pub close_all : ℕ → List RunRecord → RunStore → RunStore × List RunRecord
unfolding save is_going
close_all now [] store = (store, [])
close_all now (r ∷ rs) store =
    let skip = close_all now rs store in
    let closed = close_all now rs (save (interrupt now r) store) in
    if not (is_going r.state) then skip else (closed.0, interrupt now r ∷ closed.1)

abbrev unlock_if : RunStore × List RunRecord → RunStore × List RunRecord
unlock_if (store, recovered) =
    if not (null recovered) then (record store { lock = none }, recovered) else (store, recovered)

unfoldable pub reconcile : ℕ → RunStore → RunStore × List RunRecord
unfolding close_all list_runs
reconcile now store = unlock_if (close_all now (list_runs 1000 store) store)
