-- ===== src/Runs/Models.antt =====
-- app/runs/models.py: what a run is. Instants are counted in ticks.
use insatomcat_webui.Base.{
  ℕ, ℤ, String, Bool, true, false, not, ◌||◌, Option, none, List, [], Dict, ◌=?◌,
}

pub data RunState : Type 0 where
  pending running success failed cancelled interrupted : RunState

abbrev pub run_state_value : RunState → String
run_state_value pending = "pending"
run_state_value running = "running"
run_state_value success = "success"
run_state_value failed = "failed"
run_state_value cancelled = "cancelled"
run_state_value interrupted = "interrupted"

pub record HostProgress : Type 0 where
  pub ok : ℕ
  pub changed : ℕ
  pub failed : ℕ
  pub skipped : ℕ
  pub unreachable : ℕ
  pub last_task : Option String

abbrev pub new_host : HostProgress
new_host = record {
  ok = 0;
  changed = 0;
  failed = 0;
  skipped = 0;
  unreachable = 0;
  last_task = none;
}

unfoldable pub reached : HostProgress → Bool
reached h = not (h.ok =? 0) || not (h.changed =? 0) || not (h.failed =? 0) || not (h.skipped =? 0)

pub record RunProgress : Type 0 where
  pub play : Option String
  pub task : Option String
  pub tasks_started : ℕ
  pub hosts : Dict HostProgress
  pub final_status_seen : Bool

abbrev pub new_progress : RunProgress
new_progress = record {
  play = none;
  task = none;
  tasks_started = 0;
  hosts = [];
  final_status_seen = false;
}

pub record RunRecord : Type 0 where
  pub id : String
  pub playbook : String
  pub playbook_id : String
  pub state : RunState
  pub check : Bool
  pub started_at : Option ℕ
  pub finished_at : Option ℕ
  pub launched_by : String
  pub inventory_commit : Option String
  pub collection_version : String
  pub command : List String
  pub return_code : Option ℤ
  pub progress : RunProgress
  pub message : Option String

unfoldable pub is_final : RunState → Bool
is_final pending = false
is_final running = false
is_final success = true
is_final failed = true
is_final cancelled = true
is_final interrupted = true

-- `RunRecord.finished`
unfoldable pub finished : RunRecord → Bool
unfolding is_final
finished r = is_final r.state
