-- ===== src/Runs/Progress.antt =====
-- app/runs/progress.py: the fold of Ansible's events into the progress, and what the browser gets.
pub mod Counts
pub mod Recap
use insatomcat_webui.Base.{
  ℕ, ◌+◌, String, Bool, true, false, Option, none, some, List, [], ◌∷◌, ◌==◌, if◌then◌else◌, Dict,
  lookup, insert, Value, pairs, dict_of, is_some, or_else, map,
}
use insatomcat_webui.Runs.Models.{HostProgress, new_host, RunProgress}

-- The data of an event: what the code reads of `event_data`. A count of the recap is a pair of a
-- host and a number.
pub record EventData : Type 0 where
  pub play : Option String
  pub task : Option String
  pub host : Option String
  pub res_changed : Bool
  pub msg : Option String
  pub stderr : Option String
  pub reason : Option String
  pub stats : String → List (String × ℕ)

pub record Event : Type 0 where
  pub event : String
  pub event_data : EventData

pub data Outcome : Type 0 where
  ok failed skipped unreachable : Outcome

-- `_HOST_RESULTS.get(name)`
unfoldable pub host_result : String → Option Outcome
host_result name =
    if name == "runner_on_ok"
    then some ok
    else if name == "runner_on_failed"
    then some failed
    else if name == "runner_on_skipped"
    then some skipped
    else if name == "runner_on_unreachable"
    then some unreachable
    else if name == "runner_on_async_failed"
    then some failed
    else none

-- `a or b` for optional texts: an empty text is falsy too
abbrev pub either : Option String → Option String → Option String
either none b = b
either (some a) b = if a == "" then b else some a

-- `progress.hosts[host]` of `_host`, which adds a host that is not there
unfoldable pub host_of : RunProgress → String → HostProgress
host_of progress host = or_else (lookup host progress.hosts) new_host

abbrev pub with_host : String → HostProgress → RunProgress → RunProgress
with_host host state progress = record progress { hosts = insert host state progress.hosts }

unfoldable pub count_outcome : Outcome → Bool → HostProgress → HostProgress
count_outcome ok true h = record h { changed = h.changed + 1 }
count_outcome ok false h = record h { ok = h.ok + 1 }
count_outcome failed b h = record h { failed = h.failed + 1 }
count_outcome skipped b h = record h { skipped = h.skipped + 1 }
count_outcome unreachable b h = record h { unreachable = h.unreachable + 1 }

abbrev apply_to : RunProgress → Outcome → EventData → Option String → RunProgress
apply_to progress outcome d none = progress
apply_to progress outcome d (some host) =
    if host == ""
    then progress
    else with_host host
        (record (count_outcome outcome d.res_changed (host_of progress host)) {
          last_task = either d.task progress.task;
        })
        progress

-- the branch for the results of a host
unfoldable pub apply_result : RunProgress → Outcome → EventData → RunProgress
apply_result progress outcome d = apply_to progress outcome d d.host

-- `setattr(state, field, count)` for the fields of the recap
pub data StatField : Type 0 where
  ok changed failed skipped unreachable : StatField

unfoldable pub set_field : StatField → ℕ → HostProgress → HostProgress
set_field StatField.ok n h = record h { ok = n }
set_field StatField.changed n h = record h { changed = n }
set_field StatField.failed n h = record h { failed = n }
set_field StatField.skipped n h = record h { skipped = n }
set_field StatField.unreachable n h = record h { unreachable = n }

unfoldable pub apply_counts : StatField → List (String × ℕ) → RunProgress → RunProgress
unfolding set_field host_of
apply_counts f [] progress = progress
apply_counts f ((host, n) ∷ rest) progress =
    apply_counts f rest (with_host host (set_field f n (host_of progress host)) progress)

unfoldable pub apply_stats : RunProgress → EventData → RunProgress
unfolding apply_counts
apply_stats progress d = apply_counts StatField.unreachable (d.stats "dark") (
    apply_counts StatField.skipped (d.stats "skipped") (
      apply_counts StatField.failed (d.stats "failures") (
        apply_counts StatField.changed (d.stats "changed")
          (apply_counts StatField.ok (d.stats "ok") progress))))

-- the branch for the names of `_HOST_RESULTS`, and the one behind it
abbrev apply_other : RunProgress → String → EventData → Option Outcome → RunProgress
apply_other progress name d (some outcome) = apply_result progress outcome d
apply_other progress name d none =
    if name == "playbook_on_stats"
    then apply_stats (record progress { final_status_seen = true }) d
    else progress

unfoldable pub apply_event : RunProgress → Event → RunProgress
unfolding host_result
apply_event progress e =
    let d = e.event_data in
    if e.event == "playbook_on_play_start"
    then record progress { play = either d.play progress.play }
    else if e.event == "playbook_on_task_start"
    then record progress {
      task = either d.task progress.task;
      tasks_started = progress.tasks_started + 1;
    }
    else apply_other progress e.event d (host_result e.event)

-- The events of a run, in order.
unfoldable pub apply_events : RunProgress → List Event → RunProgress
unfolding apply_event
apply_events progress [] = progress
apply_events progress (e ∷ es) = apply_events (apply_event progress e) es

-- What `summarise` answers.
pub data Summary : Type 0 where
  play : Option String → Summary
  task : Option String → Option String → Summary
  result : Option String → Option String → String → Option String → Summary
  stats : List (String × List (String × ℕ)) → Summary

abbrev outcome_value : Outcome → Bool → String
outcome_value ok true = "changed"
outcome_value ok false = "ok"
outcome_value failed b = "failed"
outcome_value skipped b = "skipped"
outcome_value unreachable b = "unreachable"

module _ (cut : String → String) where
  -- `_failure_message`; `cut` is `[:2000]`
  unfoldable pub failure_message : EventData → Option String
  failure_message d = elim (either d.msg (either d.stderr (either d.reason none))) [
    | none ↦ none
    | some m ↦ some (cut m)
  ]

  abbrev message_of : Outcome → EventData → Option String
  message_of failed d = failure_message d
  message_of ok d = none
  message_of skipped d = none
  message_of unreachable d = none

  unfoldable pub stats_of : EventData → List (String × List (String × ℕ))
  stats_of d =
      map (λ k. (k, d.stats k))
        ("ok" ∷ "changed" ∷ "failures" ∷ "dark" ∷ "skipped" ∷ "rescued" ∷ [])

  abbrev summarise_other : String → EventData → Option Outcome → Option Summary
  summarise_other name d (some o) =
      some (result d.host d.task (outcome_value o d.res_changed) (message_of o d))
  summarise_other name d none =
      if name == "playbook_on_stats" then some (stats (stats_of d)) else none

  unfoldable pub summarise : Event → Option Summary
  unfolding failure_message stats_of host_result
  summarise e =
      let d = e.event_data in
      if e.event == "playbook_on_play_start"
      then some (play d.play)
      else if e.event == "playbook_on_task_start"
      then some (task d.task d.play)
      else summarise_other e.event d (host_result e.event)
