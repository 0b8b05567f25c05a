-- ===== src/Runs/Progress/Recap.antt =====
-- Which events end what is counted: the recap, and no other.
use insatomcat_webui.Base.{
  ℕ, String, ◌≡◌, refl, Bool, true, false, Option, none, some, List, [], ◌∷◌, ◌==◌, eq_iff, arith,
  any, ◌||◌, is_some,
}
use insatomcat_webui.Runs.Models.{RunProgress}
use insatomcat_webui.Runs.Progress.{
  Event, EventData, Outcome, host_result, apply_event, apply_events, apply_result, apply_counts,
  apply_stats, apply_other, StatField, with_host, set_field, host_of,
}

apply_counts-final :
    (f : StatField) (l : List (String × ℕ)) (p : RunProgress)
    → (apply_counts f l p).final_status_seen ≡ p.final_status_seen
unfolding apply_counts
apply_counts-final f [] p = refl
apply_counts-final f ((h, n) ∷ l) p =
    apply_counts-final f l (with_host h (set_field f n (host_of p h)) p)

apply_stats-final :
    (p : RunProgress) (d : EventData) → (apply_stats p d).final_status_seen ≡ p.final_status_seen
unfolding apply_stats
apply_stats-final p d = simp apply_counts-final

abbrev pub is_recap : Event → Bool
is_recap e = e.event == "playbook_on_stats"

apply_result-final :
    (p : RunProgress) (o : Outcome) (d : EventData)
    → (apply_result p o d).final_status_seen ≡ p.final_status_seen
unfolding apply_result
apply_result-final p o d = ground arith

apply_other-final :
    (p : RunProgress) (e : Event) (o : Option Outcome)
    → (is_some o ≡ true → is_recap e ≡ false)
    → (apply_other p e.event e.event_data o).final_status_seen ≡ (p.final_status_seen || is_recap e)
apply_other-final p e (some o) h = ground (arith, apply_result-final p o e.event_data, h refl)
apply_other-final p e none h =
    ground (arith, apply_stats-final (record p { final_status_seen = true }) e.event_data)

-- no event of another name is a recap
not_recap :
    (name s : String)
    → (name == s) ≡ true
    → (s == "playbook_on_stats") ≡ false
    → (name == "playbook_on_stats") ≡ false
not_recap name s e f = rw ((eq_iff name s).0 e) f

host_result-not_recap : (e : Event) → is_some (host_result e.event) ≡ true → is_recap e ≡ false
unfolding host_result
host_result-not_recap e h = ground (
  arith,
  not_recap e.event "runner_on_ok",
  not_recap e.event "runner_on_failed",
  not_recap e.event "runner_on_skipped",
  not_recap e.event "runner_on_unreachable",
  not_recap e.event "runner_on_async_failed",
)

apply_event-final :
    (p : RunProgress) (e : Event)
    → (apply_event p e).final_status_seen ≡ (p.final_status_seen || is_recap e)
unfolding apply_event
apply_event-final p e = ground (
  arith,
  not_recap e.event "playbook_on_play_start",
  not_recap e.event "playbook_on_task_start",
  apply_other-final p e (host_result e.event) (host_result-not_recap e),
)

-- The recap is seen exactly if it was seen before or is among the events: a run that stops without
-- Ansible's recap never looks as if it had finished, whatever other events came.
pub apply_events-final :
    (p : RunProgress) (es : List Event)
    → (apply_events p es).final_status_seen ≡ (p.final_status_seen || any is_recap es)
unfolding apply_events
apply_events-final p [] = ground arith
apply_events-final p (e ∷ es) =
    ground (arith, apply_events-final (apply_event p e) es, apply_event-final p e)
