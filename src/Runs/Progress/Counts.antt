-- ===== src/Runs/Progress/Counts.antt =====
-- What the progress says of the events.
use insatomcat_webui.Base.{
  ℕ, ◌+◌, String, ◌≡◌, refl, sym, Bool, true, false, Option, none, some, List, [], ◌∷◌, ◌==◌,
  eq_iff, arith, any, ◌||◌, ap, ◌∙◌, or_else, lookup-insert, if◌then◌else◌, not, Bool-cases, inl,
  inr, ◌&&◌,
}
use insatomcat_webui.Runs.Models.{HostProgress, new_host, RunProgress}
use insatomcat_webui.Runs.Progress.{
  Event, EventData, Outcome, host_result, apply_event, apply_events, apply_result, apply_to,
  apply_other, StatField, count_outcome, either, with_host, host_of,
}
use insatomcat_webui.Runs.Progress.Recap.{is_recap}

abbrev names : String → Option String → Bool
names host none = false
names host (some h) = not (h == "") && h == host

-- what is counted of a kind for a host
abbrev pub count : StatField → HostProgress → ℕ
count StatField.ok h = h.ok
count StatField.changed h = h.changed
count StatField.failed h = h.failed
count StatField.skipped h = h.skipped
count StatField.unreachable h = h.unreachable

abbrev pub counted : StatField → String → RunProgress → ℕ
counted kind host p = count kind (host_of p host)

-- Which events of Ansible report a result of a kind.
abbrev pub reports : StatField → String → Bool → Bool
reports StatField.ok name changed = name == "runner_on_ok" && not changed
reports StatField.changed name changed = name == "runner_on_ok" && changed
reports StatField.failed name changed =
    name == "runner_on_failed" || name == "runner_on_async_failed"
reports StatField.skipped name changed = name == "runner_on_skipped"
reports StatField.unreachable name changed = name == "runner_on_unreachable"

abbrev pub is_result_of : StatField → String → Event → Bool
is_result_of kind host e =
    reports kind e.event e.event_data.res_changed && names host e.event_data.host

-- How many of the events report a result of that kind for the host.
abbrev pub results_of : StatField → String → List Event → ℕ
results_of kind host [] = 0
results_of kind host (e ∷ es) =
    (if is_result_of kind host e then 1 else 0) + results_of kind host es

-- the kind that an outcome is counted under
abbrev is_kind : StatField → Bool → Outcome → Bool
is_kind StatField.ok changed Outcome.ok = not changed
is_kind StatField.changed changed Outcome.ok = changed
is_kind StatField.failed changed Outcome.failed = true
is_kind StatField.skipped changed Outcome.skipped = true
is_kind StatField.unreachable changed Outcome.unreachable = true
is_kind _ _ _ = false

abbrev is_kind_of : StatField → Bool → Option Outcome → Bool
is_kind_of kind changed none = false
is_kind_of kind changed (some o) = is_kind kind changed o

-- a name that is one text is no other
other_name : (name s t : String) → (name == s) ≡ true → (s == t) ≡ false → (name == t) ≡ false
other_name name s t e f = rw ((eq_iff name s).0 e) f

reports-host_result :
    (kind : StatField) (name : String) (changed : Bool)
    → is_kind_of kind changed (host_result name) ≡ reports kind name changed
unfolding host_result
reports-host_result StatField.ok name changed = ground (
  arith,
  other_name name "runner_on_failed" "runner_on_ok",
  other_name name "runner_on_skipped" "runner_on_ok",
  other_name name "runner_on_unreachable" "runner_on_ok",
  other_name name "runner_on_async_failed" "runner_on_ok",
)
reports-host_result StatField.changed name changed = ground (
  arith,
  other_name name "runner_on_failed" "runner_on_ok",
  other_name name "runner_on_skipped" "runner_on_ok",
  other_name name "runner_on_unreachable" "runner_on_ok",
  other_name name "runner_on_async_failed" "runner_on_ok",
)
reports-host_result StatField.failed name changed = ground (
  arith,
  other_name name "runner_on_ok" "runner_on_failed",
  other_name name "runner_on_ok" "runner_on_async_failed",
  other_name name "runner_on_skipped" "runner_on_failed",
  other_name name "runner_on_unreachable" "runner_on_failed",
  other_name name "runner_on_failed" "runner_on_async_failed",
  other_name name "runner_on_skipped" "runner_on_async_failed",
  other_name name "runner_on_unreachable" "runner_on_async_failed",
)
reports-host_result StatField.skipped name changed = ground (
  arith,
  other_name name "runner_on_ok" "runner_on_skipped",
  other_name name "runner_on_failed" "runner_on_skipped",
  other_name name "runner_on_unreachable" "runner_on_skipped",
  other_name name "runner_on_async_failed" "runner_on_skipped",
)
reports-host_result StatField.unreachable name changed = ground (
  arith,
  other_name name "runner_on_ok" "runner_on_unreachable",
  other_name name "runner_on_failed" "runner_on_unreachable",
  other_name name "runner_on_skipped" "runner_on_unreachable",
  other_name name "runner_on_async_failed" "runner_on_unreachable",
)

count-count_outcome :
    (kind : StatField) (o : Outcome) (b : Bool) (h : HostProgress)
    → count kind (count_outcome o b h) ≡ count kind h + (if is_kind kind b o then 1 else 0)
unfolding count_outcome
count-count_outcome StatField.ok Outcome.ok true h = omega arith
count-count_outcome StatField.ok Outcome.ok false h = omega arith
count-count_outcome StatField.ok Outcome.failed b h = omega arith
count-count_outcome StatField.ok Outcome.skipped b h = omega arith
count-count_outcome StatField.ok Outcome.unreachable b h = omega arith
count-count_outcome StatField.changed Outcome.ok true h = omega arith
count-count_outcome StatField.changed Outcome.ok false h = omega arith
count-count_outcome StatField.changed Outcome.failed b h = omega arith
count-count_outcome StatField.changed Outcome.skipped b h = omega arith
count-count_outcome StatField.changed Outcome.unreachable b h = omega arith
count-count_outcome StatField.failed Outcome.ok true h = omega arith
count-count_outcome StatField.failed Outcome.ok false h = omega arith
count-count_outcome StatField.failed Outcome.failed b h = omega arith
count-count_outcome StatField.failed Outcome.skipped b h = omega arith
count-count_outcome StatField.failed Outcome.unreachable b h = omega arith
count-count_outcome StatField.skipped Outcome.ok true h = omega arith
count-count_outcome StatField.skipped Outcome.ok false h = omega arith
count-count_outcome StatField.skipped Outcome.failed b h = omega arith
count-count_outcome StatField.skipped Outcome.skipped b h = omega arith
count-count_outcome StatField.skipped Outcome.unreachable b h = omega arith
count-count_outcome StatField.unreachable Outcome.ok true h = omega arith
count-count_outcome StatField.unreachable Outcome.ok false h = omega arith
count-count_outcome StatField.unreachable Outcome.failed b h = omega arith
count-count_outcome StatField.unreachable Outcome.skipped b h = omega arith
count-count_outcome StatField.unreachable Outcome.unreachable b h = omega arith

counted-with_host :
    (kind : StatField) (host h : String) (s : HostProgress) (p : RunProgress)
    → counted kind host (with_host h s p)
      ≡ (if h == host then count kind s else counted kind host p)
unfolding host_of
counted-with_host kind host h s p =
    ap (λ o. count kind (or_else o new_host)) (lookup-insert h host s p.hosts)
    ∙ elim (Bool-cases (h == host)) [ inl e ↦ rw e refl | inr e ↦ rw e refl ]

count-last_task :
    (kind : StatField) (h : HostProgress) (task : Option String)
    → count kind (record h { last_task = task }) ≡ count kind h
count-last_task StatField.ok h task = refl
count-last_task StatField.changed h task = refl
count-last_task StatField.failed h task = refl
count-last_task StatField.skipped h task = refl
count-last_task StatField.unreachable h task = refl

named_count :
    (kind : StatField) (host h : String) (o : Outcome) (d : EventData) (p : RunProgress)
    → counted kind host (
        with_host h
          (record (count_outcome o d.res_changed (host_of p h)) {
            last_task = either d.task p.task;
          })
          p)
      ≡ counted kind host p + (if is_kind kind d.res_changed o && h == host then 1 else 0)
named_count kind host h o d p =
    let s = count_outcome o d.res_changed (host_of p h) in
    counted-with_host kind host h (record s { last_task = either d.task p.task }) p
    ∙ ground (
      arith,
      count-last_task kind s (either d.task p.task),
      count-count_outcome kind o d.res_changed (host_of p h),
      eq_iff h host,
    )

apply_to-counted :
    (kind : StatField) (host : String) (p : RunProgress) (o : Outcome) (d : EventData)
    (named : Option String)
    → counted kind host (apply_to p o d named)
      ≡ counted kind host p + (if is_kind kind d.res_changed o && names host named then 1 else 0)
apply_to-counted kind host p o d none = ground arith
apply_to-counted kind host p o d (some h) = elim (Bool-cases (h == "")) [
  | inl e ↦ rw e (ground arith)
  | inr e ↦ rw e (named_count kind host h o d p)
]

apply_other-counted :
    (kind : StatField) (host : String) (p : RunProgress) (e : Event) (o : Option Outcome)
    → is_recap e ≡ false
    → counted kind host (apply_other p e.event e.event_data o)
      ≡ counted kind host p
        + (if is_kind_of kind e.event_data.res_changed o && names host e.event_data.host
            then 1
            else 0)
unfolding apply_result
apply_other-counted kind host p e none h = rw h (omega arith)
apply_other-counted kind host p e (some o) h =
    apply_to-counted kind host p o e.event_data e.event_data.host

-- an event that starts a play or a task reports no result
no_result :
    (kind : StatField) (name s : String) (changed : Bool)
    → (name == s) ≡ true
    → is_kind_of kind changed (host_result s) ≡ false
    → reports kind name changed ≡ false
no_result kind name s changed e f =
    rw ((eq_iff name s).0 e) (sym (reports-host_result kind s changed) ∙ f)

apply_event-counted :
    (kind : StatField) (host : String) (p : RunProgress) (e : Event)
    → is_recap e ≡ false
    → counted kind host (apply_event p e)
      ≡ counted kind host p + (if is_result_of kind host e then 1 else 0)
unfolding apply_event host_of host_result
apply_event-counted kind host p e h =
    let changed = e.event_data.res_changed in
    elim (Bool-cases (e.event == "playbook_on_play_start")) [
      | inl k ↦ rw (k, no_result kind e.event "playbook_on_play_start" changed k refl) (omega arith)
      | inr k ↦ elim (Bool-cases (e.event == "playbook_on_task_start")) [
        | inl l ↦
            rw (k, l, no_result kind e.event "playbook_on_task_start" changed l refl) (omega arith)
        | inr l ↦
            rw (k, l, ← reports-host_result kind e.event changed)
              (apply_other-counted kind host p e (host_result e.event) h)
      ]
    ]

-- While no recap has come, what is counted for a host under each of the five kinds grows by the number
-- of the events that report a result of that kind for the host, and by nothing else.
pub apply_events-total :
    (kind : StatField) (host : String) (p : RunProgress) (es : List Event)
    → any is_recap es ≡ false
    → counted kind host (apply_events p es) ≡ counted kind host p + results_of kind host es
unfolding apply_events
apply_events-total kind host p [] h = omega arith
apply_events-total kind host p (e ∷ es) h =
    ground
      (arith, apply_events-total kind host (apply_event p e) es, apply_event-counted kind host p e)
