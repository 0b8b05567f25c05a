-- ===== src/Runs/Execution/Endings.antt =====
-- How a run ends.
use insatomcat_webui.Base.{
  ℕ, zero, suc, ℤ, pos, negsuc, String, ◌≡◌, ◌↔◌, refl, sym, ap, subst, ◌∙◌, Bool, true, false, not,
  Option, none, some, List, [], ◌∷◌, ◌==◌, arith, keep, member, lookup, lookup-insert_ne,
  lookup-insert_self, Result, ok, err, if◌then◌else◌,
}
use insatomcat_webui.Runs.Models.{
  RunState, success, failed, cancelled, interrupted, RunProgress, new_progress, RunRecord, is_final,
  finished,
}
use insatomcat_webui.Runs.Progress.{apply_events}
use insatomcat_webui.Runs.Store.{RunStore, save, load, release}
use insatomcat_webui.Runs.Store.Lock.{IsRunId, release_holder, release-records}
use insatomcat_webui.Runs.Adapter.{RunOutcome}
use insatomcat_webui.Runs.Service.{ServiceState}
use insatomcat_webui.Runs.Execution.{
  has_error, is_zero, final_state, Thread, new_thread, finish, Callback, callbacks, execute,
}
use insatomcat_webui.Runs.Execution.Callbacks.{callbacks_lem, events_of}

abbrev chosen : Bool → Bool → Bool → Bool → RunState
chosen c e f z =
    if c
    then cancelled
    else if e
    then failed
    else if not f
    then interrupted
    else if z
    then success
    else failed

chosen_iff :
    (c e f z : Bool)
    → (is_final (chosen c e f z) ≡ true)
      × ((chosen c e f z ≡ cancelled) ↔ (c ≡ true))
      × ((chosen c e f z ≡ interrupted) ↔ ((c ≡ false) × (e ≡ false) × (f ≡ false)))
      × ((chosen c e f z ≡ success) ↔ ((c ≡ false) × (e ≡ false) × (f ≡ true) × (z ≡ true)))
unfolding is_final
chosen_iff true e f z = (
  refl,
  (λ _. refl, λ _. refl),
  (λ h. absurd (cc h), λ (x, y, w). absurd (cc x)),
  (λ h. absurd (cc h), λ (x, y, w, v). absurd (cc x)),
)
chosen_iff false true f z = (
  refl,
  (λ h. absurd (cc h), λ h. absurd (cc h)),
  (λ h. absurd (cc h), λ (x, y, w). absurd (cc y)),
  (λ h. absurd (cc h), λ (x, y, w, v). absurd (cc y)),
)
chosen_iff false false false z = (
  refl,
  (λ h. absurd (cc h), λ h. absurd (cc h)),
  (λ _. (refl, refl, refl), λ _. refl),
  (λ h. absurd (cc h), λ (x, y, w, v). absurd (cc w)),
)
chosen_iff false false true true = (
  refl,
  (λ h. absurd (cc h), λ h. absurd (cc h)),
  (λ h. absurd (cc h), λ (x, y, w). absurd (cc w)),
  (λ _. (refl, refl, refl, refl), λ _. refl),
)
chosen_iff false false true false = (
  refl,
  (λ h. absurd (cc h), λ h. absurd (cc h)),
  (λ h. absurd (cc h), λ (x, y, w). absurd (cc w)),
  (λ h. absurd (cc h), λ (x, y, w, v). absurd (cc v)),
)

is_zero_iff : (code : Option ℤ) → (is_zero code ≡ true) ↔ (code ≡ some (pos 0))
is_zero_iff none = (λ h. absurd (cc h), λ h. absurd (cc h))
is_zero_iff (some (pos zero)) = (λ _. refl, λ _. refl)
is_zero_iff (some (pos (suc n))) = (λ h. absurd (cc h), λ h. absurd (let k = ap is_zero h in cc k))
is_zero_iff (some (negsuc n)) = (λ h. absurd (cc h), λ h. absurd (cc h))

-- The final state of a run whose adapter returned: it is cancelled exactly if the adapter says so;
-- interrupted exactly if there is no error and no recap; successful exactly if there is a recap, no
-- error and the return code is 0; and in each case it is final.
pub final_state_iff :
    (outcome : RunOutcome) (progress : RunProgress)
    → (is_final (final_state outcome progress) ≡ true)
      × ((final_state outcome progress ≡ cancelled) ↔ (outcome.cancelled ≡ true))
      × ((final_state outcome progress ≡ interrupted) ↔ (
          (outcome.cancelled ≡ false)
          × (has_error outcome.error ≡ false)
          × (progress.final_status_seen ≡ false)))
      × ((final_state outcome progress ≡ success) ↔ (
          (outcome.cancelled ≡ false)
          × (has_error outcome.error ≡ false)
          × (progress.final_status_seen ≡ true)
          × (outcome.return_code ≡ some (pos 0))))
unfolding final_state is_final
final_state_iff outcome progress =
    let (final, c, i, (won, wins)) =
      chosen_iff outcome.cancelled (has_error outcome.error) progress.final_status_seen
        (is_zero outcome.return_code) in
    let (zero_code, code_zero) = is_zero_iff outcome.return_code in
    (
      final,
      c,
      i,
      (
        (λ h. let (a, b, d, e) = won h in (a, b, d, zero_code e)),
        λ (a, b, d, e). wins (a, b, d, code_zero e),
      ),
    )

module _ (cut : String → String) where
  forget : (id : String) (ids : List String) → member id (keep (λ x. not (x == id)) ids) ≡ false
  forget id [] = refl
  forget id (x ∷ xs) = ground (arith, forget id xs)

  -- The end of the run of that name: what `load` answers for it, and what is left of it.
  pub record HasEnded (now : ℕ) (id : String) (progress : RunProgress) (s s' : ServiceState)
      (r : RunRecord) : Type 0 where
    pub same_run : r.id ≡ id
    pub stored : load id s'.store ≡ some r
    pub ended : finished r ≡ true
    pub dated : r.finished_at ≡ some now
    pub made : r.progress ≡ progress
    pub unlocked : s.store.lock ≡ some id → s'.store.lock ≡ none
    pub forgotten : member id s'.stopping ≡ false
    pub others : (other : String) → (id == other) ≡ false → load other s'.store ≡ load other s.store

  closed_lem :
      (now : ℕ) (r : RunRecord) (s : ServiceState)
      → IsRunId r.id
      → finished r ≡ true
      → r.finished_at ≡ some now
      → HasEnded now r.id r.progress s
          (record s {
            store = release r.id (save r s.store);
            stopping = keep (λ id. not (id == r.id)) s.stopping;
          })
          r
  unfolding load save
  closed_lem now r s h ended dated = record {
    same_run = refl;
    stored = ap (lookup r.id) (release-records r.id (save r s.store)) ∙ lookup-insert_self r.id r _;
    ended = ended;
    dated = dated;
    made = refl;
    unlocked = (λ l. ap (λ (x : RunStore). x.lock) (release_holder r.id (save r s.store) h l));
    forgotten = forget r.id s.stopping;
    others = (λ other ne.
        ap (lookup other) (release-records r.id (save r s.store))
        ∙ lookup-insert_ne r.id other r _ ne);
  }

  pub finish_lem :
      (now : ℕ) (outcome : Result String RunOutcome) (t : Thread) (s : ServiceState)
      → IsRunId t.run.id
      → HasEnded now t.run.id t.progress s
          (finish cut now outcome (t, s)).0
          (finish cut now outcome (t, s)).1
  unfolding finish finished
  finish_lem now (err text) t s h = closed_lem now _ s h refl refl
  finish_lem now (ok outcome) t s h =
      closed_lem now _ s h (final_state_iff outcome t.progress).0 refl

  -- A run always ends, whatever the adapter calls back and whether it returns or raises: the record
  -- that is stored is in a final state with its date and the progress of all events, the lock that the
  -- run held is free, its request to stop is forgotten, and the records of other runs are as they were.
  pub execute-HasEnded :
      (now : ℕ) (cs : List Callback) (outcome : Result String RunOutcome) (r : RunRecord)
      (s : ServiceState)
      → IsRunId r.id
      → HasEnded now r.id
          (apply_events new_progress (events_of cs))
          s
          (execute cut now cs outcome r s).0
          (execute cut now cs outcome r s).1
  unfolding execute
  execute-HasEnded now cs outcome r s h =
      let p = callbacks cut cs (new_thread r, s) in
      let (named, made, locked, kept, others) = callbacks_lem cut cs (new_thread r) s in
      let e =
        subst
          (λ id.
            HasEnded now id p.0.progress p.1 (execute cut now cs outcome r s).0
              (execute cut now cs outcome r s).1)
          named (finish_lem now outcome p.0 p.1 (subst IsRunId (sym named) h)) in
      record {
        same_run = e.same_run;
        stored = e.stored;
        ended = e.ended;
        dated = e.dated;
        made = e.made ∙ made;
        unlocked = (λ l. e.unlocked (locked ∙ l));
        forgotten = e.forgotten;
        others = (λ other ne. e.others other ne ∙ others other ne);
      }
