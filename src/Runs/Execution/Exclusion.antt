-- ===== src/Runs/Execution/Exclusion.antt =====
-- The service with the threads of its runs, in any interleaving of requests and callbacks.
use insatomcat_webui.Base.{
  ℕ, String, ◌≡◌, refl, sym, ap, ap₂, subst, ◌∙◌, ◌⊎◌, inl, inr, Bool, true, false, Option, none,
  some, List, [], ◌∷◌, ◌++◌, ◌==◌, Dict, Value, Result, ok, Bool-cases, eq_iff,
}
use insatomcat_webui.Runs.Models.{RunRecord, finished}
use insatomcat_webui.Runs.Store.{RunStore, load}
use insatomcat_webui.Runs.Store.Lock.{IsRunId}
use insatomcat_webui.Runs.Adapter.{RunOutcome}
use insatomcat_webui.Runs.Service.{ServiceState, Surroundings, launch, cancel, asked}
use insatomcat_webui.Runs.Service.Guards.{is_ok}
use insatomcat_webui.Runs.Service.Faults.{is_undone}
use insatomcat_webui.Runs.Service.Launches.{launch_iff, launch_undone, launch-IsLaunched}
use insatomcat_webui.Runs.Execution.{Thread, new_thread, Callback, callback, finish}
use insatomcat_webui.Runs.Execution.Callbacks.{callback_lem}
use insatomcat_webui.Runs.Execution.Endings.{finish_lem}

pub record System : Type 0 where
  pub service : ServiceState
  pub threads : List Thread

module _ (cut : String → String) where
  pub data Step (a : System) : System → Type 0 where
    launches :
        (around : Surroundings) (playbook_id launched_by : String) (variables : Option (Dict Value))
        → (check : Bool) (r : RunRecord) → IsRunId around.run_id
        → (launch around playbook_id launched_by variables check a.service).1 ≡ ok r
        → Step a (record {
          service = (launch around playbook_id launched_by variables check a.service).0;
          threads = new_thread r ∷ a.threads;
        })
    refuses :
        (around : Surroundings) (playbook_id launched_by : String) (variables : Option (Dict Value))
        → (check : Bool) → IsRunId around.run_id
        → is_undone around.fault ≡ true
        → is_ok (launch around playbook_id launched_by variables check a.service).1 ≡ false
        → Step a (record a {
          service = (launch around playbook_id launched_by variables check a.service).0;
        })
    cancels : (id : String) → Step a (record a { service = (cancel id a.service).0 })
    calls_back :
        (before after : List Thread) (t : Thread) (c : Callback)
        → a.threads ≡ before ++ t ∷ after
        → Step a (record {
          service = (callback cut c (t, a.service)).1;
          threads = before ++ (callback cut c (t, a.service)).0 ∷ after;
        })
    finishes :
        (before after : List Thread) (t : Thread) (now : ℕ) (outcome : Result String RunOutcome)
        → a.threads ≡ before ++ t ∷ after
        → Step a (record {
          service = (finish cut now outcome (t, a.service)).0;
          threads = before ++ after;
        })

  -- From a service that starts with no lock file and whose records are all final.
  pub data Reach (s : ServiceState) : System → Type 0 where
    start :
        s.store.lock ≡ none
        → ((id : String) (r : RunRecord) → load id s.store ≡ some r → finished r ≡ true)
        → Reach s (record { service = s; threads = [] })
    later : {a b : System} → Reach s a → Step a b → Reach s b

pub record IsIdle (a : System) : Type 0 where
  pub quiet : a.threads ≡ []
  pub free : a.service.store.lock ≡ none
  pub settled : (id : String) (r : RunRecord) → load id a.service.store ≡ some r → finished r ≡ true

-- The thread's run holds the lock, and all other records are final.
pub record HoldsLock (s : ServiceState) (t : Thread) : Type 0 where
  pub named : IsRunId t.run.id
  pub held : s.store.lock ≡ some t.run.id
  pub settled :
      (id : String) (r : RunRecord)
      → (t.run.id == id) ≡ false
      → load id s.store ≡ some r
      → finished r ≡ true

pub record IsBusy (a : System) : Type 0 where
  pub thread : Thread
  pub alone : a.threads ≡ thread ∷ []
  pub holder : HoldsLock a.service thread

not_empty : (before after : List Thread) (t : Thread) → [] ≡ before ++ t ∷ after → ⊥
not_empty [] after t e = cc e
not_empty (x ∷ before) after t e = cc e

the_only :
    (before after : List Thread) (t u : Thread)
    → u ∷ [] ≡ before ++ t ∷ after
    → (before ≡ []) × (u ≡ t) × (after ≡ [])
the_only [] after t u e = (refl, cc e, cc e)
the_only (x ∷ []) after t u e = absurd (cc e)
the_only (x ∷ y ∷ before) after t u e = absurd (cc e)

cancelled_store :
    (id : String) (s : ServiceState) (o : Option RunRecord) → (asked id s o).0.store ≡ s.store
cancelled_store id s none = refl
cancelled_store id s (some r) = elim (Bool-cases (finished r)) [ inl e ↦ rw e | inr e ↦ rw e ]

-- Equal lock and records carry the state over.
moved :
    (a b : System)
    → b.threads ≡ a.threads
    → b.service.store.lock ≡ a.service.store.lock
    → b.service.store.records ≡ a.service.store.records
    → IsIdle a ⊎ IsBusy a
    → IsIdle b ⊎ IsBusy b
unfolding load
moved a b t l r (inl h) = inl (record {
  quiet = t ∙ h.quiet;
  free = l ∙ h.free;
  settled = (λ id q e. h.settled id q (rw (← r) e));
})
moved a b t l r (inr h) = inr (record {
  thread = h.thread;
  alone = t ∙ h.alone;
  holder = record {
    named = h.holder.named;
    held = l ∙ h.holder.held;
    settled = (λ id q ne e. h.holder.settled id q ne (rw (← r) e));
  };
})

module _ (cut : String → String) where
  launched_step :
      (a : System) (around : Surroundings) (playbook_id launched_by : String)
      (variables : Option (Dict Value))
      → (check : Bool) (r : RunRecord) → IsRunId around.run_id
      → (launch around playbook_id launched_by variables check a.service).1 ≡ ok r
      → IsIdle a ⊎ IsBusy a
      → IsBusy (record {
        service = (launch around playbook_id launched_by variables check a.service).0;
        threads = new_thread r ∷ a.threads;
      })
  launched_step a around playbook_id launched_by variables check r h e (inl idle) =
      let l = launch-IsLaunched around launched_by check a.service playbook_id variables r e in
      record {
        thread = new_thread r;
        alone = ap (λ ts. new_thread r ∷ ts) idle.quiet;
        holder = record {
          named = subst IsRunId (sym l.named) h;
          held = l.locked;
          settled = (λ id q ne f. idle.settled id q (sym (l.others id ne) ∙ f));
        };
      }
  launched_step a around playbook_id launched_by variables check r h e (inr busy) =
      let (_, _, free, _) =
        (launch_iff around launched_by check a.service playbook_id variables).0 (ap is_ok e) in
      absurd (cc (free, busy.holder.held))

  holder_of :
      (a : System) (before after : List Thread) (t : Thread)
      → a.threads ≡ before ++ t ∷ after
      → IsIdle a ⊎ IsBusy a
      → (before ≡ []) × (after ≡ []) × HoldsLock a.service t
  holder_of a before after t e (inl idle) = absurd (not_empty before after t (sym idle.quiet ∙ e))
  holder_of a before after t e (inr busy) =
      let (no_before, same, no_after) = the_only before after t busy.thread (sym busy.alone ∙ e) in
      (no_before, no_after, subst (HoldsLock a.service) same busy.holder)

  called_back :
      (a : System) (before after : List Thread) (t : Thread) (c : Callback)
      → a.threads ≡ before ++ t ∷ after
      → IsIdle a ⊎ IsBusy a
      → IsBusy (record {
        service = (callback cut c (t, a.service)).1;
        threads = before ++ (callback cut c (t, a.service)).0 ∷ after;
      })
  called_back a before after t c e inv =
      let (no_before, no_after, h) = holder_of a before after t e inv in
      let (named, _, locked, _, others) = callback_lem cut c t a.service in
      let u = (callback cut c (t, a.service)).0 in
      record {
        thread = u;
        alone = ap₂ (λ (xs ys : List Thread). xs ++ u ∷ ys) no_before no_after;
        holder = record {
          named = subst IsRunId (sym named) h.named;
          held = locked ∙ h.held ∙ ap some (sym named);
          settled = (λ id q ne f.
              let ne' = subst (λ i. (i == id) ≡ false) named ne in
              h.settled id q ne' (sym (others id ne') ∙ f));
        };
      }

  finished_step :
      (a : System) (before after : List Thread) (t : Thread) (now : ℕ)
      (outcome : Result String RunOutcome)
      → a.threads ≡ before ++ t ∷ after
      → IsIdle a ⊎ IsBusy a
      → IsIdle (record {
        service = (finish cut now outcome (t, a.service)).0;
        threads = before ++ after;
      })
  finished_step a before after t now outcome e inv =
      let (no_before, no_after, h) = holder_of a before after t e inv in
      let end = finish_lem cut now outcome t a.service h.named in
      record {
        quiet = ap₂ (λ (xs ys : List Thread). xs ++ ys) no_before no_after;
        free = end.unlocked h.held;
        settled = (λ id q f. elim (Bool-cases (t.run.id == id)) [
          | inl eq ↦
              let same = (eq_iff t.run.id id).0 eq in
              let k =
                subst
                  (λ i.
                    load i (finish cut now outcome (t, a.service)).0.store
                    ≡ some (finish cut now outcome (t, a.service)).1)
                  same end.stored in
              let one : (finish cut now outcome (t, a.service)).1 ≡ q = cc (k, f) in
              subst (λ (x : RunRecord). finished x ≡ true) one end.ended
          | inr ne ↦ h.settled id q ne (sym (end.others id ne) ∙ f)
        ]);
      }

  Step-keeps : (a b : System) → Step cut a b → IsIdle a ⊎ IsBusy a → IsIdle b ⊎ IsBusy b
  unfolding cancel
  Step-keeps a _ (launches around playbook_id launched_by variables check r h e) inv =
      inr (launched_step a around playbook_id launched_by variables check r h e inv)
  Step-keeps a _ (refuses around playbook_id launched_by variables check h u e) inv =
      let (l, r) = launch_undone around launched_by check a.service playbook_id variables h u e in
      moved a _ refl l r inv
  Step-keeps a _ (cancels id) inv =
      let same = cancelled_store id a.service (load id a.service.store) in
      moved a _ refl (ap (λ (x : RunStore). x.lock) same) (ap (λ (x : RunStore). x.records) same)
        inv
  Step-keeps a _ (calls_back before after t c e) inv = inr (called_back a before after t c e inv)
  Step-keeps a _ (finishes before after t now outcome e) inv =
      inl (finished_step a before after t now outcome e inv)

  -- In whatever order launches, cancellations, callbacks and endings interleave, from a service
  -- without a lock file and with final records only: either no run is executed, no lock is held and
  -- all records are final; or exactly one run is executed, it holds the lock, and all records but its
  -- own are final. A launch that fails where the code undoes nothing is no step: that is in writing the
  -- lock file, in saving the record as running and in starting the thread.
  pub Reach-excludes : (s : ServiceState) (a : System) → Reach cut s a → IsIdle a ⊎ IsBusy a
  Reach-excludes s _ (start free settled) =
      inl (record { quiet = refl; free = free; settled = settled })
  Reach-excludes s b (later {a} r step) = Step-keeps a b step (Reach-excludes s a r)
