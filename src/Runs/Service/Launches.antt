-- ===== src/Runs/Service/Launches.antt =====
-- When a run is launched, and what a launch that is refused or fails leaves.
use insatomcat_webui.Base.{
  ◌⊎◌, is_some, Option-cases, String, ◌≡◌, ◌↔◌, refl, sym, ap, subst, ◌∙◌, inl, inr, Bool, true,
  false, Option, none, some, [], ◌==◌, Dict, Value, or_else, Result, ok, err,
}
use insatomcat_webui.Runs.Models.{running, RunRecord}
use insatomcat_webui.Runs.Catalogue.Entries.{PlaybookEntry}
use insatomcat_webui.Runs.Store.{load, inventory_of, acquire}
use insatomcat_webui.Runs.Store.Lock.{IsRunId, acquire_cases}
use insatomcat_webui.Runs.Service.{
  ServiceState, Surroundings, Failure, Fault, check_launch, new_record, as_running, created,
  started, launch,
}
use insatomcat_webui.Runs.Service.Guards.{is_ok, IsLaunchable, guards_iff}
use insatomcat_webui.Runs.Service.Faults.{
  SameRuns, Stays, is_undone, undone-Stays, created_fault, created_iff, created_refused, written,
}

module _ (around : Surroundings) (launched_by : String) (check : Bool) (s : ServiceState) where
  started_iff :
      (g : Result Failure (PlaybookEntry × Dict Value))
      → (is_ok (started around launched_by check s g).1 ≡ true) ↔ (
          (is_ok g ≡ true)
          × (is_some around.read ≡ true)
          × (s.store.lock ≡ none)
          × (around.fault ≡ none))
  started_iff (err e) = (λ h. absurd (cc h), λ (h, r, l, f). absurd (cc h))
  started_iff (ok (entry, extra)) =
      let (to, from) =
        created_iff around (new_record around entry launched_by check) s around.fault in
      elim (Option-cases around.read) [
        | inl e ↦ (
          (λ h. absurd (let k = rw e at h in cc k)),
          λ (_, r, _, _). absurd (let k = rw e at r in cc k),
        )
        | inr (state, e) ↦ (
          (λ h. let (l, f) = to (let k = rw e at h in rw e k) in (refl, rw e refl, l, f)),
          λ (_, _, l, f). let k = from (l, f) in rw e (let m = rw e at k in m),
        )
      ]

  started_refused :
      (g : Result Failure (PlaybookEntry × Dict Value))
      → IsRunId around.run_id
      → is_ok (started around launched_by check s g).1 ≡ false
      → SameRuns (started around launched_by check s g).0 s
        ⊎ ((s.store.lock ≡ none)
            × Stays around.fault around.run_id s (started around launched_by check s g).0)
  started_refused (err e) h fails = inl (refl, refl)
  started_refused (ok (entry, extra)) h fails = elim (Option-cases around.read) [
    | inl e ↦ inl (rw e (refl, refl))
    | inr (state, e) ↦
        let k =
          created_refused around (new_record around entry launched_by check) s around.fault h refl
            (let m = rw e at fails in rw e m) in
        rw e (let m = rw e at k in m)
  ]

  -- The record of a run that was launched: it is running, it is stored, its inventory is frozen
  -- beside it, it holds the lock, and the records of other runs are as they were.
  pub record IsLaunched (t : ServiceState) (q : RunRecord) : Type 0 where
    pub named : q.id ≡ around.run_id
    pub is_running : q.state ≡ running
    pub stored : load q.id t.store ≡ some q
    pub frozen : inventory_of q.id t.store ≡ around.raw
    pub locked : t.store.lock ≡ some q.id
    pub stopping : t.stopping ≡ s.stopping
    pub others :
        (other : String) → (q.id == other) ≡ false → load other t.store ≡ load other s.store

  launched :
      (entry : PlaybookEntry)
      → let r = new_record around entry launched_by check in
        IsLaunched
          (created around r s none (record s.store { lock = some r.id }, ok tt)).0
          (as_running around.now r)
  launched entry =
      let (stored, frozen, locked, others) =
        written around (new_record around entry launched_by check) s in
      record {
        named = refl;
        is_running = refl;
        stored = stored;
        frozen = frozen;
        locked = locked;
        stopping = refl;
        others = others;
      }

  created_lem :
      (entry : PlaybookEntry) (fault : Option Fault) (q : RunRecord)
      → let c =
          created around
            (new_record around entry launched_by check)
            s
            fault
            (acquire around.run_id s.store) in
        c.1 ≡ ok q → IsLaunched c.0 q
  created_lem entry none q h = elim (acquire_cases around.run_id s.store) [
    | inl (free, e) ↦
        let same : as_running around.now (new_record around entry launched_by check) ≡ q =
          (let k = rw e at h in cc k) in
        let r = new_record around entry launched_by check in
        let t = (created around r s none (record s.store { lock = some r.id }, ok tt)).0 in
        rw e (subst (λ x. IsLaunched t x) same (launched entry))
    | inr (message, held, e, l) ↦ absurd (let k = rw e at h in cc k)
  ]
  created_lem entry (some f) q h = elim (acquire_cases around.run_id s.store) [
    | inl (free, e) ↦
        let r = new_record around entry launched_by check in
        let k = rw e at h in
        let l =
          sym (created_fault around r s f (record s.store { lock = some around.run_id }))
          ∙ ap is_ok k in
        absurd (cc l)
    | inr (message, held, e, l) ↦ absurd (let k = rw e at h in cc k)
  ]

  started_lem :
      (g : Result Failure (PlaybookEntry × Dict Value)) (q : RunRecord)
      → (started around launched_by check s g).1 ≡ ok q
      → IsLaunched (started around launched_by check s g).0 q
  started_lem (err e) q h = absurd (cc h)
  started_lem (ok (entry, extra)) q h = elim (Option-cases around.read) [
    | inl e ↦ absurd (let k = rw e at h in cc k)
    | inr (state, e) ↦
        let k = created_lem entry around.fault q (let m = rw e at h in rw e m) in
        rw e (let m = rw e at k in m)
  ]

  -- A run is launched exactly if the catalogue has the entry, nothing is in its way, it can be
  -- previewed if a preview is asked, its variables are accepted, the inventory's state can be read both
  -- times, no lock file is there, and nothing fails in writing the run's files and starting its thread.
  pub launch_iff :
      (playbook_id : String) (variables : Option (Dict Value))
      → (is_ok (launch around playbook_id launched_by variables check s).1 ≡ true) ↔ (
          IsLaunchable around playbook_id (or_else variables []) check
          × (is_some around.read ≡ true)
          × (s.store.lock ≡ none)
          × (around.fault ≡ none))
  unfolding launch
  launch_iff playbook_id variables =
      let (to, from) = started_iff (check_launch around playbook_id (or_else variables []) check) in
      let (guards, guarded) = guards_iff around (or_else variables []) check playbook_id in
      (
        (λ h. let (g, r, l, f) = to h in (guards g, r, l, f)),
        λ (g, r, l, f). from (guarded g, r, l, f),
      )

  -- A launch that answers no record leaves the run lock and the records of all runs as they were, unless
  -- the lock was free and what failed is one of three: writing the run into the lock file, which leaves a
  -- lock file without a name; saving the record as running, which leaves it stored as pending and holding
  -- the lock; or starting the thread, which leaves it stored as running and holding the lock.
  pub launch_refused :
      (playbook_id : String) (variables : Option (Dict Value))
      → IsRunId around.run_id
      → is_ok (launch around playbook_id launched_by variables check s).1 ≡ false
      → SameRuns (launch around playbook_id launched_by variables check s).0 s
        ⊎ ((s.store.lock ≡ none)
            × Stays around.fault around.run_id s
                (launch around playbook_id launched_by variables check s).0)
  unfolding launch
  launch_refused playbook_id variables h fails =
      started_refused (check_launch around playbook_id (or_else variables []) check) h fails

  -- The same where nothing fails that the code does not undo.
  pub launch_undone :
      (playbook_id : String) (variables : Option (Dict Value))
      → IsRunId around.run_id
      → is_undone around.fault ≡ true
      → is_ok (launch around playbook_id launched_by variables check s).1 ≡ false
      → SameRuns (launch around playbook_id launched_by variables check s).0 s
  launch_undone playbook_id variables h u fails =
      elim (launch_refused playbook_id variables h fails) [
        | inl same ↦ same
        | inr (free, stays) ↦ absurd (undone-Stays around.fault around.run_id s _ u stays)
      ]

  -- A launch that succeeds answers a record that is running, stored, with the inventory of that
  -- moment beside it and the lock in its name; the records of other runs are as they were.
  pub launch-IsLaunched :
      (playbook_id : String) (variables : Option (Dict Value)) (q : RunRecord)
      → (launch around playbook_id launched_by variables check s).1 ≡ ok q
      → IsLaunched (launch around playbook_id launched_by variables check s).0 q
  unfolding launch
  launch-IsLaunched playbook_id variables q h =
      started_lem (check_launch around playbook_id (or_else variables []) check) q h
