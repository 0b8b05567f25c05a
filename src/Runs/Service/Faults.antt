-- ===== src/Runs/Service/Faults.antt =====
-- What the writes of a launch leave: the store after each fault, and after none.
use insatomcat_webui.Base.{
  ◌⊎◌, ℕ, zero, suc, String, ◌≡◌, ◌↔◌, refl, sym, ap, ◌∙◌, inl, inr, Bool, true, false, Option,
  none, some, ◌==◌, lookup-insert_ne, lookup-insert_self, or_else, ok,
}
use insatomcat_webui.Runs.Models.{RunState, running, pending, RunRecord}
use insatomcat_webui.Runs.Store.{RunStore, save, create, load, inventory_of, acquire}
use insatomcat_webui.Runs.Store.Lock.{IsRunId, acquire_cases, release_holder}
use insatomcat_webui.Runs.Service.{
  ServiceState, Surroundings, Fault, opening, locking, creating, starting, threading, partly,
  as_running, created,
}
use insatomcat_webui.Runs.Service.Guards.{is_ok}

partly_keeps :
    (n : ℕ) (r : RunRecord) (raw : String) (store : RunStore)
    → ((partly n r raw store).lock ≡ store.lock) × ((partly n r raw store).records ≡ store.records)
partly_keeps zero r raw store = (refl, refl)
partly_keeps (suc zero) r raw store = (refl, refl)
partly_keeps (suc (suc zero)) r raw store = (refl, refl)
partly_keeps (suc (suc (suc n))) r raw store = (refl, refl)

-- the run lock and the records, which a launch that does not start a run leaves as they are
abbrev pub SameRuns : ServiceState → ServiceState → Type 0
SameRuns s t = (s.store.lock ≡ t.store.lock) × (s.store.records ≡ t.store.records)

-- the run is stored in a state and has the lock, and the records of other runs are as they were
abbrev pub IsLeft : RunState → String → ServiceState → ServiceState → Type 0
IsLeft state id s t =
    (t.store.lock ≡ some id)
    × ((q : RunRecord) × (load id t.store ≡ some q) × (q.state ≡ state))
    × ((other : String) → (id == other) ≡ false → load other t.store ≡ load other s.store)

-- What stays behind a fault that the code does not undo: a lock file without a name, or the record and
-- the lock of a run that no thread executes.
abbrev pub Stays : Option Fault → String → ServiceState → ServiceState → Type 0
Stays none id s t = ⊥
Stays (some opening) id s t = ⊥
Stays (some locking) id s t = (t.store.lock ≡ some "") × (t.store.records ≡ s.store.records)
Stays (some (creating n)) id s t = ⊥
Stays (some starting) id s t = IsLeft pending id s t
Stays (some threading) id s t = IsLeft running id s t

-- Nothing fails, or only what the code undoes.
abbrev pub is_undone : Option Fault → Bool
is_undone none = true
is_undone (some opening) = true
is_undone (some (creating n)) = true
is_undone (some locking) = false
is_undone (some starting) = false
is_undone (some threading) = false

pub undone-Stays :
    (fault : Option Fault) (id : String) (s t : ServiceState)
    → is_undone fault ≡ true
    → Stays fault id s t
    → ⊥
undone-Stays none id s t u h = h
undone-Stays (some opening) id s t u h = h
undone-Stays (some (creating n)) id s t u h = h
undone-Stays (some locking) id s t u h = absurd (cc u)
undone-Stays (some starting) id s t u h = absurd (cc u)
undone-Stays (some threading) id s t u h = absurd (cc u)

module _ (around : Surroundings) (r : RunRecord) (s : ServiceState) where
  pub created_fault :
      (f : Fault) (store : RunStore) → is_ok (created around r s (some f) (store, ok tt)).1 ≡ false
  created_fault opening store = refl
  created_fault locking store = refl
  created_fault (creating n) store = refl
  created_fault starting store = refl
  created_fault threading store = refl

  pub created_iff :
      (fault : Option Fault)
      → (is_ok (created around r s fault (acquire r.id s.store)).1 ≡ true)
        ↔ ((s.store.lock ≡ none) × (fault ≡ none))
  created_iff none = elim (acquire_cases r.id s.store) [
    | inl (free, e) ↦ ((λ _. (free, refl)), λ _. rw e)
    | inr (message, held, e, l) ↦
        ((λ h. absurd (let k = rw e at h in cc k)), λ (free, _). absurd (cc (free, l)))
  ]
  created_iff (some f) = elim (acquire_cases r.id s.store) [
    | inl (free, e) ↦ (
      (λ h.
          let k = rw e at h in
          let l = sym (created_fault f (record s.store { lock = some r.id })) ∙ k in absurd (cc l)),
      λ (_, n). absurd (cc n),
    )
    | inr (message, held, e, l) ↦
        ((λ h. absurd (let k = rw e at h in cc k)), λ (_, n). absurd (cc n))
  ]

  spoiled :
      (n : ℕ)
      → IsRunId r.id
      → s.store.lock ≡ none
      → SameRuns
          (created around r s (some (creating n)) (record s.store { lock = some r.id }, ok tt)).0
          s
  spoiled n h free =
      let store = record s.store { lock = some r.id } in
      let (locked, kept) = partly_keeps n r around.raw store in
      let e = release_holder r.id (partly n r around.raw store) h locked in
      (ap (λ (x : RunStore). x.lock) e ∙ sym free, ap (λ (x : RunStore). x.records) e ∙ kept)

  -- what a fault leaves, where the lock was free
  fault_left :
      (f : Fault)
      → IsRunId r.id
      → r.state ≡ pending
      → s.store.lock ≡ none
      → let t = (created around r s (some f) (record s.store { lock = some r.id }, ok tt)).0 in
        SameRuns t s ⊎ Stays (some f) r.id s t
  unfolding load save create
  fault_left opening h p free = inl (refl, refl)
  fault_left locking h p free = inr (refl, refl)
  fault_left (creating n) h p free = inl (spoiled n h free)
  fault_left starting h p free =
      inr
        (refl, (r, lookup-insert_self r.id _ _, p), λ other ne. lookup-insert_ne r.id other _ _ ne)
  fault_left threading h p free = inr (
    refl,
    (as_running around.now r, lookup-insert_self r.id _ _, refl),
    λ other ne. lookup-insert_ne r.id other _ _ ne ∙ lookup-insert_ne r.id other _ _ ne,
  )

  pub created_refused :
      (fault : Option Fault)
      → IsRunId r.id
      → r.state ≡ pending
      → is_ok (created around r s fault (acquire r.id s.store)).1 ≡ false
      → SameRuns (created around r s fault (acquire r.id s.store)).0 s
        ⊎ ((s.store.lock ≡ none)
            × Stays fault r.id s (created around r s fault (acquire r.id s.store)).0)
  created_refused none h p fails = elim (acquire_cases r.id s.store) [
    | inl (free, e) ↦ absurd (let k = rw e at fails in cc k)
    | inr (message, held, e, l) ↦ inl (rw e (refl, refl))
  ]
  created_refused (some f) h p fails = elim (acquire_cases r.id s.store) [
    | inl (free, e) ↦
        rw e (elim (fault_left f h p free) [ inl same ↦ inl same | inr stays ↦ inr (free, stays) ])
    | inr (message, held, e, l) ↦ inl (rw e (refl, refl))
  ]

  pub written :
      let t = (created around r s none (record s.store { lock = some r.id }, ok tt)).0 in
      (load r.id t.store ≡ some (as_running around.now r))
      × (inventory_of r.id t.store ≡ around.raw)
      × (t.store.lock ≡ some r.id)
      × ((other : String) → (r.id == other) ≡ false → load other t.store ≡ load other s.store)
  unfolding load save create inventory_of
  written = (
    lookup-insert_self r.id _ _,
    ap (λ o. or_else o "") (lookup-insert_self r.id _ _),
    refl,
    λ other ne. lookup-insert_ne r.id other _ _ ne ∙ lookup-insert_ne r.id other _ _ ne,
  )
