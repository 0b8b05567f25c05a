-- ===== src/Runs/Store/Lock.antt =====
-- The run lock.
use insatomcat_webui.Base.{
  String, ◌≡◌, refl, sym, ap, ◌∙◌, Bool, true, false, Option, none, some, ◌==◌, eq_refl, arith, ok,
  err, Result, ◌↔◌, ◌⊎◌, inl, inr, Bool-cases,
}
use insatomcat_webui.Runs.Store.{
  RunStore, lock_holder, acquire, release, stripped, read_lock, acquired, is_or_none,
}

-- What `_new_run_id` makes: a text with no white space at its ends, and not the empty one.
abbrev pub IsRunId : String → Type 0
IsRunId id = (stripped id ≡ id) × ((id == "") ≡ false)

abbrev pub succeeds : RunStore × Result String (Unit {0}) → Bool
succeeds (store, ok _) = true
succeeds (store, err _) = false

acquired_lem :
    (id : String) (store : RunStore) (o : Option String)
    → o ≡ store.lock
    → ((succeeds (acquired id store o) ≡ true) ↔ (store.lock ≡ none))
      × (succeeds (acquired id store o) ≡ true
          → (acquired id store o).0 ≡ record store { lock = some id })
      × (succeeds (acquired id store o) ≡ false → (acquired id store o).0 ≡ store)
acquired_lem id store none e = ((λ _. sym e, λ _. refl), λ _. refl, λ h. absurd (cc h))
acquired_lem id store (some text) e =
    ((λ h. absurd (cc h), λ h. absurd (cc (h, e))), λ h. absurd (cc h), λ _. refl)

pub read_lock_lem : (id : String) → IsRunId id → read_lock (some id) ≡ some id
read_lock_lem id (same, filled) = rw (same, filled)

release_own :
    (id : String) (store : RunStore) (o : Option String)
    → IsRunId id
    → o ≡ some id
    → is_or_none id (read_lock o) ≡ true
release_own id store o h e = rw (e, read_lock_lem id h) (eq_refl id)

release_other :
    (id other : String) (o : Option String)
    → IsRunId id
    → (id == other) ≡ false
    → o ≡ some id
    → is_or_none other (read_lock o) ≡ false
release_other id other o h ne e = rw (e, read_lock_lem id h) ne

acquired_cases :
    (id : String) (store : RunStore) (o : Option String)
    → ((o ≡ none) × (acquired id store o ≡ (record store { lock = some id }, ok tt)))
      ⊎ ((message held : String) × (acquired id store o ≡ (store, err message)) × (o ≡ some held))
acquired_cases id store none = inl (refl, refl)
acquired_cases id store (some text) = inr (_, text, refl, refl)

pub acquire_cases :
    (id : String) (store : RunStore)
    → ((store.lock ≡ none) × (acquire id store ≡ (record store { lock = some id }, ok tt)))
      ⊎ ((message held : String) × (acquire id store ≡ (store, err message))
          × (store.lock ≡ some held))
unfolding acquire
acquire_cases id store = acquired_cases id store store.lock

pub release_holder :
    (id : String) (store : RunStore)
    → IsRunId id
    → store.lock ≡ some id
    → release id store ≡ record store { lock = none }
unfolding release lock_holder
release_holder id store h e = ground (arith, release_own id store store.lock h e)

pub release-records : (id : String) (store : RunStore) → (release id store).records ≡ store.records
unfolding release
release-records id store = elim (Bool-cases (is_or_none id (lock_holder store))) [
  | inl e ↦ rw e
  | inr e ↦ rw e
]

-- `acquire` succeeds exactly if there is no lock file, and then holds the lock for the run that
-- asked; otherwise it changes nothing. `release` by the run that holds the lock frees it, and by any
-- other run leaves the store as it is.
pub acquire-release :
    (id other : String) (store : RunStore)
    → IsRunId id
    → ((succeeds (acquire id store) ≡ true) ↔ (store.lock ≡ none))
      × (succeeds (acquire id store) ≡ true → lock_holder (acquire id store).0 ≡ some id)
      × (succeeds (acquire id store) ≡ false → (acquire id store).0 ≡ store)
      × (store.lock ≡ some id → (release id store).lock ≡ none)
      × (store.lock ≡ some id → (id == other) ≡ false → release other store ≡ store)
unfolding acquire lock_holder release
acquire-release id other store h =
    let (iff, gets, keeps) = acquired_lem id store store.lock refl in
    (
      iff,
      (λ k. ap (λ (s : RunStore). read_lock s.lock) (gets k) ∙ read_lock_lem id h),
      keeps,
      (λ e. ground (arith, release_own id store store.lock h e)),
      λ e ne. ground (arith, release_other id other store.lock h ne e),
    )
