-- ===== src/Runs/Store/Recovery.antt =====
-- What a restart does to the records and the lock.
pub mod Twice
use insatomcat_webui.Base.{
  ℕ, ◌≤◌, String, ◌≡◌, refl, ap, ◌∙◌, Bool, true, false, not, Option, none, some, List, [], ◌∷◌,
  ◌==◌, eq_iff, eq_refl, arith, if◌then◌else◌, Dict, lookup, insert, lookup-insert, values, take,
  length, is_some, ◌+◌, zero, suc, any, ◌||◌, null, inl, inr, Bool-cases,
}
use insatomcat_webui.Runs.Models.{RunRecord}
use insatomcat_webui.Runs.Store.{
  RunStore, save, interrupt, is_going, close_all, reconcile, list_runs, sort_desc, insert_desc,
  unlock_if,
}
use insatomcat_webui.Runs.Store.Listing.{
  AreKeyed, close_all-lookup, close_if, closed, sort_desc-Lists,
}

take_of_length-le : (n : ℕ) (rs : List RunRecord) → length rs ≤ n → take n rs ≡ rs
take_of_length-le zero [] h = refl
take_of_length-le zero (r ∷ rs) h = absurd (omega arith)
take_of_length-le (suc n) [] h = refl
take_of_length-le (suc n) (r ∷ rs) h = ap (λ l. r ∷ l) (take_of_length-le n rs (omega arith))

length-insert_desc :
    (r : RunRecord) (rs : List RunRecord) → length (insert_desc r rs) ≡ length rs + 1
unfolding insert_desc
length-insert_desc r [] = omega arith
length-insert_desc r (s ∷ rs) = ground (arith, length-insert_desc r rs)

length-sort_desc : (rs : List RunRecord) → length (sort_desc rs) ≡ length rs
unfolding sort_desc
length-sort_desc [] = refl
length-sort_desc (r ∷ rs) = omega (arith, length-insert_desc r (sort_desc rs), length-sort_desc rs)

abbrev pub any_going : List RunRecord → Bool
any_going rs = any (λ r. is_going r.state) rs

any_going-insert_desc :
    (r : RunRecord) (rs : List RunRecord)
    → any_going (insert_desc r rs) ≡ (is_going r.state || any_going rs)
unfolding insert_desc
any_going-insert_desc r [] = refl
any_going-insert_desc r (s ∷ rs) = ground (arith, any_going-insert_desc r rs)

any_going-sort_desc : (rs : List RunRecord) → any_going (sort_desc rs) ≡ any_going rs
unfolding sort_desc
any_going-sort_desc [] = refl
any_going-sort_desc (r ∷ rs) =
    ground (arith, any_going-insert_desc r (sort_desc rs), any_going-sort_desc rs)

-- Records are closed exactly if some were going; if none was, the store is as before.
close_all-any :
    (now : ℕ) (rs : List RunRecord) (store : RunStore)
    → (null (close_all now rs store).1 ≡ not (any_going rs))
      × (any_going rs ≡ false → (close_all now rs store).0 ≡ store)
unfolding close_all
close_all-any now [] store = (refl, λ _. refl)
close_all-any now (r ∷ rs) store =
    ground (arith, close_all-any now rs store, close_all-any now rs (save (interrupt now r) store))

unlock_if_lem :
    (r : RunStore × List RunRecord)
    → ((unlock_if r).0.records ≡ r.0.records)
      × (null r.1 ≡ false → (unlock_if r).0.lock ≡ none)
      × (null r.1 ≡ true → (unlock_if r).0 ≡ r.0)
unlock_if_lem (store, recovered) = ground arith

close_if-is_some : (now : ℕ) (o : Option RunRecord) → close_if (is_some o) now o ≡ closed now o
close_if-is_some now none = refl
close_if-is_some now (some r) = refl

-- After a restart, in a store of at most 1000 records: every record that was pending or running is
-- marked interrupted, with the restart's time and message, and every other record is as it was; the
-- lock is freed if some run was going; and if none was, the whole store is as it was, a lock file
-- that is there included.
pub reconcile-closes :
    (now : ℕ) (store : RunStore)
    → AreKeyed store.records
    → length (values store.records) ≤ 1000
    → ((id : String)
        → lookup id (reconcile now store).0.records ≡ closed now (lookup id store.records))
      × (any_going (values store.records) ≡ true → (reconcile now store).0.lock ≡ none)
      × (any_going (values store.records) ≡ false → (reconcile now store).0 ≡ store)
unfolding reconcile list_runs
reconcile-closes now store keyed few =
    let all = sort_desc-Lists store.records keyed in
    let whole =
      take_of_length-le 1000 (sort_desc (values store.records))
        (omega (arith, length-sort_desc (values store.records))) in
    let (closes, unlocks, keeps) =
      unlock_if_lem (close_all now (sort_desc (values store.records)) store) in
    let (recovered, same) = close_all-any now (sort_desc (values store.records)) store in
    let going = any_going-sort_desc (values store.records) in
    rw whole (
      (λ id. rw closes (
          close_all-lookup now id (sort_desc (values store.records)) store all.distinct all.stored
          ∙ ap (λ b. close_if b now (lookup id store.records)) (all.complete id)
          ∙ close_if-is_some now (lookup id store.records))),
      (λ g. unlocks (recovered ∙ ap not (going ∙ g))),
      λ g. keeps (recovered ∙ ap not (going ∙ g)) ∙ same (going ∙ g),
    )
