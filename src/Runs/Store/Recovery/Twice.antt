-- ===== src/Runs/Store/Recovery/Twice.antt =====
-- A second restart after a recovery.
use insatomcat_webui.Base.{
  ℕ, ◌≤◌, String, ◌==◌, eq_iff, eq_refl, ◌≡◌, refl, sym, ap, subst, ◌∙◌, inl, inr, false, Option,
  none, some, List, [], ◌∷◌, length, arith, Bool-cases, Dict, lookup, insert, values, lookup-insert,
}
use insatomcat_webui.Runs.Models.{RunRecord}
use insatomcat_webui.Runs.Store.{
  RunStore, save, interrupt, is_going, close_all, reconcile, list_runs, sort_desc, unlock_if,
}
use insatomcat_webui.Runs.Store.Listing.{
  AreKeyed, closed, Stored, Distinct, sort_desc-Lists, Stored-insert,
}
use insatomcat_webui.Runs.Store.Recovery.{
  any_going, reconcile-closes, take_of_length-le, length-sort_desc,
}

AreKeyed-insert : (r : RunRecord) (m : Dict RunRecord) → AreKeyed m → AreKeyed (insert r.id r m)
unfolding insert lookup
AreKeyed-insert r [] h = (refl, refl, tt)
AreKeyed-insert r ((k, s) ∷ m) (same, fresh, h) =
    ground (arith, lookup-insert r.id k r m, eq_iff k r.id, eq_iff r.id k, AreKeyed-insert r m h)

length-insert :
    (r s : RunRecord) (m : Dict RunRecord)
    → lookup r.id m ≡ some s
    → length (values (insert r.id r m)) ≡ length (values m)
unfolding insert lookup
length-insert r s [] e = absurd (cc e)
length-insert r s ((k, t) ∷ m) e = ground (arith, length-insert r s m)

later_lookup :
    (k : String) (r : RunRecord) (m : Dict RunRecord)
    → lookup k m ≡ none
    → (id : String) (s : RunRecord) → lookup id m ≡ some s
    → lookup id ((k, r) ∷ m) ≡ some s
unfolding lookup
later_lookup k r m fresh id s e = elim (Bool-cases (k == id)) [
  | inl same ↦
      let gone = subst (λ x. lookup x m ≡ none) ((eq_iff k id).0 same) fresh in
      absurd (cc (gone, e))
  | inr differs ↦ rw differs e
]

-- what a keyed dictionary of records that are not going holds
none_going :
    (m : Dict RunRecord)
    → AreKeyed m
    → ((id : String) (r : RunRecord) → lookup id m ≡ some r → is_going r.state ≡ false)
    → any_going (values m) ≡ false
unfolding lookup
none_going [] h f = refl
none_going ((k, r) ∷ m) (same, fresh, h) f =
    let here = f k r (rw eq_refl refl) in
    let behind = later_lookup k r m fresh in
    rw here (none_going m h (λ id s e. f id s (behind id s e)))

-- Closing records keeps each under its own identifier, and their number.
close_all-keyed :
    (now : ℕ) (rs : List RunRecord) (store : RunStore)
    → Distinct rs
    → Stored rs store.records
    → AreKeyed store.records
    → AreKeyed (close_all now rs store).0.records
      × (length (values (close_all now rs store).0.records) ≡ length (values store.records))
unfolding close_all save
close_all-keyed now [] store d k h = (h, refl)
close_all-keyed now (r ∷ rs) store (fresh, d) (here, k) h = elim (Bool-cases (is_going r.state)) [
  | inl going ↦
      let (keyed, same) =
        close_all-keyed now rs (save (interrupt now r) store) d
          (Stored-insert r (interrupt now r) rs store.records refl fresh k)
          (AreKeyed-insert (interrupt now r) store.records h) in
      rw going (keyed, same ∙ length-insert (interrupt now r) r store.records here)
  | inr done ↦ rw done (close_all-keyed now rs store d k h)
]

unlocked_records : (p : RunStore × List RunRecord) → (unlock_if p).0.records ≡ p.0.records
unlocked_records (store, recovered) = ground arith

closed-still :
    (now : ℕ) (o : Option RunRecord) (r : RunRecord)
    → closed now o ≡ some r
    → is_going r.state ≡ false
unfolding is_going
closed-still now none r e = absurd (cc e)
closed-still now (some s) r e = elim (Bool-cases (is_going s.state)) [
  | inl going ↦
      let k : interrupt now s ≡ r = (let m = rw going at e in cc m) in
      ap (λ (x : RunRecord). is_going x.state) (sym k)
  | inr done ↦
      let k : s ≡ r = (let m = rw done at e in cc m) in
      ap (λ (x : RunRecord). is_going x.state) (sym k) ∙ done
]

reconcile-keyed :
    (now : ℕ) (store : RunStore)
    → AreKeyed store.records
    → length (values store.records) ≤ 1000
    → AreKeyed (reconcile now store).0.records
      × (length (values (reconcile now store).0.records) ≡ length (values store.records))
unfolding reconcile list_runs
reconcile-keyed now store keyed few =
    let all = sort_desc-Lists store.records keyed in
    let whole =
      take_of_length-le 1000 (sort_desc (values store.records))
        (omega (arith, length-sort_desc (values store.records))) in
    let (kept, same) =
      close_all-keyed now (sort_desc (values store.records)) store all.distinct all.stored keyed in
    let records = unlocked_records (close_all now (sort_desc (values store.records)) store) in
    rw whole (
      subst AreKeyed (sym records) kept,
      ap (λ (m : Dict RunRecord). length (values m)) records ∙ same,
    )

-- After a recovery a second restart, whenever it comes, leaves the store as it is, in a store of at most
-- 1000 records.
pub reconcile-reconcile :
    (now later : ℕ) (store : RunStore)
    → AreKeyed store.records
    → length (values store.records) ≤ 1000
    → (reconcile later (reconcile now store).0).0 ≡ (reconcile now store).0
reconcile-reconcile now later store keyed few =
    let (kept, same) = reconcile-keyed now store keyed few in
    let closes = (reconcile-closes now store keyed few).0 in
    let still =
      none_going (reconcile now store).0.records kept
        (λ id r e. closed-still now (lookup id store.records) r (sym (closes id) ∙ e)) in
    (reconcile-closes later (reconcile now store).0 kept (omega (same, few, arith))).2 still
