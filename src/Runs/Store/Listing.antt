-- ===== src/Runs/Store/Listing.antt =====
-- Closing the records of a sorted list of them.
use insatomcat_webui.Base.{
  ℕ, String, ◌≡◌, refl, ap, ◌∙◌, Bool, true, false, Option, none, some, List, [], ◌∷◌, ◌==◌, eq_iff,
  eq_refl, arith, if◌then◌else◌, Dict, lookup, insert, lookup-insert, values, is_some, inl, inr,
  Bool-cases,
}
use insatomcat_webui.Runs.Models.{RunRecord}
use insatomcat_webui.Runs.Store.{
  RunStore, save, interrupt, is_going, close_all, sort_desc, insert_desc,
}

-- Each record stands under its own identifier, once.
abbrev pub AreKeyed : Dict RunRecord → Type 0
AreKeyed [] = Unit
AreKeyed ((k, r) ∷ m) = (k ≡ r.id) × (lookup k m ≡ none) × AreKeyed m

-- The record is the one stored, closed if it was going.
abbrev pub closed : ℕ → Option RunRecord → Option RunRecord
closed now none = none
closed now (some r) = if is_going r.state then some (interrupt now r) else some r

-- some record of the list has the identifier
abbrev holds : String → List RunRecord → Bool
holds id [] = false
holds id (r ∷ rs) = if r.id == id then true else holds id rs

abbrev pub close_if : Bool → ℕ → Option RunRecord → Option RunRecord
close_if b now o = if b then closed now o else o

is_going-interrupt : (now : ℕ) (r : RunRecord) → is_going (interrupt now r).state ≡ false
unfolding is_going
is_going-interrupt now r = refl

-- the records of the list are those of the store
abbrev pub Stored : List RunRecord → Dict RunRecord → Type 0
Stored [] m = Unit
Stored (r ∷ rs) m = (lookup r.id m ≡ some r) × Stored rs m

abbrev pub Distinct : List RunRecord → Type 0
Distinct [] = Unit
Distinct (r ∷ rs) = (holds r.id rs ≡ false) × Distinct rs

pub Stored-insert :
    (r : RunRecord) (s : RunRecord) (rs : List RunRecord) (m : Dict RunRecord)
    → r.id ≡ s.id
    → holds r.id rs ≡ false
    → Stored rs m
    → Stored rs (insert r.id s m)
Stored-insert r s [] m e h k = tt
Stored-insert r s (t ∷ rs) m e h (here, k) = ground (
  arith,
  lookup-insert r.id t.id s m,
  eq_iff r.id t.id,
  eq_iff t.id r.id,
  Stored-insert r s rs m e,
)

-- one record is closed, and then the others
close_step :
    (now : ℕ) (id : String) (r : RunRecord) (rs : List RunRecord) (m : Dict RunRecord)
    → holds r.id rs ≡ false
    → lookup r.id m ≡ some r
    → is_going r.state ≡ true
    → close_if (holds id rs) now (lookup id (insert r.id (interrupt now r) m))
      ≡ close_if (holds id (r ∷ rs)) now (lookup id m)
close_step now id r rs m fresh here going = elim (Bool-cases (r.id == id)) [
  | inl e ↦
      let same = (eq_iff r.id id).0 e in rw (lookup-insert, e, ← same) (rw (fresh, here, going))
  | inr e ↦ rw (lookup-insert, e)
]

skip_step :
    (now : ℕ) (id : String) (r : RunRecord) (rs : List RunRecord) (m : Dict RunRecord)
    → holds r.id rs ≡ false
    → lookup r.id m ≡ some r
    → is_going r.state ≡ false
    → close_if (holds id rs) now (lookup id m) ≡ close_if (holds id (r ∷ rs)) now (lookup id m)
skip_step now id r rs m fresh here done = elim (Bool-cases (r.id == id)) [
  | inl e ↦ let same = (eq_iff r.id id).0 e in rw (e, ← same) (rw (fresh, here, done))
  | inr e ↦ rw e
]

pub close_all-lookup :
    (now : ℕ) (id : String) (rs : List RunRecord) (store : RunStore)
    → Distinct rs
    → Stored rs store.records
    → lookup id (close_all now rs store).0.records
      ≡ close_if (holds id rs) now (lookup id store.records)
unfolding close_all save
close_all-lookup now id [] store d k = refl
close_all-lookup now id (r ∷ rs) store (fresh, d) (here, k) = elim (Bool-cases (is_going r.state)) [
  | inl going ↦ rw going (
      close_all-lookup now id rs (save (interrupt now r) store) d
        (Stored-insert r (interrupt now r) rs store.records refl fresh k)
      ∙ close_step now id r rs store.records fresh here going)
  | inr done ↦
      rw done
        (close_all-lookup now id rs store d k ∙ skip_step now id r rs store.records fresh here done)
]

holds-insert_desc :
    (id : String) (r : RunRecord) (rs : List RunRecord)
    → holds id (insert_desc r rs) ≡ (if r.id == id then true else holds id rs)
unfolding insert_desc
holds-insert_desc id r [] = refl
holds-insert_desc id r (s ∷ rs) = ground (arith, holds-insert_desc id r rs)

Distinct-insert_desc :
    (r : RunRecord) (rs : List RunRecord)
    → holds r.id rs ≡ false
    → Distinct rs
    → Distinct (insert_desc r rs)
unfolding insert_desc
Distinct-insert_desc r [] h d = (refl, tt)
Distinct-insert_desc r (s ∷ rs) h (fresh, d) = ground (
  arith,
  Distinct-insert_desc r rs,
  holds-insert_desc s.id r rs,
  eq_iff r.id s.id,
  eq_iff s.id r.id,
)

Stored-insert_desc :
    (r : RunRecord) (rs : List RunRecord) (m : Dict RunRecord)
    → lookup r.id m ≡ some r
    → Stored rs m
    → Stored (insert_desc r rs) m
unfolding insert_desc
Stored-insert_desc r [] m h k = (h, tt)
Stored-insert_desc r (s ∷ rs) m h (here, k) = ground (arith, Stored-insert_desc r rs m h k)

Stored-weaken :
    (r : RunRecord) (rs : List RunRecord) (m : Dict RunRecord)
    → lookup r.id m ≡ none
    → Stored rs m
    → Stored rs ((r.id, r) ∷ m)
unfolding lookup
Stored-weaken r [] m fresh k = tt
Stored-weaken r (s ∷ rs) m fresh (here, k) =
    ground (arith, Stored-weaken r rs m fresh k, eq_iff r.id s.id)

-- The list that `reconcile` walks holds each stored record once.
pub record Lists (m : Dict RunRecord) (rs : List RunRecord) : Type 0 where
  pub distinct : Distinct rs
  pub stored : Stored rs m
  pub complete : (id : String) → holds id rs ≡ is_some (lookup id m)

pub sort_desc-Lists : (m : Dict RunRecord) → AreKeyed m → Lists m (sort_desc (values m))
unfolding sort_desc lookup
sort_desc-Lists [] h = record { distinct = tt; stored = tt; complete = λ id. refl }
sort_desc-Lists ((k, r) ∷ m) (same, fresh, h) =
    let ih = sort_desc-Lists m h in
    let new = rw same at fresh in
    rw same (record {
      distinct = Distinct-insert_desc r _ (ih.complete r.id ∙ ap is_some new) ih.distinct;
      stored =
          Stored-insert_desc r _ ((r.id, r) ∷ m) (rw eq_refl refl)
            (Stored-weaken r _ m new ih.stored);
      complete =
          λ id. ground (arith, holds-insert_desc id r (sort_desc (values m)), ih.complete id);
    })
