-- ===== src/Core/Sessions/Refinement.antt =====
-- The store of the sessions against a map that forgets nothing: a session is in the map from its creation
-- until it is deleted, and is answered while it has not expired. What the store purges is not missed.
use insatomcat_webui.Base.{
  ℕ, ◌≤◌, String, ◌≡◌, refl, sym, ap, ap₂, subst, ◌∙◌, not, Option, none, some, List, [], ◌∷◌,
  arith, ◌==◌, eq_iff, if◌then◌else◌, lookup, insert, lookup-insert, lookup-delete, Bool-cases, inl,
  inr,
}
use insatomcat_webui.Core.Auth.{User}
use insatomcat_webui.Core.Sessions.{
  Session, SessionStore, expired, new_session, create, get, got, drop, purge,
}
use insatomcat_webui.Core.Sessions.Expiry.{
  IsValid, live, lookup-keep-live, insert-IsKeyed, delete-IsKeyed, got-IsValid, get-GetsLive,
  store-IsValid,
}

-- the operations of the store, with the random tokens of a creation
pub data Command : Type 0 where
  creates : String → String → User → Command
  gets deletes : String → Command

-- what is live at a time
abbrev pub alive : ℕ → Option Session → Option Session
alive now o = live (λ s. not (expired now s)) o

-- The map, by identifier.
abbrev pub Ideal : Type 0
Ideal = String → Option Session

abbrev pub ideal_step : ℕ → ℕ → Command → Ideal → Ideal × Option Session
ideal_step ttl now (creates id token user) m =
    let s = new_session (record { ttl = ttl; sessions = [] }) now id token user in
    ((λ j. if id == j then some s else m j), some s)
ideal_step ttl now (gets id) m = (m, alive now (m id))
ideal_step ttl now (deletes id) m = ((λ j. if id == j then none else m j), none)

unfoldable pub step : ℕ → Command → SessionStore → SessionStore × Option Session
step now (creates id token user) store =
    let (after, s) = create now id token user store in (after, some s)
step now (gets id) store = get now id store
step now (deletes id) store = (drop id store, none)

-- the answers to commands, each at its time
unfoldable pub answers : List (ℕ × Command) → SessionStore → List (Option Session)
unfolding step
answers [] store = []
answers ((now, c) ∷ rest) store =
    let (after, answer) = step now c store in answer ∷ answers rest after

abbrev pub ideal_answers : ℕ → List (ℕ × Command) → Ideal → List (Option Session)
ideal_answers ttl [] m = []
ideal_answers ttl ((now, c) ∷ rest) m =
    let (after, answer) = ideal_step ttl now c m in answer ∷ ideal_answers ttl rest after

-- No command comes before the one in front of it.
abbrev pub InOrder : ℕ → List (ℕ × Command) → Type 0
InOrder since [] = Unit
InOrder since ((now, _) ∷ rest) = (since ≤ now) × InOrder now rest

-- From a time on the store and the map hold the same live sessions.
abbrev Matches : ℕ → SessionStore → Ideal → Type 0
Matches since store m =
    (later : ℕ)
    → since ≤ later
    → (id : String) → alive later (lookup id store.sessions) ≡ alive later (m id)

alive-alive :
    (now later : ℕ) (o : Option Session) → now ≤ later → alive later (alive now o) ≡ alive later o
unfolding expired
alive-alive now later none h = refl
alive-alive now later (some s) h = ground arith

creates_lem :
    (now : ℕ) (id token : String) (user : User) (store : SessionStore) (m : Ideal)
    → IsValid store
    → Matches now store m
    → Matches now
        (create now id token user store).0
        (ideal_step store.ttl now (creates id token user) m).0
unfolding create purge
creates_lem now id token user store m v h later before j =
    let new = new_session store now id token user in
    ap (alive later) (
      lookup-keep-live (λ s. not (expired now s)) j (insert id new store.sessions)
        (insert-IsKeyed new store.sessions v))
    ∙ alive-alive now later (lookup j (insert id new store.sessions)) before
    ∙ ap (alive later) (lookup-insert id j new store.sessions)
    ∙ elim (Bool-cases (id == j)) [ inl e ↦ rw e refl | inr e ↦ rw e (h later before j) ]

gets_lem :
    (now : ℕ) (id : String) (store : SessionStore) (m : Ideal)
    → IsValid store
    → Matches now store m
    → Matches now (get now id store).0 m × ((get now id store).1 ≡ alive now (m id))
gets_lem now id store m v h =
    let (answer, left, others) = get-GetsLive now id store v in
    (
      (λ later before j. elim (Bool-cases (j == id)) [
        | inl e ↦
            let same = (eq_iff j id).0 e in
            subst (λ x. alive later (lookup x (get now id store).0.sessions) ≡ alive later (m x))
              (sym same)
              (ap (alive later) (left ∙ answer)
                ∙ alive-alive now later (lookup id store.sessions) before
                ∙ h later before id)
        | inr e ↦ ap (alive later) (others j e) ∙ h later before j
      ]),
      answer ∙ h now (omega arith) id,
    )

deletes_lem :
    (now : ℕ) (id : String) (store : SessionStore) (m : Ideal)
    → Matches now store m
    → Matches now (drop id store) (ideal_step store.ttl now (deletes id) m).0
unfolding drop
deletes_lem now id store m h later before j =
    ap (alive later) (lookup-delete id j store.sessions)
    ∙ elim (Bool-cases (id == j)) [ inl e ↦ rw e refl | inr e ↦ rw e (h later before j) ]

-- A match at a time is one from any later time on.
Matches-later :
    (since now : ℕ) (store : SessionStore) (m : Ideal)
    → since ≤ now
    → Matches since store m
    → Matches now store m
Matches-later since now store m le h later before = h later (omega arith)

got_ttl :
    (now : ℕ) (o : Option Session) (store : SessionStore) → (got now o store).0.ttl ≡ store.ttl
got_ttl now none store = refl
got_ttl now (some s) store = elim (Bool-cases (expired now s)) [
  | inl e ↦ rw e refl
  | inr e ↦ rw e refl
]

-- One command: the store stays valid with its time to live, the match goes on, the answers are the same.
step_lem :
    (now : ℕ) (c : Command) (store : SessionStore) (m : Ideal)
    → IsValid store
    → Matches now store m
    → IsValid (step now c store).0
      × ((step now c store).0.ttl ≡ store.ttl)
      × Matches now (step now c store).0 (ideal_step store.ttl now c m).0
      × ((step now c store).1 ≡ (ideal_step store.ttl now c m).1)
unfolding step create get drop
step_lem now (creates id token user) store m v h = (
  (store-IsValid store now id token user v).0,
  refl,
  creates_lem now id token user store m v h,
  refl,
)
step_lem now (gets id) store m v h =
    let (matches, answer) = gets_lem now id store m v h in
    (
      got-IsValid now (lookup id store.sessions) store v,
      got_ttl now (lookup id store.sessions) store,
      matches,
      answer,
    )
step_lem now (deletes id) store m v h =
    (delete-IsKeyed id store.sessions v, refl, deletes_lem now id store m h, refl)

answers_lem :
    (since : ℕ) (trace : List (ℕ × Command)) (store : SessionStore) (m : Ideal)
    → IsValid store
    → InOrder since trace
    → Matches since store m
    → answers trace store ≡ ideal_answers store.ttl trace m
unfolding answers
answers_lem since [] store m v o h = refl
answers_lem since ((now, c) ∷ rest) store m v (le, o) h =
    let (valid, ttl, matches, answer) =
      step_lem now c store m v (Matches-later since now store m le h) in
    ap₂ (λ a l. a ∷ l) answer
      (answers_lem now rest (step now c store).0 (ideal_step store.ttl now c m).0 valid o matches
        ∙ ap (λ t. ideal_answers t rest (ideal_step store.ttl now c m).0) ttl)

-- Whatever is asked of a store, in the order of time, it answers as the map does that holds what the store
-- holds, forgets nothing that is not deleted, and answers the sessions that have not expired: purging and
-- the removal of expired sessions are never seen.
pub answers-ideal_answers :
    (since : ℕ) (trace : List (ℕ × Command)) (store : SessionStore)
    → IsValid store
    → InOrder since trace
    → answers trace store ≡ ideal_answers store.ttl trace (λ id. lookup id store.sessions)
answers-ideal_answers since trace store v o =
    answers_lem since trace store (λ id. lookup id store.sessions) v o (λ later before id. refl)
