-- ===== src/Core/Sessions/Expiry.antt =====
-- What the store holds, and for how long.
use insatomcat_webui.Base.{
  ℕ, ◌+◌, ◌≤◌, ◌<◌, String, ◌≡◌, refl, sym, ◌∙◌, Bool, false, not, Option, none, some, [], ◌∷◌,
  arith, ltb, ◌==◌, eq_iff, eq_refl, if◌then◌else◌, Dict, lookup, insert, delete, keep,
  lookup-insert, lookup-delete, Bool-cases, inl, inr,
}
use insatomcat_webui.Core.Auth.{User}
use insatomcat_webui.Core.Sessions.{
  Session, SessionStore, expired, new_session, create, get, got, drop,
}

-- Each session stands once in the dictionary, under its own identifier.
abbrev pub IsKeyed : Dict Session → Type 0
IsKeyed [] = Unit
IsKeyed ((k, s) ∷ m) = (k ≡ s.id) × (lookup k m ≡ none) × IsKeyed m

abbrev pub IsValid : SessionStore → Type 0
IsValid store = IsKeyed store.sessions

lookup-keep :
    (p : Session → Bool) (j : String) (m : Dict Session)
    → lookup j m ≡ none
    → lookup j (keep (λ e. p e.1) m) ≡ none
unfolding lookup
lookup-keep p j [] h = refl
lookup-keep p j ((k, s) ∷ m) h = ground (arith, lookup-keep p j m)

keep-IsKeyed : (p : Session → Bool) (m : Dict Session) → IsKeyed m → IsKeyed (keep (λ e. p e.1) m)
keep-IsKeyed p [] h = tt
keep-IsKeyed p ((k, s) ∷ m) (e, fresh, h) =
    ground (arith, keep-IsKeyed p m h, lookup-keep p k m fresh)

pub insert-IsKeyed : (s : Session) (m : Dict Session) → IsKeyed m → IsKeyed (insert s.id s m)
unfolding insert lookup
insert-IsKeyed s [] h = (refl, refl, tt)
insert-IsKeyed s ((k, t) ∷ m) (e, fresh, h) =
    ground (arith, eq_iff k s.id, insert-IsKeyed s m h, lookup-insert s.id k s m, eq_iff s.id k)

pub delete-IsKeyed : (j : String) (m : Dict Session) → IsKeyed m → IsKeyed (delete j m)
unfolding delete
delete-IsKeyed j [] h = tt
delete-IsKeyed j ((k, t) ∷ m) (e, fresh, h) =
    ground (arith, delete-IsKeyed j m h, lookup-delete j k m)

abbrev unless : Bool → Option Session → Option Session
unless b o = if b then none else o

-- What a lookup finds after a purge.
abbrev pub live : (Session → Bool) → Option Session → Option Session
live p none = none
live p (some s) = if p s then some s else none

pub lookup-keep-live :
    (p : Session → Bool) (j : String) (m : Dict Session)
    → IsKeyed m
    → lookup j (keep (λ e. p e.1) m) ≡ live p (lookup j m)
unfolding lookup
lookup-keep-live p j [] h = refl
lookup-keep-live p j ((k, s) ∷ m) (e, fresh, h) =
    ground (arith, lookup-keep-live p j m h, lookup-keep p k m fresh, eq_iff k j)

-- No session has expired at that time.
abbrev pub NoneExpired : ℕ → Dict Session → Type 0
NoneExpired now [] = Unit
NoneExpired now ((_, s) ∷ m) = (now < s.expires_at) × NoneExpired now m

purge-NoneExpired :
    (now : ℕ) (m : Dict Session) → NoneExpired now (keep (λ e. not (expired now e.1)) m)
unfolding expired
purge-NoneExpired now [] = tt
purge-NoneExpired now ((k, s) ∷ m) = ground (arith, purge-NoneExpired now m)

purge-IsKeyed :
    (now : ℕ) (m : Dict Session) → IsKeyed m → IsKeyed (keep (λ e. not (expired now e.1)) m)
purge-IsKeyed now m h = keep-IsKeyed (λ s. not (expired now s)) m h

pub got-IsValid :
    (now : ℕ) (o : Option Session) (store : SessionStore)
    → IsValid store
    → IsValid (got now o store).0
got-IsValid now none store h = h
got-IsValid now (some s) store h = ground (arith, delete-IsKeyed s.id store.sessions h)

-- `create`, `get` and `delete` keep every session stored once and under its own identifier, and
-- `create` leaves no session that has expired at the time of the call.
pub store-IsValid :
    (store : SessionStore) (now : ℕ) (id token : String) (user : User)
    → IsValid store
    → IsValid (create now id token user store).0
      × NoneExpired now (create now id token user store).0.sessions
      × IsValid (get now id store).0
      × IsValid (drop id store)
unfolding create get drop
store-IsValid store now id token user h = (
  purge-IsKeyed now _ (insert-IsKeyed (new_session store now id token user) store.sessions h),
  purge-NoneExpired now _,
  got-IsValid now (lookup id store.sessions) store h,
  delete-IsKeyed id store.sessions h,
)

-- What `get` answers: the stored session exactly while it has not expired, and an expired session
-- is gone from the store afterwards. No other session is touched.
abbrev pub GetsLive : ℕ → String → SessionStore → SessionStore × Option Session → Type 0
GetsLive now id store (after, answer) =
    (answer ≡ live (λ s. not (expired now s)) (lookup id store.sessions))
    × (lookup id after.sessions ≡ answer)
    × ((other : String)
        → (other == id) ≡ false
        → lookup other after.sessions ≡ lookup other store.sessions)

lookup-IsKeyed :
    (id : String) (s : Session) (m : Dict Session) → IsKeyed m → lookup id m ≡ some s → s.id ≡ id
unfolding lookup
lookup-IsKeyed id s [] h e = absurd (cc)
lookup-IsKeyed id s ((k, t) ∷ m) (kt, fresh, h) e =
    ground (arith, lookup-IsKeyed id s m h, eq_iff k id)

got-GetsLive :
    (now : ℕ) (id : String) (o : Option Session) (store : SessionStore)
    → lookup id store.sessions ≡ o
    → ((s : Session) → o ≡ some s → s.id ≡ id)
    → GetsLive now id store (got now o store)
got-GetsLive now id none store e h = (rw e, e, λ other _. refl)
got-GetsLive now id (some s) store e h =
    let same = h s refl in
    elim (Bool-cases (expired now s)) [
      | inl old ↦
          rw (e, old, same)
            (
              refl,
              rw (lookup-delete, eq_refl),
              λ other ne.
                  ground (
                    arith,
                    lookup-delete id other store.sessions,
                    eq_iff id other,
                    eq_iff other id,
                  ),
            )
      | inr new ↦ rw (e, new) (refl, e, λ other _. refl)
    ]

-- On a store whose sessions stand under their own identifiers, `get` returns the stored session
-- exactly while it has not expired and nothing otherwise; an expired one is removed; the sessions
-- under other identifiers stay as they were.
pub get-GetsLive :
    (now : ℕ) (id : String) (store : SessionStore)
    → IsValid store
    → GetsLive now id store (get now id store)
unfolding get
get-GetsLive now id store h =
    got-GetsLive now id (lookup id store.sessions) store refl
      (λ s e. lookup-IsKeyed id s store.sessions h e)

live_sound :
    (now : ℕ) (o : Option Session) (s : Session)
    → live (λ t. not (expired now t)) o ≡ some s
    → (o ≡ some s) × (now < s.expires_at)
unfolding expired
live_sound now none s h = absurd (cc)
live_sound now (some t) s h = ground arith

pub get_sound :
    (now : ℕ) (id : String) (store : SessionStore) (s : Session)
    → IsValid store
    → (get now id store).1 ≡ some s
    → (s.id ≡ id) × (lookup id store.sessions ≡ some s) × (now < s.expires_at)
get_sound now id store s v h =
    let (stored, alive) =
      live_sound now (lookup id store.sessions) s (sym (get-GetsLive now id store v).0 ∙ h) in
    (lookup-IsKeyed id s store.sessions v stored, stored, alive)

-- A session that was just created is found by its identifier until its time to live has passed,
-- and is not found from then on.
pub get-create :
    (store : SessionStore) (now later : ℕ) (id token : String) (user : User)
    → IsValid store
    → now ≤ later
    → (get later id (create now id token user store).0).1
      ≡ (if ltb later (now + store.ttl) then some (create now id token user store).1 else none)
unfolding create get
get-create store now later id token user h le =
    rw
      (lookup-keep-live (λ s. not (expired now s)) id
        (insert id (new_session store now id token user) store.sessions)
        (insert-IsKeyed (new_session store now id token user) store.sessions h))
      (rw (lookup-insert, eq_refl) (unfold expired in ground arith))
