-- ===== src/Api/Endpoint/Guarded.antt =====
-- What has to hold for a handler behind a guard to run.
use insatomcat_webui.Base.{ℕ, String, ◌≡◌, refl, subst, ◌⊎◌, inl, inr, true, Result, ok, err}
use insatomcat_webui.Core.Errors.{ApiError}
use insatomcat_webui.Core.Settings.{Settings}
use insatomcat_webui.Core.Auth.{Role, User, can}
use insatomcat_webui.Core.Sessions.{Session, SessionStore, session_user}
use insatomcat_webui.Core.Sessions.Expiry.{IsValid}
use insatomcat_webui.Core.Security.{Request, require_role}
use insatomcat_webui.Core.Security.Guards.{Holds, require_role-Holds}
use insatomcat_webui.Api.Endpoint.{Problem, Reply, handled, guarded}

module _ {ℓ κ} {S : Type ℓ} {A : Type κ} (handler : User → S → S × Reply A) (state : S) where
  -- The handler did not run: the state is as before, and the answer is the guard's error.
  abbrev pub Refused : SessionStore × S × Reply A → Type (ℓ ⊔ κ)
  Refused (sessions, after, reply) =
      (after ≡ state) × ((e : ApiError) × (reply ≡ err (Problem.api e)))

  -- The handler ran for that user.
  abbrev pub RanFor : User → SessionStore × S × Reply A → Type (ℓ ⊔ κ)
  RanFor user (sessions, after, reply) =
      (after ≡ (handler user state).0) × (reply ≡ (handler user state).1)

  module _ (hmac : String → String) (settings : Settings) (now : ℕ) (required : Role)
      (request : Request) (sessions : SessionStore) where
    handled_lem :
        (r : SessionStore × Result ApiError User)
        → Refused (handled handler state r)
          ⊎ ((user : User) × (r.1 ≡ ok user) × RanFor user (handled handler state r))
    handled_lem (s, err e) = inl (refl, (e, refl))
    handled_lem (s, ok user) = inr (user, refl, (refl, refl))

    -- A handler behind a required role runs only for the user of a stored session that has not expired,
    -- whose signed identifier is the request's cookie and whose role may do what the required role may
    -- do. Otherwise the state is as before, and the answer is an error of the API.
    pub guarded-Holds :
        IsValid sessions
        → Refused (guarded hmac settings now required request handler sessions state)
          ⊎ ((s : Session) × Holds hmac settings now request sessions s
              × (can s.role required ≡ true)
              × RanFor
                  (session_user s)
                  (guarded hmac settings now required request handler sessions state))
    unfolding guarded
    guarded-Holds v =
        elim (handled_lem (require_role hmac settings now required request sessions)) [
          | inl h ↦ inl h
          | inr (user, e, ran) ↦
              let (s, holds, same, may) =
                require_role-Holds hmac settings now required request sessions user v e in
              inr (
                s,
                holds,
                subst (λ (u : User). can u.role required ≡ true) same may,
                subst
                    (λ u. RanFor u (
                      handled handler state
                        (require_role hmac settings now required request sessions)))
                    same ran,
              )
        ]
