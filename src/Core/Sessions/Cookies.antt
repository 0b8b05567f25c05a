-- ===== src/Core/Sessions/Cookies.antt =====
-- The cookie carries the identifier and its signature.
use insatomcat_webui.Base.{
  ℕ, ◌≤◌, ◌+◌, String, ◌≡◌, refl, Bool, true, false, Option, none, some, arith, ◌==◌, eq_iff,
  eq_refl, partition_string, partition_string-append, partition_string_sound, LacksCode, concat,
  Bool-cases, inl, inr, ltb, ◌∙◌, sym, ap, ap₂, subst, ◌<◌, lookup, if◌then◌else◌,
}
use Prim.Native.Char.{Char}
use Prim.Native.String
use text.Mathlib.TextLemmas.{
  append-nil, nil-append, cons-append, append-ne-nil_of_right_ne-nil, cons-ne-nil,
}
use insatomcat_webui.Core.Auth.{User}
use insatomcat_webui.Core.Sessions.{
  Session, SessionStore, create, signature, sign, unsign, checked, looked_up, resolve,
}
use insatomcat_webui.Core.Sessions.Expiry.{IsValid, get-create, get_sound}

abbrev dot : Char
dot = "."

module _ (hmac : String → String) where
  sign-append : (id : String) → sign hmac id ≡ String.◌++◌ id (String.◌∷◌ dot (signature hmac id))
  unfolding sign concat
  sign-append id = rw append-nil (rw cons-append (rw nil-append))

  checked_sound :
      (r : String × Bool × String) (id : String)
      → checked hmac r ≡ some id
      → (r.1 ≡ true) × (r.0 ≡ id) × (r.2 ≡ signature hmac id)
  checked_sound (before, found, given) id h = ground (arith, eq_iff given (signature hmac before))

  unsign_sound : (cookie id : String) → unsign hmac cookie ≡ some id → cookie ≡ sign hmac id
  unsign_sound cookie id h =
      let (found, same, signed) =
        checked_sound (partition_string b'.' cookie) id (unfold unsign in h) in
      let whole = (partition_string_sound dot cookie found).0 in
      whole ∙ ap₂ (λ a b. String.◌++◌ a (String.◌∷◌ dot b)) same signed ∙ sym (sign-append id)

  -- Reading back a signed identifier: every identifier that holds no dot, as the tokens of
  -- `secrets.token_urlsafe` do, is given back by `unsign` of its signed form; and whatever cookie
  -- `unsign` accepts is the signed form of the identifier that it answers, so a cookie without a
  -- valid signature is refused.
  pub unsign-sign :
      ((id : String) → LacksCode b'.' id → unsign hmac (sign hmac id) ≡ some id)
      × ((cookie id : String) → unsign hmac cookie ≡ some id → cookie ≡ sign hmac id)
  unsign-sign = (
    (λ id h.
        rw sign-append (
          unfold unsign in rw (partition_string-append dot id (signature hmac id) h) (rw eq_refl))),
    unsign_sound,
  )

  sign-ne-empty : (id : String) → (sign hmac id == "") ≡ false
  sign-ne-empty id = elim (Bool-cases (sign hmac id == "")) [
    | inl e ↦ absurd (
        append-ne-nil_of_right_ne-nil id (cons-ne-nil dot (signature hmac id))
          (sym (sign-append id) ∙ (eq_iff _ _).0 e))
    | inr e ↦ e
  ]

  looked_up_sound :
      (now : ℕ) (o : Option String) (cookie : String) (store : SessionStore) (s : Session)
      → IsValid store
      → ((id : String) → o ≡ some id → cookie ≡ sign hmac id)
      → (looked_up hmac now o store).1 ≡ some s
      → (cookie ≡ sign hmac s.id) × (lookup s.id store.sessions ≡ some s) × (now < s.expires_at)
  looked_up_sound now none cookie store s v signed h = absurd (cc)
  looked_up_sound now (some id) cookie store s v signed h =
      let (same, stored, alive) = get_sound now id store s v h in
      (
        signed id refl ∙ ap (sign hmac) (sym same),
        subst (λ k. lookup k store.sessions ≡ some s) (sym same) stored,
        alive,
      )

  -- A cookie that `resolve` answers with a session is the signed form of the identifier of that
  -- session, which the store holds and which has not expired.
  pub resolve_sound :
      (now : ℕ) (cookie : String) (store : SessionStore) (s : Session)
      → IsValid store
      → (resolve hmac now (some cookie) store).1 ≡ some s
      → (cookie ≡ sign hmac s.id) × (lookup s.id store.sessions ≡ some s) × (now < s.expires_at)
  unfolding resolve
  resolve_sound now cookie store s v h = elim (Bool-cases (cookie == "")) [
    | inl e ↦ absurd (let k = rw e at h in cc k)
    | inr e ↦
        looked_up_sound now (unsign hmac cookie) cookie store s v (unsign_sound cookie) (rw e at h)
  ]

  -- The cookie that the login sets, sent back while the session lives, resolves to that session;
  -- once the time to live has passed it resolves to none.
  pub resolve-create :
      (store : SessionStore) (now later : ℕ) (id token : String) (user : User)
      → IsValid store
      → now ≤ later
      → LacksCode b'.' id
      → (resolve hmac later (some (sign hmac id)) (create now id token user store).0).1
        ≡ (if ltb later (now + store.ttl) then some (create now id token user store).1 else none)
  unfolding resolve
  resolve-create store now later id token user v le h =
      rw (sign-ne-empty, unsign-sign.0 id h) (get-create store now later id token user v le)
