-- ===== src/Inventory/Parser/Variables.antt =====
-- What the parser finds among the variables that the renderer writes for a host.
use insatomcat_webui.Base.{
  String, ◌≡◌, refl, sym, ap, ◌∙◌, inl, inr, Bool, false, none, [], ◌∷◌, ◌++◌, ◌==◌, eq_iff, arith,
  Bool-cases, Dict, lookup, insert, update, keys, keep, lookup-insert_ne, All, append-nil,
  append_assoc, Value,
}

-- The keys of a dictionary are distinct.
abbrev pub IsDict {ℓ} : {V : Type ℓ} → Dict V → Type ℓ
IsDict [] = Unit
IsDict ((k, v) ∷ d) = (lookup k d ≡ none) × IsDict d

pub lookup-update_ne :
    (k : String) (e d : Dict Value)
    → All (λ j. (j == k) ≡ false) (keys e)
    → lookup k (update d e) ≡ lookup k d
unfolding update
lookup-update_ne k [] d h = refl
lookup-update_ne k ((j, v) ∷ e) d (ne, h) =
    lookup-update_ne k e (insert j v d) h ∙ lookup-insert_ne j k v d ne

keep-insert_other :
    (p : String → Bool) (k : String) (v : Value) (d : Dict Value)
    → p k ≡ false
    → keep (λ e. p e.0) (insert k v d) ≡ keep (λ e. p e.0) d
unfolding insert
keep-insert_other p k v [] h = rw h
keep-insert_other p k v ((j, w) ∷ d) h = elim (Bool-cases (j == k)) [
  | inl e ↦ rw (e, (eq_iff j k).0 e, h)
  | inr e ↦ rw (e, keep-insert_other p k v d h)
]

pub keep-update_other :
    (p : String → Bool) (e d : Dict Value)
    → All (λ k. p k ≡ false) (keys e)
    → keep (λ x. p x.0) (update d e) ≡ keep (λ x. p x.0) d
unfolding update
keep-update_other p [] d h = refl
keep-update_other p ((k, v) ∷ e) d (hk, h) =
    keep-update_other p e (insert k v d) h ∙ keep-insert_other p k v d hk

insert-fresh :
    (k : String) (v : Value) (d : Dict Value) → lookup k d ≡ none → insert k v d ≡ d ++ (k, v) ∷ []
unfolding insert lookup
insert-fresh k v [] h = refl
insert-fresh k v ((j, w) ∷ d) h = elim (Bool-cases (j == k)) [
  | inl e ↦ absurd (let m = rw e at h in cc m)
  | inr e ↦ rw e (ap (λ x. (j, w) ∷ x) (insert-fresh k v d (let m = rw e at h in m)))
]

pub lookup-append_none :
    (k : String) (d e : Dict Value) → lookup k d ≡ none → lookup k (d ++ e) ≡ lookup k e
unfolding lookup
lookup-append_none k [] e h = refl
lookup-append_none k ((j, w) ∷ d) e h = elim (Bool-cases (j == k)) [
  | inl f ↦ absurd (let m = rw f at h in cc m)
  | inr f ↦ rw f (lookup-append_none k d e (let m = rw f at h in m))
]

-- no key of the dictionary is one of another's
abbrev pub Apart : Dict Value → Dict Value → Type 0
Apart d e = All (λ k. lookup k d ≡ none) (keys e)

still-Apart :
    (k : String) (v : Value) (d e : Dict Value)
    → lookup k e ≡ none
    → Apart d e
    → Apart (d ++ (k, v) ∷ []) e
unfolding lookup
still-Apart k v d [] h a = tt
still-Apart k v d ((j, w) ∷ e) h (aj, a) = elim (Bool-cases (j == k)) [
  | inl f ↦ absurd (let m = rw f at h in cc m)
  | inr f ↦ (
    lookup-append_none j d ((k, v) ∷ []) aj ∙ ground (arith, eq_iff j k, eq_iff k j),
    still-Apart k v d e (let m = rw f at h in m) a,
  )
]

pub update-append : (e d : Dict Value) → IsDict e → Apart d e → update d e ≡ d ++ e
unfolding update
update-append [] d h a = sym (append-nil d)
update-append ((k, v) ∷ e) d (hk, h) (ak, a) =
    ap (λ x. update x e) (insert-fresh k v d ak)
    ∙ update-append e (d ++ (k, v) ∷ []) h (still-Apart k v d e hk a)
    ∙ append_assoc d ((k, v) ∷ []) e
