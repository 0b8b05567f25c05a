-- ===== src/Api/Inventory/Patch/Wanted.antt =====
-- The fields that a patch asks for, with the password it is given.
use insatomcat_webui.Base.{
  String, ◌≡◌, refl, ap, subst, ◌∙◌, inl, inr, Bool-cases, Option, none, some, [], ◌∷◌, ◌==◌,
  eq_iff, arith, ◌&&◌, not, if◌then◌else◌, Dict, lookup, insert, update, lookup-insert, Value,
}
use insatomcat_webui.Inventory.Parser.Variables.{IsDict}
use insatomcat_webui.Api.Inventory.{with_password}

abbrev pub or_old : Option Value → Option Value → Option Value
or_old none old = old
or_old (some v) old = some v

-- The value of a field behind a patch: the hash of the password, if one is given and the field is the
-- password's; else the value of the changes; else the old one.
abbrev pub wanted :
    (String → String) → Option String → Dict Value → Dict Value → String → Option Value
wanted hash none changes old field_name = or_old (lookup field_name changes) (lookup field_name old)
wanted hash (some plain) changes old field_name =
    if not (plain == "") && "grub_password" == field_name
    then some (Value.str (hash plain))
    else or_old (lookup field_name changes) (lookup field_name old)

lookup-update :
    (k : String) (d f : Dict Value)
    → IsDict d
    → lookup k (update f d) ≡ or_old (lookup k d) (lookup k f)
unfolding update lookup
lookup-update k [] f h = refl
lookup-update k ((j, w) ∷ d) f (fresh, h) =
    lookup-update k d (insert j w f) h ∙ elim (Bool-cases (j == k)) [
      | inl e ↦
          rw (lookup-insert j k w f, e)
            (ap (λ o. or_old o (some w)) (subst (λ x. lookup x d ≡ none) ((eq_iff j k).0 e) fresh))
      | inr e ↦ rw (e, lookup-insert j k w f, e) refl
    ]

insert-IsDict : (k : String) (v : Value) (d : Dict Value) → IsDict d → IsDict (insert k v d)
unfolding insert lookup
insert-IsDict k v [] h = (refl, tt)
insert-IsDict k v ((j, w) ∷ d) (fresh, h) = elim (Bool-cases (j == k)) [
  | inl e ↦ rw e (subst (λ x. lookup x d ≡ none) ((eq_iff j k).0 e) fresh, h)
  | inr e ↦
      rw e (lookup-insert k j v d ∙ ground (arith, eq_iff j k, eq_iff k j), insert-IsDict k v d h)
]

-- The changes with the password's hash put in make each field what is wanted.
pub lookup-with_password :
    (hash : String → String) (plain : Option String) (changes old : Dict Value) (k : String)
    → IsDict changes
    → lookup k (update old (with_password hash plain changes)) ≡ wanted hash plain changes old k
lookup-with_password hash none changes old k h = lookup-update k changes old h
lookup-with_password hash (some plain) changes old k h = elim (Bool-cases (plain == "")) [
  | inl e ↦ rw e (lookup-update k changes old h)
  | inr e ↦
      let v = Value.str (hash plain) in
      rw e (
        lookup-update k (insert "grub_password" v changes) old
          (insert-IsDict "grub_password" v changes h)
        ∙ ap (λ o. or_old o (lookup k old)) (lookup-insert "grub_password" k v changes)
        ∙ elim (Bool-cases ("grub_password" == k)) [ inl q ↦ rw q refl | inr q ↦ rw q refl ])
]
