-- ===== src/Runs/Service/Guards.antt =====
-- When the guards let a launch through.
use insatomcat_webui.Base.{
  String, ◌≡◌, ◌↔◌, refl, sym, subst, ◌∙◌, inl, inr, Bool, true, false, not, ◌&&◌, Option, none,
  some, List, [], ◌∷◌, arith, null, Dict, Value, Result, ok, err, Bool-cases, Option-cases,
}
use insatomcat_webui.Core.Errors.{ApiError}
use insatomcat_webui.Runs.Catalogue.{get}
use insatomcat_webui.Runs.Catalogue.Entries.{PlaybookEntry, previewable}
use insatomcat_webui.Inventory.Service.{InventoryState}
use insatomcat_webui.Runs.Availability.{unmet_preconditions, blocking}
use insatomcat_webui.Runs.Variables.{accepted_variables}
use insatomcat_webui.Runs.Service.{
  Surroundings, unblocked, with_variables, previewed, lifted, checks, check_launch,
}

abbrev pub is_ok {ℓ κ} : {E : Type ℓ} {A : Type κ} → Result E A → Bool
is_ok (ok _) = true
is_ok (err _) = false

-- The entry and the variables that the guards let through.
pub record IsLaunchable (around : Surroundings) (playbook_id : String) (variables : Dict Value)
    (check : Bool) : Type 0 where
  pub entry : PlaybookEntry
  pub found : get playbook_id ≡ some entry
  pub state : InventoryState
  pub readable : around.checked ≡ some state
  pub free :
      null
        (blocking around.version entry (unmet_preconditions state around.relations) around.missing)
      ≡ true
  pub preview : check ≡ true → previewable entry ≡ true
  pub accepted : is_ok (accepted_variables entry variables) ≡ true

module _ (around : Surroundings) (variables : Dict Value) (check : Bool) where
  unblocked_iff : (rs : List String) → (is_ok (unblocked rs) ≡ true) ↔ (null rs ≡ true)
  unblocked_iff [] = (λ _. refl, λ _. refl)
  unblocked_iff (r ∷ rs) = (λ h. absurd (cc h), λ h. absurd (cc h))

  with_variables_iff :
      (entry : PlaybookEntry) (r : Result ApiError (Dict Value))
      → is_ok (with_variables entry r) ≡ is_ok r
  with_variables_iff entry (ok extra) = refl
  with_variables_iff entry (err e) = refl

  previewed_iff :
      (entry : PlaybookEntry) (r : Result ApiError (Unit {0}))
      → (is_ok (previewed around entry variables check r) ≡ true) ↔ (
          (is_ok r ≡ true)
          × (check ≡ true → previewable entry ≡ true)
          × (is_ok (accepted_variables entry variables) ≡ true))
  previewed_iff entry (err e) = (λ h. absurd (cc h), λ (h, p, a). absurd (cc h))
  previewed_iff entry (ok u) =
      let same = with_variables_iff entry (accepted_variables entry variables) in
      elim (Bool-cases (check && not (previewable entry))) [
        | inl e ↦ ((λ h. absurd (let k = rw e at h in cc k)), λ (_, p, _). absurd (ground arith))
        | inr e ↦ (
          (λ h. (refl, (λ c. ground arith), sym same ∙ (let k = rw e at h in k))),
          λ (_, p, a). rw e (same ∙ a),
        )
      ]

  lifted_iff : (r : Result ApiError (PlaybookEntry × Dict Value)) → is_ok (lifted r) ≡ is_ok r
  lifted_iff (ok x) = refl
  lifted_iff (err e) = refl

  checks_iff :
      (playbook_id : String) (o : Option PlaybookEntry)
      → o ≡ get playbook_id
      → (is_ok (checks around playbook_id variables check o) ≡ true)
        ↔ IsLaunchable around playbook_id variables check
  checks_iff playbook_id none e = (λ h. absurd (cc h), λ h. absurd (cc (e, h.found)))
  checks_iff playbook_id (some entry) e = elim (Option-cases around.checked) [
    | inl unread ↦
        ((λ h. absurd (let k = rw unread at h in cc k)), λ h. absurd (cc (unread, h.readable)))
    | inr (state, read) ↦
        let rs =
          blocking around.version entry (unmet_preconditions state around.relations)
            around.missing in
        (
          (λ h.
              let (u, p, a) = (previewed_iff entry (unblocked rs)).0 (
                sym (lifted_iff (previewed around entry variables check (unblocked rs)))
                ∙ (let k = rw read at h in k)) in
              record {
                state = state;
                readable = read;
                entry = entry;
                found = sym e;
                free = (unblocked_iff rs).0 u;
                preview = p;
                accepted = a;
              }),
          λ h.
              let same : h.entry ≡ entry = cc (e, h.found) in
              let seen : h.state ≡ state = cc (read, h.readable) in
              rw read (
                lifted_iff (previewed around entry variables check (unblocked rs))
                ∙ (previewed_iff entry (unblocked rs)).1 (
                  (unblocked_iff rs).1 (
                      subst
                        (λ x.
                          null (
                            blocking around.version entry (unmet_preconditions x around.relations)
                              around.missing)
                          ≡ true)
                        seen
                        (subst
                          (λ q.
                            null (
                              blocking around.version q
                                (unmet_preconditions h.state around.relations) around.missing)
                            ≡ true)
                          same h.free)),
                  subst (λ q. check ≡ true → previewable q ≡ true) same h.preview,
                  subst (λ q. is_ok (accepted_variables q variables) ≡ true) same h.accepted,
                )),
        )
  ]

  pub guards_iff :
      (playbook_id : String)
      → (is_ok (check_launch around playbook_id variables check) ≡ true)
        ↔ IsLaunchable around playbook_id variables check
  unfolding check_launch
  guards_iff playbook_id = checks_iff playbook_id (get playbook_id) refl

abbrev pub is_none {ℓ} : {A : Type ℓ} → Option A → Bool
is_none none = true
is_none (some _) = false
