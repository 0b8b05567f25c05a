-- ===== src/Runs/Availability/Conditions.antt =====
-- When nothing is in the way of an entry.
use insatomcat_webui.Base.{
  String, ◌≡◌, ◌↔◌, refl, ap, ◌∙◌, inl, inr, true, false, Option, none, some, List, [], ◌∷◌, member,
  null, All, arith, Option-cases, Bool-cases,
}
use insatomcat_webui.Inventory.Model.{Inventory, Mode, standalone, cluster}
use insatomcat_webui.Inventory.Validation.{valid}
use insatomcat_webui.Inventory.Service.{InventoryState}
use insatomcat_webui.Trust.Relations.{TrustRelation}
use insatomcat_webui.Runs.Catalogue.Entries.{PlaybookEntry, Precondition}
use insatomcat_webui.Runs.Availability.{
  self_trusted, unmet_inventory, unmet_preconditions, reasons, blocking, is_cluster, is_standalone,
  mode_of,
}

-- What each condition asks of the machine.
abbrev pub Meets : InventoryState → List TrustRelation → Precondition → Type 0
Meets state relations Precondition.inventory_valid =
    (inventory : Inventory) × (state.seeded ≡ true)
    × (state.inventory ≡ some inventory)
    × (valid state.validation ≡ true)
Meets state relations Precondition.self_trust =
    (r : TrustRelation) × (rs : List TrustRelation) × (relations ≡ r ∷ rs) × (r.installed ≡ true)
Meets state relations Precondition.cluster =
    (inventory : Inventory) × (state.inventory ≡ some inventory) × (inventory.mode ≡ cluster)
Meets state relations Precondition.standalone =
    (inventory : Inventory) × (state.inventory ≡ some inventory) × (inventory.mode ≡ standalone)
Meets state relations Precondition.playbook_present = Unit

inventory_iff :
    (state : InventoryState) (relations : List TrustRelation)
    → (unmet_inventory state ≡ none) ↔ Meets state relations Precondition.inventory_valid
unfolding unmet_inventory
inventory_iff state relations = elim (Option-cases state.inventory) [
  | inl e ↦ ((λ h. absurd (ground arith)), λ (i, s, found, v). absurd (cc (e, found)))
  | inr (inventory, e) ↦
      ((λ h. (inventory, ground arith, e, ground arith)), λ (i, s, found, v). rw (s, found, v))
]

trust_iff :
    (state : InventoryState) (relations : List TrustRelation)
    → (unmet_preconditions state relations Precondition.self_trust ≡ none)
      ↔ Meets state relations Precondition.self_trust
unfolding unmet_preconditions
trust_iff state [] = (λ h. absurd (cc h), λ (r, rs, e, i). absurd (cc e))
trust_iff state (r ∷ rs) =
    ((λ h. (r, rs, refl, ground arith)), λ (q, qs, e, i). ground (arith, ap self_trusted e))

cluster_mode : (m : Mode) → is_cluster (some m) ≡ true → m ≡ cluster
cluster_mode cluster h = refl
cluster_mode standalone h = absurd (cc h)

standalone_mode : (m : Mode) → is_standalone (some m) ≡ true → m ≡ standalone
standalone_mode standalone h = refl
standalone_mode cluster h = absurd (cc h)

cluster_iff :
    (o : Option Inventory)
    → (is_cluster (mode_of o) ≡ true)
      ↔ ((inventory : Inventory) × (o ≡ some inventory) × (inventory.mode ≡ cluster))
cluster_iff none = (λ h. absurd (cc h), λ (i, e, m). absurd (cc e))
cluster_iff (some inventory) = (
  λ h. (inventory, refl, cluster_mode inventory.mode h),
  λ (i, e, m). ap is_cluster (ap mode_of e ∙ ap some m),
)

standalone_iff :
    (o : Option Inventory)
    → (is_standalone (mode_of o) ≡ true)
      ↔ ((inventory : Inventory) × (o ≡ some inventory) × (inventory.mode ≡ standalone))
standalone_iff none = (λ h. absurd (cc h), λ (i, e, m). absurd (cc e))
standalone_iff (some inventory) = (
  λ h. (inventory, refl, standalone_mode inventory.mode h),
  λ (i, e, m). ap is_standalone (ap mode_of e ∙ ap some m),
)

condition_iff :
    (state : InventoryState) (relations : List TrustRelation) (c : Precondition)
    → (unmet_preconditions state relations c ≡ none) ↔ Meets state relations c
unfolding unmet_preconditions
condition_iff state relations Precondition.inventory_valid = inventory_iff state relations
condition_iff state relations Precondition.self_trust = trust_iff state relations
condition_iff state relations Precondition.cluster =
    let (to, from) = cluster_iff state.inventory in
    ((λ h. to (ground arith)), λ m. let k = from m in ground arith)
condition_iff state relations Precondition.standalone =
    let (to, from) = standalone_iff state.inventory in
    ((λ h. to (ground arith)), λ m. let k = from m in ground arith)
condition_iff state relations Precondition.playbook_present = (λ _. tt, λ _. refl)

reasons_iff :
    (state : InventoryState) (relations : List TrustRelation) (cs : List Precondition)
    → (null (reasons (unmet_preconditions state relations) cs) ≡ true)
      ↔ All (Meets state relations) cs
unfolding reasons
reasons_iff state relations [] = (λ _. tt, λ _. refl)
reasons_iff state relations (c ∷ cs) =
    let (to, from) = reasons_iff state relations cs in
    let (meets, met) = condition_iff state relations c in
    elim (Option-cases (unmet_preconditions state relations c)) [
      | inl e ↦ ((λ h. (meets e, to (let k = rw e at h in k))), λ (m, ms). rw e (from ms))
      | inr (message, e) ↦
          ((λ h. absurd (let k = rw e at h in cc k)), λ (m, ms). absurd (cc (met m, e)))
    ]

-- Nothing is in the way of an entry exactly if the collection has its playbook and the machine
-- meets each condition that the entry requires: the inventory is there and valid, the first trust
-- relation is installed, the inventory's mode is the required one.
pub blocking_iff :
    (version : String) (state : InventoryState) (relations : List TrustRelation)
    → (missing : List String) (entry : PlaybookEntry)
    → (null (blocking version entry (unmet_preconditions state relations) missing) ≡ true)
      ↔ ((member entry.id missing ≡ false) × All (Meets state relations) entry.requires)
unfolding blocking
blocking_iff version state relations missing entry =
    let (to, from) = reasons_iff state relations entry.requires in
    elim (Bool-cases (member entry.id missing)) [
      | inl e ↦ ((λ h. absurd (let k = rw e at h in cc k)), λ (f, _). absurd (cc (e, f)))
      | inr e ↦ ((λ h. (e, to (let k = rw e at h in k))), λ (_, ms). rw e (from ms))
    ]
