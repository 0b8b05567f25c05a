-- ===== src/Runs/Availability.antt =====
-- app/runs/service.py: which entries of the catalogue this machine can run, and what is in the way
-- of the others. What the inventory and trust services answer are arguments.
pub mod Conditions
use insatomcat_webui.Base.{
  String, Bool, true, false, not, ◌||◌, Option, none, some, List, [], ◌∷◌, if◌then◌else◌, concat,
  join, map, member, null, is_some,
}
use insatomcat_webui.Inventory.Model.{Inventory, Mode, standalone, cluster}
use insatomcat_webui.Inventory.Validation.{Finding, valid, errors}
use insatomcat_webui.Inventory.Service.{InventoryState}
use insatomcat_webui.Trust.Relations.{TrustRelation}
use insatomcat_webui.Runs.Catalogue.{catalogue}
use insatomcat_webui.Runs.Catalogue.Entries.{PlaybookEntry, Precondition, playbook}

-- `not relations or not relations[0].installed`
abbrev self_trusted : List TrustRelation → Bool
self_trusted [] = false
self_trusted (r ∷ _) = r.installed

abbrev mode_of : Option Inventory → Option Mode
mode_of none = none
mode_of (some inventory) = some inventory.mode

abbrev pub is_cluster : Option Mode → Bool
is_cluster none = false
is_cluster (some standalone) = false
is_cluster (some cluster) = true

abbrev pub is_standalone : Option Mode → Bool
is_standalone none = false
is_standalone (some standalone) = true
is_standalone (some cluster) = false

unmet_inventory : InventoryState → Option String
unmet_inventory state =
    if not state.seeded || not (is_some state.inventory)
    then some "There is no inventory yet. Fill in the machine's form first."
    else if not (valid state.validation)
    then some (
        concat (
          "The inventory does not validate: "
          ∷ join ", " (map (λ f. f.rule) (errors state.validation))
          ∷ "."
          ∷ []))
    else none

-- `_unmet_preconditions`: the message of each condition that is not met
unfoldable pub unmet_preconditions :
    InventoryState → List TrustRelation → Precondition → Option String
unfolding unmet_inventory
unmet_preconditions state relations Precondition.inventory_valid = unmet_inventory state
unmet_preconditions state relations Precondition.self_trust =
    if not (self_trusted relations)
    then some
        "This node has no SSH trust with itself, so it cannot converge even its own configuration."
    else none
unmet_preconditions state relations Precondition.cluster =
    if not (is_cluster (mode_of state.inventory))
    then some "This machine is not part of a cluster. Add a node first."
    else none
unmet_preconditions state relations Precondition.standalone =
    if not (is_standalone (mode_of state.inventory))
    then some "This machine is not standalone."
    else none
unmet_preconditions state relations Precondition.playbook_present = none

-- `[unmet[c] for c in entry.requires if c in unmet]`
abbrev put : Option String → List String → List String
put none ms = ms
put (some m) ms = m ∷ ms

unfoldable pub reasons : (Precondition → Option String) → List Precondition → List String
reasons unmet [] = []
reasons unmet (c ∷ cs) = put (unmet c) (reasons unmet cs)

-- `_blocking`
unfoldable pub blocking :
    String → PlaybookEntry → (Precondition → Option String) → List String → List String
unfolding reasons
blocking version entry unmet missing =
    if member entry.id missing
    then concat (
        playbook entry
        ∷ " is not in the SEAPATH collection this image ships (version "
        ∷ version
        ∷ "). The catalogue and the collection are released separately."
        ∷ [])
      ∷ reasons unmet entry.requires
    else reasons unmet entry.requires

pub record PlaybookAvailability : Type 0 where
  pub entry : PlaybookEntry
  pub available : Bool
  pub unmet : List String

unfoldable pub playbooks :
    String → InventoryState → List TrustRelation → List String → List PlaybookAvailability
unfolding blocking
playbooks version state relations missing =
    map
      (λ entry.
        let found = blocking version entry (unmet_preconditions state relations) missing in
        record { entry = entry; available = null found; unmet = found })
      catalogue
