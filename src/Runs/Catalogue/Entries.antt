-- ===== src/Runs/Catalogue/Entries.antt =====
-- The shape of a catalogue entry.
use insatomcat_webui.Base.{String, Bool, true, false, Option, List, [], ◌∷◌, concat}

abbrev pub collection : String
collection = "seapath.ansible"

pub data Preview : Type 0 where
  full partial no_preview : Preview

abbrev pub preview_value : Preview → String
preview_value Preview.full = "full"
preview_value Preview.partial = "partial"
preview_value Preview.no_preview = "none"

pub data Reboots : Type 0 where
  no_reboot reboot gated : Reboots

pub data Precondition : Type 0 where
  inventory_valid self_trust standalone cluster playbook_present : Precondition

pub record VariableSpec : Type 0 where
  pub name : String
  pub type_name : String
  pub description : String
  pub required : Bool

-- `name` is the last part of the playbook, whose other parts are the collection.
pub record PlaybookEntry : Type 0 where
  pub id : String
  pub name : String
  pub title : String
  pub targets : List String
  pub preview : Preview
  pub reboots : Reboots
  pub reboot_variable : Option String
  pub disruption : String
  pub requires : List Precondition
  pub variables : List VariableSpec
  pub notes : String

-- `entry.playbook`
unfoldable pub playbook : PlaybookEntry → String
playbook e = concat (collection ∷ "." ∷ e.name ∷ [])

abbrev preview_offered : Preview → Bool
preview_offered Preview.full = true
preview_offered Preview.partial = true
preview_offered Preview.no_preview = false

unfoldable pub previewable : PlaybookEntry → Bool
previewable e = preview_offered e.preview
