-- ===== src/Inventory/Model.antt =====
-- app/inventory/model.py: the typed shape of an inventory.
use insatomcat_webui.Base.{
  ℕ, String, Bool, true, false, ◌&&◌, Option, none, some, List, [], ◌∷◌, Dict, keys, Value, leb,
  if◌then◌else◌,
}

pub data Mode : Type 0 where
  standalone cluster : Mode

abbrev pub mode_value : Mode → String
mode_value standalone = "standalone"
mode_value cluster = "cluster"

pub data Role : Type 0 where
  hypervisor observer : Role

pub record NodeConfig : Type 0 where
  pub role : Role
  pub ansible_host : String
  pub network_interface : String
  pub subnet : ℕ
  pub gateway_addr : Option String
  pub dns_servers : List String
  pub ptp_interface : Option String
  pub ptp_domain_number : Option ℕ
  pub ntp_servers : List String
  pub admin_user : Option String
  pub grub_password : Option String
  pub isolcpus : Option String
  pub extra : Dict Value

-- The ranges of the fields, which the constructor of the class checks.
unfoldable pub in_range : ℕ → Option ℕ → Bool
in_range subnet none = leb 1 subnet && leb subnet 32
in_range subnet (some domain) = leb 1 subnet && leb subnet 32 && leb domain 255

pub record Inventory : Type 0 where
  pub mode : Mode
  pub hosts : Dict NodeConfig

unfoldable pub host_names : Inventory → List String
host_names inventory = keys inventory.hosts

abbrev pub is_hypervisor : Role → Bool
is_hypervisor hypervisor = true
is_hypervisor observer = false

names_with : (Role → Bool) → Dict NodeConfig → List String
names_with p [] = []
names_with p ((name, node) ∷ hosts) =
    let rest = names_with p hosts in if p node.role then name ∷ rest else rest

unfoldable pub hypervisors : Inventory → List String
unfolding names_with
hypervisors inventory = names_with is_hypervisor inventory.hosts

abbrev pub is_observer : Role → Bool
is_observer hypervisor = false
is_observer observer = true

unfoldable pub observers : Inventory → List String
unfolding names_with
observers inventory = names_with is_observer inventory.hosts
