-- ===== src/Inventory/Validation/Acceptable.antt =====
-- Acceptable inventories, described without the rules.
use insatomcat_webui.Base.{
  ℕ, ◌≤◌, String, ◌≡◌, ◌≢◌, ◌⊎◌, true, false, Option, some, List, [], ◌∷◌, Dict, length, null, All,
  is_some,
}
use insatomcat_webui.Hosts.CpuList.{parse_cpu_list}
use insatomcat_webui.Inventory.Model.{Inventory, NodeConfig}
use insatomcat_webui.Inventory.Address.{Address, address, is_loopback, in_network, width}
use insatomcat_webui.Inventory.HostName.{is_hostname}
use insatomcat_webui.Inventory.Validation.{is_blank, is_hash, is_standalone}

-- A gateway is an address in the network of the machine.
abbrev pub Routes : Address → ℕ → Option String → Type 0
Routes a subnet gateway =
    (g : Address) × (address gateway ≡ some g) × (in_network a subnet g ≡ true)

-- The machine has an address that is not the loopback one, and its gateway is left out or reachable.
pub record IsReachable (node : NodeConfig) : Type 0 where
  pub own : Address
  pub is_own : address (some node.ansible_host) ≡ some own
  pub outside : is_loopback own ≡ false
  pub route : (is_blank node.gateway_addr ≡ true) ⊎ Routes own node.subnet node.gateway_addr

-- The isolated CPUs are left out, or some CPUs of which none is CPU 0.
abbrev pub IsIsolable : Option String → Type 0
IsIsolable isolcpus =
    (is_blank isolcpus ≡ true)
    ⊎ ((null (parse_cpu_list isolcpus) ≡ false) × All (λ c. 1 ≤ c) (parse_cpu_list isolcpus))

pub record IsUsable (name : String) (node : NodeConfig) : Type 0 where
  pub named : is_hostname name ≡ true
  pub reachable : IsReachable node
  pub interface_named : node.network_interface ≢ ""
  pub resolvers : All (λ s. is_some (address (some s)) ≡ true) node.dns_servers
  pub password : (is_blank node.grub_password ≡ true) ⊎ (is_hash node.grub_password ≡ true)
  pub isolable : IsIsolable node.isolcpus

abbrev pub AllUsable : Dict NodeConfig → Type 0
AllUsable [] = Unit
AllUsable ((name, node) ∷ hosts) = IsUsable name node × AllUsable hosts

abbrev pub addresses : Dict NodeConfig → List String
addresses [] = []
addresses ((name, node) ∷ hosts) = node.ansible_host ∷ addresses hosts

abbrev pub Distinct : List String → Type 0
Distinct [] = Unit
Distinct (x ∷ xs) = All (λ y. x ≢ y) xs × Distinct xs

-- The network that a gateway is looked for in exists: the prefix is no longer than the address.
abbrev pub Fits : NodeConfig → Type 0
Fits node =
    (own gateway : Address)
    → address (some node.ansible_host) ≡ some own
    → is_blank node.gateway_addr ≡ false
    → address node.gateway_addr ≡ some gateway
    → node.subnet ≤ width own

abbrev pub AllFit : Dict NodeConfig → Type 0
AllFit [] = Unit
AllFit ((name, node) ∷ hosts) = Fits node × AllFit hosts

pub record IsAcceptable (inventory : Inventory) : Type 0 where
  pub some_host : null inventory.hosts ≡ false
  pub alone : is_standalone inventory.mode ≡ true → length inventory.hosts ≤ 1
  pub networks : AllFit inventory.hosts
  pub usable : AllUsable inventory.hosts
  pub distinct : Distinct (addresses inventory.hosts)
