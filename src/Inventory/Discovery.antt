-- ===== src/Inventory/Discovery.antt =====
-- app/inventory/discovery.py: the inventory that a machine proposes for itself. What the host reader
-- reads is an argument; the candidates for the form and the warnings are left out. The prefix of
-- an IPv4 address is at most 32, as the kernel reports it.
pub mod Proposals
pub mod Gateways
pub mod Candidates
pub mod Invented
use insatomcat_webui.Base.{
  ℕ, ◌-◌, String, ◌==◌, ◌=?◌, Bool, true, false, not, ◌&&◌, ◌||◌, Option, none, some, List, [], ◌∷◌,
  ◌++◌, if◌then◌else◌, first, leb, any, codes, text_of, decimal,
}
use insatomcat_webui.Hosts.CpuList.{as_cpu_list}
use insatomcat_webui.Hosts.Network.{InterfaceAddress, NetworkInterface, NetworkReading}
use insatomcat_webui.Inventory.Model.{Inventory, standalone, NodeConfig, hypervisor}

-- `_HOUSEKEEPING_CPUS`
abbrev pub housekeeping_cpus : ℕ
housekeeping_cpus = 4

abbrev pub few : Option ℕ → Bool
few none = true
few (some online) = (online =? 0) || leb online housekeeping_cpus

abbrev pub upto : Option ℕ → Option String
upto none = none
upto (some online) = some (text_of (decimal housekeeping_cpus ++ b'-' ∷ decimal (online - 1)))

-- `_propose_isolation`
unfoldable pub propose_isolation : List ℕ → Option ℕ → Option String
unfolding as_cpu_list
propose_isolation (cpu ∷ cpus) online = some (as_cpu_list cpu cpus)
propose_isolation [] online = if few online then none else upto online

-- `_first_ipv4`
abbrev address_in : List InterfaceAddress → Option String
address_in [] = none
address_in (a ∷ addresses) =
    let rest = address_in addresses in
    if not (any (λ c. c =? b':') (codes a.address)) then some a.address else rest

abbrev is_set : Option ℕ → Bool
is_set none = false
is_set (some n) = not (n =? 0)

-- `_prefix_length` in the interfaces of that name
abbrev prefix_in : List InterfaceAddress → Option ℕ → Option ℕ
prefix_in [] rest = rest
prefix_in (a ∷ addresses) rest =
    let next = prefix_in addresses rest in
    if a.family == "inet" && is_set a.prefix_length then a.prefix_length else next

abbrev prefix_length : List NetworkInterface → String → Option ℕ
prefix_length [] name = none
prefix_length (item ∷ items) name =
    let rest = prefix_length items name in
    if item.name == name then prefix_in item.addresses rest else rest

abbrev is_loopback : Option String → Bool
is_loopback none = false
is_loopback (some kind) = kind == "loopback"

-- the first interface but the loopback one that carries the default route
abbrev is_admin : Option String → NetworkInterface → Bool
is_admin none item = false
is_admin (some name) item = not (is_loopback item.kind) && (item.name == name)

abbrev or_24 : Option ℕ → ℕ
or_24 none = 24
or_24 (some n) = if n =? 0 then 24 else n

abbrev with_address :
    NetworkReading → List ℕ → Option ℕ → NetworkInterface → Option String → Option NodeConfig
with_address network isolated online admin none = none
with_address network isolated online admin (some address) =
    if address == ""
    then none
    else some (record {
      role = hypervisor;
      ansible_host = address;
      network_interface = admin.name;
      subnet = or_24 (prefix_length network.interfaces admin.name);
      gateway_addr = network.default_gateway;
      dns_servers = [];
      ptp_interface = none;
      ptp_domain_number = none;
      ntp_servers = [];
      admin_user = none;
      grub_password = none;
      isolcpus = propose_isolation isolated online;
      extra = [];
    })

abbrev with_admin : NetworkReading → List ℕ → Option ℕ → Option NetworkInterface → Option NodeConfig
with_admin network isolated online none = none
with_admin network isolated online (some admin) =
    with_address network isolated online admin (address_in admin.addresses)

-- `discover`, the proposal
unfoldable pub proposed : NetworkReading → List ℕ → Option ℕ → Option NodeConfig
unfolding propose_isolation
proposed network isolated online =
    with_admin network isolated online
      (first (is_admin network.default_route_interface) network.interfaces)

-- `seed_inventory`
unfoldable pub seed_inventory : String → Option NodeConfig → Option Inventory
seed_inventory hostname none = none
seed_inventory hostname (some node) =
    some (record { mode = standalone; hosts = (hostname, node) ∷ [] })
