-- ===== src/Tests/Machines.antt =====
-- Inventories and sets of CPUs at concrete inputs.
use insatomcat_webui.Base.{◌≡◌, ◌↔◌, true, none, some, [], ◌∷◌, concat, sorted_nat}
use insatomcat_webui.Hosts.CpuList.{parse_cpu_list, as_cpu_list}
use insatomcat_webui.Hosts.CpuList.RoundTrip.{parse_cpu_list-as_cpu_list}
use insatomcat_webui.Inventory.Model.{Inventory, standalone, NodeConfig, hypervisor}
use insatomcat_webui.Inventory.Validation.{Printing, accepted, validate}
use insatomcat_webui.Inventory.Validation.Acceptable.{IsAcceptable}
use insatomcat_webui.Inventory.Validation.Accepted.{validate_iff}

parse_cpu_list-as_cpu_list_example :
    parse_cpu_list (some (as_cpu_list 4 (5 ∷ 6 ∷ 7 ∷ 12 ∷ [])))
    ≡ sorted_nat (4 ∷ 5 ∷ 6 ∷ 7 ∷ 12 ∷ [])
parse_cpu_list-as_cpu_list_example = parse_cpu_list-as_cpu_list 4 (5 ∷ 6 ∷ 7 ∷ 12 ∷ [])

abbrev pub printing : Printing
printing = record {
  repr = (λ s. concat ("'" ∷ s ∷ "'" ∷ []));
  show_address = (λ a. "the address");
  show_network = (λ a prefix. "the network");
}

abbrev pub node : NodeConfig
node = record {
  role = hypervisor;
  ansible_host = "192.168.1.20";
  network_interface = "eno1";
  subnet = 24;
  gateway_addr = some "192.168.1.1";
  dns_servers = "192.168.1.2" ∷ [];
  ptp_interface = some "eno2";
  ptp_domain_number = some 0;
  ntp_servers = "192.168.1.3" ∷ [];
  admin_user = none;
  grub_password = none;
  isolcpus = some "4-7";
  extra = [];
}

abbrev pub inventory : Inventory
inventory = record { mode = standalone; hosts = ("seapath", node) ∷ [] }

validate_iff_example : (accepted (validate printing inventory) ≡ true) ↔ IsAcceptable inventory
validate_iff_example = validate_iff printing inventory
