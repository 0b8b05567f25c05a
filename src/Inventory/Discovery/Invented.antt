-- ===== src/Inventory/Discovery/Invented.antt =====
-- The inventory by which the machine that is invented for development describes itself.
use insatomcat_webui.Base.{
  ℕ, String, ◌≡◌, refl, split_on, text_of, join_text, decimal, sorted_nat, partition, strip,
  int_of_text, lookup, true, none, some, [], ◌∷◌,
}
use insatomcat_webui.Hosts.Fake.{cpu, network}
use insatomcat_webui.Hosts.CpuList.{as_cpu_list, parse_cpu_list}
use insatomcat_webui.Inventory.Address.{address, is_loopback, in_network}
use insatomcat_webui.Inventory.Model.{Inventory, standalone, NodeConfig, hypervisor}
use insatomcat_webui.Inventory.Discovery.{proposed, seed_inventory}
use insatomcat_webui.Inventory.HostName.{is_hostname}
use insatomcat_webui.Inventory.Validation.{Printing, validate, findings_of, valid, accepted}

abbrev pub invented_node : NodeConfig
invented_node = record {
  role = hypervisor;
  ansible_host = "192.168.200.125";
  network_interface = "eno1";
  subnet = 24;
  gateway_addr = some "192.168.200.1";
  dns_servers = [];
  ptp_interface = none;
  ptp_domain_number = none;
  ntp_servers = [];
  admin_user = none;
  grub_password = none;
  isolcpus = some "4-7";
  extra = [];
}

abbrev pub invented : String → Inventory
invented hostname = record { mode = standalone; hosts = (hostname, invented_node) ∷ [] }

pub seed_inventory-fake :
    (hostname : String)
    → seed_inventory hostname (proposed network (cpu {F = ℕ} []).isolated (cpu {F = ℕ} []).online)
      ≡ some (invented hostname)
unfolding network cpu proposed seed_inventory as_cpu_list text_of join_text decimal
seed_inventory-fake hostname = refl

-- Whatever host name it is given, if that is one.
pub validate-invented :
    (printing : Printing) (hostname : String)
    → is_hostname hostname ≡ true
    → accepted (validate printing (invented hostname)) ≡ true
unfolding validate findings_of valid address split_on is_loopback in_network parse_cpu_list
    sorted_nat partition strip int_of_text lookup
validate-invented printing hostname h = rw h refl
