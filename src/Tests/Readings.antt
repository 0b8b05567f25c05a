-- ===== src/Tests/Readings.antt =====
-- Readings of a machine, and its start, at concrete inputs.
use insatomcat_webui.Base.{
  ℕ, pos, String, ◌==◌, ◌≡◌, refl, true, false, Option, none, some, List, [], ◌∷◌, if◌then◌else◌,
  Value, list_of, dict_of, join, Text, All, arith, lookup-nil, decimal, text_of, join_text,
}
use insatomcat_webui.Hosts.Tree.{Tree}
use insatomcat_webui.Hosts.Busy.{times_of, share_of}
use insatomcat_webui.Hosts.Busy.Bounds.{IsPart, share_of-IsPart}
use insatomcat_webui.Hosts.Cpu.{cpu, reading_of, reading_after}
use insatomcat_webui.Hosts.Cpu.Reading.{IsConsistent, cpu-IsConsistent}
use insatomcat_webui.Hosts.Route.{hex_to_ipv4, dotted}
use insatomcat_webui.Hosts.Route.Hex.{kernel_hex}
use insatomcat_webui.Hosts.Route.Gateways.{hex_to_ipv4-kernel_hex, IsIpv4}
use insatomcat_webui.Hosts.Network.{NetworkInterface, NetworkReading, CommandResult, network}
use insatomcat_webui.Hosts.Disks.{disks}
use insatomcat_webui.Hosts.Disks.Claims.{IsListed, disks-IsListed}
use insatomcat_webui.Inventory.Model.{NodeConfig, hypervisor}
use insatomcat_webui.Inventory.Discovery.{proposed}
use insatomcat_webui.Inventory.Discovery.Gateways.{proposed-IsIpv4}
use insatomcat_webui.Inventory.Repository.{failed}
use insatomcat_webui.Core.Bootstrap.{Node, Machine, node_addresses, run_startup_tasks}
use insatomcat_webui.Core.Bootstrap.Twice.{IsProvisioned, SameNode, run_startup_tasks-twice}
use insatomcat_webui.Tests.Machines.{inventory}
use insatomcat_webui.Tests.Keys.{site_line, own_line, file, key_pair, file_lines, self_line-IsKey}
use insatomcat_webui.Tests.Runs.{crashed_store}
use insatomcat_webui.Tests.Saves.{dump, blank}

abbrev counters : List (ℕ × ℕ)
counters = (100, 160) ∷ (0, 0) ∷ (40, 45) ∷ (500, 530) ∷ (20, 20) ∷ (3, 4) ∷ []

share_of-IsPart_example : IsPart counters (record { busy = pos 66; whole = 96 })
unfolding times_of share_of
share_of-IsPart_example =
    share_of-IsPart counters (record { total = pos 663; idle = pos 520 })
      (record { total = pos 759; idle = pos 550 }) (record { busy = pos 66; whole = 96 })
      (ground arith) refl refl refl

abbrev files : String → Option String
files path =
    if path == "sys/devices/system/cpu/present"
    then some "0-3\n"
    else if path == "sys/devices/system/cpu/isolated"
    then some "2-3\n"
    else if path == "proc/net/route"
    then some "Iface\tDestination\tGateway\neno1\t00000000\t0101A8C0\n"
    else none

abbrev machine : Tree
machine = record {
  file = files;
  exists = (λ p. p == "sys/block/sda/sda1/partition");
  is_dir = (λ p. false);
  entries = (λ p.
      if p == "sys/class/net"
      then some ("lo" ∷ "eno1" ∷ [])
      else if p == "sys/block"
      then some ("sda" ∷ "loop0" ∷ [])
      else if p == "sys/block/sda"
      then some ("sda1" ∷ "holders" ∷ [])
      else none);
  link = (λ p. none);
}

abbrev no_float : Text → Option ℕ
no_float s = none

cpu-IsConsistent_example : IsConsistent machine (reading_of machine no_float (λ id. none))
unfolding cpu reading_after join
cpu-IsConsistent_example =
    cpu-IsConsistent machine no_float [] (reading_of machine no_float (λ id. none)) refl

hex_to_ipv4-kernel_hex_example : hex_to_ipv4 (kernel_hex 192 168 1 1) ≡ some (dotted 192 168 1 1)
hex_to_ipv4-kernel_hex_example =
    hex_to_ipv4-kernel_hex 192 168 1 1 (ground arith) (ground arith) (ground arith) (ground arith)

disks-IsListed_example : All (IsListed machine) (disks machine).devices
disks-IsListed_example = disks-IsListed machine

abbrev json : String → Option Value
json text = some (
    list_of (
      dict_of (
        ("ifname", Value.str "eno1")
        ∷ (
          "addr_info",
          list_of (
              dict_of (
                ("local", Value.str "192.168.1.20")
                ∷ ("prefixlen", Value.int (pos 24))
                ∷ ("family", Value.str "inet")
                ∷ [])
              ∷ []),
        )
        ∷ [])
      ∷ []))

abbrev answered : CommandResult
answered = record { returncode = pos 0; stdout = "[]"; stderr = "" }

-- a value of what may be none
abbrev or_empty : Option NetworkReading → NetworkReading
or_empty none = record {
  interfaces = [];
  default_route_interface = none;
  default_gateway = none;
  warnings = [];
}
or_empty (some r) = r

abbrev seen : NetworkReading
seen = or_empty (network machine json answered)

abbrev proposal : NodeConfig
proposal = record {
  role = hypervisor;
  ansible_host = "192.168.1.20";
  network_interface = "eno1";
  subnet = 24;
  gateway_addr = some "192.168.1.1";
  dns_servers = [];
  ptp_interface = none;
  ptp_domain_number = none;
  ntp_servers = [];
  admin_user = none;
  grub_password = none;
  isolcpus = some "4-7";
  extra = [];
}

proposed-IsIpv4_example : IsIpv4 "192.168.1.1"
unfolding network proposed join text_of join_text decimal
proposed-IsIpv4_example =
    proposed-IsIpv4 machine json answered [] (some 8) seen proposal "192.168.1.1" refl refl refl

abbrev admin : NetworkInterface
admin = record {
  name = "eno1";
  kind = some "physical";
  mac = none;
  operstate = none;
  carrier = none;
  mtu = none;
  speed_mbps = none;
  driver = none;
  master = none;
  addresses =
      record { address = "10.0.0.2"; prefix_length = some 24; family = "inet" }
      ∷ record { address = "fe80::1"; prefix_length = some 64; family = "inet6" }
      ∷ record { address = ""; prefix_length = none; family = "inet" }
      ∷ [];
}

abbrev connected : NetworkReading
connected = record {
  interfaces = admin ∷ [];
  default_route_interface = some "eno1";
  default_gateway = none;
  warnings = [];
}

abbrev around : Machine
around = record {
  hostname = "a";
  network = some connected;
  key_pair = some key_pair;
  host_keys = (λ f. some "ssh-ed25519 HHHH root@a");
  keys_writable = true;
  writable = true;
  runs_writable = true;
  proposes = some inventory;
  git = failed "index.lock exists";
  now = 9;
}

abbrev before : Node
before = record { keys = file; known_hosts = none; repository = blank; runs = crashed_store }

run_startup_tasks-twice_example :
    (first : Node) × (second : Node) × (run_startup_tasks dump around before ≡ some first)
    × (run_startup_tasks dump (record around { now = 12 }) first ≡ some second)
    × IsProvisioned around key_pair
        (node_addresses connected)
        file
        (site_line ∷ own_line ∷ [])
        first.keys
    × SameNode second first
unfolding node_addresses
run_startup_tasks-twice_example =
    run_startup_tasks-twice dump around connected key_pair (site_line ∷ own_line ∷ []) before 12
      refl refl refl refl self_line-IsKey file_lines (refl, lookup-nil "r1", tt) (ground arith)
