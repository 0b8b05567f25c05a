-- ===== src/Inventory/Validation.antt =====
-- app/inventory/validation.py: the rules that a candidate inventory must satisfy. How Python prints
-- a text with quotes, an address and a network is an argument.
pub mod Acceptable
pub mod Clean
pub mod Rules
pub mod Accepted
use Prim.Native.String
use text.Mathlib.Text.{starts_with as begins_with}
use insatomcat_webui.Base.{
  ℕ, zero, suc, String, Bool, true, false, not, ◌&&◌, ◌||◌, Option, none, some, List, [], ◌∷◌, ◌++◌,
  ◌==◌, ◌=?◌, leb, ltb, if◌then◌else◌, Dict, lookup, insert, any, keep, length, null, concat, Text,
  codes,
}
use insatomcat_webui.Hosts.CpuList.{parse_cpu_list}
use insatomcat_webui.Inventory.Model.{
  Inventory, Mode, standalone, cluster, NodeConfig, Role, hypervisor, observer, is_observer,
  is_hypervisor,
}
use insatomcat_webui.Inventory.Address.{Address, address, is_loopback, in_network, width}
use insatomcat_webui.Inventory.HostName.{is_hostname}

pub data Level : Type 0 where
  error warning : Level

pub record Finding : Type 0 where
  pub level : Level
  pub rule : String
  pub message : String
  pub field_name : Option String
  pub host : Option String

abbrev pub is_error : Finding → Bool
is_error f = elim f.level [ error ↦ true | warning ↦ false ]

-- `ValidationResult.valid` and `errors`
unfoldable pub valid : List Finding → Bool
valid findings = not (any is_error findings)

unfoldable pub errors : List Finding → List Finding
errors findings = keep is_error findings

-- `if not value` of a text, and of a text or `None`
abbrev pub is_empty : String → Bool
is_empty s = s == ""

abbrev pub is_blank : Option String → Bool
is_blank none = true
is_blank (some s) = s == ""

-- The parts of messages that Python's formatting writes.
pub record Printing : Type 0 where
  pub repr : String → String
  pub show_address : Address → String
  pub show_network : Address → ℕ → String

abbrev pub hash_prefix : String
hash_prefix = "grub.pbkdf2."

abbrev pub is_hash : Option String → Bool
is_hash none = false
is_hash (some s) = begins_with s hash_prefix

abbrev pub is_standalone : Mode → Bool
is_standalone standalone = true
is_standalone cluster = false

abbrev raises_for : NodeConfig → Option Address → Option Address → Bool
raises_for node (some a) (some gateway) =
    not (is_blank node.gateway_addr) && ltb (width a) node.subnet
raises_for node (some a) none = false
raises_for node none found = false

-- Whether `ip_network` raises for a machine: it is asked if there are an address and a gateway, and
-- refuses a prefix that is longer than the address.
abbrev pub network_raises : NodeConfig → Bool
network_raises node = raises_for node (address (some node.ansible_host)) (address node.gateway_addr)

-- `validate(…).valid`, where it answers
abbrev pub accepted : Option (List Finding) → Bool
accepted none = false
accepted (some findings) = valid findings

module _ (printing : Printing) where
  open printing use {repr, show_address, show_network}

  abbrev on_host : Level → String → String → Option String → String → Finding
  on_host level rule name field_name message = record {
    level = level;
    rule = rule;
    message = message;
    field_name = field_name;
    host = some name;
  }

  abbrev shown : Option String → String
  shown none = "None"
  shown (some s) = repr s

  check_name : String → List Finding
  check_name name =
      if not (is_hostname name)
      then on_host error "host_key_is_a_hostname" name none (
          concat (
            repr name
            ∷ " is not a usable host name. The key in the inventory becomes the machine's own hostname."
            ∷ []))
        ∷ []
      else []

  abbrev check_found : String → NodeConfig → Option Address → List Finding
  check_found name node none =
      on_host error "administration_address_is_an_address" name (some "ansible_host") (
        concat (
          repr node.ansible_host
          ∷ " is not an IP address. SEAPATH addresses machines by address, not by name."
          ∷ []))
      ∷ []
  check_found name node (some a) =
      if is_loopback a
      then on_host error "administration_address_is_not_loopback" name (some "ansible_host")
          "The loopback address cannot be the administration address: no other machine could reach this one."
        ∷ []
      else []

  check_interface : String → NodeConfig → List Finding
  check_interface name node =
      if is_empty node.network_interface
      then on_host error "administration_interface_is_named" name (some "network_interface")
          "The administration interface must be named."
        ∷ []
      else []

  abbrev check_route : String → NodeConfig → Option Address → Option Address → List Finding
  check_route name node found none =
      on_host error "gateway_is_an_address" name (some "gateway_addr")
        (concat (shown node.gateway_addr ∷ " is not an IP address." ∷ []))
      ∷ []
  check_route name node none (some gateway) = []
  check_route name node (some a) (some gateway) =
      if not (in_network a node.subnet gateway)
      then on_host error "gateway_is_reachable" name (some "gateway_addr") (
          concat (
            "The gateway "
            ∷ show_address gateway
            ∷ " is outside "
            ∷ show_network a node.subnet
            ∷ ", so this machine could never reach it."
            ∷ []))
        ∷ []
      else []

  check_gateway : String → NodeConfig → Option Address → List Finding
  check_gateway name node found =
      if is_blank node.gateway_addr
      then []
      else check_route name node found (address node.gateway_addr)

  abbrev is_missing : Option Address → Bool
  is_missing none = true
  is_missing (some _) = false

  check_dns : String → List String → List Finding
  check_dns name [] = []
  check_dns name (server ∷ servers) =
      let rest = check_dns name servers in
      if is_missing (address (some server))
      then on_host error "dns_servers_are_addresses" name (some "dns_servers")
          (concat (repr server ∷ " is not an IP address." ∷ []))
        ∷ rest
      else rest

  check_observer : String → NodeConfig → List Finding
  check_observer name node =
      if is_observer node.role && not (is_blank node.ptp_interface)
      then on_host warning "observer_has_no_ptp" name (some "ptp_interface")
          "An observer receives no sampled values, so it usually has no PTP interface."
        ∷ []
      else []

  check_hypervisor : String → NodeConfig → List Finding
  check_hypervisor name node =
      if is_hypervisor node.role && is_blank node.ptp_interface
      then on_host warning "hypervisor_has_ptp" name (some "ptp_interface")
          "No PTP interface. A hypervisor running IEC 61850 guests needs one to distribute time to them."
        ∷ []
      else []

  abbrev is_text : String → Option String → Bool
  is_text s none = false
  is_text s (some t) = t == s

  check_ptp : String → NodeConfig → List Finding
  check_ptp name node =
      if not (is_blank node.ptp_interface) && is_text node.network_interface node.ptp_interface
      then on_host warning "ptp_is_not_the_administration_interface" name (some "ptp_interface")
          "PTP is configured on the administration interface. That works, but sampled values usually arrive elsewhere."
        ∷ []
      else []

  check_ntp : String → NodeConfig → List Finding
  check_ntp name node =
      if null node.ntp_servers
      then on_host warning "ntp_fallback_exists" name (some "ntp_servers")
          "No NTP server. Without one there is no fallback if PTP is lost."
        ∷ []
      else []

  check_grub : String → NodeConfig → List Finding
  check_grub name node =
      if not (is_blank node.grub_password) && not (is_hash node.grub_password)
      then on_host error "grub_password_is_a_hash" name (some "grub_password")
          "The GRUB password must be a PBKDF2 hash. A password in clear in the inventory is a password in `git log`."
        ∷ []
      else []

  unfoldable pub validate_isolcpus : String → NodeConfig → List Finding
  validate_isolcpus name node =
      let isolated = parse_cpu_list node.isolcpus in
      if is_blank node.isolcpus
      then on_host warning "isolation_is_configured" name (some "isolcpus")
          "No isolated CPUs. Latency guarantees come from isolation, so a hypervisor without it is not a real time one."
        ∷ []
      else if null isolated
      then on_host error "isolcpus_is_a_cpu_list" name (some "isolcpus") (
          concat (
            shown node.isolcpus
            ∷ " is not a CPU list. Use the kernel syntax, for example 4-7 or 4-7,12."
            ∷ []))
        ∷ []
      else if any (λ c. c =? 0) isolated
      then on_host error "cpu_zero_stays_housekeeping" name (some "isolcpus")
          "CPU 0 cannot be isolated. It carries work the kernel cannot move, and isolating it strands the machine."
        ∷ []
      else []

  -- `_validate_host`, its rules in order
  unfoldable pub validate_host : String → NodeConfig → List Finding
  unfolding check_name check_interface check_gateway check_dns check_observer check_hypervisor
      check_ptp check_ntp check_grub validate_isolcpus
  validate_host name node =
      let found = address (some node.ansible_host) in
      check_name name
      ++ (check_found name node found
          ++ (check_interface name node
              ++ (check_gateway name node found
                  ++ (check_dns name node.dns_servers
                      ++ (check_observer name node
                          ++ (check_hypervisor name node
                              ++ (check_ptp name node
                                  ++ (check_ntp name node
                                      ++ (check_grub name node
                                          ++ validate_isolcpus name node)))))))))

  abbrev taken : String → NodeConfig → Option String → List Finding
  taken name node none = []
  taken name node (some owner) =
      on_host error "addresses_are_unique" name (some "ansible_host") (
        concat
          (node.ansible_host ∷ " is already the administration address of " ∷ owner ∷ "." ∷ []))
      ∷ []

  -- the loop of `_validate_across_hosts`, with its dictionary `seen`
  across : Dict String → Dict NodeConfig → List Finding
  across seen [] = []
  across seen ((name, node) ∷ hosts) =
      taken name node (lookup node.ansible_host seen)
      ++ across (insert node.ansible_host name seen) hosts

  unfoldable pub validate_across_hosts : Inventory → List Finding
  unfolding across
  validate_across_hosts inventory = across [] inventory.hosts

  abbrev global : String → String → Finding
  global rule message = record {
    level = error;
    rule = rule;
    message = message;
    field_name = none;
    host = none;
  }

  check_some : Inventory → List Finding
  check_some inventory =
      if null inventory.hosts
      then global "at_least_one_host" "An inventory with no machine in it converges nothing." ∷ []
      else []

  check_alone : Inventory → List Finding
  check_alone inventory =
      if is_standalone inventory.mode && ltb 1 (length inventory.hosts)
      then global "standalone_is_one_machine"
          "A standalone inventory describes exactly one machine. Add the others by forming a cluster."
        ∷ []
      else []

  pub each_host : Dict NodeConfig → List Finding
  unfolding validate_host
  each_host [] = []
  each_host ((name, node) ∷ hosts) = validate_host name node ++ each_host hosts

  -- the findings of `validate`, where no `ip_network` raises
  unfoldable pub findings_of : Inventory → List Finding
  unfolding check_some check_alone each_host validate_across_hosts
  findings_of inventory =
      check_some inventory
      ++ (check_alone inventory ++ (each_host inventory.hosts ++ validate_across_hosts inventory))

  -- `validate`; nothing where the ValueError of an `ip_network` is passed on
  unfoldable pub validate : Inventory → Option (List Finding)
  unfolding findings_of
  validate inventory =
      if any (λ h. network_raises h.1) inventory.hosts then none else some (findings_of inventory)
