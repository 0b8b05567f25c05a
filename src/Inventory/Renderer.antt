-- ===== src/Inventory/Renderer.antt =====
-- app/inventory/renderer.py: the inventory as the document that YAML writes. The dump of PyYAML is an
-- argument.
use insatomcat_webui.Base.{
  ℕ, pos, String, Bool, true, not, ◌&&◌, Option, none, some, List, [], ◌∷◌, ◌++◌, ◌==◌,
  if◌then◌else◌, Dict, update, Value, list_of, dict_of, map, concat, join, sorted, null, member,
}
use insatomcat_webui.Inventory.Model.{
  Mode, standalone, cluster, NodeConfig, Inventory, host_names, hypervisors,
}

-- `FIXED_HOST_VARS`
abbrev pub fixed_host_vars : Dict Value
fixed_host_vars =
    ("hostname", Value.str "{{ inventory_hostname }}")
    ∷ ("ip_addr", Value.str "{{ ansible_host }}")
    ∷ ("apply_network_config", Value.bool true)
    ∷ ("ansible_connection", Value.str "ssh")
    ∷ ("ansible_python_interpreter", Value.str "/usr/bin/python3")
    ∷ ("ansible_remote_tmp", Value.str "/tmp/.ansible/tmp")
    ∷ ("ansible_user", Value.str "ansible")
    ∷ []

abbrev pub ptp_domain_aliases : List String
ptp_domain_aliases = "timemaster_ptp_domain_number" ∷ "ptp_status_vsock_domain_number" ∷ []

-- `if value: variables[name] = value`, for a text and for a list of texts
abbrev pub text_var : String → Option String → Dict Value
text_var name none = []
text_var name (some s) = if s == "" then [] else (name, Value.str s) ∷ []

abbrev pub list_var : String → List String → Dict Value
list_var name [] = []
list_var name (s ∷ ss) = (name, list_of (map Value.str (s ∷ ss))) ∷ []

abbrev pub domain_vars : Option ℕ → Dict Value
domain_vars none = []
domain_vars (some n) =
    ("ptp_domain_number", Value.int (pos n))
    ∷ ("timemaster_ptp_domain_number", Value.str "{{ ptp_domain_number }}")
    ∷ ("ptp_status_vsock_domain_number", Value.str "{{ ptp_domain_number }}")
    ∷ []

-- The variables of a host in front of the two updates: their names are distinct.
unfoldable pub modelled_vars : NodeConfig → Dict Value
modelled_vars node =
    ("ansible_host", Value.str node.ansible_host)
      ∷ ("network_interface", Value.str node.network_interface)
      ∷ ("subnet", Value.int (pos node.subnet))
      ∷ text_var "gateway_addr" node.gateway_addr
    ++ (list_var "dns_servers" node.dns_servers
        ++ (text_var "ptp_interface" node.ptp_interface
            ++ (domain_vars node.ptp_domain_number
                ++ (list_var "ntp_servers" node.ntp_servers
                    ++ (text_var "admin_user" node.admin_user
                        ++ text_var "grub_password" node.grub_password)))))

-- `_host_vars`
unfoldable pub host_vars : NodeConfig → Dict Value
unfolding modelled_vars update
host_vars node = update (update (modelled_vars node) node.extra) fixed_host_vars

unfoldable pub hosts_of : Dict NodeConfig → Dict Value
unfolding host_vars
hosts_of [] = []
hosts_of ((name, node) ∷ hosts) = (name, dict_of (host_vars node)) ∷ hosts_of hosts

-- `_host_set`
unfoldable pub host_set : List String → Value
host_set names = dict_of (map (λ name. (name, Value.null)) names)

-- adds the isolated CPUs of one host
abbrev pub if_isolated : Bool → Option String → List String → List String
if_isolated listed none rest = rest
if_isolated listed (some s) rest = if listed && not (s == "") then s ∷ rest else rest

unfoldable pub isolated_in : List String → Dict NodeConfig → List String
isolated_in names [] = []
isolated_in names ((name, node) ∷ hosts) =
    let rest = isolated_in names hosts in if_isolated (member name names) node.isolcpus rest

-- `group["vars"]`, where the isolated CPUs are the same everywhere
abbrev pub isolation_vars : List String → Dict Value
isolation_vars [] = []
isolation_vars (s ∷ []) = ("vars", dict_of (("isolcpus", Value.str s) ∷ [])) ∷ []
isolation_vars (s ∷ t ∷ ss) = []

-- `_group_with_isolcpus`
unfoldable pub group_with_isolcpus : Inventory → List String → Value
unfolding host_set isolated_in hypervisors sorted
group_with_isolcpus inventory names =
    let chosen = hypervisors inventory in
    dict_of (
      ("hosts", host_set (if null chosen then names else chosen))
      ∷ isolation_vars (sorted (isolated_in names inventory.hosts)))

abbrev document_of : Inventory → Mode → Option (Dict Value)
document_of inventory standalone = some (
    ("all", dict_of (("hosts", dict_of (hosts_of inventory.hosts)) ∷ []))
    ∷ ("standalone_machine", dict_of (("hosts", host_set (host_names inventory)) ∷ []))
    ∷ ("hypervisors", group_with_isolcpus inventory (host_names inventory))
    ∷ ("cluster_machines", Value.null)
    ∷ ("observers", Value.null)
    ∷ [])
document_of inventory cluster = none

-- The document of `render`; a cluster raises `NotImplementedError`.
unfoldable pub document : Inventory → Option (Dict Value)
unfolding hosts_of group_with_isolcpus
document inventory = document_of inventory inventory.mode

-- `_HEADER`, its lines in order
abbrev pub header_lines : List String
header_lines =
    "# SEAPATH inventory, managed by seapath-webui." ∷ "#"
    ∷ "# This file is the desired state of the machines below. It is a plain Ansible"
    ∷ "# inventory: clone this repository onto a conventional control machine and the"
    ∷ "# same playbooks produce the same result." ∷ "#"
    ∷ "# Every change is a commit whose author is the operator who made it, so"
    ∷ "# `git log` is the configuration audit trail." ∷ "#"
    ∷ "# The service rewrites this file on every change. Variables it does not model"
    ∷ "# are read back and written out untouched, but the layout and the comments are"
    ∷ "# not: edit through the UI, or edit here and expect the next commit to reformat"
    ∷ "# what you wrote." ∷ "" ∷ []

abbrev pub written : (Value → String) → Option (Dict Value) → Option String
written dump none = none
written dump (some d) = some (concat (join "\n" header_lines ∷ "---\n" ∷ dump (dict_of d) ∷ []))

-- `render`, where it does not raise
unfoldable pub render : (Value → String) → Inventory → Option String
unfolding document
render dump inventory = written dump (document inventory)
