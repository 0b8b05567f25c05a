-- ===== src/Inventory/Parser.antt =====
-- app/inventory/parser.py: a document back into the model. Loading YAML, and `str` of a list or a
-- dictionary, are arguments.
pub mod Variables
pub mod Pieces
pub mod Extras
pub mod Legible
pub mod Host
pub mod RoundTrip
use insatomcat_webui.Base.{
  ℕ, zero, suc, ℤ, pos, negsuc, String, Bool, true, false, not, ◌&&◌, ◌||◌, Option, none, some,
  List, [], ◌∷◌, ◌++◌, ◌==◌, ◌=?◌, if◌then◌else◌, Dict, lookup, keys, keep, member, Value, Items,
  Fields, items, pairs, nil, cons, end, field, concat, codes, int_of_text, string_of_nat, null, map,
}
use insatomcat_webui.Inventory.Model.{
  Mode, standalone, cluster, Role, hypervisor, observer, NodeConfig, Inventory, in_range,
}
use insatomcat_webui.Inventory.Renderer.{fixed_host_vars, ptp_domain_aliases}

-- What a call comes to: a value, the exception `InvalidInventory`, or another exception.
pub data Outcome {ℓ} (A : Type ℓ) : Type ℓ where
  answer : A → Outcome A
  invalid : String → Outcome A
  raised : Outcome A

-- `_MODELLED`
abbrev pub modelled : List String
modelled =
    "ansible_host" ∷ "network_interface" ∷ "subnet" ∷ "gateway_addr" ∷ "dns_servers"
    ∷ "ptp_interface" ∷ "ptp_domain_number" ∷ "ntp_servers" ∷ "admin_user" ∷ "grub_password"
    ∷ "isolcpus" ∷ []

-- the names that do not go into `extra`
abbrev pub is_extra : String → Bool
is_extra name =
    not (member name modelled)
    && not (member name (keys fixed_host_vars))
    && not (member name ptp_domain_aliases)

-- the truth value of a value, and of what `get` answers
abbrev pub truthy : Value → Bool
truthy Value.null = false
truthy (Value.bool b) = b
truthy (Value.int (pos n)) = not (n =? 0)
truthy (Value.int (negsuc n)) = true
truthy (Value.str s) = not (s == "")
truthy (Value.list nil) = false
truthy (Value.list (cons v vs)) = true
truthy (Value.dict end) = false
truthy (Value.dict (field k v fs)) = true

-- `int(value)`, where it does not raise
abbrev pub int_of : Value → Option ℤ
int_of Value.null = none
int_of (Value.bool true) = some (pos 1)
int_of (Value.bool false) = some (pos 0)
int_of (Value.int n) = some n
int_of (Value.str s) = int_of_text (codes s)
int_of (Value.list vs) = none
int_of (Value.dict fs) = none

abbrev int_or_none : Option Value → Option ℤ
int_or_none none = none
int_or_none (some v) = int_of v

-- `int(known.get("subnet") or 24)`
abbrev pub subnet_of : Option Value → Option ℤ
subnet_of none = some (pos 24)
subnet_of (some v) = if truthy v then int_of v else some (pos 24)

-- a dictionary inside a document
abbrev pub fields_of : Option Value → Option (Dict Value)
fields_of (some (Value.dict fs)) = some (pairs fs)
fields_of (some Value.null) = none
fields_of (some (Value.bool _)) = none
fields_of (some (Value.int _)) = none
fields_of (some (Value.str _)) = none
fields_of (some (Value.list _)) = none
fields_of none = none

abbrev pub or_empty : Option (Dict Value) → Dict Value
or_empty none = []
or_empty (some d) = d

abbrev entry_of : String → Option (Dict Value) → Option Value
entry_of key none = none
entry_of key (some d) = lookup key d

-- `_group_hosts` and `_group_vars`
unfoldable pub group_hosts : Option Value → Dict Value
group_hosts group = or_empty (fields_of (entry_of "hosts" (fields_of group)))

unfoldable pub group_vars : Option Value → Dict Value
group_vars group = or_empty (fields_of (entry_of "vars" (fields_of group)))

-- `dict(raw or {})`; a list of pairs, which Python would take, counts as one that it does not take
abbrev pub variables_of : Value → Option (Dict Value)
variables_of (Value.dict fs) = some (pairs fs)
variables_of Value.null = some []
variables_of (Value.bool b) = if b then none else some []
variables_of (Value.int n) = if truthy (Value.int n) then none else some []
variables_of (Value.str s) = if s == "" then some [] else none
variables_of (Value.list nil) = some []
variables_of (Value.list (cons v vs)) = none

-- the constructor of the class, with its ranges
abbrev ranged : ℤ → Option ℤ → Option (ℕ × Option ℕ)
ranged (pos n) none = if in_range n none then some (n, none) else none
ranged (pos n) (some (pos d)) = if in_range n (some d) then some (n, some d) else none
ranged (pos n) (some (negsuc d)) = none
ranged (negsuc n) d = none

module _ (show : Value → String) where
  -- `str(value)`
  abbrev pub text : Value → String
  text Value.null = "None"
  text (Value.bool true) = "True"
  text (Value.bool false) = "False"
  text (Value.int (pos n)) = string_of_nat n
  text (Value.int (negsuc n)) = concat ("-" ∷ string_of_nat (suc n) ∷ [])
  text (Value.str s) = s
  text (Value.list vs) = show (Value.list vs)
  text (Value.dict fs) = show (Value.dict fs)

  -- `_optional_str`
  abbrev pub optional_str : Option Value → Option String
  optional_str none = none
  optional_str (some Value.null) = none
  optional_str (some (Value.bool b)) = some (text (Value.bool b))
  optional_str (some (Value.int n)) = some (text (Value.int n))
  optional_str (some (Value.str s)) = some s
  optional_str (some (Value.list vs)) = some (text (Value.list vs))
  optional_str (some (Value.dict fs)) = some (text (Value.dict fs))

  -- `str(value or "")`
  abbrev pub str_or_empty : Option Value → String
  str_or_empty none = ""
  str_or_empty (some v) = if truthy v then text v else ""

  -- `_as_list`; a number and a Boolean raise
  abbrev pub as_list : Option Value → Option (List String)
  as_list none = some []
  as_list (some Value.null) = some []
  as_list (some (Value.str s)) = some (s ∷ [])
  as_list (some (Value.list vs)) = some (map text (items vs))
  as_list (some (Value.dict fs)) = some (keys (pairs fs))
  as_list (some (Value.bool _)) = none
  as_list (some (Value.int _)) = none

  -- `known.get("isolcpus", group_isolcpus)`
  abbrev with_default : Option Value → Option Value → Option Value
  with_default none d = d
  with_default (some v) d = some v

  abbrev built :
      Role
      → Dict Value
      → Option Value
      → List String
      → List String
      → Option (ℕ × Option ℕ)
      → Option NodeConfig
  built role variables group_isolcpus dns ntp none = none
  built role variables group_isolcpus dns ntp (some (subnet, domain)) = some (record {
    role = role;
    ansible_host = str_or_empty (lookup "ansible_host" variables);
    network_interface = str_or_empty (lookup "network_interface" variables);
    subnet = subnet;
    gateway_addr = optional_str (lookup "gateway_addr" variables);
    dns_servers = dns;
    ptp_interface = optional_str (lookup "ptp_interface" variables);
    ptp_domain_number = domain;
    ntp_servers = ntp;
    admin_user = optional_str (lookup "admin_user" variables);
    grub_password = optional_str (lookup "grub_password" variables);
    isolcpus = optional_str (with_default (lookup "isolcpus" variables) group_isolcpus);
    extra = keep (λ e. is_extra e.0) variables;
  })

  abbrev node_of :
      Role
      → Dict Value
      → Option Value
      → Option ℤ
      → Option (List String)
      → Option (List String)
      → Option NodeConfig
  node_of role variables group_isolcpus (some subnet) (some dns) (some ntp) =
      built role variables group_isolcpus dns ntp
        (ranged subnet (int_or_none (lookup "ptp_domain_number" variables)))
  node_of role variables group_isolcpus _ _ _ = none

  -- `_node`, where it does not raise
  unfoldable pub parse_node : String → Dict Value → List String → Option Value → Option NodeConfig
  parse_node name variables observers group_isolcpus =
      node_of (if member name observers then observer else hypervisor) variables group_isolcpus
        (subnet_of (lookup "subnet" variables)) (as_list (lookup "dns_servers" variables))
        (as_list (lookup "ntp_servers" variables))

  abbrev joined : String → Option NodeConfig → Option (Dict NodeConfig) → Option (Dict NodeConfig)
  joined name none rest = none
  joined name (some node) none = none
  joined name (some node) (some nodes) = some ((name, node) ∷ nodes)

  abbrev node_from : String → List String → Option Value → Option (Dict Value) → Option NodeConfig
  node_from name observers group_isolcpus none = none
  node_from name observers group_isolcpus (some variables) =
      parse_node name variables observers group_isolcpus

  -- the loop over the hosts
  unfoldable pub parse_hosts : List String → Option Value → Dict Value → Option (Dict NodeConfig)
  unfolding parse_node
  parse_hosts observers group_isolcpus [] = some []
  parse_hosts observers group_isolcpus ((name, raw) ∷ hosts) =
      joined name (node_from name observers group_isolcpus (variables_of raw))
        (parse_hosts observers group_isolcpus hosts)

  abbrev as_inventory : Mode → Option (Dict NodeConfig) → Outcome Inventory
  as_inventory mode none = raised
  as_inventory mode (some hosts) = answer (record { mode = mode; hosts = hosts })

  -- `parse` from the mapping of groups on
  unfoldable pub parse_groups : Dict Value → Outcome Inventory
  unfolding group_hosts group_vars parse_hosts
  parse_groups loaded =
      let hosts = group_hosts (lookup "all" loaded) in
      let members = group_hosts (lookup "cluster_machines" loaded) in
      if null hosts
      then invalid "The inventory declares no host under `all`."
      else as_inventory (if null members then standalone else cluster) (
          parse_hosts (keys (group_hosts (lookup "observers" loaded)))
            (lookup "isolcpus" (group_vars (lookup "hypervisors" loaded))) hosts)

  abbrev groups_in : Option (Dict Value) → Outcome Inventory
  groups_in none = invalid "The inventory must be a mapping of groups."
  groups_in (some loaded) = parse_groups loaded

  abbrev groups_of : Outcome Value → Outcome Inventory
  groups_of (answer v) = groups_in (fields_of (some (if truthy v then v else Value.dict end)))
  groups_of (invalid message) =
      invalid (concat ("The inventory is not valid YAML: " ∷ message ∷ []))
  groups_of raised = raised

  -- `parse`; `load` answers the value, or the message of a YAML error
  unfoldable pub parse : (String → Outcome Value) → String → Outcome Inventory
  unfolding parse_groups
  parse load content = groups_of (load content)
