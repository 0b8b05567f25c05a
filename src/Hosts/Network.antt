-- ===== src/Hosts/Network.antt =====
-- app/hosts/local.py: `network`, with the addresses that `ip -j addr show` prints. What the command answers
-- and how JSON is read are arguments. The prefix length of an address is no negative number.
pub mod Gateway
use mathlib.Core.Option
use insatomcat_webui.Base.{
  ℕ, zero, suc, ℤ, pos, negsuc, String, ◌==◌, Bool, true, false, not, ◌&&◌, ◌||◌, is_some, or_else,
  Option, none, some, List, [], ◌∷◌, ◌++◌, if◌then◌else◌, ◌>>=?◌, map, null, concat, sorted, Dict,
  lookup, insert, Value, Items, Fields, items, pairs, nil, cons, end, field, codes, text_of, strip,
  codes,
}
use insatomcat_webui.Hosts.Tree.{
  Tree, read_text, read_int, path, optional_bool, symlink_name, stripped,
}
use insatomcat_webui.Hosts.Route.{Route, default_route}

pub record InterfaceAddress : Type 0 where
  pub address : String
  pub prefix_length : Option ℕ
  pub family : String

pub record NetworkInterface : Type 0 where
  pub name : String
  pub kind : Option String
  pub mac : Option String
  pub operstate : Option String
  pub carrier : Option Bool
  pub mtu : Option ℤ
  pub speed_mbps : Option ℤ
  pub driver : Option String
  pub master : Option String
  pub addresses : List InterfaceAddress

pub record NetworkReading : Type 0 where
  pub interfaces : List NetworkInterface
  pub default_route_interface : Option String
  pub default_gateway : Option String
  pub warnings : List String

-- `CommandResult`
pub record CommandResult : Type 0 where
  pub returncode : ℤ
  pub stdout : String
  pub stderr : String

-- `CommandResult.ok`
abbrev pub is_ok : ℤ → Bool
is_ok (pos zero) = true
is_ok (pos (suc _)) = false
is_ok (negsuc _) = false

-- `bool(value)`
abbrev pub truthy : Value → Bool
truthy Value.null = false
truthy (Value.bool b) = b
truthy (Value.int (pos zero)) = false
truthy (Value.int (pos (suc _))) = true
truthy (Value.int (negsuc _)) = true
truthy (Value.str s) = not (s == "")
truthy (Value.list nil) = false
truthy (Value.list (cons _ _)) = true
truthy (Value.dict end) = false
truthy (Value.dict (field _ _ _)) = true

-- `value.get(key)` of a dictionary; anything else raises
abbrev get_from : String → Value → Option (Option Value)
unfolding lookup
get_from key (Value.dict fs) = some (lookup key (pairs fs))
get_from key _ = none

abbrev text_field : Value → Option String
text_field (Value.str s) = some s
text_field _ = none

abbrev number_field : Value → Option (Option ℕ)
number_field Value.null = some none
number_field (Value.int (pos n)) = some (some n)
number_field _ = none

-- `InterfaceAddress(…)`, which raises on a field of another type
abbrev address_of : Value → Value → Value → Option InterfaceAddress
address_of local prefixlen family = text_field local >>=? λ l. number_field prefixlen >>=? λ p.
    text_field family >>=? λ f. some (record { address = l; prefix_length = p; family = f })

abbrev address_if : Value → Value → Value → List InterfaceAddress → Option (List InterfaceAddress)
address_if local prefixlen family rest =
    if truthy local
    then (address_of local prefixlen family >>=? λ a. some (a ∷ rest))
    else some rest

-- the addresses of an entry; nothing where the code raises
addresses_of : List Value → Option (List InterfaceAddress)
unfolding get_from
addresses_of [] = some []
addresses_of (info ∷ infos) = get_from "local" info >>=? λ local.
    get_from "prefixlen" info >>=? λ prefixlen. get_from "family" info >>=? λ family.
    addresses_of infos >>=? λ rest.
    address_if (or_else local Value.null) (or_else prefixlen Value.null)
      (or_else family (Value.str "")) rest

-- what a `for` goes through
abbrev iterated : Value → Option (List Value)
iterated (Value.list vs) = some (items vs)
iterated (Value.dict fs) = some (map (λ e. Value.str e.0) (pairs fs))
iterated (Value.str s) = if s == "" then some [] else some (Value.str s ∷ [])
iterated _ = none

-- `addresses[name] = …`; a name that is no text names no interface, and one that cannot be a key raises
abbrev named :
    Value
    → List InterfaceAddress
    → Dict (List InterfaceAddress)
    → Option (Dict (List InterfaceAddress))
unfolding insert
named (Value.str name) found addresses = some (insert name found addresses)
named (Value.list _) found addresses = none
named (Value.dict _) found addresses = none
named _ found addresses = some addresses

abbrev entry_in :
    Value → Value → Dict (List InterfaceAddress) → Option (Dict (List InterfaceAddress))
unfolding addresses_of named
entry_in name info addresses =
    if not (truthy name)
    then some addresses
    else (iterated info >>=? λ infos. addresses_of infos >>=? λ found. named name found addresses)

-- the loop of `_interface_addresses`, from what it has so far
entries_in : Dict (List InterfaceAddress) → List Value → Option (Dict (List InterfaceAddress))
unfolding entry_in get_from
entries_in addresses [] = some addresses
entries_in addresses (entry ∷ entries) = get_from "ifname" entry >>=? λ name.
    get_from "addr_info" entry >>=? λ info.
    entry_in (or_else name Value.null) (or_else info (Value.list nil)) addresses >>=? λ next.
    entries_in next entries

pub record Addresses : Type 0 where
  pub by_name : Dict (List InterfaceAddress)
  pub warnings : List String

abbrev loaded_addresses : Option Value → Option Addresses
unfolding entries_in
loaded_addresses none = some (record {
  by_name = [];
  warnings = "The output of `ip -j addr show` could not be parsed." ∷ [];
})
loaded_addresses (some payload) = iterated payload >>=? λ entries.
    entries_in [] entries >>=? λ found. some (record { by_name = found; warnings = [] })

abbrev or_default : String → String → String
or_default s d = if s == "" then d else s

-- `_interface_addresses`, with the answer of the command and how JSON is read
unfoldable pub interface_addresses : (String → Option Value) → CommandResult → Option Addresses
unfolding loaded_addresses concat strip
interface_addresses json result =
    if not (is_ok result.returncode)
    then some (record {
      by_name = [];
      warnings =
          concat (
            "Interface addresses are unavailable: "
            ∷ or_default (stripped (codes result.stderr)) "ip returned an error"
            ∷ [])
          ∷ [];
    })
    else loaded_addresses (json (or_default result.stdout "[]"))

-- `speed if speed and speed > 0 else None`
abbrev pub speed_of : Option ℤ → Option ℤ
speed_of none = none
speed_of (some (pos zero)) = none
speed_of (some (pos (suc n))) = some (pos (suc n))
speed_of (some (negsuc n)) = none

module _ (tree : Tree) where
  abbrev device_exists : String → String → Bool
  device_exists name marker = tree.exists (path ("sys/class/net" ∷ name ∷ marker ∷ []))

  -- `_interface_kind`
  unfoldable pub interface_kind : String → String
  interface_kind name =
      if device_exists name "bridge"
      then "bridge"
      else if device_exists name "bonding"
      then "bond"
      else if device_exists name "tun_flags"
      then "tun"
      else if device_exists name "device"
      then "physical"
      else if name == "lo"
      then "loopback"
      else "virtual"

  abbrev net_text : String → String → Option String
  unfolding read_text
  net_text name file = read_text tree ("sys/class/net" ∷ name ∷ file ∷ [])

  abbrev net_int : String → String → Option ℤ
  unfolding read_int
  net_int name file = read_int tree ("sys/class/net" ∷ name ∷ file ∷ [])

  abbrev addresses_named : Dict (List InterfaceAddress) → String → List InterfaceAddress
  unfolding lookup
  addresses_named addresses name = or_else (lookup name addresses) []

  -- a round of the loop of `network`
  unfoldable pub interface_of : Dict (List InterfaceAddress) → String → NetworkInterface
  unfolding interface_kind net_text net_int addresses_named
  interface_of addresses name = record {
    name = name;
    kind = some (interface_kind name);
    mac = net_text name "address";
    operstate = net_text name "operstate";
    carrier = optional_bool (net_int name "carrier");
    mtu = net_int name "mtu";
    speed_mbps = speed_of (net_int name "speed");
    driver = symlink_name tree ("sys/class/net" ∷ name ∷ "device/driver" ∷ []);
    master = symlink_name tree ("sys/class/net" ∷ name ∷ "master" ∷ []);
    addresses = addresses_named addresses name;
  }

  abbrev pub network_in : Route → Addresses → Option (List String) → NetworkReading
  unfolding interface_of sorted
  network_in route found none = record {
    interfaces = [];
    default_route_interface = none;
    default_gateway = none;
    warnings = "/sys/class/net is not readable from this container." ∷ [];
  }
  network_in route found (some names) = record {
    interfaces = map (interface_of found.by_name) (sorted names);
    default_route_interface = route.interface;
    default_gateway = route.gateway;
    warnings = found.warnings;
  }

  abbrev pub with_addresses : Option Addresses → Option NetworkReading
  unfolding network_in default_route
  with_addresses none = none
  with_addresses (some found) =
      some (network_in (default_route tree) found (tree.entries "sys/class/net"))

  -- `network`; nothing where it raises
  unfoldable pub network : (String → Option Value) → CommandResult → Option NetworkReading
  unfolding interface_addresses with_addresses
  network json result = with_addresses (interface_addresses json result)
