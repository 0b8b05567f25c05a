-- ===== src/Api/Inventory/Patch.antt =====
-- The changed fields of a form (app/api/v1/inventory.py: `patch_host`): `model_copy(update=changes)`
-- on a machine's configuration, which checks no value.
pub mod Changes
pub mod Wanted
use insatomcat_webui.Base.{
  ℕ, ℤ, pos, negsuc, String, ◌==◌, eq_iff, ◌≡◌, refl, sym, ap, ◌∙◌, subst, inl, inr, Bool, true,
  false, Bool-cases, Option-cases, All, of_items, of_pairs, end, field, Option, none, some, List,
  [], ◌∷◌, if◌then◌else◌, map, Dict, lookup, insert, update, Value, Items, Fields, nil, cons,
  list_of, dict_of, pairs, items, ◌>>=?◌,
}
use insatomcat_webui.Inventory.Model.{NodeConfig, Role, hypervisor, observer}

-- `Role`, as a value of JSON
abbrev pub role_text : Role → String
role_text hypervisor = "hypervisor"
role_text observer = "observer"

abbrev pub text_or_null : Option String → Value
text_or_null none = Value.null
text_or_null (some s) = Value.str s

abbrev pub number_or_null : Option ℕ → Value
number_or_null none = Value.null
number_or_null (some n) = Value.int (pos n)

-- `model_fields`, with the values of a configuration
abbrev pub fields_of : NodeConfig → Dict Value
fields_of node =
    ("role", Value.str (role_text node.role))
    ∷ ("ansible_host", Value.str node.ansible_host)
    ∷ ("network_interface", Value.str node.network_interface)
    ∷ ("subnet", Value.int (pos node.subnet))
    ∷ ("gateway_addr", text_or_null node.gateway_addr)
    ∷ ("dns_servers", list_of (map Value.str node.dns_servers))
    ∷ ("ptp_interface", text_or_null node.ptp_interface)
    ∷ ("ptp_domain_number", number_or_null node.ptp_domain_number)
    ∷ ("ntp_servers", list_of (map Value.str node.ntp_servers))
    ∷ ("admin_user", text_or_null node.admin_user)
    ∷ ("grub_password", text_or_null node.grub_password)
    ∷ ("isolcpus", text_or_null node.isolcpus)
    ∷ ("extra", dict_of node.extra)
    ∷ []

-- The values that are of the field's declared type; the code takes any.
abbrev pub as_text : Value → Option String
as_text (Value.str s) = some s
as_text _ = none

abbrev pub as_text_or_null : Value → Option (Option String)
as_text_or_null Value.null = some none
as_text_or_null (Value.str s) = some (some s)
as_text_or_null _ = none

abbrev pub as_number : Value → Option ℕ
as_number (Value.int (pos n)) = some n
as_number _ = none

abbrev pub as_number_or_null : Value → Option (Option ℕ)
as_number_or_null Value.null = some none
as_number_or_null (Value.int (pos n)) = some (some n)
as_number_or_null _ = none

abbrev pub joined : Option String → Option (List String) → Option (List String)
joined none rest = none
joined (some s) none = none
joined (some s) (some ss) = some (s ∷ ss)

abbrev pub texts_of : Items → Option (List String)
texts_of nil = some []
texts_of (cons v vs) = joined (as_text v) (texts_of vs)

abbrev pub as_texts : Value → Option (List String)
as_texts (Value.list vs) = texts_of vs
as_texts _ = none

abbrev pub as_pairs : Value → Option (Dict Value)
as_pairs (Value.dict fs) = some (pairs fs)
as_pairs _ = none

abbrev pub Setter : Type 0
Setter = Value → NodeConfig → Option NodeConfig

-- For each field that a value of JSON fits, its change. The role is not among them: its text is no
-- `Role`, so the code would hold a text where it compares with the members of the class.
abbrev pub setters : Dict Setter
setters =
    ("ansible_host", λ v node. as_text v >>=? λ s. some (record node { ansible_host = s }))
    ∷ (
      "network_interface",
      λ v node. as_text v >>=? λ s. some (record node { network_interface = s }),
    )
    ∷ ("subnet", λ v node. as_number v >>=? λ n. some (record node { subnet = n }))
    ∷ (
      "gateway_addr",
      λ v node. as_text_or_null v >>=? λ s. some (record node { gateway_addr = s }),
    )
    ∷ ("dns_servers", λ v node. as_texts v >>=? λ ss. some (record node { dns_servers = ss }))
    ∷ (
      "ptp_interface",
      λ v node. as_text_or_null v >>=? λ s. some (record node { ptp_interface = s }),
    )
    ∷ (
      "ptp_domain_number",
      λ v node. as_number_or_null v >>=? λ n. some (record node { ptp_domain_number = n }),
    )
    ∷ ("ntp_servers", λ v node. as_texts v >>=? λ ss. some (record node { ntp_servers = ss }))
    ∷ ("admin_user", λ v node. as_text_or_null v >>=? λ s. some (record node { admin_user = s }))
    ∷ (
      "grub_password",
      λ v node. as_text_or_null v >>=? λ s. some (record node { grub_password = s }),
    )
    ∷ ("isolcpus", λ v node. as_text_or_null v >>=? λ s. some (record node { isolcpus = s }))
    ∷ ("extra", λ v node. as_pairs v >>=? λ d. some (record node { extra = d }))
    ∷ []

-- One change, where the value is of the field's type
unfoldable pub put_field : String → Value → NodeConfig → Option NodeConfig
unfolding lookup
put_field name v node = lookup name setters >>=? λ set. set v node

-- `model_copy(update=changes)`, where all values are of their fields' types
unfoldable pub updated : Dict Value → NodeConfig → Option NodeConfig
unfolding put_field
updated [] node = some node
updated ((name, v) ∷ changes) node = put_field name v node >>=? updated changes
