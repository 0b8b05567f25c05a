-- ===== src/Inventory/Parser/Host.antt =====
-- Reading back a single host.
use insatomcat_webui.Base.{
  Bool, if◌then◌else◌, ℕ, pos, String, ◌≡◌, refl, sym, ap, inl, inr, true, false, Option, none,
  some, [], ◌==◌, ◌=?◌, eq_iff, arith, Bool-cases, Dict, Value,
}
use insatomcat_webui.Inventory.Model.{Role, hypervisor, NodeConfig, in_range}
use insatomcat_webui.Inventory.Renderer.{host_vars}
use insatomcat_webui.Inventory.Parser.{
  built, optional_str, str_or_empty, subnet_of, ranged, parse_node,
}
use insatomcat_webui.Inventory.Parser.Pieces.{as_int, read_modelled}
use insatomcat_webui.Inventory.Parser.Legible.{
  IsLegible, IsPlain, extras-host_vars, lookup-host_vars,
}

str_or_empty_lem : (show : Value → String) (s : String) → str_or_empty show (some (Value.str s)) ≡ s
str_or_empty_lem show s = elim (Bool-cases (s == "")) [
  | inl e ↦ rw e (sym ((eq_iff s "").0 e))
  | inr e ↦ rw e
]

-- the numbers, where they are in range
abbrev numbers_of : Bool → ℕ → Option ℕ → Option (ℕ × Option ℕ)
numbers_of b n d = if b then some (n, d) else none

ranged_lem : (n : ℕ) (d : Option ℕ) → ranged (pos n) (as_int d) ≡ numbers_of (in_range n d) n d
ranged_lem n none = refl
ranged_lem n (some d) = refl

positive : (n : ℕ) (d : Option ℕ) → in_range n d ≡ true → (n =? 0) ≡ false
unfolding in_range
positive n none h = ground arith
positive n (some d) h = ground arith

pub IsPlain-IsLegible : (node : NodeConfig) → IsPlain node → IsLegible node
IsPlain-IsLegible node h = record {
  role_is = h.role_is;
  prefixed = positive node.subnet node.ptp_domain_number h.ranges;
  texts = h.texts;
  isolation = h.isolation;
  extra_names = h.extra_names;
  extra_dict = h.extra_dict;
}

subnet_of_lem : (n : ℕ) → (n =? 0) ≡ false → subnet_of (some (Value.int (pos n))) ≡ some (pos n)
subnet_of_lem n h = rw h

-- the host, where its numbers are in range
abbrev pub readable : NodeConfig → Option NodeConfig
readable node = if in_range node.subnet node.ptp_domain_number then some node else none

built_if :
    (show : Value → String) (vars : Dict Value) (group : Option Value) (node : NodeConfig)
    (b : Bool)
    → built show hypervisor vars group node.dns_servers node.ntp_servers
        (some (node.subnet, node.ptp_domain_number))
      ≡ some node
    → built show hypervisor vars group node.dns_servers node.ntp_servers
        (numbers_of b node.subnet node.ptp_domain_number)
      ≡ (if b then some node else none)
built_if show vars group node true h = h
built_if show vars group node false h = refl

module _ (show : Value → String) (node : NodeConfig) (h : IsLegible node) where
  built-host_vars :
      (group : Option Value)
      → optional_str show group ≡ node.isolcpus
      → built show hypervisor
          (host_vars node)
          group
          node.dns_servers
          node.ntp_servers
          (some (node.subnet, node.ptp_domain_number))
        ≡ some node
  built-host_vars group g =
      let (a, n, s, gw, dns, ptp, dom, ntp, adm, grub, iso) = read_modelled show node h.texts in
      rw
        (
          lookup-host_vars node h "ansible_host" refl refl,
          lookup-host_vars node h "network_interface" refl refl,
          lookup-host_vars node h "gateway_addr" refl refl,
          lookup-host_vars node h "ptp_interface" refl refl,
          lookup-host_vars node h "admin_user" refl refl,
          lookup-host_vars node h "grub_password" refl refl,
          lookup-host_vars node h "isolcpus" refl refl,
          a,
          n,
          str_or_empty_lem show node.ansible_host,
          str_or_empty_lem show node.network_interface,
          gw,
          ptp,
          adm,
          grub,
          iso,
          g,
          extras-host_vars node h,
        )
        (ap (λ (r : Role). some (record node { role = r })) (sym h.role_is))

  pub parse_node-host_vars :
      (name : String) (group : Option Value)
      → optional_str show group ≡ node.isolcpus
      → parse_node show name (host_vars node) [] group ≡ readable node
  unfolding parse_node
  parse_node-host_vars name group g =
      let (a, n, s, gw, dns, ptp, dom, ntp, adm, grub, iso) = read_modelled show node h.texts in
      rw
        (
          lookup-host_vars node h "subnet" refl refl,
          lookup-host_vars node h "dns_servers" refl refl,
          lookup-host_vars node h "ntp_servers" refl refl,
          s,
          dns,
          ntp,
          subnet_of_lem node.subnet h.prefixed,
          lookup-host_vars node h "ptp_domain_number" refl refl,
          dom,
          ranged_lem node.subnet node.ptp_domain_number,
        )
        (built_if show (host_vars node) group node (in_range node.subnet node.ptp_domain_number)
          (built-host_vars group g))
