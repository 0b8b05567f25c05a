-- ===== src/Inventory/Validation/Rules.antt =====
-- When each rule on a single host finds no error.
use insatomcat_webui.Base.{
  String, ◌≡◌, ◌≢◌, refl, sym, ◌↔◌, ◌⊎◌, inl, inr, true, Option, none, some, List, [], ◌∷◌, eq_iff,
  Dict, All, arith, Bool-cases, is_some, Option-cases,
}
use insatomcat_webui.Hosts.CpuList.{parse_cpu_list}
use insatomcat_webui.Inventory.Model.{NodeConfig}
use insatomcat_webui.Inventory.Address.{Address, address}
use insatomcat_webui.Inventory.HostName.{is_hostname}
use insatomcat_webui.Inventory.Validation.{
  is_blank, Printing, is_hash, check_name, check_found, check_interface, check_gateway, check_dns,
  check_observer, check_hypervisor, check_ptp, check_ntp, check_grub, validate_isolcpus,
  validate_host, each_host,
}
use insatomcat_webui.Inventory.Validation.Acceptable.{AllUsable, IsIsolable, IsReachable, IsUsable}
use insatomcat_webui.Inventory.Validation.Clean.{
  All-positive, IsClean, IsClean-join, IsClean-nil, IsClean-split,
}

module _ (printing : Printing) where
  name_iff : (name : String) → IsClean (check_name printing name) ↔ (is_hostname name ≡ true)
  unfolding IsClean check_name
  name_iff name = (λ h. ground arith, λ h. ground arith)

  interface_iff :
      (name : String) (node : NodeConfig)
      → IsClean (check_interface printing name node) ↔ (node.network_interface ≢ "")
  unfolding IsClean check_interface
  interface_iff name node = (
    λ h e. ground (arith, eq_iff node.network_interface ""),
    λ h. ground (arith, eq_iff node.network_interface ""),
  )

  dns_iff :
      (name : String) (servers : List String)
      → IsClean (check_dns printing name servers)
        ↔ All (λ s. is_some (address (some s)) ≡ true) servers
  unfolding IsClean check_dns
  dns_iff name [] = (λ _. tt, λ _. refl)
  dns_iff name (s ∷ servers) =
      let (to, from) = dns_iff name servers in
      elim (Option-cases (address (some s))) [
        | inl e ↦ ((λ h. absurd (ground arith)), λ (p, _). absurd (ground arith))
        | inr (a, e) ↦
            ((λ h. (ground arith, to (ground arith))), λ (_, ps). ground (arith, from ps))
      ]

  grub_iff :
      (name : String) (node : NodeConfig)
      → IsClean (check_grub printing name node)
        ↔ ((is_blank node.grub_password ≡ true) ⊎ (is_hash node.grub_password ≡ true))
  unfolding IsClean check_grub
  grub_iff name node = elim (Bool-cases (is_blank node.grub_password)) [
    | inl e ↦ ((λ _. inl e), λ _. ground arith)
    | inr e ↦ ((λ h. inr (ground arith)), λ h. ground arith)
  ]

  isolation_iff :
      (name : String) (node : NodeConfig)
      → IsClean (validate_isolcpus printing name node) ↔ IsIsolable node.isolcpus
  unfolding IsClean validate_isolcpus
  isolation_iff name node =
      let (to, from) = All-positive (parse_cpu_list node.isolcpus) in
      elim (Bool-cases (is_blank node.isolcpus)) [
        | inl e ↦ ((λ _. inl e), λ _. ground arith)
        | inr e ↦ (
          (λ h. inr (ground arith, to (ground arith))),
          λ h. elim h [ inl d ↦ absurd (cc (e, d)) | inr (filled, ps) ↦ ground (arith, from ps) ],
        )
      ]

  quiet :
      (name : String) (node : NodeConfig)
      → IsClean (check_observer printing name node)
        × IsClean (check_hypervisor printing name node)
        × IsClean (check_ptp printing name node)
        × IsClean (check_ntp printing name node)
  unfolding IsClean check_observer check_hypervisor check_ptp check_ntp
  quiet name node = (ground arith, ground arith, ground arith, ground arith)

  address_clean :
      (name : String) (node : NodeConfig) (found : Option Address)
      → found ≡ address (some node.ansible_host)
      → IsClean (check_found printing name node found)
      → IsClean (check_gateway printing name node found)
      → IsReachable node
  unfolding IsClean check_gateway
  address_clean name node none e f g = absurd (cc f)
  address_clean name node (some a) e f g = record {
    own = a;
    is_own = sym e;
    outside = ground arith;
    route = elim (Bool-cases (is_blank node.gateway_addr)) [
      | inl blank ↦ inl blank
      | inr given ↦ elim (Option-cases (address node.gateway_addr)) [
        | inl n ↦ absurd (let k = rw (given, n) at g in cc k)
        | inr (r, n) ↦ inr (r, n, (let k = rw (given, n) at g in ground arith))
      ]
    ];
  }

  found-IsClean :
      (name : String) (node : NodeConfig)
      → IsReachable node
      → IsClean (check_found printing name node (address (some node.ansible_host)))
  unfolding IsClean
  found-IsClean name node h = rw (h.is_own, h.outside)

  gateway-IsClean :
      (name : String) (node : NodeConfig)
      → IsReachable node
      → IsClean (check_gateway printing name node (address (some node.ansible_host)))
  unfolding IsClean check_gateway
  gateway-IsClean name node h = elim h.route [
    | inl blank ↦ rw blank
    | inr (g, e, inside) ↦ elim (Bool-cases (is_blank node.gateway_addr)) [
      | inl blank ↦ rw blank
      | inr given ↦ rw (given, h.is_own, e, inside)
    ]
  ]

  host_sound :
      (name : String) (node : NodeConfig)
      → IsClean (validate_host printing name node)
      → IsUsable name node
  unfolding validate_host
  host_sound name node h =
      let (h1, r1) = IsClean-split _ _ h in
      let (h2, r2) = IsClean-split _ _ r1 in
      let (h3, r3) = IsClean-split _ _ r2 in
      let (h4, r4) = IsClean-split _ _ r3 in
      let (h5, r5) = IsClean-split _ _ r4 in
      let (_, r6) = IsClean-split (check_observer printing name node) _ r5 in
      let (_, r7) = IsClean-split (check_hypervisor printing name node) _ r6 in
      let (_, r8) = IsClean-split (check_ptp printing name node) _ r7 in
      let (_, r9) = IsClean-split (check_ntp printing name node) _ r8 in
      let (h10, h11) = IsClean-split _ _ r9 in
      record {
        named = (name_iff name).0 h1;
        reachable = address_clean name node (address (some node.ansible_host)) refl h2 h4;
        interface_named = (interface_iff name node).0 h3;
        resolvers = (dns_iff name node.dns_servers).0 h5;
        password = (grub_iff name node).0 h10;
        isolable = (isolation_iff name node).0 h11;
      }

  host_complete :
      (name : String) (node : NodeConfig)
      → IsUsable name node
      → IsClean (validate_host printing name node)
  unfolding validate_host
  host_complete name node h =
      let (q1, q2, q3, q4) = quiet name node in
      IsClean-join _ _ ((name_iff name).1 h.named) (
        IsClean-join _ _ (found-IsClean name node h.reachable) (
          IsClean-join _ _ ((interface_iff name node).1 h.interface_named) (
            IsClean-join _ _ (gateway-IsClean name node h.reachable) (
              IsClean-join _ _ ((dns_iff name node.dns_servers).1 h.resolvers) (
                IsClean-join _ _ q1 (
                  IsClean-join _ _ q2 (
                    IsClean-join _ _ q3 (
                      IsClean-join _ _ q4 (
                        IsClean-join _ _ ((grub_iff name node).1 h.password)
                          ((isolation_iff name node).1 h.isolable))))))))))

  pub hosts_iff : (hosts : Dict NodeConfig) → IsClean (each_host printing hosts) ↔ AllUsable hosts
  unfolding each_host
  hosts_iff [] = (λ _. tt, λ _. IsClean-nil)
  hosts_iff ((name, node) ∷ hosts) =
      let (to, from) = hosts_iff hosts in
      (
        (λ h. let (h1, h2) = IsClean-split _ _ h in (host_sound name node h1, to h2)),
        λ (u, us). IsClean-join _ _ (host_complete name node u) (from us),
      )
