-- ===== src/Inventory/Validation/Accepted.antt =====
-- Which inventories have no error, said without the code's rules.
use insatomcat_webui.Inventory.Address.{address}
use insatomcat_webui.Base.{
  any, Option-cases, ◌≤◌, String, ◌≡◌, ◌≢◌, refl, sym, ◌∙◌, ◌↔◌, inl, inr, true, false, Option,
  none, some, List, [], ◌∷◌, eq_iff, Dict, lookup, insert, lookup-insert, lookup-nil, length, null,
  All, arith, Bool-cases,
}
use insatomcat_webui.Inventory.Model.{Inventory, NodeConfig}
use insatomcat_webui.Inventory.Validation.{
  findings_of, accepted, network_raises, is_blank, Finding, valid, Printing, taken, across,
  validate_across_hosts, check_some, is_standalone, check_alone, validate,
}
use insatomcat_webui.Inventory.Validation.Acceptable.{
  AllUsable, Fits, AllFit, Distinct, IsAcceptable, addresses,
}
use insatomcat_webui.Inventory.Validation.Clean.{IsClean, IsClean-join, IsClean-nil, IsClean-split}
use insatomcat_webui.Inventory.Validation.Rules.{hosts_iff}

module _ (printing : Printing) where
  -- No address of the hosts is a key of the dictionary of those seen.
  abbrev Fresh : Dict String → List String → Type 0
  Fresh seen = All (λ a. lookup a seen ≡ none)

  Fresh-insert :
      (x name : String) (seen : Dict String) (xs : List String)
      → Fresh (insert x name seen) xs
      → All (λ y. x ≢ y) xs × Fresh seen xs
  Fresh-insert x name seen [] h = (tt, tt)
  Fresh-insert x name seen (a ∷ xs) (p, ps) =
      let (ne, fr) = Fresh-insert x name seen xs ps in
      (
        ((λ e. ground (arith, eq_iff x a, lookup-insert x a name seen)), ne),
        (ground (arith, eq_iff x a, lookup-insert x a name seen), fr),
      )

  insert-Fresh :
      (x name : String) (seen : Dict String) (xs : List String)
      → All (λ y. x ≢ y) xs
      → Fresh seen xs
      → Fresh (insert x name seen) xs
  insert-Fresh x name seen [] ne fr = tt
  insert-Fresh x name seen (a ∷ xs) (n, ne) (p, fr) =
      (ground (arith, eq_iff x a, lookup-insert x a name seen), insert-Fresh x name seen xs ne fr)

  taken_iff :
      (name : String) (node : NodeConfig) (o : Option String)
      → IsClean (taken printing name node o) ↔ (o ≡ none)
  unfolding IsClean
  taken_iff name node none = (λ _. refl, λ _. refl)
  taken_iff name node (some owner) = (λ h. absurd (cc h), λ h. absurd (cc h))

  across_iff :
      (seen : Dict String) (hosts : Dict NodeConfig)
      → IsClean (across printing seen hosts)
        ↔ (Distinct (addresses hosts) × Fresh seen (addresses hosts))
  unfolding across
  across_iff seen [] = (λ _. (tt, tt), λ _. IsClean-nil)
  across_iff seen ((name, node) ∷ hosts) =
      let x = node.ansible_host in
      let (to, from) = across_iff (insert x name seen) hosts in
      (
        (λ h.
            let (h1, h2) = IsClean-split _ _ h in
            let (d, f) = to h2 in
            let (ne, fr) = Fresh-insert x name seen (addresses hosts) f in
            ((ne, d), ((taken_iff name node (lookup x seen)).0 h1, fr))),
        λ ((ne, d), (p, fr)).
            IsClean-join _ _ ((taken_iff name node (lookup x seen)).1 p)
              (from (d, insert-Fresh x name seen (addresses hosts) ne fr)),
      )

  Fresh-nil : (xs : List String) → Fresh [] xs
  Fresh-nil [] = tt
  Fresh-nil (a ∷ xs) = (lookup-nil a, Fresh-nil xs)

  some_iff :
      (inventory : Inventory)
      → IsClean (check_some printing inventory) ↔ (null inventory.hosts ≡ false)
  unfolding IsClean check_some
  some_iff inventory = (λ h. ground arith, λ h. ground arith)

  alone_iff :
      (inventory : Inventory)
      → IsClean (check_alone printing inventory)
        ↔ (is_standalone inventory.mode ≡ true → length inventory.hosts ≤ 1)
  unfolding IsClean check_alone
  alone_iff inventory = elim (Bool-cases (is_standalone inventory.mode)) [
    | inl e ↦ ((λ h _. ground arith), λ h. let k = h e in ground arith)
    | inr e ↦ ((λ _ t. absurd (cc (e, t))), λ _. rw e)
  ]

  IsClean-valid : (fs : List Finding) → (valid fs ≡ true) ↔ IsClean fs
  unfolding IsClean valid
  IsClean-valid fs = (λ h. ground arith, λ h. ground arith)

  found_iff :
      (inventory : Inventory)
      → (valid (findings_of printing inventory) ≡ true) ↔ (
          (null inventory.hosts ≡ false)
          × (is_standalone inventory.mode ≡ true → length inventory.hosts ≤ 1)
          × AllUsable inventory.hosts
          × Distinct (addresses inventory.hosts))
  unfolding findings_of validate_across_hosts
  found_iff inventory = (
    (λ h.
        let (h1, r1) = IsClean-split _ _ ((IsClean-valid (findings_of printing inventory)).0 h) in
        let (h2, r2) = IsClean-split _ _ r1 in
        let (h3, h4) = IsClean-split _ _ r2 in
        (
          (some_iff inventory).0 h1,
          (alone_iff inventory).0 h2,
          (hosts_iff printing inventory.hosts).0 h3,
          ((across_iff [] inventory.hosts).0 h4).0,
        )),
    λ (some_host, alone, usable, distinct). (IsClean-valid (findings_of printing inventory)).1 (
        IsClean-join _ _ ((some_iff inventory).1 some_host) (
          IsClean-join _ _ ((alone_iff inventory).1 alone) (
            IsClean-join _ _ ((hosts_iff printing inventory.hosts).1 usable) (
              (across_iff [] inventory.hosts).1
                (distinct, Fresh-nil (addresses inventory.hosts)))))),
  )

  raises_iff : (node : NodeConfig) → (network_raises node ≡ false) ↔ Fits node
  raises_iff node = (
    (λ h own gateway e given g. let k = rw (e, g, given) at h in ground (arith, k)),
    λ h. elim (Option-cases (address (some node.ansible_host))) [
      | inl e ↦ rw e refl
      | inr (own, e) ↦ elim (Option-cases (address node.gateway_addr)) [
        | inl g ↦ rw (e, g) refl
        | inr (gateway, g) ↦ elim (Bool-cases (is_blank node.gateway_addr)) [
          | inl blank ↦ rw (e, g, blank) refl
          | inr given ↦ let k = h own gateway e given g in rw (e, g, given) (ground (arith, k))
        ]
      ]
    ],
  )

  all_iff : (hosts : Dict NodeConfig) → (any (λ h. network_raises h.1) hosts ≡ false) ↔ AllFit hosts
  all_iff [] = (λ _. tt, λ _. refl)
  all_iff ((name, node) ∷ hosts) =
      let (to, from) = all_iff hosts in
      let (fit, fitted) = raises_iff node in
      (
        (λ h. (fit (ground arith), to (ground arith))),
        λ (f, fs). let k = fitted f in let l = from fs in ground arith,
      )

  -- The rules answer, and find no error, exactly if an inventory is acceptable: it has a host, one alone
  -- if it is standalone; every host is named by a hostname, has an address that is not the loopback one, a
  -- gateway in its network if it has one, a prefix length that an address with a gateway allows, a named
  -- interface, resolvers that are addresses, a hashed GRUB password if any, and isolated CPUs other than
  -- CPU 0 if any; and no two hosts share an address.
  pub validate_iff :
      (inventory : Inventory)
      → (accepted (validate printing inventory) ≡ true) ↔ IsAcceptable inventory
  unfolding validate
  validate_iff inventory =
      let (to, from) = found_iff inventory in
      let (fit, fitted) = all_iff inventory.hosts in
      elim (Bool-cases (any (λ h. network_raises h.1) inventory.hosts)) [
        | inl e ↦ (
          (λ h. absurd (let k = rw e at h in cc k)),
          λ h. absurd (let k = sym (fitted h.networks) ∙ e in cc k),
        )
        | inr e ↦ (
          (λ h.
              let (some_host, alone, usable, distinct) = to (let k = rw e at h in k) in
              record {
                some_host = some_host;
                alone = alone;
                networks = fit e;
                usable = usable;
                distinct = distinct;
              }),
          λ h. rw e (from (h.some_host, h.alone, h.usable, h.distinct)),
        )
      ]
