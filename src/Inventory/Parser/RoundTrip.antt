-- ===== src/Inventory/Parser/RoundTrip.antt =====
-- Reading back the inventory of one machine.
use insatomcat_webui.Base.{
  String, ◌≡◌, refl, sym, ap, subst, ◌∙◌, inl, inr, true, false, Option, none, some, [], ◌∷◌, ◌==◌,
  eq_refl, Bool-cases, Dict, lookup, member, null, Value, pairs, of_pairs, pairs-of_pairs, dict_of,
  sorted,
}
use insatomcat_webui.Inventory.Model.{NodeConfig, Inventory, standalone, in_range, host_names}
use insatomcat_webui.Inventory.Renderer.{
  host_vars, isolation_vars, if_isolated, group_with_isolcpus, document,
}
use insatomcat_webui.Inventory.Parser.{
  Outcome, answer, raised, optional_str, fields_of, group_vars, or_empty, parse, parse_node,
  parse_groups, as_inventory, joined, groups_of,
}
use insatomcat_webui.Inventory.Parser.Pieces.{filled}
use insatomcat_webui.Inventory.Parser.Legible.{IsLegible, IsPlain}
use insatomcat_webui.Inventory.Parser.Host.{IsPlain-IsLegible, parse_node-host_vars, readable}

-- the inventory of one machine
abbrev pub one_machine : String → NodeConfig → Inventory
one_machine name node = record { mode = standalone; hosts = (name, node) ∷ [] }

isolation_lem :
    (show : Value → String) (o : Option String)
    → filled o ≡ true
    → optional_str show (
        lookup "isolcpus" (
          or_empty (
            fields_of (
              lookup "vars" (pairs (of_pairs (isolation_vars (sorted (if_isolated true o [])))))))))
      ≡ o
unfolding lookup sorted
isolation_lem show none h = refl
isolation_lem show (some s) h = elim (Bool-cases (s == "")) [
  | inl e ↦ absurd (let k = rw e at h in cc k)
  | inr e ↦ rw e
]

listed : (name : String) → member name (name ∷ []) ≡ true
listed name = rw (eq_refl name)

module _ (show : Value → String) (name : String) (node : NodeConfig) (h : IsLegible node) where
  group_isolcpus : Option Value
  unfolding group_vars group_with_isolcpus
  group_isolcpus =
      lookup "isolcpus"
        (group_vars (some (group_with_isolcpus (one_machine name node) (name ∷ []))))

  group_isolcpus_lem : optional_str show group_isolcpus ≡ node.isolcpus
  unfolding group_isolcpus lookup
  group_isolcpus_lem =
      ap
        (λ b. optional_str show (
          lookup "isolcpus" (
            or_empty (
              fields_of (
                lookup "vars"
                  (pairs (of_pairs (isolation_vars (sorted (if_isolated b node.isolcpus []))))))))))
        (listed name)
      ∙ isolation_lem show node.isolcpus h.isolation

  node_lem :
      parse_node show name (pairs (of_pairs (host_vars node))) [] group_isolcpus ≡ readable node
  node_lem =
      ap (λ vars. parse_node show name vars [] group_isolcpus) (pairs-of_pairs (host_vars node))
      ∙ parse_node-host_vars show node h name group_isolcpus group_isolcpus_lem

  groups_lem :
      parse_groups show (or_empty (document (one_machine name node)))
      ≡ as_inventory show standalone (joined show name (readable node) (some []))
  unfolding parse_groups document lookup group_isolcpus host_names
  groups_lem = ap (λ o. as_inventory show standalone (joined show name o (some []))) node_lem

  groups_of_lem :
      (d : Dict Value) → null d ≡ false → groups_of show (answer (dict_of d)) ≡ parse_groups show d
  groups_of_lem [] f = absurd (cc f)
  groups_of_lem ((k, v) ∷ d) f = ap (λ x. parse_groups show ((k, v) ∷ x)) (pairs-of_pairs d)

  rendered_some : null (or_empty (document (one_machine name node))) ≡ false
  unfolding document
  rendered_some = refl

  parse_lem :
      (load : String → Outcome Value) (content : String) (d : Dict Value)
      → document (one_machine name node) ≡ some d
      → load content ≡ answer (dict_of d)
      → parse show load content
        ≡ as_inventory show standalone (joined show name (readable node) (some []))
  unfolding parse
  parse_lem load content d rendered loaded =
      let same = ap or_empty rendered in
      ap (groups_of show) loaded
      ∙ groups_of_lem d (subst (λ (x : Dict Value). null x ≡ false) same rendered_some)
      ∙ ap (parse_groups show) (sym same)
      ∙ groups_lem

module _ (show : Value → String) (name : String) (node : NodeConfig) where
  -- Reading back the document that is rendered for an inventory of one machine gives the inventory,
  -- the variables that the service does not model and their order included, if YAML loads that
  -- document and the machine is a hypervisor with its numbers in range, no empty optional text, and
  -- other variables whose names are distinct and none of the service's.
  pub parse-document :
      (h : IsPlain node) (load : String → Outcome Value) (content : String) (d : Dict Value)
      → document (one_machine name node) ≡ some d
      → load content ≡ answer (dict_of d)
      → parse show load content ≡ answer (one_machine name node)
  parse-document h load content d rendered loaded =
      parse_lem show name node (IsPlain-IsLegible node h) load content d rendered loaded
      ∙ (rw h.ranges)

  -- The same document with a number out of range is not read: an exception other than
  -- `InvalidInventory` is raised.
  pub parse-document_out_of_range :
      (h : IsLegible node) (load : String → Outcome Value) (content : String) (d : Dict Value)
      → in_range node.subnet node.ptp_domain_number ≡ false
      → document (one_machine name node) ≡ some d
      → load content ≡ answer (dict_of d)
      → parse show load content ≡ raised
  parse-document_out_of_range h load content d out rendered loaded =
      parse_lem show name node h load content d rendered loaded ∙ (rw out)
