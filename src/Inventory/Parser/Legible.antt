-- ===== src/Inventory/Parser/Legible.antt =====
-- The hosts that can be read back, and where their variables are found.
use insatomcat_webui.Base.{
  String, ◌≡◌, refl, ap, ap₂, ◌∙◌, true, false, List, [], ◌∷◌, ◌++◌, ◌==◌, ◌=?◌, arith, lookup,
  update, keys, keep-append, All, member,
}
use insatomcat_webui.Inventory.Model.{hypervisor, NodeConfig, in_range}
use insatomcat_webui.Inventory.Renderer.{fixed_host_vars, modelled_vars, host_vars}
use insatomcat_webui.Inventory.Parser.{is_extra}
use insatomcat_webui.Inventory.Parser.Variables.{
  IsDict, lookup-update_ne, keep-update_other, update-append,
}
use insatomcat_webui.Inventory.Parser.Pieces.{filled, IsFilled}
use insatomcat_webui.Inventory.Parser.Extras.{
  AllExtra, extra_ne, extras, extras-Apart, extras_all, no_modelled,
}

-- A host whose rendered form is read without a loss: a hypervisor with a prefix length, whose optional
-- texts are left out or not empty, and whose other variables have names of their own.
pub record IsLegible (node : NodeConfig) : Type 0 where
  pub role_is : node.role ≡ hypervisor
  pub prefixed : (node.subnet =? 0) ≡ false
  pub texts : IsFilled node
  pub isolation : filled node.isolcpus ≡ true
  pub extra_names : AllExtra node.extra
  pub extra_dict : IsDict node.extra

-- A host that comes back: a legible one whose numbers are in range.
pub record IsPlain (node : NodeConfig) : Type 0 where
  pub role_is : node.role ≡ hypervisor
  pub ranges : in_range node.subnet node.ptp_domain_number ≡ true
  pub texts : IsFilled node
  pub isolation : filled node.isolcpus ≡ true
  pub extra_names : AllExtra node.extra
  pub extra_dict : IsDict node.extra

member_ne : (k : String) (l : List String) → member k l ≡ false → All (λ j. (j == k) ≡ false) l
member_ne k [] h = tt
member_ne k (j ∷ l) h = (ground arith, member_ne k l (ground arith))

module _ (node : NodeConfig) (h : IsLegible node) where
  pub lookup-host_vars :
      (k : String)
      → is_extra k ≡ false
      → member k (keys fixed_host_vars) ≡ false
      → lookup k (host_vars node) ≡ lookup k (modelled_vars node)
  unfolding host_vars
  lookup-host_vars k x f =
      lookup-update_ne k fixed_host_vars (update (modelled_vars node) node.extra)
        (member_ne k (keys fixed_host_vars) f)
      ∙ lookup-update_ne k node.extra (modelled_vars node) (extra_ne k node.extra x h.extra_names)

  pub extras-host_vars : extras (host_vars node) ≡ node.extra
  unfolding host_vars
  extras-host_vars =
      keep-update_other is_extra fixed_host_vars (update (modelled_vars node) node.extra)
        (refl, (refl, (refl, (refl, (refl, (refl, (refl, tt)))))))
      ∙ ap extras (
          update-append node.extra (modelled_vars node) h.extra_dict
            (extras-Apart (modelled_vars node) node.extra (no_modelled node) h.extra_names))
      ∙ keep-append (λ e. is_extra e.0) (modelled_vars node) node.extra
      ∙ ap₂ (λ x y. x ++ y) (no_modelled node) (extras_all node.extra h.extra_names)
