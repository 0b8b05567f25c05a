-- ===== src/Inventory/Parser/Extras.antt =====
-- The variables of a host that the service does not model.
use insatomcat_webui.Base.{
  ℕ, String, ◌≡◌, refl, sym, ap, ap₂, subst, ◌∙◌, inl, inr, true, false, Option, none, some, List,
  [], ◌∷◌, ◌++◌, ◌==◌, eq_iff, Bool-cases, Dict, lookup, keys, keep, keep-append, lookup-nil, All,
  Value,
}
use insatomcat_webui.Inventory.Model.{NodeConfig}
use insatomcat_webui.Inventory.Renderer.{text_var, list_var, domain_vars, modelled_vars}
use insatomcat_webui.Inventory.Parser.{is_extra}
use insatomcat_webui.Inventory.Parser.Variables.{Apart}

abbrev pub extras : Dict Value → Dict Value
extras = keep (λ e. is_extra e.0)

no_text : (j : String) (o : Option String) → is_extra j ≡ false → extras (text_var j o) ≡ []
no_text j none h = refl
no_text j (some s) h = elim (Bool-cases (s == "")) [ inl e ↦ rw e | inr e ↦ rw (e, h) ]

no_list : (j : String) (l : List String) → is_extra j ≡ false → extras (list_var j l) ≡ []
no_list j [] h = refl
no_list j (s ∷ ss) h = rw h

no_domain_vars : (o : Option ℕ) → extras (domain_vars o) ≡ []
no_domain_vars none = refl
no_domain_vars (some n) = refl

no_both : (a b : Dict Value) → extras a ≡ [] → extras b ≡ [] → extras (a ++ b) ≡ []
no_both a b ha hb = keep-append (λ e. is_extra e.0) a b ∙ ap₂ (λ x y. x ++ y) ha hb

pub no_modelled : (node : NodeConfig) → extras (modelled_vars node) ≡ []
unfolding modelled_vars
no_modelled node =
    no_both (text_var "gateway_addr" node.gateway_addr) _
      (no_text "gateway_addr" node.gateway_addr refl)
      (no_both (list_var "dns_servers" node.dns_servers) _
        (no_list "dns_servers" node.dns_servers refl)
        (no_both (text_var "ptp_interface" node.ptp_interface) _
          (no_text "ptp_interface" node.ptp_interface refl)
          (no_both (domain_vars node.ptp_domain_number) _ (no_domain_vars node.ptp_domain_number) (
            no_both (list_var "ntp_servers" node.ntp_servers) _
              (no_list "ntp_servers" node.ntp_servers refl)
              (no_both (text_var "admin_user" node.admin_user) _
                (no_text "admin_user" node.admin_user refl)
                (no_text "grub_password" node.grub_password refl))))))

lookup-extras : (k : String) (d : Dict Value) → is_extra k ≡ true → lookup k (extras d) ≡ lookup k d
unfolding lookup
lookup-extras k [] h = refl
lookup-extras k ((j, v) ∷ d) h = elim (Bool-cases (j == k)) [
  | inl e ↦ rw (e, subst (λ x. is_extra x ≡ true) (sym ((eq_iff j k).0 e)) h, lookup, e)
  | inr e ↦ elim (Bool-cases (is_extra j)) [
    | inl x ↦ rw (e, x, lookup, e) (lookup-extras k d h)
    | inr x ↦ rw (e, x) (lookup-extras k d h)
  ]
]

abbrev pub AllExtra : Dict Value → Type 0
AllExtra d = All (λ k. is_extra k ≡ true) (keys d)

pub extras-Apart : (d e : Dict Value) → extras d ≡ [] → AllExtra e → Apart d e
extras-Apart d [] h a = tt
extras-Apart d ((k, v) ∷ e) h (ak, a) =
    (sym (lookup-extras k d ak) ∙ ap (lookup k) h ∙ lookup-nil k, extras-Apart d e h a)

pub extra_ne :
    (k : String) (e : Dict Value)
    → is_extra k ≡ false
    → AllExtra e
    → All (λ j. (j == k) ≡ false) (keys e)
extra_ne k [] h a = tt
extra_ne k ((j, v) ∷ e) h (aj, a) = elim (Bool-cases (j == k)) [
  | inl f ↦ absurd (cc (subst (λ x. is_extra x ≡ true) ((eq_iff j k).0 f) aj, h))
  | inr f ↦ (f, extra_ne k e h a)
]

pub extras_all : (e : Dict Value) → AllExtra e → extras e ≡ e
extras_all [] a = refl
extras_all ((k, v) ∷ e) (ak, a) = rw ak (ap (λ l. (k, v) ∷ l) (extras_all e a))
