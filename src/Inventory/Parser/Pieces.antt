-- ===== src/Inventory/Parser/Pieces.antt =====
-- What the parser reads of each variable that the renderer writes.
use insatomcat_webui.Base.{
  ℕ, ℤ, pos, String, ◌≡◌, refl, sym, ap, ◌∙◌, inl, inr, Bool, true, false, not, Option, none, some,
  List, [], ◌∷◌, ◌++◌, ◌==◌, eq_refl, Bool-cases, Dict, lookup, append-nil, Value, items-of_items,
  map,
}
use insatomcat_webui.Inventory.Model.{NodeConfig}
use insatomcat_webui.Inventory.Renderer.{text_var, list_var, domain_vars, modelled_vars}
use insatomcat_webui.Inventory.Parser.{optional_str, as_list, int_or_none, text}

-- A text that is written: it is left out or not empty.
abbrev pub filled : Option String → Bool
filled none = true
filled (some s) = not (s == "")

skip_text :
    (k j : String) (o : Option String) (d : Dict Value)
    → (j == k) ≡ false
    → lookup k (text_var j o ++ d) ≡ lookup k d
unfolding lookup
skip_text k j none d ne = refl
skip_text k j (some s) d ne = elim (Bool-cases (s == "")) [ inl e ↦ rw e | inr e ↦ rw (e, ne) ]

skip_list :
    (k j : String) (l : List String) (d : Dict Value)
    → (j == k) ≡ false
    → lookup k (list_var j l ++ d) ≡ lookup k d
unfolding lookup
skip_list k j [] d ne = refl
skip_list k j (s ∷ ss) d ne = rw ne

skip_domain :
    (k : String) (o : Option ℕ) (d : Dict Value)
    → ("ptp_domain_number" == k) ≡ false
    → ("timemaster_ptp_domain_number" == k) ≡ false
    → ("ptp_status_vsock_domain_number" == k) ≡ false
    → lookup k (domain_vars o ++ d) ≡ lookup k d
unfolding lookup
skip_domain k none d e f g = refl
skip_domain k (some n) d e f g = rw (e, f, g)

none_text : (k j : String) (o : Option String) → (j == k) ≡ false → lookup k (text_var j o) ≡ none
unfolding lookup
none_text k j none ne = refl
none_text k j (some s) ne = elim (Bool-cases (s == "")) [ inl e ↦ rw e | inr e ↦ rw (e, ne) ]

module _ (show : Value → String) where
  read_text :
      (k : String) (o : Option String) (d : Dict Value)
      → filled o ≡ true
      → lookup k d ≡ none
      → optional_str show (lookup k (text_var k o ++ d)) ≡ o
  unfolding lookup
  read_text k none d f h = rw h
  read_text k (some s) d f h = elim (Bool-cases (s == "")) [
    | inl e ↦ absurd (let m = rw e at f in cc m)
    | inr e ↦ rw (e, eq_refl k)
  ]

  texts_lem : (ss : List String) → map (text show) (map Value.str ss) ≡ ss
  texts_lem [] = refl
  texts_lem (s ∷ ss) = ap (λ l. s ∷ l) (texts_lem ss)

  read_list :
      (k : String) (l : List String) (d : Dict Value)
      → lookup k d ≡ none
      → as_list show (lookup k (list_var k l ++ d)) ≡ some l
  unfolding lookup
  read_list k [] d h = rw h
  read_list k (s ∷ ss) d h = rw (eq_refl k) (
      ap (λ l. some (s ∷ l))
        (ap (map (text show)) (items-of_items (map Value.str ss)) ∙ texts_lem ss))

-- a native number as Python's
abbrev pub as_int : Option ℕ → Option ℤ
as_int none = none
as_int (some n) = some (pos n)

read_domain :
    (o : Option ℕ) (d : Dict Value)
    → lookup "ptp_domain_number" d ≡ none
    → int_or_none (lookup "ptp_domain_number" (domain_vars o ++ d)) ≡ as_int o
unfolding lookup
read_domain none d h = rw h
read_domain (some n) d h = refl

abbrev from_accounts : NodeConfig → Dict Value
from_accounts node =
    text_var "admin_user" node.admin_user ++ text_var "grub_password" node.grub_password

abbrev from_ntp : NodeConfig → Dict Value
from_ntp node = list_var "ntp_servers" node.ntp_servers ++ from_accounts node

abbrev from_domain : NodeConfig → Dict Value
from_domain node = domain_vars node.ptp_domain_number ++ from_ntp node

abbrev from_ptp : NodeConfig → Dict Value
from_ptp node = text_var "ptp_interface" node.ptp_interface ++ from_domain node

abbrev from_dns : NodeConfig → Dict Value
from_dns node = list_var "dns_servers" node.dns_servers ++ from_ptp node

abbrev from_gateway : NodeConfig → Dict Value
from_gateway node = text_var "gateway_addr" node.gateway_addr ++ from_dns node

-- None of the names is `k`, from each piece on.
module _ (k : String) (node : NodeConfig) where
  no_accounts :
      ("admin_user" == k) ≡ false
      → ("grub_password" == k) ≡ false
      → lookup k (from_accounts node) ≡ none
  no_accounts a g =
      skip_text k "admin_user" node.admin_user _ a
      ∙ none_text k "grub_password" node.grub_password g

  no_ntp : ("ntp_servers" == k) ≡ false → lookup k (from_ntp node) ≡ lookup k (from_accounts node)
  no_ntp ne = skip_list k "ntp_servers" node.ntp_servers _ ne

  no_domain :
      ("ptp_domain_number" == k) ≡ false
      → ("timemaster_ptp_domain_number" == k) ≡ false
      → ("ptp_status_vsock_domain_number" == k) ≡ false
      → lookup k (from_domain node) ≡ lookup k (from_ntp node)
  no_domain e f g = skip_domain k node.ptp_domain_number _ e f g

  no_ptp : ("ptp_interface" == k) ≡ false → lookup k (from_ptp node) ≡ lookup k (from_domain node)
  no_ptp ne = skip_text k "ptp_interface" node.ptp_interface _ ne

  no_dns : ("dns_servers" == k) ≡ false → lookup k (from_dns node) ≡ lookup k (from_ptp node)
  no_dns ne = skip_list k "dns_servers" node.dns_servers _ ne

  no_gateway :
      ("gateway_addr" == k) ≡ false → lookup k (from_gateway node) ≡ lookup k (from_dns node)
  no_gateway ne = skip_text k "gateway_addr" node.gateway_addr _ ne

-- The texts that are written are not empty.
pub record IsFilled (node : NodeConfig) : Type 0 where
  pub gateway : filled node.gateway_addr ≡ true
  pub ptp : filled node.ptp_interface ≡ true
  pub admin : filled node.admin_user ≡ true
  pub grub : filled node.grub_password ≡ true

module _ (show : Value → String) (node : NodeConfig) (h : IsFilled node) where
  pub read_modelled :
      let vars = modelled_vars node in
      (lookup "ansible_host" vars ≡ some (Value.str node.ansible_host))
      × (lookup "network_interface" vars ≡ some (Value.str node.network_interface))
      × (lookup "subnet" vars ≡ some (Value.int (pos node.subnet)))
      × (optional_str show (lookup "gateway_addr" vars) ≡ node.gateway_addr)
      × (as_list show (lookup "dns_servers" vars) ≡ some node.dns_servers)
      × (optional_str show (lookup "ptp_interface" vars) ≡ node.ptp_interface)
      × (int_or_none (lookup "ptp_domain_number" vars) ≡ as_int node.ptp_domain_number)
      × (as_list show (lookup "ntp_servers" vars) ≡ some node.ntp_servers)
      × (optional_str show (lookup "admin_user" vars) ≡ node.admin_user)
      × (optional_str show (lookup "grub_password" vars) ≡ node.grub_password)
      × (lookup "isolcpus" vars ≡ none)
  unfolding lookup modelled_vars
  read_modelled = (
    refl,
    refl,
    refl,
    read_text show "gateway_addr" node.gateway_addr (from_dns node) h.gateway (
        no_dns "gateway_addr" node refl
        ∙ no_ptp "gateway_addr" node refl
        ∙ no_domain "gateway_addr" node refl refl refl
        ∙ no_ntp "gateway_addr" node refl
        ∙ no_accounts "gateway_addr" node refl refl),
    ap (as_list show) (no_gateway "dns_servers" node refl)
        ∙ read_list show "dns_servers" node.dns_servers (from_ptp node) (
            no_ptp "dns_servers" node refl
            ∙ no_domain "dns_servers" node refl refl refl
            ∙ no_ntp "dns_servers" node refl
            ∙ no_accounts "dns_servers" node refl refl),
    ap (optional_str show) (no_gateway "ptp_interface" node refl ∙ no_dns "ptp_interface" node refl)
        ∙ read_text show "ptp_interface" node.ptp_interface (from_domain node) h.ptp (
            no_domain "ptp_interface" node refl refl refl
            ∙ no_ntp "ptp_interface" node refl
            ∙ no_accounts "ptp_interface" node refl refl),
    ap int_or_none (
          no_gateway "ptp_domain_number" node refl
          ∙ no_dns "ptp_domain_number" node refl
          ∙ no_ptp "ptp_domain_number" node refl)
        ∙ read_domain node.ptp_domain_number (from_ntp node)
            (no_ntp "ptp_domain_number" node refl ∙ no_accounts "ptp_domain_number" node refl refl),
    ap (as_list show) (
          no_gateway "ntp_servers" node refl
          ∙ no_dns "ntp_servers" node refl
          ∙ no_ptp "ntp_servers" node refl
          ∙ no_domain "ntp_servers" node refl refl refl)
        ∙ read_list show "ntp_servers" node.ntp_servers (from_accounts node)
            (no_accounts "ntp_servers" node refl refl),
    ap (optional_str show) (
          no_gateway "admin_user" node refl
          ∙ no_dns "admin_user" node refl
          ∙ no_ptp "admin_user" node refl
          ∙ no_domain "admin_user" node refl refl refl
          ∙ no_ntp "admin_user" node refl)
        ∙ read_text show "admin_user" node.admin_user (text_var "grub_password" node.grub_password)
            h.admin (none_text "admin_user" "grub_password" node.grub_password refl),
    ap (optional_str show) (
          no_gateway "grub_password" node refl
          ∙ no_dns "grub_password" node refl
          ∙ no_ptp "grub_password" node refl
          ∙ no_domain "grub_password" node refl refl refl
          ∙ no_ntp "grub_password" node refl
          ∙ skip_text "grub_password" "admin_user" node.admin_user
              (text_var "grub_password" node.grub_password) refl
          ∙ ap (lookup "grub_password")
              (sym (append-nil (text_var "grub_password" node.grub_password))))
        ∙ read_text show "grub_password" node.grub_password [] h.grub refl,
    no_gateway "isolcpus" node refl
        ∙ no_dns "isolcpus" node refl
        ∙ no_ptp "isolcpus" node refl
        ∙ no_domain "isolcpus" node refl refl refl
        ∙ no_ntp "isolcpus" node refl
        ∙ no_accounts "isolcpus" node refl refl,
  )
