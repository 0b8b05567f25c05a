-- ===== src/Inventory/Discovery/Gateways.antt =====
-- The gateway that a machine proposes for itself, from its table of routes.
use insatomcat_webui.Base.{
  ℕ, String, ◌==◌, ◌≡◌, sym, ap, ◌∙◌, inl, inr, Option, none, some, List, Bool-cases, Value, first,
}
use insatomcat_webui.Hosts.Tree.{Tree}
use insatomcat_webui.Hosts.Route.Gateways.{IsIpv4}
use insatomcat_webui.Hosts.Network.{NetworkInterface, NetworkReading, CommandResult, network}
use insatomcat_webui.Hosts.Network.Gateway.{network-IsIpv4}
use insatomcat_webui.Inventory.Model.{NodeConfig}
use insatomcat_webui.Inventory.Discovery.{proposed, with_admin, with_address, is_admin, address_in}

abbrev gateway_of : Option NodeConfig → Option String
gateway_of none = none
gateway_of (some node) = node.gateway_addr

module _ (n : NetworkReading) (isolated : List ℕ) (online : Option ℕ) (node : NodeConfig) where
  with_address-gateway :
      (admin : NetworkInterface) (address : Option String)
      → with_address n isolated online admin address ≡ some node
      → node.gateway_addr ≡ n.default_gateway
  with_address-gateway admin none e = absurd (cc e)
  with_address-gateway admin (some address) e = elim (Bool-cases (address == "")) [
    | inl b ↦ absurd (let k = rw b at e in cc k)
    | inr b ↦ sym (ap gateway_of (rw b at e))
  ]

  with_admin-gateway :
      (admin : Option NetworkInterface)
      → with_admin n isolated online admin ≡ some node
      → node.gateway_addr ≡ n.default_gateway
  with_admin-gateway none e = absurd (cc e)
  with_admin-gateway (some admin) e = with_address-gateway admin (address_in admin.addresses) e

  proposed-gateway : proposed n isolated online ≡ some node → node.gateway_addr ≡ n.default_gateway
  unfolding proposed
  proposed-gateway e =
      with_admin-gateway (first (is_admin n.default_route_interface) n.interfaces) e

-- Whatever the files and the command answer that a machine is read from, a gateway that it proposes for
-- itself is the text of an IPv4 address.
pub proposed-IsIpv4 :
    (tree : Tree) (json : String → Option Value) (result : CommandResult) (isolated : List ℕ)
    (online : Option ℕ) (r : NetworkReading) (node : NodeConfig) (g : String)
    → network tree json result ≡ some r
    → proposed r isolated online ≡ some node
    → node.gateway_addr ≡ some g
    → IsIpv4 g
proposed-IsIpv4 tree json result isolated online r node g read proposes e =
    network-IsIpv4 tree json result r g read
      (sym (proposed-gateway r isolated online node proposes) ∙ e)
