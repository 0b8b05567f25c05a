-- ===== src/Hosts/Network/Gateway.antt =====
-- The gateway of a reading of the network.
use insatomcat_webui.Base.{String, ◌≡◌, ap, ◌∙◌, Option, none, some, List, Value}
use insatomcat_webui.Hosts.Tree.{Tree}
use insatomcat_webui.Hosts.Route.{default_route}
use insatomcat_webui.Hosts.Route.Gateways.{IsIpv4, default_route-IsIpv4}
use insatomcat_webui.Hosts.Network.{
  NetworkReading, CommandResult, Addresses, network, network_in, with_addresses,
  interface_addresses,
}

read-IsIpv4 :
    (tree : Tree) (found : Addresses) (names : Option (List String)) (g : String)
    → (network_in tree (default_route tree) found names).default_gateway ≡ some g
    → IsIpv4 g
unfolding network_in
read-IsIpv4 tree found none g e = absurd (cc e)
read-IsIpv4 tree found (some names) g e = default_route-IsIpv4 tree g e

with_addresses-IsIpv4 :
    (tree : Tree) (found : Option Addresses) (r : NetworkReading) (g : String)
    → with_addresses tree found ≡ some r
    → r.default_gateway ≡ some g
    → IsIpv4 g
unfolding with_addresses
with_addresses-IsIpv4 tree none r g e h = absurd (cc e)
with_addresses-IsIpv4 tree (some found) r g e h =
    let k : network_in tree (default_route tree) found (tree.entries "sys/class/net") ≡ r = cc e in
    read-IsIpv4 tree found (tree.entries "sys/class/net") g
      (ap (λ (x : NetworkReading). x.default_gateway) k ∙ h)

pub network-IsIpv4 :
    (tree : Tree) (json : String → Option Value) (result : CommandResult) (r : NetworkReading)
    (g : String)
    → network tree json result ≡ some r
    → r.default_gateway ≡ some g
    → IsIpv4 g
unfolding network
network-IsIpv4 tree json result r g =
    with_addresses-IsIpv4 tree (interface_addresses json result) r g
