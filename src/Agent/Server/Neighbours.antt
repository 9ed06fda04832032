-- ===== src/Agent/Server/Neighbours.antt =====
-- A host where a pod is wired already, for the tests.
use purenet.Base.{refl, true, none, some, [], ◌∷◌, Str, codes, str_dec, ite, arith}
use purenet.Inet.{Ip4, bytes4, to4}
use purenet.Network.Kernel.{Link, Netns, netns, host_netns}
use purenet.Network.Memory.{Host, empty_host, net_dec}
use purenet.Network.Spaces.{Spaces, spaces, spaces_namespaces}
use purenet.Network.Veth.{proxy_arp_path, host_route, default_net, gateway_route}
use purenet.Agent.Server.Wiring.{IsWired, pod_address}
use purenet.Agent.Server.Sample.{pool}

abbrev pub ip6 : Ip4
ip6 = record { b0 = 10; b1 = 244; b2 = 1; b3 = 6 }

abbrev pub other_name : Str
other_name = codes "vethother"

abbrev host_end : Link
host_end = record { name = other_name; index = 3; up = true }

abbrev host_side : Host
host_side = record empty_host {
  links = (other_name, (3, true)) ∷ [];
  files = (proxy_arp_path other_name, codes "1") ∷ [];
  routes = λ dst.
      ite (net_dec (host_route spaces host_end (bytes4 ip6)).dst dst)
        (some (host_route spaces host_end (bytes4 ip6))) none;
}

abbrev pod_side : Host
pod_side = record empty_host {
  links = (codes "eth0", (4, true)) ∷ [];
  addrs = record { net = pod_address spaces spaces_namespaces pool.subnet ip6 } ∷ [];
  owned = λ n net. true;
  routes = λ dst.
      ite (net_dec default_net dst) (some (gateway_route spaces default_net pool.gateway)) none;
}

abbrev tables : Netns → Host
tables host_netns = host_side
tables (netns n) = pod_side

abbrev pub inhabited : Spaces
inhabited = record { current = host_netns; hosts = tables }

pub inhabited-IsWired :
    IsWired spaces_namespaces inhabited
      (netns 2)
      other_name
      (codes "eth0")
      pool.subnet
      ip6
      pool.gateway
unfolding str_dec net_dec to4
inhabited-IsWired = record {
  home = refl;
  host_side = record {
    end_up = record { device = host_end; found = refl; up = refl };
    arp = refl;
    routed = refl;
  };
  pod_side = record {
    end_up = record {
      device = record { name = codes "eth0"; index = 4; up = true };
      found = refl;
      up = refl;
    };
    assigned = (refl, λ e. ground (arith, e));
    routed = refl;
  };
}
