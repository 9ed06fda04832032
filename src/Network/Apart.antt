-- ===== src/Network/Apart.antt =====
-- What calls for one link of a namespace leave alone of other links, and of other namespaces.
use purenet.Base.{◌≡◌, ◌≢◌, some, Str}
use purenet.Inet.{IpNet}
use purenet.Network.Kernel.{Link, Veth, Route, Netns, Kernel}
use purenet.Network.Namespaces.{Namespaces}
use purenet.Network.Veth.{proxy_arp_path}

-- What is documented: a pair is made in the caller's namespace, and a link is moved from there to
-- the one given, where it brings its own entry below /proc; a route that is there is not replaced.
pub record Apart (K : Kernel) (N : Namespaces K) : Type 0 where
  pub here-link_add_veth : (v : Veth) (s : K.State) → N.here (K.link_add_veth v s).1 ≡ N.here s
  pub net-link_add_veth_other :
      (v : Veth) (s : K.State) (n : Netns)
      → n ≢ N.here s
      → N.net (K.link_add_veth v s).1 n ≡ N.net s n
  pub here-link_set_ns :
      (l : Link) (m : Netns) (s : K.State) → N.here (K.link_set_ns l m s).1 ≡ N.here s
  pub net-link_set_ns_other :
      (l : Link) (m : Netns) (s : K.State) (n : Netns)
      → n ≢ N.here s
      → n ≢ m
      → N.net (K.link_set_ns l m s).1 n ≡ N.net s n
  pub link-link_set_ns_other :
      (l : Link) (m : Netns) (s : K.State) (name : Str)
      → m ≢ N.here s
      → name ≢ l.name
      → N.link (N.net (K.link_set_ns l m s).1 m) name ≡ N.link (N.net s m) name
  pub sysctl-link_set_ns_other :
      (l : Link) (m : Netns) (s : K.State) (name : Str)
      → m ≢ N.here s
      → name ≢ l.name
      → N.sysctl (N.net (K.link_set_ns l m s).1 m) (proxy_arp_path name)
        ≡ N.sysctl (N.net s m) (proxy_arp_path name)
  pub route-link_set_ns :
      (l : Link) (m : Netns) (s : K.State) (dst : IpNet)
      → m ≢ N.here s
      → N.route (N.net (K.link_set_ns l m s).1 m) dst ≡ N.route (N.net s m) dst
  pub link-set_up_other :
      (l : Link) (s : K.State) (name : Str)
      → name ≢ l.name
      → N.link (N.net (K.link_set_up l s).1 (N.here s)) name ≡ N.link (N.net s (N.here s)) name
  pub sysctl-write_file_other :
      (path text : Str) (s : K.State) (other : Str)
      → other ≢ path
      → N.sysctl (N.net (K.write_file path text s).1 (N.here s)) other
        ≡ N.sysctl (N.net s (N.here s)) other
  pub route-route_add_kept :
      (q : Route) (s : K.State) (dst : IpNet) (r : Route)
      → N.route (N.net s (N.here s)) dst ≡ some r
      → N.route (N.net (K.route_add q s).1 (N.here s)) dst ≡ some r
