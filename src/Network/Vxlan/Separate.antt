-- ===== src/Network/Vxlan/Separate.antt =====
-- That the calls on a peer's entries do not reach further.
use purenet.Base.{ℕ, ◌≡◌, ◌≢◌, Str}
use purenet.Inet.{Ip, IpNet}
use purenet.Network.Kernel.{Route, Neigh, v4, bridge, Kernel}
use purenet.Network.Vxlan.Peers.{Tables}

-- What is documented of the calls: each changes the entry of its key and no other, of one table,
-- and no link.
pub record Separate (K : Kernel) (T : Tables K) : Type 0 where
  pub link-route_add :
      (r : Route) (s : K.State) (n : Str)
      → K.link_by_name n (K.route_add r s).1 ≡ K.link_by_name n s
  pub link-route_del :
      (r : Route) (s : K.State) (n : Str)
      → K.link_by_name n (K.route_del r s).1 ≡ K.link_by_name n s
  pub link-neigh_set :
      (e : Neigh) (s : K.State) (n : Str)
      → K.link_by_name n (K.neigh_set e s).1 ≡ K.link_by_name n s
  pub link-neigh_del :
      (e : Neigh) (s : K.State) (n : Str)
      → K.link_by_name n (K.neigh_del e s).1 ≡ K.link_by_name n s
  pub route-route_add_other :
      (r : Route) (s : K.State) (dst : IpNet)
      → dst ≢ r.dst
      → T.route (K.route_add r s).1 dst ≡ T.route s dst
  pub route-route_del_other :
      (r : Route) (s : K.State) (dst : IpNet)
      → dst ≢ r.dst
      → T.route (K.route_del r s).1 dst ≡ T.route s dst
  pub route-neigh_del :
      (e : Neigh) (s : K.State) (dst : IpNet) → T.route (K.neigh_del e s).1 dst ≡ T.route s dst
  pub arp-route_add :
      (r : Route) (s : K.State) (i : ℕ) (ip : Ip) → T.arp (K.route_add r s).1 i ip ≡ T.arp s i ip
  pub arp-route_del :
      (r : Route) (s : K.State) (i : ℕ) (ip : Ip) → T.arp (K.route_del r s).1 i ip ≡ T.arp s i ip
  pub arp-neigh_set_other :
      (e : Neigh) (s : K.State) (i : ℕ) (ip : Ip)
      → ip ≢ e.ip
      → T.arp (K.neigh_set e s).1 i ip ≡ T.arp s i ip
  pub arp-neigh_del_other :
      (e : Neigh) (s : K.State) (i : ℕ) (ip : Ip)
      → ip ≢ e.ip
      → T.arp (K.neigh_del e s).1 i ip ≡ T.arp s i ip
  pub arp-neigh_del_bridge :
      (e : Neigh) (s : K.State) (i : ℕ) (ip : Ip)
      → e.family ≡ bridge
      → T.arp (K.neigh_del e s).1 i ip ≡ T.arp s i ip
  pub fdb-route_add :
      (r : Route) (s : K.State) (i : ℕ) (m : Str) → T.fdb (K.route_add r s).1 i m ≡ T.fdb s i m
  pub fdb-route_del :
      (r : Route) (s : K.State) (i : ℕ) (m : Str) → T.fdb (K.route_del r s).1 i m ≡ T.fdb s i m
  pub fdb-neigh_set_other :
      (e : Neigh) (s : K.State) (i : ℕ) (m : Str)
      → m ≢ e.hardware_addr
      → T.fdb (K.neigh_set e s).1 i m ≡ T.fdb s i m
  pub fdb-neigh_del_other :
      (e : Neigh) (s : K.State) (i : ℕ) (m : Str)
      → m ≢ e.hardware_addr
      → T.fdb (K.neigh_del e s).1 i m ≡ T.fdb s i m
  pub fdb-neigh_del_v4 :
      (e : Neigh) (s : K.State) (i : ℕ) (m : Str)
      → e.family ≡ v4
      → T.fdb (K.neigh_del e s).1 i m ≡ T.fdb s i m
