-- ===== src/Network/Vxlan/Peers.antt =====
-- What `AddVXLANPeer` and `DelVXLANPeer` do to the kernel's tables.
use purenet.Base.{ℕ, ◌≡◌, ◌≢◌, ◌⊎◌, refl, Option, none, some, Str, codes, str_dec, [], ◌∷◌, arith}
use purenet.Errors.{GoError, external, wrapf, ok, err}
use purenet.Inet.{Ip, IpNet}
use purenet.Network.Kernel.{got, Link, Route, Neigh, unspecified, bridge, Kernel}
use purenet.Network.Vxlan.Defs.{
  vxlan_if_name, slice4, peer_route, peer_arp, peer_fdb, route_key, arp_key, add_vxlan_peer,
  del_vxlan_peer,
}

-- The tables, and what is documented of the calls: a route is added only where none has its
-- destination, else the call says "file exists" and changes no route; `NeighSet` is an upsert in
-- the table of its family.
pub record Tables (K : Kernel) : Type 0 where
  pub route : K.State → IpNet → Option Route
  pub arp : K.State → ℕ → Ip → Option Str
  pub fdb : K.State → ℕ → Str → Option Ip
  pub route-route_add :
      (r : Route) (s : K.State)
      → (K.route_add r s).0 ≡ none
      → route (K.route_add r s).1 r.dst ≡ some r
  pub route-route_add_exists :
      (r : Route) (s : K.State)
      → (K.route_add r s).0 ≡ some (codes "file exists")
      → (route s r.dst ≢ none) × (route (K.route_add r s).1 r.dst ≡ route s r.dst)
  pub arp-neigh_set :
      (n : Neigh) (s : K.State)
      → n.family ≡ unspecified
      → (K.neigh_set n s).0 ≡ none
      → arp (K.neigh_set n s).1 n.link_index n.ip ≡ some n.hardware_addr
  pub fdb-neigh_set :
      (n : Neigh) (s : K.State)
      → n.family ≡ bridge
      → (K.neigh_set n s).0 ≡ none
      → fdb (K.neigh_set n s).1 n.link_index n.hardware_addr ≡ some n.ip
  pub route-neigh_set :
      (n : Neigh) (s : K.State) (dst : IpNet) → route (K.neigh_set n s).1 dst ≡ route s dst
  pub arp-neigh_set_bridge :
      (n : Neigh) (s : K.State) (i : ℕ) (ip : Ip)
      → n.family ≡ bridge
      → arp (K.neigh_set n s).1 i ip ≡ arp s i ip

module _ (K : Kernel) (T : Tables K) where
  -- Where the tunnel sends a packet for a block: the route's gateway, its MAC address, and the
  -- outer address for that.
  abbrev pub tunnel_target : K.State → IpNet → Option Ip
  tunnel_target s dst = elim (T.route s dst) [
    | none ↦ none
    | some r ↦ elim (T.arp s r.link_index r.gw) [
      | none ↦ none
      | some mac ↦ T.fdb s r.link_index mac
    ]
  ]

  -- Where the interface is there, after an `AddVXLANPeer` that succeeds, packets for the peer's
  -- block go to the node's address, whether the block had no route before or the one of an earlier
  -- run.
  pub add_vxlan_peer-tunnel_target :
      (remote : IpNet) (node_ip : Ip) (link : Link) (s : K.State)
      → K.link_by_name vxlan_if_name s ≡ got link
      → (T.route s remote ≡ none) ⊎ (T.route s remote ≡ some (peer_route K link remote))
      → (add_vxlan_peer K remote node_ip s).0 ≡ ok tt
      → tunnel_target (add_vxlan_peer K remote node_ip s).1 remote ≡ some (slice4 node_ip)
  unfolding add_vxlan_peer
  add_vxlan_peer-tunnel_target remote node_ip link s found known done =
      let r = peer_route K link remote in
      let s1 = (K.route_add r s).1 in
      let arp_entry = peer_arp K link remote in
      let s2 = (K.neigh_set arp_entry s1).1 in
      let fdb_entry = peer_fdb K link remote node_ip in
      ground (
        arith,
        T.route-route_add r s,
        T.route-route_add_exists r s,
        T.arp-neigh_set arp_entry s1 refl,
        T.fdb-neigh_set fdb_entry s2 refl,
        T.route-neigh_set arp_entry s1 remote,
        T.route-neigh_set fdb_entry s2 remote,
        T.arp-neigh_set_bridge fdb_entry s2 link.index (slice4 remote.ip) refl,
      )

  -- "no such file or directory" (ENOENT) for the deletion of the ARP entry is an error of
  -- `DelVXLANPeer`, which stops there: all that has changed is the route.
  pub del_vxlan_peer-enoent :
      (remote : IpNet) (node_ip : Ip) (link : Link) (s : K.State)
      → K.link_by_name vxlan_if_name s ≡ got link
      → (K.route_del (route_key K link remote) s).0 ≡ none
      → (let t = (K.route_del (route_key K link remote) s).1 in
          K.neigh_del (arp_key K link remote) t ≡ (some (codes "no such file or directory"), t))
      → (e : GoError) × (del_vxlan_peer K remote node_ip s
          ≡ (err e, (K.route_del (route_key K link remote) s).1))
  unfolding del_vxlan_peer str_dec
  del_vxlan_peer-enoent remote node_ip link s found removed gone = (
    wrapf "del ARP entry for %s" (slice4 remote.ip ∷ [])
        (external (codes "no such file or directory")),
    ground (arith, gone),
  )
