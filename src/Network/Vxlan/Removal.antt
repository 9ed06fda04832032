-- ===== src/Network/Vxlan/Removal.antt =====
-- What a `DelVXLANPeer` without an error leaves.
use purenet.Base.{
  ◌≡◌, ◌≢◌, ◌⊎◌, ◌∙◌, ap, inl, inr, refl, none, some, codes, str_dec, arith, Option-cases,
}
use purenet.Errors.{ok}
use purenet.Inet.{Ip, IpNet}
use purenet.Network.Kernel.{got, Link, Route, Neigh, v4, bridge, Kernel}
use purenet.Network.Vxlan.Defs.{
  vxlan_if_name, slice4, vtep_mac, route_key, arp_key, fdb_key, del_vxlan_peer,
}
use purenet.Network.Vxlan.Peers.{Tables}
use purenet.Network.Vxlan.Separate.{Separate}

-- What is documented of deletions: without an error the entry of the key is gone, and "no such
-- process" says that there was none. The key of a route has its destination and its link.
pub record Removal (K : Kernel) (T : Tables K) : Type 0 where
  pub route-route_del :
      (r : Route) (s : K.State)
      → ((K.route_del r s).0 ≡ none) ⊎ ((K.route_del r s).0 ≡ some (codes "no such process"))
      → (q : Route) → T.route (K.route_del r s).1 r.dst ≡ some q
      → q.link_index ≢ r.link_index
  pub arp-neigh_del :
      (e : Neigh) (s : K.State)
      → e.family ≡ v4
      → ((K.neigh_del e s).0 ≡ none) ⊎ ((K.neigh_del e s).0 ≡ some (codes "no such process"))
      → T.arp (K.neigh_del e s).1 e.link_index e.ip ≡ none
  pub fdb-neigh_del :
      (e : Neigh) (s : K.State)
      → e.family ≡ bridge
      → ((K.neigh_del e s).0 ≡ none) ⊎ ((K.neigh_del e s).0 ≡ some (codes "no such process"))
      → T.fdb (K.neigh_del e s).1 e.link_index e.hardware_addr ≡ none

module _ (K : Kernel) (T : Tables K) (N : Separate K T) (D : Removal K T) where
  -- Where the interface is there, after a `DelVXLANPeer` that succeeds, no route leads the
  -- peer's block to it, and the peer's two neighbour entries are gone.
  pub del_vxlan_peer-removed :
      (remote : IpNet) (node_ip : Ip) (link : Link) (s : K.State)
      → K.link_by_name vxlan_if_name s ≡ got link
      → (del_vxlan_peer K remote node_ip s).0 ≡ ok tt
      → let s' = (del_vxlan_peer K remote node_ip s).1 in
        ((q : Route) → T.route s' remote ≡ some q → q.link_index ≢ link.index)
        × (T.arp s' link.index (slice4 remote.ip) ≡ none)
        × (T.fdb s' link.index (vtep_mac (slice4 remote.ip)) ≡ none)
  unfolding del_vxlan_peer str_dec
  del_vxlan_peer-removed remote node_ip link s found done =
      let r = route_key K link remote in
      let s1 = (K.route_del r s).1 in
      let a = arp_key K link remote in
      let s2 = (K.neigh_del a s1).1 in
      let f = fdb_key K link remote node_ip in
      let ip = slice4 remote.ip in
      let one = Option-cases (K.route_del r s).0 in
      let two = Option-cases (K.neigh_del a s1).0 in
      let three = Option-cases (K.neigh_del f s2).0 in
      let gone : ((K.route_del r s).0 ≡ none)
          ⊎ ((K.route_del r s).0 ≡ some (codes "no such process")) =
        elim one [
          | inl e ↦ inl e
          | inr (e, h) ↦ elim (str_dec e (codes "no such process")) [
            | yes it ↦ inr (h ∙ ap some it)
            | no other ↦ ground (arith, found, done, h, other)
          ]
        ] in
      let kept : T.route (del_vxlan_peer K remote node_ip s).1 remote ≡ T.route s1 remote = ground (
        arith,
        found,
        done,
        one,
        two,
        three,
        N.route-neigh_del a s1 remote,
        N.route-neigh_del f s2 remote,
      ) in
      (
        λ q h. D.route-route_del r s gone q (ground (arith, h, kept)),
        ground (
          arith,
          found,
          done,
          one,
          two,
          three,
          D.arp-neigh_del a s1 refl,
          N.arp-neigh_del_bridge f s2 link.index ip refl,
        ),
        ground (arith, found, done, one, two, three, D.fdb-neigh_del f s2 refl),
      )
