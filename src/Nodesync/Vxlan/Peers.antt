-- ===== src/Nodesync/Vxlan/Peers.antt =====
-- The three kernel entries of a peer, and that programming and removing one leaves the others.
use purenet.Base.{ℕ, ◌≡◌, ◌≢◌, ◌⊎◌, ◌∙◌, inl, inr, refl, Option, none, some, [], ◌∷◌, Str, arith}
use purenet.Errors.{ok}
use purenet.Inet.{Ip, IpNet}
use purenet.Network.Kernel.{got, Reply-cases, Link, Kernel}
use purenet.Network.Keeps.{
  Keeps, query-Keeps, exec_unless-Keeps, exec-Keeps, then-Keeps, bind-Keeps,
}
use purenet.Network.Vxlan.{
  vxlan_if_name, slice4, is_eexist_err, is_enoent_err, vtep_mac, peer_route, peer_arp, peer_fdb,
  route_key, arp_key, fdb_key, add_vxlan_peer, del_vxlan_peer,
}
use purenet.Network.Vxlan.Peers.{Tables}
use purenet.Network.Vxlan.Separate.{Separate}

module _ (K : Kernel) (T : Tables K) where
  -- The interface, and on it the entries that lead from a peer's block to its node.
  pub record Entries (block : IpNet) (node_ip : Ip) (s : K.State) : Type 0 where
    pub link : Link
    pub found : K.link_by_name vxlan_if_name s ≡ got link
    pub route : T.route s block ≡ some (peer_route K link block)
    pub arp : T.arp s link.index (slice4 block.ip) ≡ some (vtep_mac (slice4 block.ip))
    pub fdb : T.fdb s link.index (vtep_mac (slice4 block.ip)) ≡ some (slice4 node_ip)

  -- Different keys in all three tables.
  abbrev pub Distinct : IpNet → IpNet → Type 0
  Distinct b c =
      (b ≢ c) × (slice4 b.ip ≢ slice4 c.ip) × (vtep_mac (slice4 b.ip) ≢ vtep_mac (slice4 c.ip))

  -- Nothing but what an earlier run of the agent may have left.
  abbrev pub NoOther : IpNet → K.State → Type 0
  NoOther block s =
      (link : Link)
      → K.link_by_name vxlan_if_name s ≡ got link
      → (T.route s block ≡ none) ⊎ (T.route s block ≡ some (peer_route K link block))

  -- A call that leaves the interface and the entries of a block alone.
  call-Entries :
      (block : IpNet) (node_ip : Ip) (f : K.State → Option Str × K.State)
      → ((s : K.State)
          → (K.link_by_name vxlan_if_name (f s).1 ≡ K.link_by_name vxlan_if_name s)
            × (T.route (f s).1 block ≡ T.route s block)
            × ((i : ℕ)
                → (T.arp (f s).1 i (slice4 block.ip) ≡ T.arp s i (slice4 block.ip))
                  × (T.fdb (f s).1 i (vtep_mac (slice4 block.ip))
                      ≡ T.fdb s i (vtep_mac (slice4 block.ip)))))
      → (s : K.State) → Entries block node_ip s
      → Entries block node_ip (f s).1
  call-Entries block node_ip f same s e =
      let (links, routes, tables) = same s in
      record {
        link = e.link;
        found = links ∙ e.found;
        route = routes ∙ e.route;
        arp = (tables e.link.index).0 ∙ e.arp;
        fdb = (tables e.link.index).1 ∙ e.fdb;
      }

  module _ (N : Separate K T) where
    -- An `AddVXLANPeer` without an error leaves the entries of the block.
    pub add_vxlan_peer-Entries :
        (block : IpNet) (node_ip : Ip) (s : K.State)
        → NoOther block s
        → (add_vxlan_peer K block node_ip s).0 ≡ ok tt
        → Entries block node_ip (add_vxlan_peer K block node_ip s).1
    unfolding add_vxlan_peer
    add_vxlan_peer-Entries block node_ip s clear done =
        elim (Reply-cases (K.link_by_name vxlan_if_name s)) [
          | inr (e, missing) ↦ ground (arith, missing, done)
          | inl (link, found) ↦
              let r = peer_route K link block in
              let s1 = (K.route_add r s).1 in
              let arp_entry = peer_arp K link block in
              let s2 = (K.neigh_set arp_entry s1).1 in
              let fdb_entry = peer_fdb K link block node_ip in
              let links : (K.link_by_name vxlan_if_name s1 ≡ K.link_by_name vxlan_if_name s)
                  × (K.link_by_name vxlan_if_name s2 ≡ K.link_by_name vxlan_if_name s1)
                  × (K.link_by_name vxlan_if_name (K.neigh_set fdb_entry s2).1
                      ≡ K.link_by_name vxlan_if_name s2) =
                (
                  N.link-route_add r s vxlan_if_name,
                  N.link-neigh_set arp_entry s1 vxlan_if_name,
                  N.link-neigh_set fdb_entry s2 vxlan_if_name,
                ) in
              record {
                link = link;
                found = ground (arith, found, links);
                route = ground (
                  arith,
                  found,
                  done,
                  clear link found,
                  T.route-route_add r s,
                  T.route-route_add_exists r s,
                  T.route-neigh_set arp_entry s1 block,
                  T.route-neigh_set fdb_entry s2 block,
                );
                arp = ground (
                  arith,
                  found,
                  done,
                  T.arp-neigh_set arp_entry s1 refl,
                  T.arp-neigh_set_bridge fdb_entry s2 link.index (slice4 block.ip) refl,
                );
                fdb = ground (arith, found, done, T.fdb-neigh_set fdb_entry s2 refl);
              }
        ]

    -- Whatever comes of it, `AddVXLANPeer` leaves the entries of another block.
    pub add_vxlan_peer-Entries_other :
        (other : IpNet) (other_ip : Ip) (block : IpNet) (node_ip : Ip)
        → Distinct other block
        → Keeps (Entries other other_ip) (add_vxlan_peer K block node_ip)
    unfolding add_vxlan_peer
    add_vxlan_peer-Entries_other other other_ip block node_ip (nets, ips, macs) =
        let Q = Entries other other_ip in
        let ip = slice4 other.ip in
        let mac = vtep_mac (slice4 other.ip) in
        bind-Keeps Q _ _
          (query-Keeps Q (K.link_by_name vxlan_if_name) "find %s" (vxlan_if_name ∷ []))
          (λ link.
            let r = peer_route K link block in
            let arp_entry = peer_arp K link block in
            let fdb_entry = peer_fdb K link block node_ip in
            then-Keeps Q _ _
              (exec_unless-Keeps Q is_eexist_err (K.route_add r) "add route %s" (block.ip ∷ []) (
                call-Entries other other_ip (K.route_add r) (λ s. (
                  N.link-route_add r s vxlan_if_name,
                  N.route-route_add_other r s other nets,
                  λ i. (N.arp-route_add r s i ip, N.fdb-route_add r s i mac),
                ))))
              (then-Keeps Q _ _
                (exec-Keeps Q (K.neigh_set arp_entry) "add ARP entry for %s" (slice4 block.ip ∷ [])
                  (call-Entries other other_ip (K.neigh_set arp_entry) (λ s. (
                    N.link-neigh_set arp_entry s vxlan_if_name,
                    T.route-neigh_set arp_entry s other,
                    λ i. (
                      N.arp-neigh_set_other arp_entry s i ip ips,
                      N.fdb-neigh_set_other arp_entry s i mac macs,
                    ),
                  ))))
                (exec-Keeps Q (K.neigh_set fdb_entry) "add FDB entry for %s" (node_ip ∷ []) (
                  call-Entries other other_ip (K.neigh_set fdb_entry) (λ s. (
                    N.link-neigh_set fdb_entry s vxlan_if_name,
                    T.route-neigh_set fdb_entry s other,
                    λ i. (
                      T.arp-neigh_set_bridge fdb_entry s i ip refl,
                      N.fdb-neigh_set_other fdb_entry s i mac macs,
                    ),
                  ))))))

    -- The same for `DelVXLANPeer`.
    pub del_vxlan_peer-Entries_other :
        (other : IpNet) (other_ip : Ip) (block : IpNet) (node_ip : Ip)
        → Distinct other block
        → Keeps (Entries other other_ip) (del_vxlan_peer K block node_ip)
    unfolding del_vxlan_peer
    del_vxlan_peer-Entries_other other other_ip block node_ip (nets, ips, macs) =
        let Q = Entries other other_ip in
        let ip = slice4 other.ip in
        let mac = vtep_mac (slice4 other.ip) in
        bind-Keeps Q _ _
          (query-Keeps Q (K.link_by_name vxlan_if_name) "find %s" (vxlan_if_name ∷ []))
          (λ link.
            let r = route_key K link block in
            let arp_entry = arp_key K link block in
            let fdb_entry = fdb_key K link block node_ip in
            then-Keeps Q _ _
              (exec_unless-Keeps Q is_enoent_err (K.route_del r) "del route %s" (block.ip ∷ []) (
                call-Entries other other_ip (K.route_del r) (λ s. (
                  N.link-route_del r s vxlan_if_name,
                  N.route-route_del_other r s other nets,
                  λ i. (N.arp-route_del r s i ip, N.fdb-route_del r s i mac),
                ))))
              (then-Keeps Q _ _
                (exec_unless-Keeps Q is_enoent_err (K.neigh_del arp_entry) "del ARP entry for %s"
                  (slice4 block.ip ∷ [])
                  (call-Entries other other_ip (K.neigh_del arp_entry) (λ s. (
                    N.link-neigh_del arp_entry s vxlan_if_name,
                    N.route-neigh_del arp_entry s other,
                    λ i. (
                      N.arp-neigh_del_other arp_entry s i ip ips,
                      N.fdb-neigh_del_v4 arp_entry s i mac refl,
                    ),
                  ))))
                (exec_unless-Keeps Q is_enoent_err (K.neigh_del fdb_entry) "del FDB entry for %s"
                  (node_ip ∷ [])
                  (call-Entries other other_ip (K.neigh_del fdb_entry) (λ s. (
                    N.link-neigh_del fdb_entry s vxlan_if_name,
                    N.route-neigh_del fdb_entry s other,
                    λ i. (
                      N.arp-neigh_del_bridge fdb_entry s i ip refl,
                      N.fdb-neigh_del_other fdb_entry s i mac macs,
                    ),
                  ))))))
