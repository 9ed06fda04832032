-- ===== src/Network/Tests.antt =====
-- Runs of pkg/network over a kernel in memory, and the theorems at concrete data.
use Prim.Native.Nat.{ℕ, ◌%◌}
use purenet.Base.{
  ◌≡◌, refl, inl, pos, false, none, some, List, [], ◌∷◌, Str, codes, str_dec, length, take, arith,
}
use purenet.Errors.{GoError, ok, err}
use purenet.Inet.{Ip, IpNet, Inet6, to4, parse_cidr, family, parse4, scan, cut_slash, decimal}
use purenet.Network.Kernel.{got, Link}
use purenet.Network.Memory.{
  Host, empty_host, memory, memory_links, memory_tables, memory_interfaces, net_dec, at_dec,
}
use purenet.Network.Vxlan.{
  vxlan_if_name, slice4, vtep_mac, setup_vxlan, add_vxlan_peer, del_vxlan_peer, route_key, arp_key,
}
use purenet.Network.Vxlan.Peers.{tunnel_target, add_vxlan_peer-tunnel_target, del_vxlan_peer-enoent}
use purenet.Network.Vxlan.Removal.{del_vxlan_peer-removed}
use purenet.Network.Memory.{memory_separate, memory_removal}
use purenet.Base.{◌≢◌}
use purenet.Network.Kernel.{Route}
use purenet.Network.Veth.{default_net, generate_host_veth_name, hex_string, setup_veth, delete_veth}
use purenet.Network.Vxlan.Setup.{IsSetUp, setup_vxlan-IsSetUp}
use purenet.Base.{ite}
use purenet.Network.Veth.Masquerade.{masquerade_rule}
use purenet.Network.Veth.Names.{generate_host_veth_name_clash}
use purenet.Network.Veth.Teardown.{delete_veth_again}

-- No IPv6 text is read.
abbrev no_ip6 : Inet6
no_ip6 = record { parse_ip6 = λ s. []; parse_cidr6 = λ s. none }

-- 10.244.2.0/24, behind 192.168.0.7.
abbrev remote : IpNet
remote = record { ip = 10 ∷ 244 ∷ 2 ∷ 0 ∷ []; ones = 24; bits = 32 }

abbrev node_ip : Ip
node_ip = 192 ∷ 168 ∷ 0 ∷ 7 ∷ []

abbrev gateway_link : Link
gateway_link = record { name = vxlan_if_name; index = 7; up = false }

abbrev host : Host
host = record empty_host { links = (vxlan_if_name, (7, false)) ∷ [] }

abbrev everything_added : (add_vxlan_peer memory remote node_ip host).0 ≡ ok tt
unfolding add_vxlan_peer net_dec at_dec to4 vtep_mac
everything_added = refl

abbrev found : memory.link_by_name vxlan_if_name host ≡ got gateway_link
unfolding str_dec
found = refl

add_vxlan_peer-tunnel_target_example :
    tunnel_target memory memory_tables (add_vxlan_peer memory remote node_ip host).1 remote
    ≡ some (slice4 node_ip)
add_vxlan_peer-tunnel_target_example =
    add_vxlan_peer-tunnel_target memory memory_tables remote node_ip gateway_link host found
      (inl refl) everything_added

-- The peer's route is there, and its ARP entry has gone before.
abbrev host_with_route : Host
host_with_route = (memory.route_add (route_key memory gateway_link remote) host).1

abbrev route_removed :
    (memory.route_del (route_key memory gateway_link remote) host_with_route).0 ≡ none
unfolding net_dec
route_removed = refl

abbrev found_too : memory.link_by_name vxlan_if_name host_with_route ≡ got gateway_link
unfolding str_dec
found_too = refl

abbrev arp_gone :
    let t = (memory.route_del (route_key memory gateway_link remote) host_with_route).1 in
    memory.neigh_del (arp_key memory gateway_link remote) t
    ≡ (some (codes "no such file or directory"), t)
unfolding net_dec
arp_gone = refl

del_vxlan_peer-enoent_example :
    (e : GoError) × (del_vxlan_peer memory remote node_ip host_with_route
      ≡ (err e, (memory.route_del (route_key memory gateway_link remote) host_with_route).1))
del_vxlan_peer-enoent_example =
    del_vxlan_peer-enoent memory memory_tables remote node_ip gateway_link host_with_route found_too
      route_removed arp_gone

-- The peer of the first test goes again.
abbrev with_peer : Host
with_peer = (add_vxlan_peer memory remote node_ip host).1

abbrev everything_removed : (del_vxlan_peer memory remote node_ip with_peer).0 ≡ ok tt
unfolding add_vxlan_peer del_vxlan_peer net_dec at_dec to4 vtep_mac str_dec
everything_removed = refl

abbrev still_there : memory.link_by_name vxlan_if_name with_peer ≡ got gateway_link
unfolding add_vxlan_peer str_dec net_dec
still_there = refl

del_vxlan_peer-removed_example :
    let s' = (del_vxlan_peer memory remote node_ip with_peer).1 in
    ((q : Route) → memory_tables.route s' remote ≡ some q → q.link_index ≢ 7)
    × (memory_tables.arp s' 7 (slice4 remote.ip) ≡ none)
    × (memory_tables.fdb s' 7 (vtep_mac (slice4 remote.ip)) ≡ none)
del_vxlan_peer-removed_example =
    del_vxlan_peer-removed memory memory_tables memory_separate memory_removal remote node_ip
      gateway_link with_peer still_there everything_removed

-- A stand-in for the digest, in which only the last byte tells texts apart, by their length.
abbrev sha1 : Str → List ℕ
sha1 s =
    171
    ∷ 205
    ∷ 0
    ∷ 1
    ∷ 2
    ∷ 3
    ∷ 4
    ∷ 5
    ∷ 6
    ∷ 7
    ∷ 8
    ∷ 9
    ∷ 10
    ∷ 11
    ∷ 12
    ∷ 13
    ∷ 14
    ∷ 15
    ∷ 16
    ∷ (length s % 256)
    ∷ []

veth_name : generate_host_veth_name sha1 (codes "c1") ≡ codes "vethabcd0001020"
unfolding generate_host_veth_name hex_string
veth_name = refl

abbrev same_names :
    generate_host_veth_name sha1 (codes "c1") ≡ generate_host_veth_name sha1 (codes "c22")
unfolding generate_host_veth_name hex_string
same_names = refl

generate_host_veth_name_clash_example : take 5 (sha1 (codes "c1")) ≡ take 5 (sha1 (codes "c22"))
generate_host_veth_name_clash_example =
    generate_host_veth_name_clash sha1 (codes "c1") (codes "c22") (λ s. (refl, ground arith))
      same_names

abbrev cont_link : Link
cont_link = record { name = codes "eth0"; index = 7; up = false }

abbrev host_link : Link
host_link = record { name = codes "vethabcd0001020"; index = 7; up = false }

abbrev pair_made :
    (setup_veth memory sha1 (codes "eth0") (codes "c1") (pos 1500) empty_host).0
    ≡ ok (host_link, cont_link)
unfolding setup_veth str_dec
pair_made = refl

abbrev link_deleted : (delete_veth memory vxlan_if_name host).0 ≡ ok tt
unfolding delete_veth str_dec
link_deleted = refl

delete_veth_again_example :
    let s' = (delete_veth memory vxlan_if_name host).1 in
    delete_veth memory vxlan_if_name s' ≡ (ok tt, s')
delete_veth_again_example = delete_veth_again memory vxlan_if_name host memory_links link_deleted

abbrev all_set_up : (setup_vxlan memory remote empty_host).0 ≡ ok tt
unfolding setup_vxlan net_dec str_dec
all_set_up = refl

setup_vxlan-IsSetUp_example :
    IsSetUp memory memory_interfaces remote (setup_vxlan memory remote empty_host).1
setup_vxlan-IsSetUp_example =
    setup_vxlan-IsSetUp memory memory_interfaces remote empty_host all_set_up

-- The text of the default route's block is read as the block.
default_net_read : parse_cidr no_ip6 (codes "0.0.0.0/0") ≡ some default_net
unfolding parse_cidr family parse4 scan cut_slash decimal
default_net_read = refl

-- An earlier run was for another CIDR.
abbrev masqueraded : Host
masqueraded = record empty_host {
  rules = λ chain.
      ite (str_dec chain (codes "postrouting")) (masquerade_rule (codes "10.1.0.0/16") ∷ []) [];
}
