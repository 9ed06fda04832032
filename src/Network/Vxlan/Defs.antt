-- ===== src/Network/Vxlan/Defs.antt =====
-- The VXLAN interface, and the three kernel entries of a peer.
use purenet.Base.{ℕ, Bool, true, false, none, some, [], ◌∷◌, Str, codes, str_dec, ite}
use purenet.Errors.{ok}
use purenet.Inet.{Ip, IpNet, bytes4, to4}
use purenet.Network.Kernel.{got, refused, Link, Route, Neigh, unspecified, v4, bridge, Kernel}
use purenet.Network.Action.{Action, query, exec, exec_unless, ◌>>=◌, ◌>>◌}

abbrev pub vxlan_if_name : Str
vxlan_if_name = codes "purenet-gw"

abbrev pub vxlan_vni : ℕ
vxlan_vni = 42

abbrev pub vxlan_port : ℕ
vxlan_port = 4789

-- `ip.To4()` as a slice.
abbrev pub slice4 : Ip → Ip
slice4 ip = elim (to4 ip) [ none ↦ [] | some a ↦ bytes4 a ]

unfoldable pub vtep_mac : Ip → Str
unfolding to4
vtep_mac pod_cidr_ip = elim (to4 pod_cidr_ip) [
  | none ↦ 0x02 ∷ 0x00 ∷ 0 ∷ 0 ∷ 0 ∷ 0 ∷ []
  | some a ↦ 0x02 ∷ 0x00 ∷ a.b0 ∷ a.b1 ∷ a.b2 ∷ a.b3 ∷ []
]

abbrev pub is_eexist_err : Str → Bool
is_eexist_err e = ite (str_dec e (codes "file exists")) true false

abbrev pub is_enoent_err : Str → Bool
is_enoent_err e = ite (str_dec e (codes "no such process")) true false

-- A host address, `/32`.
abbrev pub host_net : Ip → IpNet
host_net ip = record { ip = ip; ones = 32; bits = 32 }

module _ (K : Kernel) where
  open K use {
    State, link_by_name, link_add_vxlan, link_set_up, link_set_hardware_addr, addr_add, route_add,
    route_del, neigh_set, neigh_del,
  }

  -- The link is added only if it is not found.
  abbrev pub ensure_vxlan : Action State (Unit {0})
  ensure_vxlan s = elim (link_by_name vxlan_if_name s) [
    | got link ↦ (ok tt, s)
    | refused e ↦
        exec
          (link_add_vxlan (record {
            name = vxlan_if_name;
            vxlan_id = vxlan_vni;
            port = vxlan_port;
            learning = false;
          }))
          "create %s" (vxlan_if_name ∷ []) s
  ]

  unfoldable pub setup_vxlan : IpNet → Action State (Unit {0})
  setup_vxlan pod_cidr = do
    let vtep_ip = slice4 pod_cidr.ip
    let mac = vtep_mac vtep_ip
    ensure_vxlan
    link ← query (link_by_name vxlan_if_name) "find %s" (vxlan_if_name ∷ [])
    exec (link_set_hardware_addr link mac) "set MAC on %s" (vxlan_if_name ∷ [])
    exec_unless is_eexist_err (addr_add link (record { net = host_net vtep_ip }))
        "assign VTEP IP to %s" (vxlan_if_name ∷ [])
    exec (link_set_up link) "bring up %s" (vxlan_if_name ∷ [])

  abbrev pub peer_route : Link → IpNet → Route
  peer_route link remote = record {
    link_index = link.index;
    scope_link = false;
    dst = remote;
    gw = slice4 remote.ip;
    onlink = true;
  }

  abbrev pub peer_arp : Link → IpNet → Neigh
  peer_arp link remote = record {
    link_index = link.index;
    family = unspecified;
    permanent = true;
    self = false;
    ip = slice4 remote.ip;
    hardware_addr = vtep_mac (slice4 remote.ip);
  }

  abbrev pub peer_fdb : Link → IpNet → Ip → Neigh
  peer_fdb link remote node_ip = record {
    link_index = link.index;
    family = bridge;
    permanent = true;
    self = true;
    ip = slice4 node_ip;
    hardware_addr = vtep_mac (slice4 remote.ip);
  }

  unfoldable pub add_vxlan_peer : IpNet → Ip → Action State (Unit {0})
  add_vxlan_peer remote node_ip = do
    link ← query (link_by_name vxlan_if_name) "find %s" (vxlan_if_name ∷ [])
    exec_unless is_eexist_err (route_add (peer_route link remote)) "add route %s" (remote.ip ∷ [])
    exec (neigh_set (peer_arp link remote)) "add ARP entry for %s" (slice4 remote.ip ∷ [])
    exec (neigh_set (peer_fdb link remote node_ip)) "add FDB entry for %s" (node_ip ∷ [])

  abbrev pub route_key : Link → IpNet → Route
  route_key link remote = record {
    link_index = link.index;
    scope_link = false;
    dst = remote;
    gw = [];
    onlink = false;
  }

  abbrev pub arp_key : Link → IpNet → Neigh
  arp_key link remote = record {
    link_index = link.index;
    family = v4;
    permanent = false;
    self = false;
    ip = slice4 remote.ip;
    hardware_addr = [];
  }

  abbrev pub fdb_key : Link → IpNet → Ip → Neigh
  fdb_key link remote node_ip = record {
    link_index = link.index;
    family = bridge;
    permanent = false;
    self = true;
    ip = slice4 node_ip;
    hardware_addr = vtep_mac (slice4 remote.ip);
  }

  unfoldable pub del_vxlan_peer : IpNet → Ip → Action State (Unit {0})
  del_vxlan_peer remote node_ip = do
    link ← query (link_by_name vxlan_if_name) "find %s" (vxlan_if_name ∷ [])
    exec_unless is_enoent_err (route_del (route_key link remote)) "del route %s" (remote.ip ∷ [])
    exec_unless is_enoent_err (neigh_del (arp_key link remote)) "del ARP entry for %s"
        (slice4 remote.ip ∷ [])
    exec_unless is_enoent_err (neigh_del (fdb_key link remote node_ip)) "del FDB entry for %s"
        (node_ip ∷ [])
