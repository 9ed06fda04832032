-- ===== src/Network/Memory.antt =====
-- A kernel of one namespace that keeps its tables in memory, for the tests: it has what is assumed
-- of kernels.
use Prim.Native.Nat.{ℕ}
use purenet.Base.{
  Bool, true, false, ◌≡◌, refl, Option, none, some, List, [], ◌∷◌, Str, codes, Dict, lookup, insert,
  erase, str_dec, lookup-erase, lookup-insert, if◌then◌else◌, Bool-cases, refl, ite, arith,
  Option-cases, ◌⊎◌, inl, inr,
}
unfoldable use native.Mathlib.Decide.{ℕ_discrete}
use purenet.Inet.{Ip, IpNet}
use purenet.Network.Kernel.{
  Reply, got, refused, Link, Addr, Route, Neigh, NeighFamily, unspecified, v4, bridge, host_netns,
  Kernel,
}
use purenet.Network.Entering.{Entering}
use purenet.Network.Nft.{Rules, replay, NftTable}
use purenet.Network.Vxlan.Peers.{Tables}
use purenet.Network.Vxlan.Separate.{Separate}
use purenet.Network.Vxlan.Removal.{Removal}
use purenet.Network.Vxlan.Setup.{Interfaces}
use purenet.Network.Veth.Teardown.{Links}
use purenet.Nodesync.Hostgw.Routes.{RouteTable}

-- Links by name, with the index and whether the link is up; routes by destination.
pub record Host : Type 0 where
  pub links : Dict (ℕ × Bool)
  pub routes : IpNet → Option Route
  pub arp : ℕ → Ip → Option Str
  pub fdb : ℕ → Str → Option Ip
  pub files : Dict Str
  pub addrs : List Addr
  pub macs : Dict Str
  pub owned : Str → IpNet → Bool
  pub rules : Rules

abbrev pub empty_host : Host
empty_host = record {
  links = [];
  routes = λ d. none;
  arp = λ i ip. none;
  fdb = λ i mac. none;
  files = [];
  addrs = [];
  macs = [];
  owned = λ n net. false;
  rules = λ chain. [];
}

unfoldable pub net_dec : (a b : IpNet) → Dec (a ≡ b)
unfolding ℕ_discrete
net_dec = hlevel ℕ_discrete

unfoldable pub at_dec : (a b : ℕ × Str) → Dec (a ≡ b)
unfolding ℕ_discrete
at_dec = hlevel ℕ_discrete

abbrev pub find_link : Str → Host → Reply Link
find_link name s = elim (lookup name s.links) [
  | none ↦ refused (codes "Link not found")
  | some (index, up) ↦ got (record { name = name; index = index; up = up })
]

abbrev pub add_link : Str → Host → Host
add_link name s = record s { links = insert name (7, false) s.links }

abbrev pub memory_route_add : Route → Host → Option Str × Host
memory_route_add r s = elim (s.routes r.dst) [
  | some _ ↦ (some (codes "file exists"), s)
  | none ↦ (none, record s { routes = λ d. ite (net_dec d r.dst) (some r) (s.routes d) })
]

abbrev pub memory_route_del : Route → Host → Option Str × Host
memory_route_del r s = elim (s.routes r.dst) [
  | some _ ↦ (none, record s { routes = λ d. ite (net_dec d r.dst) none (s.routes d) })
  | none ↦ (some (codes "no such process"), s)
]

abbrev set_at : {V : Type 0} → ℕ → Str → Option V → (ℕ → Str → Option V) → ℕ → Str → Option V
set_at i k v t j l = ite (at_dec (j, l) (i, k)) v (t j l)

abbrev pub memory_neigh_set : Neigh → Host → Option Str × Host
memory_neigh_set n s = elim n.family [
  | bridge ↦ (none, record s { fdb = set_at n.link_index n.hardware_addr (some n.ip) s.fdb })
  | v4 ↦ (none, record s { arp = set_at n.link_index n.ip (some n.hardware_addr) s.arp })
  | unspecified ↦ (none, record s { arp = set_at n.link_index n.ip (some n.hardware_addr) s.arp })
]

abbrev pub memory_neigh_del : Neigh → Host → Option Str × Host
memory_neigh_del n s = elim n.family [
  | bridge ↦ (none, record s { fdb = set_at n.link_index n.hardware_addr none s.fdb })
  | v4 ↦ elim (s.arp n.link_index n.ip) [
    | some mac ↦ (none, record s { arp = set_at n.link_index n.ip none s.arp })
    | none ↦ (some (codes "no such file or directory"), s)
  ]
  | unspecified ↦ (some (codes "no such file or directory"), s)
]

abbrev pub memory_addr_add : Link → Addr → Host → Option Str × Host
memory_addr_add l a s = if s.owned l.name a.net then (some (codes "file exists"), s) else (
  none,
  record s {
    addrs = a ∷ s.addrs;
    owned = λ n net.
        ite (str_dec n l.name) (ite (net_dec net a.net) true (s.owned n net)) (s.owned n net);
  },
)

abbrev pub memory : Kernel
memory = record {
  State = Host;
  link_by_name = find_link;
  link_add_veth = λ v s. (none, add_link v.peer_name (add_link v.name s));
  link_add_vxlan = λ v s. (none, add_link v.name s);
  link_set_up = λ l s. (none, record s { links = insert l.name (l.index, true) s.links });
  link_set_hardware_addr = λ l mac s. (none, record s { macs = insert l.name mac s.macs });
  link_del = λ l s. (none, record s { links = erase l.name s.links });
  addr_add = memory_addr_add;
  route_add = memory_route_add;
  route_del = memory_route_del;
  neigh_set = memory_neigh_set;
  neigh_del = memory_neigh_del;
  addr_list = λ l s. got s.addrs;
  link_set_ns = λ l ns s. (none, s);
  get_ns = λ path s. got host_netns;
  ns_do = λ ns act. act;
  write_file = λ path text s. (none, record s { files = insert path text s.files });
  nft_new = λ table s. got tt;
  nft_run = λ ops s. (none, record s { rules = replay ops s.rules });
}

pub kept_routes :
    (n : Neigh) (s : Host) (dst : IpNet) → (memory_neigh_set n s).1.routes dst ≡ s.routes dst
kept_routes n s dst = by_family n.family refl
  where
    by_family :
        (f : NeighFamily) → n.family ≡ f → (memory_neigh_set n s).1.routes dst ≡ s.routes dst
    by_family bridge e = ground (arith, e)
    by_family v4 e = ground (arith, e)
    by_family unspecified e = ground (arith, e)

abbrev pub memory_links : Links memory
memory_links = record {
  not_found-link_del = λ name l s found done.
      ground (arith, Option-cases (lookup name s.links), lookup-erase name l.name s.links);
}

abbrev pub memory_tables : Tables memory
memory_tables = record {
  route = λ s. s.routes;
  arp = λ s. s.arp;
  fdb = λ s. s.fdb;
  route-route_add = λ r s done. ground (arith, Option-cases (s.routes r.dst));
  route-route_add_exists = λ r s done. (
    ground (arith, Option-cases (s.routes r.dst)),
    ground (arith, Option-cases (s.routes r.dst)),
  );
  arp-neigh_set = λ n s e done. ground (arith, e);
  fdb-neigh_set = λ n s e done. ground (arith, e);
  route-neigh_set = λ n s dst. kept_routes n s dst;
  arp-neigh_set_bridge = λ n s i ip e. ground (arith, e);
}

pub Family-cases : (f : NeighFamily) → (f ≡ bridge) ⊎ (f ≡ v4) ⊎ (f ≡ unspecified)
Family-cases bridge = inl refl
Family-cases v4 = inr (inl refl)
Family-cases unspecified = inr (inr refl)

abbrev pub memory_separate : Separate memory memory_tables
memory_separate = record {
  link-route_add = λ r s n. ground (arith, Option-cases (s.routes r.dst));
  link-route_del = λ r s n. ground (arith, Option-cases (s.routes r.dst));
  link-neigh_set = λ e s n. ground (arith, Family-cases e.family);
  link-neigh_del =
      λ e s n. ground (arith, Family-cases e.family, Option-cases (s.arp e.link_index e.ip));
  route-route_add_other = λ r s dst ne. ground (arith, Option-cases (s.routes r.dst));
  route-route_del_other = λ r s dst ne. ground (arith, Option-cases (s.routes r.dst));
  route-neigh_del =
      λ e s dst. ground (arith, Family-cases e.family, Option-cases (s.arp e.link_index e.ip));
  arp-route_add = λ r s i ip. ground (arith, Option-cases (s.routes r.dst));
  arp-route_del = λ r s i ip. ground (arith, Option-cases (s.routes r.dst));
  arp-neigh_set_other = λ e s i ip ne. ground (arith, Family-cases e.family);
  arp-neigh_del_other =
      λ e s i ip ne. ground (arith, Family-cases e.family, Option-cases (s.arp e.link_index e.ip));
  arp-neigh_del_bridge = λ e s i ip h. ground (arith, h);
  fdb-route_add = λ r s i m. ground (arith, Option-cases (s.routes r.dst));
  fdb-route_del = λ r s i m. ground (arith, Option-cases (s.routes r.dst));
  fdb-neigh_set_other = λ e s i m ne. ground (arith, Family-cases e.family);
  fdb-neigh_del_other =
      λ e s i m ne. ground (arith, Family-cases e.family, Option-cases (s.arp e.link_index e.ip));
  fdb-neigh_del_v4 = λ e s i m h. ground (arith, h, Option-cases (s.arp e.link_index e.ip));
}

abbrev pub memory_removal : Removal memory memory_tables
memory_removal = record {
  route-route_del = λ r s gone q h. ground (arith, gone, h, Option-cases (s.routes r.dst));
  arp-neigh_del = λ e s h gone. ground (arith, h, gone, Option-cases (s.arp e.link_index e.ip));
  fdb-neigh_del = λ e s h gone. ground (arith, h);
}

abbrev pub memory_route_table : RouteTable memory
memory_route_table = record {
  route = λ s. s.routes;
  route-route_add = memory_tables.route-route_add;
  route-route_add_exists = memory_tables.route-route_add_exists;
  route-route_add_other = λ r s dst ne. ground (arith, Option-cases (s.routes r.dst));
  route-route_del_other = λ r s dst ne. ground (arith, Option-cases (s.routes r.dst));
}

abbrev pub memory_interfaces : Interfaces memory
memory_interfaces = record {
  mac = λ s n. lookup n s.macs;
  Assigned = λ s n net. s.owned n net ≡ true;
  mac-set = λ l m s done. ground (arith, lookup-insert l.name l.name m s.macs);
  link-mac_set = λ l m n s. refl;
  Assigned-addr_add = λ l a s done. ground (arith, done, Bool-cases (s.owned l.name a.net));
  mac-addr_add = λ l a n s. ground (arith, Bool-cases (s.owned l.name a.net));
  link-addr_add = λ l a n s. ground (arith, Bool-cases (s.owned l.name a.net));
  mac-set_up = λ l n s. refl;
  Assigned-set_up = λ l n net s h. h;
  name-link_by_name = λ l n s h. ground (arith, h, Option-cases (lookup n s.links));
  link-set_up = λ l n s h done.
      ground
        (arith, h, Option-cases (lookup n s.links), lookup-insert n l.name (l.index, true) s.links);
}

abbrev pub memory_nft : NftTable memory
memory_nft = record {
  rules = λ s. s.rules;
  rules-nft_run = λ ops s done. refl;
  rules-nft_run_failed = λ ops s failed. absurd (failed refl);
}

abbrev pub memory_entering : Entering memory
memory_entering = record {
  enter = λ ns s. (none, s);
  leave = λ before s. s;
  ns_do-entered = λ ns act s e. refl;
  ns_do-refused = λ ns act s t e. ground (arith, e);
}
