-- ===== src/Network/Kernel.antt =====
-- What pkg/network and pkg/nodesync call outside the repository: `netlink`, `knftables` and writes
-- below /proc. `none` stands for a nil error, else the error's text. The network namespace that a
-- call acts in is part of the state.
use purenet.Base.{ℕ, ℤ, ◌≡◌, ◌⊎◌, inl, inr, refl, Bool, Option, List, Str}
use purenet.Errors.{Result}
use purenet.Inet.{Ip, IpNet}

pub data Reply (A : Type 0) : Type 0 where
  got : A → Reply A
  refused : Str → Reply A

pub Reply-cases :
    {A : Type 0} (r : Reply A) → ((a : A) × (r ≡ got a)) ⊎ ((e : Str) × (r ≡ refused e))
Reply-cases (got a) = inl (a, refl)
Reply-cases (refused e) = inr (e, refl)

pub record Link : Type 0 where
  pub name : Str
  pub index : ℕ
  pub up : Bool

pub record Veth : Type 0 where
  pub name : Str
  pub flag_up : Bool
  pub mtu : ℤ
  pub peer_name : Str

pub record VxlanLink : Type 0 where
  pub name : Str
  pub vxlan_id : ℕ
  pub port : ℕ
  pub learning : Bool

-- `netlink.Addr`, and a destination `net.IpNet` with its mask by prefix length.
pub record Addr : Type 0 where
  pub net : IpNet

pub record Route : Type 0 where
  pub link_index : ℕ
  pub scope_link : Bool
  pub dst : IpNet
  pub gw : Ip
  pub onlink : Bool

pub data NeighFamily : Type 0 where
  unspecified v4 bridge : NeighFamily

pub record Neigh : Type 0 where
  pub link_index : ℕ
  pub family : NeighFamily
  pub permanent : Bool
  pub self : Bool
  pub ip : Ip
  pub hardware_addr : Str

-- The operations of an nftables transaction; a rule keeps the pieces that `Concat` joins.
pub data NftOp : Type 0 where
  add_table : Str → NftOp
  add_nat_chain : Str → NftOp
  flush_chain : Str → NftOp
  add_rule : Str → List Str → NftOp

-- A handle of a network namespace, of which `host_netns` is the one that the agent runs in.
pub data Netns : Type 0 where
  host_netns : Netns
  netns : ℕ → Netns

pub record Kernel : Type 1 where
  pub State : Type 0
  pub link_by_name : Str → State → Reply Link
  pub link_add_veth : Veth → State → Option Str × State
  pub link_add_vxlan : VxlanLink → State → Option Str × State
  pub link_set_up : Link → State → Option Str × State
  pub link_set_hardware_addr : Link → Str → State → Option Str × State
  pub link_del : Link → State → Option Str × State
  pub addr_add : Link → Addr → State → Option Str × State
  pub route_add : Route → State → Option Str × State
  pub route_del : Route → State → Option Str × State
  pub neigh_set : Neigh → State → Option Str × State
  pub neigh_del : Neigh → State → Option Str × State
  pub addr_list : Link → State → Reply (List Addr)
  pub link_set_ns : Link → Netns → State → Option Str × State
  pub get_ns : Str → State → Reply Netns
  pub ns_do : {A : Type 0} → Netns → (State → Result A × State) → State → Result A × State
  pub write_file : Str → Str → State → Option Str × State
  pub nft_new : Str → State → Reply (Unit {0})
  pub nft_run : List NftOp → State → Option Str × State
