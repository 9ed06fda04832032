-- ===== src/Nodesync/Hostgw/Defs.antt =====
-- The handlers and the route of a peer.
use purenet.Base.{
  Bool, true, false, Option, none, some, [], ◌∷◌, ◌++◌, Str, codes, str_dec, ite, if◌then◌else◌,
}
use purenet.Errors.{GoError, external, errorf, wrapf, Result, ok, err}
use purenet.Inet.{Ip, IpNet, Inet6, parse_ip, parse_cidr}
use purenet.Network.Kernel.{Kernel, Route}
use purenet.Network.Action.{Action}
use purenet.Nodesync.Node.{Node, Controller}
use purenet.Nodesync.Handlers

abbrev pub is_eexist : Str → Bool
is_eexist e = ite (str_dec e (codes "file exists")) true false

abbrev pub is_enoent : Str → Bool
is_enoent e = ite (str_dec e (codes "no such process")) true false

-- `netlink.Route{Dst: dst, Gw: gw}`
abbrev pub via : IpNet → Ip → Route
via dst gw = record { link_index = 0; scope_link = false; dst = dst; gw = gw; onlink = false }

abbrev pub bad_cidr : Str → GoError
bad_cidr s = wrapf "invalid pod CIDR %q" (s ∷ []) (external (codes "invalid CIDR address: " ++ s))

abbrev pub tolerate : {S : Type 0} → (Str → Bool) → Option Str × S → Result (Unit {0}) × S
tolerate tolerated (r, s) = elim r [
  | none ↦ (ok tt, s)
  | some e ↦ if tolerated e then (ok tt, s) else (err (external e), s)
]

module _ (K : Kernel) (six : Inet6) where
  unfoldable pub add_route : Str → Str → Action K.State (Unit {0})
  add_route pod_cidr node_ip s = elim (parse_cidr six pod_cidr) [
    | none ↦ (err (bad_cidr pod_cidr), s)
    | some dst ↦ elim (parse_ip six node_ip) [
      | [] ↦ (err (errorf "invalid node IP %q" (node_ip ∷ [])), s)
      | b ∷ gw ↦ tolerate is_eexist (K.route_add (via dst (b ∷ gw)) s)
    ]
  ]

  unfoldable pub del_route : Str → Str → Action K.State (Unit {0})
  del_route pod_cidr node_ip s = elim (parse_cidr six pod_cidr) [
    | none ↦ (err (bad_cidr pod_cidr), s)
    | some dst ↦ elim (parse_ip six node_ip) [
      | [] ↦ (err (errorf "invalid node IP %q" (node_ip ∷ [])), s)
      | b ∷ gw ↦ tolerate is_enoent (K.route_del (via dst (b ∷ gw)) s)
    ]
  ]

  unfoldable pub on_add : Node → Controller → K.State → Controller × K.State
  on_add = Handlers.on_add add_route del_route

  unfoldable pub on_update : Node → Node → Controller → K.State → Controller × K.State
  on_update = Handlers.on_update add_route del_route

  unfoldable pub on_delete : Node → Controller → K.State → Controller × K.State
  on_delete = Handlers.on_delete add_route del_route
