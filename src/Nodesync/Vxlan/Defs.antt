-- ===== src/Nodesync/Vxlan/Defs.antt =====
-- pkg/nodesync/vxlan.go: the handlers of the VXLAN mode, and its calls of pkg/network.
use purenet.Base.{none, some, [], ◌∷◌, ◌++◌, Str, codes}
use purenet.Errors.{external, errorf, wrapf, err}
use purenet.Inet.{Ip, IpNet, Inet6, parse_ip, parse_cidr}
use purenet.Network.Kernel.{Kernel}
use purenet.Network.Action.{Action}
use purenet.Network.Vxlan.{add_vxlan_peer, del_vxlan_peer}
use purenet.Nodesync.Node.{Node, Controller}
use purenet.Nodesync.Handlers

module _ (K : Kernel) (six : Inet6) where
  -- Read the two texts, and call with the block and the address.
  unfoldable pub with_peer :
      (IpNet → Ip → Action K.State (Unit {0})) → Str → Str → Action K.State (Unit {0})
  with_peer call pod_cidr node_ip s = elim (parse_cidr six pod_cidr) [
    | none ↦ (
      err (
          wrapf "invalid pod CIDR %q" (pod_cidr ∷ [])
            (external (codes "invalid CIDR address: " ++ pod_cidr))),
      s,
    )
    | some cidr ↦ elim (parse_ip six node_ip) [
      | [] ↦ (err (errorf "invalid node IP %q" (node_ip ∷ [])), s)
      | b ∷ ip ↦ call cidr (b ∷ ip) s
    ]
  ]

  unfoldable pub add_peer : Str → Str → Action K.State (Unit {0})
  unfolding with_peer
  add_peer = with_peer (add_vxlan_peer K)

  unfoldable pub del_peer : Str → Str → Action K.State (Unit {0})
  unfolding with_peer
  del_peer = with_peer (del_vxlan_peer K)

  unfoldable pub on_add : Node → Controller → K.State → Controller × K.State
  on_add = Handlers.on_add add_peer del_peer

  unfoldable pub on_update : Node → Node → Controller → K.State → Controller × K.State
  on_update = Handlers.on_update add_peer del_peer

  unfoldable pub on_delete : Node → Controller → K.State → Controller × K.State
  on_delete = Handlers.on_delete add_peer del_peer
