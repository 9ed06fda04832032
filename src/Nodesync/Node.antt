-- ===== src/Nodesync/Node.antt =====
-- Node objects, and the types that the two controllers share (pkg/nodesync/nodesync.go).
use purenet.Base.{List, [], ◌∷◌, Str, codes, str_dec, ite, Dict}

-- The fields of `corev1.Node` that are read.
pub record NodeAddress : Type 0 where
  pub type : Str
  pub address : Str

pub record Node : Type 0 where
  pub name : Str
  pub pod_cidr : Str
  pub addresses : List NodeAddress

pub record NodeRoute : Type 0 where
  pub pod_cidr : Str
  pub node_ip : Str

-- `corev1.NodeInternalIP`
abbrev pub node_internal_ip : Str
node_internal_ip = codes "InternalIP"

unfoldable pub first_internal : List NodeAddress → Str
first_internal [] = []
first_internal (a ∷ r) = ite (str_dec a.type node_internal_ip) a.address (first_internal r)

unfoldable pub internal_ip : Node → Str
unfolding first_internal
internal_ip node = first_internal node.addresses

-- The part of a controller that its handlers read and write; `routes` of the host-gateway
-- controller is `peers` of the VXLAN controller.
pub record Controller : Type 0 where
  pub node_name : Str
  pub cni_conf_path : Str
  pub routes : Dict NodeRoute
