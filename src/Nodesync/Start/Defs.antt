-- ===== src/Nodesync/Start/Defs.antt =====
-- The modes, the constructors of the controllers, and `Run` up to its return.
use purenet.Base.{Bool, true, false, none, some, [], ◌∷◌, ◌++◌, Str, codes, str_dec, ite}
use purenet.Errors.{external, errorf, wrapf, Result, ok, err}
use purenet.Inet.{Inet6, parse_cidr}
use purenet.Network.Kernel.{Kernel}
use purenet.Network.Vxlan.{setup_vxlan}
use purenet.Nodesync.Node.{Node, Controller}

abbrev pub mode_host_gateway : Str
mode_host_gateway = codes "host-gateway"

abbrev pub mode_vxlan : Str
mode_vxlan = codes "vxlan"

abbrev pub new_host_gateway : Str → Str → Controller
new_host_gateway node_name cni_conf_path = record {
  node_name = node_name;
  cni_conf_path = cni_conf_path;
  routes = [];
}

abbrev pub new_vxlan : Str → Str → Controller
new_vxlan node_name cni_conf_path = record {
  node_name = node_name;
  cni_conf_path = cni_conf_path;
  routes = [];
}

-- `NodeSyncer`, by its two implementations.
pub data NodeSyncer : Type 0 where
  vxlan_controller : Controller → NodeSyncer
  host_gateway_controller : Controller → NodeSyncer

unfoldable pub new : Str → Str → Str → NodeSyncer
unfolding str_dec
new node_name cni_conf_path mode =
    ite (str_dec mode mode_vxlan) (vxlan_controller (new_vxlan node_name cni_conf_path))
      (host_gateway_controller (new_host_gateway node_name cni_conf_path))

-- What `GetByKey` of the informer's store says.
pub data Found : Type 0 where
  item : Node → Found
  missing : Found
  failed : Str → Found

-- The informer's answers: whether the cache synced before the context ended, and its store then.
pub record Informer : Type 0 where
  pub wait_for_cache_sync : Bool
  pub get_by_key : Str → Found

-- Both `Run` find the own node in the same words.
unfoldable pub own_pod_cidr : Informer → Str → Result Str
own_pod_cidr I node_name = elim I.wait_for_cache_sync [
  | false ↦ err (errorf "timed out waiting for node informer cache sync" [])
  | true ↦ elim (I.get_by_key node_name) [
    | failed e ↦ err (wrapf "looking up own node %q" (node_name ∷ []) (external e))
    | missing ↦ err (errorf "own node %q not found in cache" (node_name ∷ []))
    | item own ↦ elim own.pod_cidr [
      | [] ↦ err (
          errorf
            "node %q has no pod CIDR assigned; ensure --allocate-node-cidrs is enabled on kube-controller-manager"
            (node_name ∷ []))
      | c ∷ cidr ↦ ok (c ∷ cidr)
    ]
  ]
]

-- What a `Run` returns, and whether it has registered the handlers.
pub record Started (S : Type 0) : Type 0 where
  pub result : Result Str
  pub handling : Bool
  pub kernel : S

module _ (K : Kernel) (six : Inet6) where
  -- The handlers are registered before the informer starts.
  unfoldable pub run_host_gateway : Informer → Controller → K.State → Started K.State
  unfolding own_pod_cidr
  run_host_gateway I c s = record {
    result = own_pod_cidr I c.node_name;
    handling = true;
    kernel = s;
  }

  -- The handlers are registered last.
  unfoldable pub run_vxlan : Informer → Controller → K.State → Started K.State
  unfolding own_pod_cidr
  run_vxlan I c s = elim (own_pod_cidr I c.node_name) [
    | err e ↦ record { result = err e; handling = false; kernel = s }
    | ok own ↦ elim (parse_cidr six own) [
      | none ↦ record {
        result = err (
            wrapf "parse own pod CIDR %q" (own ∷ [])
              (external (codes "invalid CIDR address: " ++ own)));
        handling = false;
        kernel = s;
      }
      | some cidr ↦
          let (r, s') = setup_vxlan K cidr s in
          elim r [
            | err e ↦ record {
              result = err (wrapf "VXLAN setup" [] e);
              handling = false;
              kernel = s';
            }
            | ok _ ↦ record { result = ok own; handling = true; kernel = s' }
          ]
    ]
  ]

  unfoldable pub run : Informer → NodeSyncer → K.State → Started K.State
  unfolding run_host_gateway run_vxlan
  run I (vxlan_controller c) s = run_vxlan I c s
  run I (host_gateway_controller c) s = run_host_gateway I c s
