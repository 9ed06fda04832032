-- ===== src/Agent/Main/Defs.antt =====
-- `run`, in stages. A stage acts on the process; an error keeps what was done before it.
use Prim.Native.String.{String}
use purenet.Base.{Bool, true, false, Option, none, some, List, [], ◌∷◌, Str, codes, str_dec, ite}
use purenet.Errors.{GoError, external, errorf, wrapf, ok, err}
use purenet.Inet.{Inet6}
use purenet.Network.Kernel.{Kernel}
use purenet.Network.Action.{Action, pure, fail, ◌>>=◌, ◌>>◌}
use purenet.Network.Veth.{setup_masquerade}
use purenet.Ipam.Store.{Store, Decoded}
use purenet.Ipam.{Allocator, new}
use purenet.Nodesync.Conf.{CniConf, write_cni_config}
use purenet.Nodesync.Start as Sync
use purenet.Nodesync.Start.{
  Informer, NodeSyncer, vxlan_controller, host_gateway_controller, mode_host_gateway, mode_vxlan,
}
use purenet.Cni.Shim.{default_socket_path}

abbrev pub log_dir : Str
log_dir = codes "/var/log/purenet"

abbrev pub cni_conf_path : Str
cni_conf_path = codes "/host/etc/cni/net.d/10-purenet.conf"

abbrev pub ipam_data_dir : Str
ipam_data_dir = codes "/var/lib/cni/networks/purenet"

abbrev pub socket_dir : Str
socket_dir = codes "/var/run/purenet"

pub record Options : Type 0 where
  pub mode : Str

-- What the process is told from outside: the variable NODE_NAME, the errors of the cluster's
-- configuration, of its client and of listening on the socket, and the answers of the informer.
pub record Environment : Type 0 where
  pub node_name : Str
  pub in_cluster_config : Option Str
  pub new_for_config : Option Str
  pub listen : Option Str
  pub informer : Informer

-- An error of a call, wrapped.
abbrev pub check_call : {P : Type 0} → Option Str → String → List Str → Action P (Unit {0})
check_call e format args p = elim e [
  | none ↦ (ok tt, p)
  | some e ↦ (err (wrapf format args (external e)), p)
]

module _ (K : Kernel) (S : Store) (six : Inet6) (marshal_indent : CniConf → Decoded S.Data) where
  -- `handling`: handlers of node events are registered. `serving`: the allocator of the server.
  pub record Process : Type 0 where
    pub kernel : K.State
    pub disk : S.Disk
    pub handling : Bool
    pub listening : Bool
    pub serving : Option Allocator

  -- `syncer.WriteCNIConfig()`, of either controller.
  abbrev pub syncer_write_cni_config : NodeSyncer → S.Disk → Option GoError × S.Disk
  syncer_write_cni_config (vxlan_controller c) d =
      write_cni_config S marshal_indent c.cni_conf_path d
  syncer_write_cni_config (host_gateway_controller c) d =
      write_cni_config S marshal_indent c.cni_conf_path d

  -- The log's directory is made if that can be done.
  abbrev pub make_log_dir : Action Process (Unit {0})
  make_log_dir p = (ok tt, record p { disk = (S.mkdir_all log_dir p.disk).1 })

  abbrev pub make_dir : Str → String → Action Process (Unit {0})
  make_dir path format p =
      let (e, d) = S.mkdir_all path p.disk in check_call e format [] (record p { disk = d })

  abbrev pub known_mode : Str → Action Process (Unit {0})
  known_mode mode = ite (str_dec mode mode_host_gateway) (pure tt) (
      ite (str_dec mode mode_vxlan) (pure tt) (
        fail (
          errorf "unknown --mode %q; valid values: %s, %s"
            (mode ∷ mode_host_gateway ∷ mode_vxlan ∷ []))))

  abbrev pub required_name : Str → Action Process (Unit {0})
  required_name name = elim name [
    | [] ↦ fail (errorf "NODE_NAME environment variable is required" [])
    | c ∷ cs ↦ pure tt
  ]

  -- Up to the choice of the controller.
  unfoldable pub configure : Environment → Options → Action Process NodeSyncer
  unfolding Sync.new str_dec
  configure E opts = do
    make_log_dir
    required_name E.node_name
    check_call E.in_cluster_config "build in-cluster config" []
    check_call E.new_for_config "create Kubernetes client" []
    known_mode opts.mode
    pure (Sync.new E.node_name cni_conf_path opts.mode)

  abbrev pub start_syncer : Environment → NodeSyncer → Action Process Str
  start_syncer E syncer p =
      let started = Sync.run K six E.informer syncer p.kernel in
      let p' = record p { kernel = started.kernel; handling = started.handling } in
      elim started.result [ ok own ↦ (ok own, p') | err e ↦ (err (wrapf "node sync" [] e), p') ]

  abbrev pub write_conf : NodeSyncer → Action Process (Unit {0})
  write_conf syncer p =
      let (e, d) = syncer_write_cni_config syncer p.disk in
      elim e [
        | none ↦ (ok tt, record p { disk = d })
        | some e ↦ (err (wrapf "write per-node CNI config" [] e), record p { disk = d })
      ]

  -- The nodes, and then the configuration that makes the container runtime call the plugin.
  unfoldable pub join : Environment → NodeSyncer → Action Process Str
  unfolding Sync.run
  join E syncer = do own ← start_syncer E syncer; write_conf syncer; pure own

  unfoldable pub make_allocator : Str → Action Process Allocator
  make_allocator own p =
      let (r, d) = new S six own ipam_data_dir p.disk in
      elim r [
        | ok a ↦ (ok a, record p { disk = d })
        | err e ↦
            (err (wrapf "create IPAM allocator (podCIDR=%s)" (own ∷ []) e), record p { disk = d })
      ]

  abbrev pub masquerade : Str → Action Process (Unit {0})
  masquerade own p =
      let (r, k) = setup_masquerade K own p.kernel in
      elim r [
        | ok _ ↦ (ok tt, record p { kernel = k })
        | err e ↦ (
          err (wrapf "set up nftables masquerade (podCIDR=%s)" (own ∷ []) e),
          record p { kernel = k },
        )
      ]

  abbrev pub serve : Allocator → Action Process (Unit {0})
  serve a p = (ok tt, record p { listening = true; serving = some a })

  -- The directory of the socket, the socket, and the server.
  unfoldable pub open_socket : Environment → Allocator → Action Process (Unit {0})
  open_socket E a = do
    make_dir socket_dir "create socket directory"
    check_call E.listen "listen on %s" (default_socket_path ∷ [])
    serve a

  -- `run` up to the wait for a signal.
  unfoldable pub start_up : Environment → Options → Action Process (Unit {0})
  start_up E opts = do
    syncer ← configure E opts
    own ← join E syncer
    a ← make_allocator own
    masquerade own
    open_socket E a

  -- After the signal the server is stopped.
  unfoldable pub run : Environment → Options → Action Process (Unit {0})
  unfolding start_up
  run E opts = do start_up E opts; λ p. (ok tt, record p { listening = false; serving = none })
