-- ===== src/Agent/Main/Join.antt =====
-- The stage of `run` that follows the nodes and writes the configuration of the plugin.
use purenet.Base.{◌≡◌, ◌≢◌, inl, inr, none, some, Str, arith, Option-cases}
use purenet.Errors.{GoError, Result, ok, err, Result-cases}
use purenet.Inet.{Inet6}
use purenet.Network.Kernel.{Kernel}
use purenet.Ipam.Store.{Store, Decoded}
use purenet.Nodesync.Conf.{CniConf}
use purenet.Nodesync.Start as Sync
use purenet.Nodesync.Start.{Started, NodeSyncer, vxlan_controller, host_gateway_controller}
use purenet.Agent.Main.Defs.{Environment, Process, syncer_write_cni_config, join}

abbrev pub conf_path : NodeSyncer → Str
conf_path (vxlan_controller c) = c.cni_conf_path
conf_path (host_gateway_controller c) = c.cni_conf_path

module _ (K : Kernel) (S : Store) (six : Inet6) (marshal : CniConf → Decoded S.Data) where
  -- How `join` may end: the nodes are not followed, or they are and the file is written or not.
  pub data Joins (E : Environment) (syncer : NodeSyncer) (p : Process K S six marshal)
      (r : Result Str × Process K S six marshal) : Type 0 where
    not_started :
        (e : GoError)
        → (Sync.run K six E.informer syncer p.kernel).result ≡ err e
        → ((own : Str) → r.0 ≢ ok own)
        → r.1 ≡ record p {
          kernel = (Sync.run K six E.informer syncer p.kernel).kernel;
          handling = (Sync.run K six E.informer syncer p.kernel).handling;
        }
        → Joins E syncer p r
    not_written :
        (own : Str) (e : GoError)
        → (Sync.run K six E.informer syncer p.kernel).result ≡ ok own
        → (syncer_write_cni_config K S six marshal syncer p.disk).0 ≡ some e
        → ((own' : Str) → r.0 ≢ ok own')
        → r.1 ≡ record p {
          kernel = (Sync.run K six E.informer syncer p.kernel).kernel;
          handling = (Sync.run K six E.informer syncer p.kernel).handling;
          disk = (syncer_write_cni_config K S six marshal syncer p.disk).1;
        }
        → Joins E syncer p r
    joined :
        (own : Str)
        → (Sync.run K six E.informer syncer p.kernel).result ≡ ok own
        → (syncer_write_cni_config K S six marshal syncer p.disk).0 ≡ none
        → r.0 ≡ ok own
        → r.1 ≡ record p {
          kernel = (Sync.run K six E.informer syncer p.kernel).kernel;
          handling = (Sync.run K six E.informer syncer p.kernel).handling;
          disk = (syncer_write_cni_config K S six marshal syncer p.disk).1;
        }
        → Joins E syncer p r

  pub join_lem :
      (E : Environment) (syncer : NodeSyncer) (p : Process K S six marshal)
      → Joins E syncer p (join K S six marshal E syncer p)
  unfolding join
  join_lem E syncer p =
      let started = Sync.run K six E.informer syncer p.kernel in
      elim (Result-cases started.result) [
        | inr (e, h) ↦ not_started e h (λ o f. ground (arith, h, f)) (ground (arith, h))
        | inl (own, h) ↦
            elim (Option-cases (syncer_write_cni_config K S six marshal syncer p.disk).0) [
              | inr (e, w) ↦
                  not_written own e h w (λ o f. ground (arith, h, w, f)) (ground (arith, h, w))
              | inl w ↦ joined own h w (ground (arith, h, w)) (ground (arith, h, w))
            ]
      ]
