-- ===== src/Agent/Main/Joined.antt =====
-- How the start of the agent may end, and what holds after the nodes are followed.
use purenet.Base.{
  ◌≡◌, ◌≢◌, ◌⊎◌, ◌∙◌, ◌++◌, inl, inr, refl, sym, ap, subst, true, Option, none, some, [], ◌∷◌, Str,
  codes, str_dec, arith, Option-cases,
}
use purenet.Errors.{GoError, ok, err, Result-cases}
use purenet.Inet.{Inet6}
use purenet.Network.Kernel.{Kernel}
use purenet.Ipam.Store.{Store, IsLawful, contents, Decoded, decoded}
use purenet.Ipam.{Allocator, new}
use purenet.Nodesync.Conf.{CniConf, purenet_conf, write_cni_config, write_cni_config_atomic}
use purenet.Nodesync.Start as Sync
use purenet.Nodesync.Start.{NodeSyncer, own_pod_cidr, vxlan_controller, host_gateway_controller}
use purenet.Nodesync.Start.Safety.{run-own}
use purenet.Agent.Main.Defs.{
  log_dir, cni_conf_path, ipam_data_dir, Options, Environment, Process, syncer_write_cni_config,
  configure, join,
}
use purenet.Agent.Main.Join.{Joins, not_started, not_written, joined, join_lem}

abbrev pub conf_tmp : Str
conf_tmp = cni_conf_path ++ codes ".tmp"

module _ (K : Kernel) (S : Store) (six : Inet6) (marshal : CniConf → Decoded S.Data) where
  -- The agent serves: the own node is known and its events are handled, the server has the
  -- allocator that `New` made from the disk, on which only the plugin's configuration had been
  -- written, and the configuration is there.
  pub record IsServing (E : Environment) (p p' : Process K S six marshal) : Type 0 where
    pub own : Str
    pub known : own_pod_cidr E.informer E.node_name ≡ ok own
    pub handling : p'.handling ≡ true
    pub alloc : Allocator
    pub served : p'.serving ≡ some alloc
    pub listening : p'.listening ≡ true
    pub found : S.Disk
    pub left : S.Disk
    pub made : new S six own ipam_data_dir found ≡ (ok alloc, left)
    pub before :
        (q : Str) → q ≢ cni_conf_path → q ≢ conf_tmp → S.read_file q found ≡ S.read_file q p.disk
    pub after : (q : Str) → S.read_file q p'.disk ≡ S.read_file q left
    pub conf : S.Data
    pub encoded : marshal purenet_conf ≡ decoded conf
    pub written : S.read_file cni_conf_path p'.disk ≡ contents conf

  -- The agent does not serve, and the container runtime does not find a new configuration unless
  -- the own node is known and its events are handled.
  pub record HasStopped (E : Environment) (p p' : Process K S six marshal) : Type 0 where
    pub served : p'.serving ≡ p.serving
    pub listening : p'.listening ≡ p.listening
    pub conf :
        (S.read_file cni_conf_path p'.disk ≡ S.read_file cni_conf_path p.disk)
        ⊎ ((own : Str) × (own_pod_cidr E.informer E.node_name ≡ ok own) × (p'.handling ≡ true))

  syncer_writes :
      (name mode : Str) (d : S.Disk)
      → syncer_write_cni_config K S six marshal (Sync.new name cni_conf_path mode) d
        ≡ write_cni_config S marshal cni_conf_path d
  unfolding Sync.new str_dec
  syncer_writes name mode d = ground arith

  pub configure_ok :
      (E : Environment) (opts : Options) (p : Process K S six marshal) (syncer : NodeSyncer)
      → (configure K S six marshal E opts p).0 ≡ ok syncer
      → syncer ≡ Sync.new E.node_name cni_conf_path opts.mode
  unfolding configure
  configure_ok E opts p syncer done = by_name E.node_name refl
    where
      by_name :
          (name : Str) → E.node_name ≡ name → syncer ≡ Sync.new E.node_name cni_conf_path opts.mode
      by_name [] e = ground (arith, e, done)
      by_name (c ∷ cs) e =
          ground (arith, e, done, Option-cases E.in_cluster_config, Option-cases E.new_for_config)

  module _ (L : IsLawful S) (E : Environment) (opts : Options) (p : Process K S six marshal) where
    abbrev pub syncer : NodeSyncer
    syncer = Sync.new E.node_name cni_conf_path opts.mode

    abbrev pub p1 : Process K S six marshal
    p1 = record p { disk = (S.mkdir_all log_dir p.disk).1 }

    abbrev pub p2 : Process K S six marshal
    p2 = (join K S six marshal E syncer p1).1

    abbrev pub Written : S.Disk → Type 0
    Written d =
        (b : S.Data) × (marshal purenet_conf ≡ decoded b)
        × (S.read_file cni_conf_path d ≡ contents b)

    -- What `join` has left where it did not fail, or failed.
    abbrev pub HasJoined : Str → Type 0
    HasJoined own =
        (own_pod_cidr E.informer E.node_name ≡ ok own)
        × (p2.handling ≡ true)
        × (p2.serving ≡ p.serving)
        × (p2.listening ≡ p.listening)
        × Written p2.disk
        × ((q : Str)
            → q ≢ cni_conf_path
            → q ≢ conf_tmp
            → S.read_file q p2.disk ≡ S.read_file q p.disk)

    read-Written :
        (e : Option GoError)
        → (write_cni_config S marshal cni_conf_path p1.disk).0 ≡ e
        → ((e ≡ none) → Written (write_cni_config S marshal cni_conf_path p1.disk).1)
          × ((e ≢ none)
              → S.read_file cni_conf_path (write_cni_config S marshal cni_conf_path p1.disk).1
                ≡ S.read_file cni_conf_path p.disk)
    read-Written e is = elim (write_cni_config_atomic S marshal L cni_conf_path p1.disk).0 [
      | inl (fine, b, encoded, there) ↦
          (λ h. (b, encoded, there), λ ne. absurd (ne (sym is ∙ fine)))
      | inr (failed, kept) ↦ (
        λ h. absurd (failed (is ∙ h)),
        λ ne. kept ∙ L.read-mkdir_all log_dir cni_conf_path p.disk,
      )
    ]

    read-other :
        (q : Str)
        → q ≢ cni_conf_path
        → q ≢ conf_tmp
        → S.read_file q (write_cni_config S marshal cni_conf_path p1.disk).1 ≡ S.read_file q p.disk
    read-other q nc nt =
        (write_cni_config_atomic S marshal L cni_conf_path p1.disk).1 q nc nt
        ∙ L.read-mkdir_all log_dir q p.disk

    pub join_cases :
        ((own : Str) × ((join K S six marshal E syncer p1).0 ≡ ok own) × HasJoined own)
        ⊎ ((e : GoError) × ((join K S six marshal E syncer p1).0 ≡ err e) × HasStopped E p p2)
    join_cases =
        by_end (join_lem K S six marshal E syncer p1)
          (Result-cases (join K S six marshal E syncer p1).0)
      where
        by_end :
            Joins K S six marshal E syncer p1 (join K S six marshal E syncer p1)
            → ((own : Str) × ((join K S six marshal E syncer p1).0 ≡ ok own))
              ⊎ ((e : GoError) × ((join K S six marshal E syncer p1).0 ≡ err e))
            → ((own : Str) × ((join K S six marshal E syncer p1).0 ≡ ok own) × HasJoined own)
              ⊎ ((e : GoError) × ((join K S six marshal E syncer p1).0 ≡ err e) × HasStopped E p p2)
        by_end (not_started e h never q) (inl (own, r)) = absurd (never own r)
        by_end (not_started e h never q) (inr (t, r)) = inr (
          t,
          r,
          record {
            served = ground (arith, q);
            listening = ground (arith, q);
            conf = inl (ground (arith, q, L.read-mkdir_all log_dir cni_conf_path p.disk));
          },
        )
        by_end (not_written own e h w never q) (inl (o, r)) = absurd (never o r)
        by_end (not_written own e h w never q) (inr (t, r)) =
            let (known, on) =
              run-own K six E.informer E.node_name cni_conf_path opts.mode own p.kernel h in
            inr (
              t,
              r,
              record {
                served = ground (arith, q);
                listening = ground (arith, q);
                conf = inr (own, known, ground (arith, q, on));
              },
            )
        by_end (joined own h w r q) (inr (t, r')) = cc (r, r')
        by_end (joined own h w r q) (inl (o, r')) =
            let (known, on) =
              run-own K six E.informer E.node_name cni_conf_path opts.mode own p.kernel h in
            let same = syncer_writes E.node_name opts.mode p1.disk in
            let disk : p2.disk ≡ (write_cni_config S marshal cni_conf_path p1.disk).1 =
              ground (arith, q, same) in
            let fine : (write_cni_config S marshal cni_conf_path p1.disk).0 ≡ none =
              sym (ap (λ t. t.0) same) ∙ w in
            inl (
              own,
              r,
              (
                known,
                ground (arith, q, on),
                ground (arith, q),
                ground (arith, q),
                subst Written (sym disk) ((read-Written none fine).0 refl),
                λ f nc nt. ap (S.read_file f) disk ∙ read-other f nc nt,
              ),
            )
