-- ===== src/Agent/Main/Stages.antt =====
-- What each stage of `run` does to the process.
use purenet.Base.{
  ◌≡◌, ◌≢◌, ◌⊎◌, ◌∙◌, inl, inr, ap, refl, true, some, [], ◌∷◌, Str, str_dec, arith, Option-cases,
}
use purenet.Errors.{ok, Result-cases}
use purenet.Inet.{Inet6, parse_cidr}
use purenet.Network.Kernel.{Kernel}
use purenet.Network.Veth.{setup_masquerade}
use purenet.Ipam.Store.{Store, IsLawful, Decoded}
use purenet.Ipam.{Allocator, first_host_ip, new, load}
use purenet.Nodesync.Conf.{CniConf}
use purenet.Agent.Main.Defs.{
  log_dir, ipam_data_dir, socket_dir, Options, Environment, Process, configure, make_allocator,
  masquerade, open_socket,
}

module _ (K : Kernel) (S : Store) (six : Inet6) (marshal : CniConf → Decoded S.Data) where
  -- Whatever its result, `configure` has tried to make the log's directory and no more.
  pub configure_process :
      (E : Environment) (opts : Options) (p : Process K S six marshal)
      → (configure K S six marshal E opts p).1 ≡ record p { disk = (S.mkdir_all log_dir p.disk).1 }
  unfolding configure str_dec
  configure_process E opts p = by_name E.node_name refl
    where
      by_name :
          (name : Str)
          → E.node_name ≡ name
          → (configure K S six marshal E opts p).1
            ≡ record p { disk = (S.mkdir_all log_dir p.disk).1 }
      by_name [] e = ground (arith, e)
      by_name (c ∷ cs) e =
          ground (arith, e, Option-cases E.in_cluster_config, Option-cases E.new_for_config)

  pub new-disk :
      (own : Str) (d : S.Disk)
      → ((new S six own ipam_data_dir d).1 ≡ d)
        ⊎ ((new S six own ipam_data_dir d).1 ≡ (S.mkdir_all ipam_data_dir d).1)
  unfolding new
  new-disk own d = elim (Option-cases (parse_cidr six own)) [
    | inl e ↦ inl (ground (arith, e))
    | inr (n, e) ↦ elim (Option-cases (S.mkdir_all ipam_data_dir d).0) [
      | inr (t, h) ↦ inr (ground (arith, e, h))
      | inl h ↦
          let a : Allocator = record {
            subnet = n;
            gateway = first_host_ip n;
            data_dir = ipam_data_dir;
            allocs = [];
            used = [];
          } in
          inr (ground (arith, e, h, Option-cases (load S six a (S.mkdir_all ipam_data_dir d).1).0))
    ]
  ]

  module _ (L : IsLawful S) where
    read-new :
        (own q : Str) (d : S.Disk)
        → S.read_file q (new S six own ipam_data_dir d).1 ≡ S.read_file q d
    read-new own q d = elim (new-disk own d) [
      | inl e ↦ ap (S.read_file q) e
      | inr e ↦ ap (S.read_file q) e ∙ L.read-mkdir_all ipam_data_dir q d
    ]

    -- The allocator is made by `New` from the disk, and no file is written.
    pub make_allocator_lem :
        (own : Str) (p : Process K S six marshal)
        → let p' = (make_allocator K S six marshal own p).1 in
          (p'.kernel ≡ p.kernel)
          × (p'.handling ≡ p.handling)
          × (p'.serving ≡ p.serving)
          × (p'.listening ≡ p.listening)
          × ((q : Str) → S.read_file q p'.disk ≡ S.read_file q p.disk)
          × ((a : Allocator)
              → (make_allocator K S six marshal own p).0 ≡ ok a
              → new S six own ipam_data_dir p.disk ≡ (ok a, p'.disk))
    unfolding make_allocator
    make_allocator_lem own p = elim (Result-cases (new S six own ipam_data_dir p.disk).0) [
      | inr (e, h) ↦ (
        ground (arith, h),
        ground (arith, h),
        ground (arith, h),
        ground (arith, h),
        λ q. ground (arith, h, read-new own q p.disk),
        λ a made. ground (arith, h, made),
      )
      | inl (b, h) ↦ (
        ground (arith, h),
        ground (arith, h),
        ground (arith, h),
        ground (arith, h),
        λ q. ground (arith, h, read-new own q p.disk),
        λ a made. ground (arith, h, made),
      )
    ]

    -- Opening the socket writes no file, and the server has the allocator exactly if it succeeds.
    pub open_socket_lem :
        (E : Environment) (a : Allocator) (p : Process K S six marshal)
        → let (r, p') = open_socket K S six marshal E a p in
          (p'.kernel ≡ p.kernel)
          × (p'.handling ≡ p.handling)
          × (((r ≡ ok tt) × (p'.serving ≡ some a) × (p'.listening ≡ true))
              ⊎ ((r ≢ ok tt) × (p'.serving ≡ p.serving) × (p'.listening ≡ p.listening)))
          × ((q : Str) → S.read_file q p'.disk ≡ S.read_file q p.disk)
    unfolding open_socket
    open_socket_lem E a p = elim (Option-cases (S.mkdir_all socket_dir p.disk).0) [
      | inr (e, h) ↦ (
        ground (arith, h),
        ground (arith, h),
        inr (λ f. ground (arith, h, f), ground (arith, h), ground (arith, h)),
        λ q. ground (arith, h, L.read-mkdir_all socket_dir q p.disk),
      )
      | inl h ↦ elim (Option-cases E.listen) [
        | inr (e, h') ↦ (
          ground (arith, h, h'),
          ground (arith, h, h'),
          inr (λ f. ground (arith, h, h', f), ground (arith, h, h'), ground (arith, h, h')),
          λ q. ground (arith, h, h', L.read-mkdir_all socket_dir q p.disk),
        )
        | inl h' ↦ (
          ground (arith, h, h'),
          ground (arith, h, h'),
          inl (ground (arith, h, h'), ground (arith, h, h'), ground (arith, h, h')),
          λ q. ground (arith, h, h', L.read-mkdir_all socket_dir q p.disk),
        )
      ]
    ]

    -- The masquerade rule is a matter of the kernel alone.
    pub masquerade_lem :
        (own : Str) (p : Process K S six marshal)
        → (masquerade K S six marshal own p).1
          ≡ record p { kernel = (setup_masquerade K own p.kernel).1 }
    masquerade_lem own p = ground (arith, Result-cases (setup_masquerade K own p.kernel).0)
