-- ===== src/Agent/Main/Order.antt =====
-- What has happened when the agent serves, and what has not when it does not start.
use purenet.Base.{◌≡◌, ◌≢◌, ◌⊎◌, ◌∙◌, inl, inr, refl, sym, ap, subst, Str, arith}
use purenet.Errors.{Result, ok, err, Result-cases}
use purenet.Inet.{Inet6}
use purenet.Network.Kernel.{Kernel}
use purenet.Network.Action.{Action, ◌>>=◌, ◌>>◌}
use purenet.Network.Veth.{setup_masquerade}
use purenet.Ipam.Store.{Store, IsLawful, Decoded}
use purenet.Nodesync.Conf.{CniConf}
use purenet.Agent.Main.Defs.{
  log_dir, cni_conf_path, Options, Environment, Process, configure, make_allocator, masquerade,
  open_socket, start_up,
}
use purenet.Agent.Main.Stages.{configure_process, make_allocator_lem, open_socket_lem}
use purenet.Agent.Main.Joined.{
  IsServing, HasStopped, configure_ok, syncer, p1, p2, HasJoined, join_cases,
}

module _ (K : Kernel) (S : Store) (six : Inet6) (marshal : CniConf → Decoded S.Data) where
  module _ (L : IsLawful S) (E : Environment) (opts : Options) (p : Process K S six marshal) where
    abbrev q1 : Process K S six marshal
    q1 = p1 K S six marshal L E opts p

    abbrev q2 : Process K S six marshal
    q2 = p2 K S six marshal L E opts p

    abbrev Outcome : Result (Unit {0}) × Process K S six marshal → Type 0
    Outcome t =
        ((t.0 ≡ ok tt) × IsServing K S six marshal E p t.1)
        ⊎ ((t.0 ≢ ok tt) × HasStopped K S six marshal E p t.1)

    -- The stages after `join`.
    abbrev after : Str → Action (Process K S six marshal) (Unit {0})
    after own = do
      a ← make_allocator K S six marshal own
      masquerade K S six marshal own
      open_socket K S six marshal E a

    after_join : (own : Str) → HasJoined K S six marshal L E opts p own → Outcome (after own q2)
    after_join own (known, on, idle, quiet, (b, encoded, there), others) =
        let made = make_allocator K S six marshal own q2 in
        let p3 = made.1 in
        let (k3, h3, s3, l3, r3, new3) = make_allocator_lem K S six marshal L own q2 in
        elim (Result-cases made.0) [
          | inr (e, h) ↦ inr (
            λ f. ground (arith, h, f),
            (let last : (after own q2).1 ≡ p3 = ground (arith, h) in
                subst (HasStopped K S six marshal E p) (sym last)
                  (stopped p3 (ground (arith, s3)) (ground (arith, l3)) (ground (arith, h3)))),
          )
          | inl (a, h) ↦
              let p4 : Process K S six marshal = record p3 {
                kernel = (setup_masquerade K own p3.kernel).1;
              } in
              elim (Result-cases (setup_masquerade K own p3.kernel).0) [
                | inr (e, m) ↦ inr (
                  λ f. ground (arith, h, m, f),
                  let last : (after own q2).1 ≡ p4 = ground (arith, h, m) in
                      subst (HasStopped K S six marshal E p) (sym last)
                        (stopped p4 (ground (arith, s3)) (ground (arith, l3)) (ground (arith, h3))),
                )
                | inl (u, m) ↦
                    let p5 = (open_socket K S six marshal E a p4).1 in
                    let (k5, h5, ends, r5) = open_socket_lem K S six marshal L E a p4 in
                    let last : (after own q2).1 ≡ p5 = ground (arith, h, m) in
                    elim ends [
                      | inr (bad, srv, lst) ↦ inr (
                        λ f. bad (ground (arith, h, m, f)),
                        subst (HasStopped K S six marshal E p) (sym last) (
                            stopped p5 (ground (arith, srv, s3)) (ground (arith, lst, l3))
                              (ground (arith, h5, h3))),
                      )
                      | inl (fine, srv, lst) ↦ inl (
                        ground (arith, h, m, fine),
                        subst (IsServing K S six marshal E p) (sym last) (record {
                          own = own;
                          known = known;
                          handling = ground (arith, h5, h3, on);
                          alloc = a;
                          served = srv;
                          listening = lst;
                          found = q2.disk;
                          left = p3.disk;
                          made = new3 a h;
                          before = others;
                          after = r5;
                          conf = b;
                          encoded = encoded;
                          written = r5 cni_conf_path ∙ r3 cni_conf_path ∙ there;
                        }),
                      )
                    ]
              ]
        ]
      where
        stopped :
            (q : Process K S six marshal)
            → q.serving ≡ q2.serving
            → q.listening ≡ q2.listening
            → q.handling ≡ q2.handling
            → HasStopped K S six marshal E p q
        stopped q s l h = record {
          served = s ∙ idle;
          listening = l ∙ quiet;
          conf = inr (own, known, h ∙ on);
        }

    -- `run` up to the wait for a signal either serves or has stopped. It serves exactly if it
    -- returns no error, and then the own node is known, its events are handled, the allocator is
    -- the one that `New` makes from the disk, and the configuration of the plugin is there. If it
    -- has stopped, the server has got nothing, and the configuration is as before unless the own
    -- node is known and its events are handled.
    pub start_up_cases :
        let (r, p') = start_up K S six marshal E opts p in
        ((r ≡ ok tt) × IsServing K S six marshal E p p')
        ⊎ ((r ≢ ok tt) × HasStopped K S six marshal E p p')
    unfolding start_up
    start_up_cases = elim (Result-cases (configure K S six marshal E opts p).0) [
      | inr (e, h) ↦
          let last : (start_up K S six marshal E opts p).1 ≡ q1 =
            ground (arith, h, configure_process K S six marshal E opts p) in
          inr (
            λ f. ground (arith, h, f),
            subst (HasStopped K S six marshal E p) (sym last) (record {
              served = refl;
              listening = refl;
              conf = inl (L.read-mkdir_all log_dir cni_conf_path p.disk);
            }),
          )
      | inl (sy, h) ↦
          let is : (configure K S six marshal E opts p).0 ≡ ok (syncer K S six marshal L E opts p) =
            h ∙ ap ok (configure_ok K S six marshal E opts p sy h) in
          let at_p1 = configure_process K S six marshal E opts p in
          elim (join_cases K S six marshal L E opts p) [
            | inr (e, j, stop) ↦
                let last : (start_up K S six marshal E opts p) ≡ (err e, q2) =
                  ground (arith, is, at_p1, j) in
                subst Outcome (sym last) (inr (λ f. cc (f), stop))
            | inl (own, j, joined_so) ↦
                let last : start_up K S six marshal E opts p ≡ after own q2 =
                  ground (arith, is, at_p1, j) in
                subst Outcome (sym last) (after_join own joined_so)
          ]
    ]
