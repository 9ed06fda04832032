-- ===== src/Nodesync/Cluster/Convergence.antt =====
-- What the host has for the nodes of the cluster, after any events.
use purenet.Base.{
  ◌≡◌, ◌≢◌, inl, inr, refl, sym, subst, ◌∙◌, ◌&&◌, ◌||◌, Bool-cases, false, some, [], Str, str_dec,
  lookup, insert, erase, lookup-insert, lookup-erase, arith, Option-cases,
}
use purenet.Errors.{Result-cases}
use purenet.Network.Action.{Action}
use purenet.Nodesync.Node.{Node, NodeRoute, internal_ip, Controller}
use purenet.Nodesync.Handlers.{same, remove_old, on_add, on_update, on_delete, program}
use purenet.Nodesync.Events.{deliver}
use purenet.Nodesync.Backend.{IsBackend, IsTracking, HasOwnBlock}
use purenet.Nodesync.Tracking.{on_add-IsTracking, on_update-IsTracking, on_delete-IsTracking}
use purenet.Nodesync.Cluster.Defs.{
  Nodes, Failures, route_of, HasOwnBlocks, Run, started, heard_added, heard_updated, heard_deleted,
  heard_lost, kernel_changed,
}
use purenet.Nodesync.Cluster.Agreement.{AgreesAt, unknown_off, known_complete}
use purenet.Nodesync.Cluster.Handling.{on_add-AgreesAt, on_update-AgreesAt, on_delete-AgreesAt}

module _ {S : Type 0} (add del : Str → Str → Action S (Unit {0})) (B : IsBackend add del) where
  -- The invariant.
  record IsCurrent (name : Str) (f : Failures) (w : Nodes) (x : Controller × S) : Type 0 where
    tracking : IsTracking add del B x.0 x.1
    blocks : HasOwnBlocks add del B w
    agrees : (m : Str) → AgreesAt m f w x.0
    named : x.0.node_name ≡ name

  -- A node of the cluster has a block that no other node on record has.
  own_block :
      (name : Str) (b : Node) (f : Failures) (w v : Nodes) (c : Controller)
      → HasOwnBlocks add del B v
      → ((m : Str) → AgreesAt m f w c)
      → lookup name v ≡ some b
      → ((m : Str) → m ≢ name → lookup m v ≡ lookup m w)
      → b.pod_cidr ≢ []
      → HasOwnBlock add del B name b.pod_cidr c
  own_block name b f w v c blocks agrees here same full m q other h =
      let (a, there, is, some_cidr, addr) = (agrees m).known q h in
      let at_m : lookup m v ≡ some a = same m other ∙ there in
      let cidr : a.pod_cidr ≡ q.pod_cidr = ground (arith, is) in
      (
        subst (λ t. B.Apart t b.pod_cidr) cidr (blocks m name a b other at_m here some_cidr full),
        subst (λ t. B.Apart b.pod_cidr t) cidr
            (blocks name m b a (λ e. other (sym e)) here at_m full some_cidr),
      )

  node_name-program :
      (n : Node) (c : Controller) (s : S) → (program add del n c s).0.node_name ≡ c.node_name
  unfolding program
  node_name-program n c s = elim (Bool-cases (same n.pod_cidr [] || same (internal_ip n) [])) [
    | inl e ↦ ground (arith, e)
    | inr e ↦ ground (arith, e, Result-cases (add n.pod_cidr (internal_ip n) s).0)
  ]

  node_name-on_add :
      (n : Node) (c : Controller) (s : S) → (on_add add del n c s).0.node_name ≡ c.node_name
  unfolding on_add
  node_name-on_add n c s = elim (str_dec n.name c.node_name) [
    | yes e ↦ ground (arith, e)
    | no e ↦ ground (arith, e, node_name-program n c s)
  ]

  node_name-on_update :
      (old new : Node) (c : Controller) (s : S)
      → (on_update add del old new c s).0.node_name ≡ c.node_name
  unfolding on_update remove_old
  node_name-on_update old new c s =
      let c' = (remove_old add del old c s).0 in
      let s' = (remove_old add del old c s).1 in
      elim (str_dec new.name c.node_name) [
        | yes e ↦ ground (arith, e)
        | no e ↦
            elim (Bool-cases
              (same old.pod_cidr new.pod_cidr && same (internal_ip old) (internal_ip new))) [
                | inl h ↦ ground (arith, e, h)
                | inr h ↦ ground (
                  arith,
                  e,
                  h,
                  node_name-program new c' s',
                  Bool-cases (same old.pod_cidr [] || same (internal_ip old) []),
                )
              ]
      ]

  node_name-on_delete :
      (n : Node) (c : Controller) (s : S) → (on_delete add del n c s).0.node_name ≡ c.node_name
  unfolding on_delete
  node_name-on_delete n c s = ground (arith, Option-cases (lookup n.name c.routes))

  after_delete :
      (name : Str) (n : Node) (f : Failures) (w : Nodes) (c : Controller) (s : S)
      → IsCurrent name f w (c, s)
      → IsCurrent name f (erase n.name w) (on_delete add del n c s)
  after_delete name n f w c s k = record {
    tracking = (on_delete-IsTracking add del B n c s k.tracking).0;
    blocks = λ p q a b ne hp hq.
        k.blocks p q a b ne (ground (arith, hp, lookup-erase p n.name w))
          (ground (arith, hq, lookup-erase q n.name w));
    agrees = on_delete-AgreesAt add del n f w c s k.tracking.remote k.agrees;
    named = node_name-on_delete n c s ∙ k.named;
  }

  Run-IsCurrent :
      (start : Controller) {f : Failures} {w : Nodes} {x : Controller × S}
      → start.routes ≡ []
      → Run add del B start f w x
      → IsCurrent start.node_name f w x
  unfolding deliver
  Run-IsCurrent start none_yet (started s) = record {
    tracking = record {
      remote = ground (arith, none_yet);
      installed = λ n r h. ground (arith, none_yet, h);
      apart = λ n m r q ne h h'. ground (arith, none_yet, h);
    };
    blocks = λ n m a b ne h. ground (arith, h);
    agrees = λ m. record {
      known = λ r h. ground (arith, none_yet, h);
      covered = λ a h ne. ground (arith, h);
    };
    named = refl;
  }
  Run-IsCurrent start none_yet (heard_added {f} {w} {c} {s} n r new blocks clear) =
      let k = Run-IsCurrent start none_yet r in
      let off = unknown_off n.name f w c (k.agrees n.name) new in
      record {
        tracking =
            on_add-IsTracking add del B n c s k.tracking off
              (own_block n.name n f w (insert n.name n w) c blocks k.agrees
                (ground (arith, lookup-insert n.name n.name n w))
                (λ m ne. ground (arith, ne, lookup-insert m n.name n w)))
              clear;
        blocks = blocks;
        agrees = on_add-AgreesAt add del n f w c s new k.agrees;
        named = node_name-on_add n c s ∙ k.named;
      }
  Run-IsCurrent start none_yet (heard_updated {f} {w} {c} {s} old new r here same blocks clear) =
      let k = Run-IsCurrent start none_yet r in
      record {
        tracking =
            on_update-IsTracking add del B old new c s k.tracking same
              (own_block old.name old f w w c k.blocks k.agrees here (λ m ne. refl))
              (own_block old.name new f w (insert new.name new w) c blocks k.agrees
                (ground (arith, same, lookup-insert old.name new.name new w))
                (λ m ne. ground (arith, ne, same, lookup-insert m new.name new w)))
              (λ q h. known_complete old.name f w c old q (k.agrees old.name) here h) clear;
        blocks = blocks;
        agrees = on_update-AgreesAt add del old new f w c s here same k.tracking.remote k.agrees;
        named = node_name-on_update old new c s ∙ k.named;
      }
  Run-IsCurrent start none_yet (heard_deleted {f} {w} {c} {s} n r) =
      after_delete start.node_name n f w c s (Run-IsCurrent start none_yet r)
  Run-IsCurrent start none_yet (heard_lost {f} {w} {c} {s} n r) =
      after_delete start.node_name n f w c s (Run-IsCurrent start none_yet r)
  Run-IsCurrent start none_yet (kernel_changed {f} {w} {c} {s} t r stays) =
      let k = Run-IsCurrent start none_yet r in
      record {
        tracking = record {
          remote = k.tracking.remote;
          installed = λ n q h. stays q.pod_cidr q.node_ip (k.tracking.installed n q h);
          apart = k.tracking.apart;
        };
        blocks = k.blocks;
        agrees = k.agrees;
        named = k.named;
      }

  -- From an empty record, after any events of the cluster as client-go tells them, in which no two
  -- nodes have one block and the kernel has nothing else for a block that is programmed: a node on
  -- record is one of the cluster, with that node's route, which is installed; and what each remote
  -- node of the cluster with a block and an internal address needs is installed, unless a call for
  -- a node of that name has failed.
  pub Run-converges :
      (start : Controller) (f : Failures) (w : Nodes) (c : Controller) (s : S)
      → start.routes ≡ []
      → Run add del B start f w (c, s)
      → (n : Str)
      → ((r : NodeRoute)
          → lookup n c.routes ≡ some r
          → (a : Node) × (lookup n w ≡ some a)
            × (r ≡ route_of a)
            × B.Installed a.pod_cidr (internal_ip a) s)
        × ((a : Node)
            → lookup n w ≡ some a
            → n ≢ start.node_name
            → a.pod_cidr ≢ []
            → internal_ip a ≢ []
            → f n ≡ false
            → B.Installed a.pod_cidr (internal_ip a) s)
  Run-converges start f w c s none_yet run n =
      let k = Run-IsCurrent start none_yet run in
      (
        λ r h.
            let (a, here, is, full, addr) = (k.agrees n).known r h in
            (
              a,
              here,
              is,
              subst (λ (t : NodeRoute). B.Installed t.pod_cidr t.node_ip s) is
                  (k.tracking.installed n r h),
            ),
        λ a here other full addr fine.
            elim ((k.agrees n).covered a here (λ e. other (e ∙ k.named)) full addr) [
              | inl on ↦ k.tracking.installed n (route_of a) on
              | inr bad ↦ ground (arith, fine, bad)
            ],
      )
