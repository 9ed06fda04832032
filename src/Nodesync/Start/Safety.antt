-- ===== src/Nodesync/Start/Safety.antt =====
-- When handlers may run.
use purenet.Base.{
  ◌≡◌, ◌≢◌, ◌⊎◌, inl, inr, true, false, some, Str, str_dec, arith, subst, Option-cases,
}
use purenet.Errors.{ok, Result-cases}
use purenet.Inet.{IpNet, Inet6, parse_cidr}
use purenet.Network.Kernel.{Kernel}
use purenet.Network.Vxlan.{setup_vxlan}
use purenet.Network.Vxlan.Setup.{Interfaces, IsSetUp, setup_vxlan-IsSetUp}
use purenet.Nodesync.Node.{Controller}
use purenet.Nodesync.Start.Defs.{
  Informer, mode_vxlan, new, own_pod_cidr, run_vxlan, run_host_gateway, run,
}

module _ (K : Kernel) (I : Interfaces K) (six : Inet6) where
  -- In the VXLAN mode no handler of node events is registered before the own node's pod CIDR is
  -- known and the tunnel's interface is up with its MAC address and address; where one is, `Run`
  -- returns the CIDR, and where none is, `Run` returns an error.
  pub run_vxlan-handling :
      (informer : Informer) (c : Controller) (s : K.State)
      → let started = run_vxlan K six informer c s in
        ((started.handling ≡ true)
          × (own : Str) × (block : IpNet) × (started.result ≡ ok own)
          × (own_pod_cidr informer c.node_name ≡ ok own)
          × (parse_cidr six own ≡ some block)
          × IsSetUp K I block started.kernel)
        ⊎ ((started.handling ≡ false) × ((own : Str) → started.result ≢ ok own))
  unfolding run_vxlan
  run_vxlan-handling informer c s = elim (Result-cases (own_pod_cidr informer c.node_name)) [
    | inr (e, h) ↦ inr (ground (arith, h), λ o q. ground (arith, h, q))
    | inl (own, h) ↦ elim (Option-cases (parse_cidr six own)) [
      | inl bad ↦ inr (ground (arith, h, bad), λ o q. ground (arith, h, bad, q))
      | inr (block, good) ↦ elim (Result-cases (setup_vxlan K block s).0) [
        | inr (e, fails) ↦
            inr (ground (arith, h, good, fails), λ o q. ground (arith, h, good, fails, q))
        | inl (u, done) ↦ inl (
          ground (arith, h, good, done),
          own,
          block,
          ground (arith, h, good, done),
          h,
          good,
          subst (IsSetUp K I block) (ground (arith, h, good, done))
              (setup_vxlan-IsSetUp K I block s done),
        )
      ]
    ]
  ]

module _ (K : Kernel) (six : Inet6) where
  -- In both modes a `Run` without an error returns the own node's pod CIDR, and has registered the
  -- handlers.
  pub run-own :
      (informer : Informer) (node_name path mode own : Str) (s : K.State)
      → let started = run K six informer (new node_name path mode) s in
        started.result ≡ ok own
        → (own_pod_cidr informer node_name ≡ ok own) × (started.handling ≡ true)
  unfolding run run_vxlan run_host_gateway new str_dec
  run-own informer node_name path mode own s done = elim (str_dec mode mode_vxlan) [
    | no other ↦ (ground (arith, other, done), ground (arith, other))
    | yes vxlan ↦ elim (Result-cases (own_pod_cidr informer node_name)) [
      | inr (e, h) ↦ ground (arith, vxlan, h, done)
      | inl (o, h) ↦ elim (Option-cases (parse_cidr six o)) [
        | inl bad ↦ ground (arith, vxlan, h, bad, done)
        | inr (block, good) ↦ elim (Result-cases (setup_vxlan K block s).0) [
          | inr (e, fails) ↦ ground (arith, vxlan, h, good, fails, done)
          | inl (u, set) ↦
              (ground (arith, vxlan, h, good, set, done), ground (arith, vxlan, h, good, set))
        ]
      ]
    ]
  ]
