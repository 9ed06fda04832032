-- ===== src/Agent/Server/Wiring.antt =====
-- `cmdAdd` from the allocation on: both ends of the pod's veth pair.
use purenet.Base.{ℕ, ◌≡◌, ◌≢◌, ◌∙◌, sym, subst, refl, inl, inr, some, [], ◌∷◌, Str, lookup, arith}
use purenet.Errors.{ok, Result-cases}
use purenet.Inet.{Ip, Ip4, IpNet, bytes4}
use purenet.Network.Kernel.{got, Netns, host_netns, Kernel}
use purenet.Network.Action.{Action}
use purenet.Network.Namespaces.{Namespaces, Setting, apply}
use purenet.Network.Yields.{Yields, Yields-then, Yields-weaken, Yields-keeps, Yields-assume}
use purenet.Network.Veth.{setup_host_route, default_net, generate_host_veth_name}
use purenet.Cni.{CniRequest}
use purenet.Ipam.{add}
use purenet.Ipam.Store.{Store, IsLawful}
use purenet.Ipam.Invariant.{IsValid}
use purenet.Agent.Server.Handlers.{World, allocate_and_attach, cmd_add}
use purenet.Agent.Server.Pods.{add-lookup}
use purenet.Agent.Server.Defs.{
  Codecs, Pod, CniResult, IpConfig, result_of, for_each, configure_pod, prepare, attach,
}
use purenet.Agent.Server.Home.{Home, convert-Keeps}
use purenet.Agent.Server.Steps.{
  IsLive, HostSide, PodSide, Here, setup_host_route-Yields, configure_interface-Yields,
  add_route-Yields,
}
use purenet.Agent.Server.Opening.{prepare_ok, ns_do-Yields, IsReady, home_apply}

module _ (K : Kernel) (N : Namespaces K) where
  for_one-Yields :
      {A : Type 0} {P : K.State → Type 0} {Q : Unit {0} → K.State → Type 0}
      (act : A → Action K.State (Unit {0})) (x : A)
      → Yields P (act x) Q
      → Yields P (for_each act (x ∷ [])) Q
  unfolding for_each
  for_one-Yields {P} {Q} act x y = record {
    at = λ s a p h. elim (Result-cases (act x s).0) [
      | inr (t, e) ↦ ground (arith, e, h)
      | inl (tt, e) ↦
          let step : (for_each act (x ∷ []) s).1 ≡ (act x s).1 = ground (arith, e) in
          subst (Q a) (sym step) (y.at s a p e)
    ];
  }

  -- The address of the result, with the mask of the pod CIDR.
  abbrev pub pod_address : IpNet → Ip4 → IpNet
  pod_address subnet ip = record { ip = bytes4 ip; ones = subnet.ones; bits = subnet.bits }

  -- In a namespace other than the agent's, the host's end stays as it is.
  module _ (ns : Netns) (apart : ns ≢ host_netns) (H : N.Net → Type 0) where
    abbrev Inside : K.State → Type 0
    Inside s = (N.here s ≡ ns) × H (N.net s host_netns)

    inside_apply : (c : Setting) (s : K.State) → Inside s → Inside (apply K c s).1
    inside_apply c s (here, h) = (
      N.here-apply c s ∙ here,
      subst H (sym (N.net-apply_other c s host_netns (λ e. apart (sym (e ∙ here))))) h,
    )

    configure_pod-Yields :
        (req : CniRequest) (pod : Pod) (subnet : IpNet) (ip : Ip4) (b : ℕ) (gw : Ip)
        → Yields Inside (configure_pod K req (result_of pod subnet ip (b ∷ gw))) (λ _.
          Here K N Inside inside_apply
            (λ m. PodSide N m req.if_name (pod_address subnet ip) (b ∷ gw)))
    configure_pod-Yields req pod subnet ip b gw =
        Yields-then
          (Here K N Inside inside_apply
            (λ m. IsLive N m req.if_name × N.Assigned m req.if_name (pod_address subnet ip)))
          _ _
          (for_one-Yields _ _ (
            Yields-assume _
              (configure_interface-Yields K N Inside inside_apply req.if_name
                (record { net = pod_address subnet ip }))
              (λ s p. (p, tt))))
          (for_one-Yields _ _ (
            add_route-Yields K N Inside inside_apply req.if_name (pod_address subnet ip) (b ∷ gw)
              "failed to add route %v via %v" (default_net.ip ∷ (b ∷ gw) ∷ [])))

  attach-Yields :
      (C : Codecs) (req : CniRequest) (pod : Pod) (subnet : IpNet) (ip : Ip4) (b : ℕ) (gw : Ip)
      → pod.ns ≢ host_netns
      → Yields
          (Here K N (Home K N) (home_apply K N) (IsReady K N pod.host_iface.name))
          (attach K C req pod (result_of pod subnet ip (b ∷ gw)))
          (λ _ s.
            Home K N s
            × (HostSide N (N.net s host_netns) pod.host_iface.name (bytes4 ip)
                × PodSide N (N.net s pod.ns) req.if_name (pod_address subnet ip) (b ∷ gw)))
  unfolding attach
  attach-Yields C req pod subnet ip b gw apart =
      let result = result_of pod subnet ip (b ∷ gw) in
      let H : N.Net → Type 0 = λ m. HostSide N m pod.host_iface.name (bytes4 ip) in
      Yields-then (λ s. Home K N s × H (N.net s host_netns)) _ _
        (for_one-Yields (λ (ipc : IpConfig). setup_host_route K pod.host_iface.name ipc.address.ip)
          (record { interface = 1; address = pod_address subnet ip; gateway = b ∷ gw })
          (Yields-weaken _
            (setup_host_route-Yields K N (Home K N) (home_apply K N) pod.host_iface.name
              (bytes4 ip))
            (λ u s p. (p.0, subst (λ n. H (N.net s n)) p.0 p.1))))
        (Yields-then
          (λ s.
            Home K N s
            × (H (N.net s host_netns)
                × PodSide N (N.net s pod.ns) req.if_name (pod_address subnet ip) (b ∷ gw)))
          _ _
          (ns_do-Yields K N (λ n. H (n host_netns))
            (λ _ n.
              H (n host_netns) × PodSide N (n pod.ns) req.if_name (pod_address subnet ip) (b ∷ gw))
            pod.ns _
            (Yields-weaken _ (configure_pod-Yields pod.ns apart H req pod subnet ip b gw) (λ u s p.
              (
                p.0.1,
                subst (λ n. PodSide N (N.net s n) req.if_name (pod_address subnet ip) (b ∷ gw))
                    p.0.0 p.1,
              ))))
          (Yields-keeps _ (convert-Keeps K N _ C pod result)))

-- The pod of a namespace has its address over a pair of links, and the agent is back.
pub record IsWired {K : Kernel} (N : Namespaces K) (s : K.State) (ns : Netns)
    (host_name if_name : Str) (subnet : IpNet) (ip : Ip4) (gw : Ip) : Type 0 where
  pub home : Home K N s
  pub host_side : HostSide N (N.net s host_netns) host_name (bytes4 ip)
  pub pod_side : PodSide N (N.net s ns) if_name (pod_address K N subnet ip) gw

IsWired-subst :
    (K : Kernel) (N : Namespaces K) (if_name : Str) (ip : Ip4) {s t : K.State} {ns ns' : Netns}
    {name name' : Str} {subnet subnet' : IpNet} {gw gw' : Ip}
    → s ≡ t
    → ns ≡ ns'
    → name ≡ name'
    → subnet ≡ subnet'
    → gw ≡ gw'
    → IsWired N s ns name if_name subnet ip gw
    → IsWired N t ns' name' if_name subnet' ip gw'
IsWired-subst K N if_name ip {s} {t} {ns} {ns'} {name} {name'} {subnet} {subnet'} {gw} {gw'} es en
      em eb eg wired =
    subst (λ x. IsWired N x ns' name' if_name subnet' ip gw') es
      (subst (λ x. IsWired N s x name' if_name subnet' ip gw') en
        (subst (λ x. IsWired N s ns x if_name subnet' ip gw') em
          (subst (λ x. IsWired N s ns name if_name x ip gw') eb
            (subst (λ x. IsWired N s ns name if_name subnet ip x) eg wired))))

module _ (K : Kernel) (S : Store) (N : Namespaces K) where
  attach_ok :
      (C : Codecs) (req : CniRequest) (pod : Pod) (subnet : IpNet) (ip : Ip4) (gw : Ip)
      (result : CniResult) (s : K.State)
      → gw ≢ []
      → pod.ns ≢ host_netns
      → Here K N (Home K N) (home_apply K N) (IsReady K N pod.host_iface.name) s
      → (attach K C req pod (result_of pod subnet ip gw) s).0 ≡ ok result
      → IsWired N
          (attach K C req pod (result_of pod subnet ip gw) s).1
          pod.ns
          pod.host_iface.name
          req.if_name
          subnet
          ip
          gw
  attach_ok C req pod subnet ip [] result s some_gw apart ready done = absurd (some_gw refl)
  attach_ok C req pod subnet ip (b ∷ gw) result s some_gw apart ready done =
      let (home, (host_side, pod_side)) =
        (attach-Yields K N C req pod subnet ip b gw apart).at s result ready done in
      record { home = home; host_side = host_side; pod_side = pod_side }

  -- On a valid allocator with a gateway, from the agent's namespace, a `cmdAdd` that succeeds for a
  -- pod in another namespace leaves: the container with an address; in the agent's namespace, the
  -- link with the name made for the container, up, with proxy ARP on, and the host route to the
  -- address out of it; in the pod's namespace, the link that was asked for, up, with the address
  -- and the mask of the pod CIDR, and a default route over the gateway; and the thread in the
  -- agent's namespace.
  pub cmd_add-IsWired :
      (L : IsLawful S) (C : Codecs) (req : CniRequest) (result : CniResult) (ns : Netns)
      (w : World K S)
      → IsValid w.alloc
      → w.alloc.gateway ≢ []
      → Home K N w.kernel
      → K.get_ns req.netns w.kernel ≡ got ns
      → ns ≢ host_netns
      → (cmd_add K S C req w).0 ≡ ok result
      → let w' = (cmd_add K S C req w).1 in
        (ip : Ip4) × (lookup req.container_id w'.alloc.allocs ≡ some ip)
        × IsWired N w'.kernel ns
            (generate_host_veth_name C.sha1 req.container_id)
            req.if_name
            w.alloc.subnet
            ip
            w.alloc.gateway
  unfolding cmd_add allocate_and_attach
  cmd_add-IsWired L C req result ns w v gateway home found apart done =
      elim (Result-cases (prepare K C req w.kernel).0) [
        | inr (t, e) ↦ ground (arith, e, done)
        | inl (pod, e) ↦ elim (Result-cases (add S req.container_id w.alloc w.disk).0) [
          | inr (t, e') ↦ ground (arith, e, e', done)
          | inl ((ip, gw), e') ↦
              let call = add S req.container_id w.alloc w.disk in
              let k = (prepare K C req w.kernel).1 in
              let (names, ready) = prepare_ok K N C req ns pod w.kernel home found e in
              let (held, block, given) =
                add-lookup K S L req.container_id w.alloc w.disk ip gw v e' in
              let end = attach K C req pod (result_of pod call.1.subnet ip gw) k in
              let end_ok : end.0 ≡ ok result = ground (arith, e, e', done) in
              let wired =
                attach_ok C req pod call.1.subnet ip gw result k
                  (λ none. gateway (sym given ∙ none)) (λ there. apart (sym names.0 ∙ there)) ready
                  end_ok in
              let last : end.1 ≡ (cmd_add K S C req w).1.kernel = ground (arith, e, e') in
              (
                ip,
                ground (arith, e, e', held),
                IsWired-subst K N req.if_name ip last names.0 names.1 block given wired,
              )
        ]
      ]
