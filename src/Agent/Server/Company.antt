-- ===== src/Agent/Server/Company.antt =====
-- Requests for other pods leave a pod wired.
use purenet.Base.{◌⊎◌, ◌≡◌, ◌≢◌, subst, inl, inr, [], ◌∷◌, Str, arith}
use purenet.Errors.{Result-cases}
use purenet.Inet.{Ip, Ip4, IpNet, bytes4}
use purenet.Network.Kernel.{got, Reply-cases, Link, Netns, host_netns, Kernel}
use purenet.Network.Keeps.{Keeps}
use purenet.Network.Namespaces.{Namespaces}
use purenet.Network.Apart.{Apart}
use purenet.Network.Veth.{generate_host_veth_name}
use purenet.Cni.{CniRequest}
use purenet.Ipam.{add}
use purenet.Ipam.Store.{Store}
use purenet.Agent.Server.Defs.{Codecs, result_of, prepare, attach}
use purenet.Agent.Server.Handlers.{World, allocate_and_attach, cmd_add}
use purenet.Agent.Server.Steps.{PodSide}
use purenet.Agent.Server.Wiring.{IsWired, pod_address}
use purenet.Agent.Server.Undisturbed.{Kept, KeptIn}
use purenet.Base.{List, Bool-cases}
use purenet.Network.Kernel.{refused}
use purenet.Ipam.{check}
use purenet.Agent.Server.Defs.{check_link}
use purenet.Agent.Server.Handlers.{cmd_check}
use purenet.Agent.Server.Serving.{
  Call, call_add, call_del, call_check, serve, serve_all, handle_add_world, handle_check_world,
}
use purenet.Agent.Server.Undisturbed.{Kept, KeptIn}
use purenet.Agent.Server.Coexistence.{ns_do-Stays, prepare-Stays, attach-Stays, prepare_third}

-- The path of the request never opens the agent's namespace or the pod's.
abbrev pub IsThird : (K : Kernel) → Netns → CniRequest → Type 0
IsThird K ns req =
    (s : K.State) (m : Netns) → K.get_ns req.netns s ≡ got m → (m ≢ host_netns) × (m ≢ ns)

module _ (K : Kernel) (N : Namespaces K) (X : Apart K N) (S : Store) (C : Codecs) (ns : Netns)
    (name if_name : Str) (subnet : IpNet) (ip : Ip4) (gw : Ip) (apart : ns ≢ host_netns) where
  abbrev IsWiredIn : K.State → Type 0
  IsWiredIn s = IsWired N s ns name if_name subnet ip gw

  cmd_add_other-IsWired :
      (req : CniRequest) (w : World K S)
      → IsThird K ns req
      → name ≢ generate_host_veth_name C.sha1 req.container_id
      → IsWiredIn w.kernel
      → IsWiredIn (cmd_add K S C req w).1.kernel
  unfolding cmd_add allocate_and_attach Keeps
  cmd_add_other-IsWired req w third other wired =
      let F : N.Net → Type 0 = λ m. PodSide N m if_name (pod_address K N subnet ip) gw in
      let At : K.State → Type 0 = Kept K N X name (bytes4 ip) ns apart F in
      let before : At w.kernel = (wired.home, (wired.host_side, wired.pod_side)) in
      let k = (prepare K C req w.kernel).1 in
      let ready : At k =
        prepare-Stays K N X name (bytes4 ip) ns apart F C req third other w.kernel before in
      let call = add S req.container_id w.alloc w.disk in
      let after : At (cmd_add K S C req w).1.kernel =
        elim (Result-cases (prepare K C req w.kernel).0) [
          | inr (t, e) ↦
              let last : k ≡ (cmd_add K S C req w).1.kernel = ground (arith, e) in
              subst At last ready
          | inl (pod, e) ↦ elim (Result-cases call.0) [
            | inr (t, e') ↦
                let last : k ≡ (cmd_add K S C req w).1.kernel = ground (arith, e, e') in
                subst At last ready
            | inl ((new, via), e') ↦
                let result = result_of pod call.1.subnet new via in
                let (not_host, not_ns) =
                  prepare_third K N X name (bytes4 ip) ns apart F C req third other pod w.kernel
                    wired.home e in
                let last : (attach K C req pod result k).1 ≡ (cmd_add K S C req w).1.kernel =
                  ground (arith, e, e') in
                subst At last (
                  attach-Stays K N X name (bytes4 ip) ns apart F C req third other pod result
                    not_host not_ns k ready)
          ]
        ] in
      record { home = after.0; host_side = after.1.0; pod_side = after.1.1 }

  check_link-Keeps : (Q : K.State → Type 0) (req : CniRequest) → Keeps Q (check_link K req)
  unfolding Keeps
  check_link-Keeps Q req s q = subst Q (same (Reply-cases (K.link_by_name req.if_name s))) q
    where
      same :
          ((l : Link) × (K.link_by_name req.if_name s ≡ got l))
            ⊎ ((e : Str) × (K.link_by_name req.if_name s ≡ refused e))
          → s ≡ (check_link K req s).1
      same (inr (e, h)) = ground (arith, h)
      same (inl (l, h)) = elim (Reply-cases (K.addr_list l s)) [
        | inr (e, h') ↦ ground (arith, h, h', Bool-cases l.up)
        | inl ([], h') ↦ ground (arith, h, h', Bool-cases l.up)
        | inl (a ∷ addrs, h') ↦ ground (arith, h, h', Bool-cases l.up)
      ]

  cmd_check_other-IsWired :
      (req : CniRequest) (w : World K S)
      → IsThird K ns req
      → IsWiredIn w.kernel
      → IsWiredIn (cmd_check K S req w).1.kernel
  unfolding cmd_check Keeps
  cmd_check_other-IsWired req w third wired =
      let F : N.Net → Type 0 = λ m. PodSide N m if_name (pod_address K N subnet ip) gw in
      let At : K.State → Type 0 = Kept K N X name (bytes4 ip) ns apart F in
      let before : At w.kernel = (wired.home, (wired.host_side, wired.pod_side)) in
      let after : At (cmd_check K S req w).1.kernel =
        elim (Result-cases (check req.container_id w.alloc)) [
          | inr (t, e) ↦
              let last : w.kernel ≡ (cmd_check K S req w).1.kernel = ground (arith, e) in
              subst At last before
          | inl (held, e) ↦ elim (Reply-cases (K.get_ns req.netns w.kernel)) [
            | inr (t, g) ↦
                let last : w.kernel ≡ (cmd_check K S req w).1.kernel = ground (arith, e, g) in
                subst At last before
            | inl (m, g) ↦
                let last : (K.ns_do m (check_link K req) w.kernel).1
                    ≡ (cmd_check K S req w).1.kernel =
                  ground (arith, e, g) in
                subst At last (
                  ns_do-Stays K N X name (bytes4 ip) ns apart F m (check_link K req)
                    (check_link-Keeps (KeptIn K N X name (bytes4 ip) ns apart F m) req) w.kernel
                    before)
          ]
        ] in
      record { home = after.0; host_side = after.1.0; pod_side = after.1.1 }

  -- An ADD or a CHECK of another container.
  abbrev pub IsOther : Call → Type 0
  IsOther (call_add req) =
      IsThird K ns req × (name ≢ generate_host_veth_name C.sha1 req.container_id)
  IsOther (call_check req) = IsThird K ns req
  IsOther (call_del req) = ⊥

  abbrev pub AllOther : List Call → Type 0
  AllOther [] = Unit {0}
  AllOther (c ∷ cs) = IsOther c × AllOther cs

  serve_other-IsWired :
      (c : Call) (w : World K S)
      → IsOther c
      → IsWiredIn w.kernel
      → IsWiredIn (serve K S C c w).1.kernel
  unfolding serve
  serve_other-IsWired (call_add req) w (third, other) wired =
      rw (handle_add_world K S C req w) (cmd_add_other-IsWired req w third other wired)
  serve_other-IsWired (call_check req) w third wired =
      rw (handle_check_world K S C req w) (cmd_check_other-IsWired req w third wired)
  serve_other-IsWired (call_del req) w none_such wired = absurd none_such

  -- A pod that is wired stays wired, as it was, through any requests of the kinds ADD and CHECK of
  -- other containers, whether they succeed or fail at any call: where their paths never open the
  -- agent's namespace or the pod's, and no name made for their links is the one of the pod's link.
  pub serve_all_other-IsWired :
      (cs : List Call) (w : World K S)
      → AllOther cs
      → IsWired N w.kernel ns name if_name subnet ip gw
      → IsWired N (serve_all K S C cs w).kernel ns name if_name subnet ip gw
  unfolding serve_all
  serve_all_other-IsWired [] w all wired = wired
  serve_all_other-IsWired (c ∷ cs) w (this, all) wired =
      serve_all_other-IsWired cs (serve K S C c w).1 all (serve_other-IsWired c w this wired)
