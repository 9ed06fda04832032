-- ===== src/Agent/Server/Undisturbed.antt =====
-- What `cmdAdd` does in the namespace of its pod leaves the wiring of another pod.
use mathlib.Core.List.{append_cancel_left, append_cancel_right}
use purenet.Base.{◌≡◌, ◌≢◌, ◌∙◌, subst, refl, List, [], ◌∷◌, Str, ℕ, codes, arith}
use purenet.Inet.{Ip}
use purenet.Network.Kernel.{Addr, Netns, host_netns, Kernel}
use purenet.Network.Action.{pure, exec}
use purenet.Network.Keeps.{Keeps, query-Keeps, exec-Keeps, bind-Keeps, then-Keeps}
use purenet.Network.Yields.{Yields-assume, bind-Keeps_known}
use purenet.Network.Namespaces.{Namespaces, Setting, assign, set_up, add_route, apply}
use purenet.Network.Apart.{Apart}
use purenet.Network.Veth.{
  proxy_arp_path, gateway_route, setup_veth, generate_host_veth_name, configure_interface,
}
use purenet.Config.{NetConf}
use purenet.Cni.{CniRequest}
use purenet.Agent.Server.Defs.{
  CniResult, CniRoute, route_gateway, make_pair, configure_pod, add_pod_route,
}
use purenet.Agent.Server.Home.{for_each-Keeps}
use purenet.Agent.Server.Opening.{setup_veth-Yields}
use purenet.Agent.Server.Bystander.{Aside, AtHome, far, moved}

pub proxy_arp_path_injective : (a b : Str) → proxy_arp_path a ≡ proxy_arp_path b → a ≡ b
proxy_arp_path_injective a b e =
    append_cancel_right a b (codes "/proxy_arp")
      (append_cancel_left (codes "/proc/sys/net/ipv4/conf/") _ _ e)

module _ (K : Kernel) (N : Namespaces K) (X : Apart K N) (name : Str) (ip : Ip) (ns : Netns)
    (apart : ns ≢ host_netns) (F : N.Net → Type 0) where
  abbrev pub Kept : K.State → Type 0
  Kept = AtHome K N X name ip ns apart F

  abbrev pub KeptIn : Netns → K.State → Type 0
  KeptIn = Aside K N X name ip ns apart F

  pub pure-Keeps : (Q : K.State → Type 0) {A : Type 0} (a : A) → Keeps Q (pure a)
  unfolding Keeps
  pure-Keeps Q a s q = q

  -- In the namespace of the pod that is added.
  module _ (m : Netns) (not_host : m ≢ host_netns) (not_ns : m ≢ ns) where
    setting-Keeps : (c : Setting) (s : K.State) → KeptIn m s → KeptIn m (apply K c s).1
    setting-Keeps c =
        far K N X name ip ns apart F m (λ s. (apply K c s).1) (N.here-apply c) (N.net-apply_other c)
          not_host not_ns

    setup_veth-Keeps :
        (sha1 : Str → List ℕ) (req : CniRequest) (conf : NetConf)
        → Keeps (KeptIn m) (setup_veth K sha1 req.if_name req.container_id conf.mtu)
    unfolding setup_veth
    setup_veth-Keeps sha1 req conf =
        then-Keeps (KeptIn m) _ _
          (exec-Keeps (KeptIn m) _ "failed to add veth pair" [] (
            far K N X name ip ns apart F m _ (X.here-link_add_veth _) (X.net-link_add_veth_other _)
              not_host not_ns))
          (bind-Keeps (KeptIn m) _ _
            (query-Keeps (KeptIn m) (K.link_by_name req.if_name)
              "failed to look up container veth %q" (req.if_name ∷ []))
            (λ cont.
              bind-Keeps (KeptIn m) _ _
                (query-Keeps (KeptIn m) (K.link_by_name peer) "failed to look up host veth %q"
                  (peer ∷ []))
                (λ host. pure-Keeps (KeptIn m) (host, cont))))
      where
        peer : Str
        peer = generate_host_veth_name sha1 req.container_id

    pub make_pair-Keeps :
        (sha1 : Str → List ℕ) (req : CniRequest) (conf : NetConf)
        → name ≢ generate_host_veth_name sha1 req.container_id
        → Keeps (KeptIn m) (make_pair K sha1 req conf)
    make_pair-Keeps sha1 req conf other =
        bind-Keeps_known (KeptIn m)
          (λ links. links.0.name ≡ generate_host_veth_name sha1 req.container_id) _ _
          (setup_veth-Keeps sha1 req conf)
          (Yields-assume _ (setup_veth-Yields K N sha1 req conf) (λ s p. tt))
          (λ links named.
            then-Keeps (KeptIn m) _ _
              (exec-Keeps (KeptIn m) (K.link_set_ns links.0 host_netns)
                "failed to move %q to host netns" (links.0.name ∷ [])
                (λ s.
                  moved K N X name ip ns apart F m links.0 s not_host not_ns
                    (λ e. other (e ∙ named))))
              (pure-Keeps (KeptIn m) links))

    configure_interface-Keeps :
        (if_name : Str) (a : Addr) → Keeps (KeptIn m) (configure_interface K if_name a)
    unfolding configure_interface
    configure_interface-Keeps if_name a =
        bind-Keeps (KeptIn m) _ _
          (query-Keeps (KeptIn m) (K.link_by_name if_name) "failed to find interface %q"
            (if_name ∷ []))
          (λ link.
            then-Keeps (KeptIn m) _ _
              (exec-Keeps (KeptIn m) (K.addr_add link a) "failed to add address %v to %q"
                (a.net.ip ∷ if_name ∷ []) (setting-Keeps (assign link a)))
              (exec-Keeps (KeptIn m) (K.link_set_up link) "failed to bring up interface %q"
                (if_name ∷ []) (setting-Keeps (set_up link))))

    add_pod_route-Keeps :
        (result : CniResult) (route : CniRoute) → Keeps (KeptIn m) (add_pod_route K result route)
    unfolding Keeps
    add_pod_route-Keeps result route = by_gateway (route_gateway K result route) refl
      where
        by_gateway :
            (gw : Ip)
            → route_gateway K result route ≡ gw
            → (s : K.State) → KeptIn m s
            → KeptIn m (add_pod_route K result route s).1
        by_gateway [] e s q =
            let same : s ≡ (add_pod_route K result route s).1 = ground (arith, e) in
            subst (KeptIn m) same q
        by_gateway (b ∷ gw) e s q =
            let r = gateway_route K route.dst (b ∷ gw) in
            let done =
              exec-Keeps (KeptIn m) (K.route_add r) "failed to add route %v via %v"
                (route.dst.ip ∷ (b ∷ gw) ∷ []) (setting-Keeps (add_route r)) s q in
            let same : (exec (K.route_add r) "failed to add route %v via %v"
                  (route.dst.ip ∷ (b ∷ gw) ∷ []) s).1
                ≡ (add_pod_route K result route s).1 =
              ground (arith, e) in
            subst (KeptIn m) same done

    pub configure_pod-Keeps :
        (req : CniRequest) (result : CniResult) → Keeps (KeptIn m) (configure_pod K req result)
    configure_pod-Keeps req result =
        then-Keeps (KeptIn m) _ _
          (for_each-Keeps (KeptIn m) _ result.ips
            (λ ipc. configure_interface-Keeps req.if_name (record { net = ipc.address })))
          (for_each-Keeps (KeptIn m) _ result.routes (add_pod_route-Keeps result))
