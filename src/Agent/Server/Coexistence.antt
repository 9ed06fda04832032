-- ===== src/Agent/Server/Coexistence.antt =====
-- `cmdAdd` for one pod leaves the wiring of another as it is.
use purenet.Base.{
  fun_ext, ◌≡◌, ◌≢◌, ◌∙◌, sym, ap, subst, inl, inr, [], ◌∷◌, Str, codes, arith, Option-cases,
}
use purenet.Errors.{ok, Result-cases}
use purenet.Inet.{Ip}
use purenet.Network.Kernel.{got, Reply-cases, Link, Netns, host_netns, Kernel}
use purenet.Network.Action.{Action, pure, query, exec, ◌>>=◌, ◌>>◌}
use purenet.Network.Keeps.{Keeps, query-Keeps, exec-Keeps, bind-Keeps, then-Keeps}
use purenet.Network.Yields.{Yields-query, Yields-weaken, Yields-assume, bind-Keeps_known}
use purenet.Network.Namespaces.{Namespaces}
use purenet.Network.Apart.{Apart}
use purenet.Network.Veth.{
  proxy_arp_path, host_route, generate_host_veth_name, setup_host_route, enable_proxy_arp,
}
use purenet.Config.{NetConf, load_conf}
use purenet.Cni.{CniRequest}
use purenet.Agent.Server.Defs.{
  Codecs, Pod, CniResult, IpConfig, open_pod, make_pair, configure_pod, prepare, attach,
}
use purenet.Agent.Server.Home.{Home, for_each-Keeps, convert-Keeps}
use purenet.Agent.Server.Steps.{current}
use purenet.Agent.Server.Opening.{prepare_ok, make_pair-Yields, ns_do-Yields}
use purenet.Agent.Server.Bystander.{Wiring, set_up-AtHome, write-AtHome, add_route-AtHome}
use purenet.Agent.Server.Undisturbed.{
  proxy_arp_path_injective, Kept, KeptIn, pure-Keeps, make_pair-Keeps, configure_pod-Keeps,
}

module _ (K : Kernel) (N : Namespaces K) (X : Apart K N) (name : Str) (ip : Ip) (ns : Netns)
    (apart : ns ≢ host_netns) (F : N.Net → Type 0) where
  abbrev Stays : K.State → Type 0
  Stays = Kept K N X name ip ns apart F

  pub ns_do-Stays :
      {A : Type 0} (m : Netns) (act : Action K.State A)
      → Keeps (KeptIn K N X name ip ns apart F m) act
      → Keeps Stays (K.ns_do m act)
  unfolding Keeps
  ns_do-Stays m act keep s (home, w) = elim (Option-cases (N.entering.enter m s).0) [
    | inl e ↦
        let s1 = (N.entering.enter m s).1 in
        let kept = keep s1 (N.here-enter m s e, subst W (sym (entered s)) w) in
        subst Stays (ap (λ r. r.1) (sym (N.entering.ns_do-entered m act s e))) (
          N.here-leave s (act s1).1 ∙ home,
          subst W (sym (fun_ext (λ n. N.net-leave s n (act s1).1))) kept.1,
        )
    | inr (t, e) ↦
        subst Stays (ap (λ r. r.1) (sym (N.entering.ns_do-refused m act s t e)))
          (N.here-enter_failed m s (λ f. ground (arith, e, f)) ∙ home, subst W (sym (entered s)) w)
  ]
    where
      W : (Netns → N.Net) → Type 0
      W = Wiring K N X name ip ns apart F

      entered : (s : K.State) → N.net (N.entering.enter m s).1 ≡ N.net s
      entered s = fun_ext (λ n. N.net-enter m n s)

  -- A pod in a third namespace, with another name for the host's end.
  module _ (C : Codecs) (req : CniRequest)
      (third : (s : K.State) (m : Netns)
        → K.get_ns req.netns s ≡ got m
        → (m ≢ host_netns) × (m ≢ ns))
      (other : name ≢ generate_host_veth_name C.sha1 req.container_id) where
    abbrev gen : Str
    gen = generate_host_veth_name C.sha1 req.container_id

    -- The last steps before the allocation.
    abbrev raise : Str → Pod → Link → Action K.State Pod
    raise host pod link = do
      exec (K.link_set_up link) "failed to bring up %q" (host ∷ [])
      enable_proxy_arp K host
      pure pod

    abbrev bring_up : NetConf → Netns → Link × Link → Action K.State Pod
    bring_up conf m links =
        query (K.link_by_name links.0.name) "failed to find host veth %q" (links.0.name ∷ [])
        >>= raise links.0.name (record {
          conf = conf;
          ns = m;
          host_iface = record { name = links.0.name; sandbox = [] };
          cont_iface = record { name = links.1.name; sandbox = req.netns };
        })

    bring_up-Stays :
        (conf : NetConf) (m : Netns) (links : Link × Link)
        → links.0.name ≡ gen
        → Keeps Stays (bring_up conf m links)
    unfolding enable_proxy_arp
    bring_up-Stays conf m links named =
        bind-Keeps_known Stays (λ l. l.name ≡ gen) _ (raise links.0.name _)
          (query-Keeps Stays (K.link_by_name links.0.name) "failed to find host veth %q"
            (links.0.name ∷ []))
          (Yields-weaken _
            (Yields-query (K.link_by_name links.0.name) "failed to find host veth %q"
              (links.0.name ∷ []))
            (λ l s q.
              N.name-link (current K N s) links.0.name l
                (sym (N.link_by_name-link links.0.name s) ∙ q.1)
              ∙ named))
          (λ l is.
            then-Keeps Stays _ _
              (exec-Keeps Stays (K.link_set_up l) "failed to bring up %q" (links.0.name ∷ [])
                (set_up-AtHome K N X name ip ns apart F l (λ e. other (e ∙ is))))
              (then-Keeps Stays _ _
                (exec-Keeps Stays (K.write_file (proxy_arp_path links.0.name) (codes "1"))
                  "failed to enable proxy_arp on %s" (links.0.name ∷ [])
                  (write-AtHome K N X name ip ns apart F (proxy_arp_path links.0.name) (codes "1")
                    (λ e. other (proxy_arp_path_injective name links.0.name e ∙ named))))
                (pure-Keeps K N X name ip ns apart F Stays _)))

    open_pod-Stays : (conf : NetConf) → Keeps Stays (open_pod K C req conf)
    open_pod-Stays conf =
        bind-Keeps_known Stays (λ m. (m ≢ host_netns) × (m ≢ ns)) _
          (λ m. K.ns_do m (make_pair K C.sha1 req conf) >>= bring_up conf m)
          (query-Keeps Stays (K.get_ns req.netns) "failed to open netns %q" (req.netns ∷ []))
          (Yields-weaken _
            (Yields-query (K.get_ns req.netns) "failed to open netns %q" (req.netns ∷ []))
            (λ m s q. third s m q.1))
          (λ m away.
            bind-Keeps_known Stays (λ links. links.0.name ≡ gen) _ (bring_up conf m)
              (ns_do-Stays m (make_pair K C.sha1 req conf)
                (make_pair-Keeps K N X name ip ns apart F m away.0 away.1 C.sha1 req conf other))
              (Yields-assume _
                (Yields-weaken _
                  (ns_do-Yields K N (λ n. Unit {0}) (λ links n. links.0.name ≡ gen) m
                    (make_pair K C.sha1 req conf)
                    (Yields-assume _ (make_pair-Yields K N C.sha1 req conf) (λ s p. tt)))
                  (λ links s q. q.1))
                (λ s p. (p.0, tt)))
              (λ links named. bring_up-Stays conf m links named))

    pub prepare-Stays : Keeps Stays (prepare K C req)
    unfolding Keeps prepare
    prepare-Stays s q = elim (Result-cases (load_conf C.unmarshal_conf req.config)) [
      | inr (t, e) ↦ let same : s ≡ (prepare K C req s).1 = ground (arith, e) in subst Stays same q
      | inl (conf, e) ↦
          let step : (open_pod K C req conf s).1 ≡ (prepare K C req s).1 = ground (arith, e) in
          subst Stays step (open_pod-Stays conf s q)
    ]

    pub attach-Stays :
        (pod : Pod) (result : CniResult)
        → pod.ns ≢ host_netns
        → pod.ns ≢ ns
        → Keeps Stays (attach K C req pod result)
    unfolding attach setup_host_route
    attach-Stays pod result not_host not_ns =
        then-Keeps Stays _ _
          (for_each-Keeps Stays
            (λ (ipc : IpConfig). setup_host_route K pod.host_iface.name ipc.address.ip) result.ips
            (λ ipc.
              bind-Keeps Stays _ _
                (query-Keeps Stays (K.link_by_name pod.host_iface.name)
                  "failed to find host veth %q" (pod.host_iface.name ∷ []))
                (λ link.
                  exec-Keeps Stays (K.route_add (host_route K link ipc.address.ip))
                    "failed to add host route %v dev %s" (ipc.address.ip ∷ pod.host_iface.name ∷ [])
                    (add_route-AtHome K N X name ip ns apart F
                      (host_route K link ipc.address.ip)))))
          (then-Keeps Stays _ _
            (ns_do-Stays pod.ns (configure_pod K req result)
              (configure_pod-Keeps K N X name ip ns apart F pod.ns not_host not_ns req result))
            (convert-Keeps K N Stays C pod result))

    -- The namespace of the pod is the one that was opened.
    pub prepare_third :
        (pod : Pod) (s : K.State)
        → Home K N s
        → (prepare K C req s).0 ≡ ok pod
        → (pod.ns ≢ host_netns) × (pod.ns ≢ ns)
    unfolding prepare
    prepare_third pod s home done = elim (Reply-cases (K.get_ns req.netns s)) [
      | inl (m, h) ↦
          let at = (prepare_ok K N C req m pod s home h done).0.0 in
          let (not_host, not_ns) = third s m h in
          (λ e. not_host (sym at ∙ e), λ e. not_ns (sym at ∙ e))
      | inr (t, h) ↦ ground (arith, h, done, Result-cases (load_conf C.unmarshal_conf req.config))
    ]
