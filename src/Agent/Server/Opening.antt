-- ===== src/Agent/Server/Opening.antt =====
-- `cmdAdd` up to the allocation: the pod's veth pair, and the host's end of it.
use purenet.Base.{
  ℕ, fun_ext, ◌≡◌, ◌∙◌, sym, ap, subst, inl, inr, some, List, [], ◌∷◌, Str, codes, arith,
  Option-cases,
}
use purenet.Network.Kernel.{got, Link, Netns, host_netns, Kernel}
use purenet.Network.Action.{Action, pure, query, exec, ◌>>=◌, ◌>>◌}
use purenet.Network.Namespaces.{Namespaces, Setting, set_up, apply}
use purenet.Network.Yields.{
  Yields, Yields-pure, Yields-query, Yields-exec, Yields-bind, Yields-then, Yields-weaken,
  Yields-given, Yields-assume,
}
use purenet.Network.Veth.{proxy_arp_path, enable_proxy_arp, setup_veth, generate_host_veth_name}
use purenet.Config.{NetConf}
use purenet.Cni.{CniRequest}
use purenet.Errors.{ok, Result-cases}
use purenet.Config.{load_conf}
use purenet.Agent.Server.Defs.{prepare, Codecs, Pod, open_pod, make_pair}
use purenet.Agent.Server.Home.{Home}
use purenet.Agent.Server.Steps.{
  IsLive, current, set_up-IsLive, Here, setting-Yields, link_by_name-Yields,
  enable_proxy_arp-Yields,
}

module _ (K : Kernel) (N : Namespaces K) where
  -- `netNS.Do` acts in that namespace, and neither the way in nor the way out changes a table.
  pub ns_do-Yields :
      {A : Type 0} (H : (Netns → N.Net) → Type 0) (G : A → (Netns → N.Net) → Type 0) (ns : Netns)
      (act : Action K.State A)
      → Yields (λ s. (N.here s ≡ ns) × H (N.net s)) act (λ a s. G a (N.net s))
      → Yields (λ s. Home K N s × H (N.net s)) (K.ns_do ns act) (λ a s. Home K N s × G a (N.net s))
  ns_do-Yields H G ns act y = record {
    at = λ s a p h. elim (Option-cases (N.entering.enter ns s).0) [
      | inr (t, e) ↦ ground (arith, N.entering.ns_do-refused ns act s t e, h)
      | inl e ↦
          let s1 = (N.entering.enter ns s).1 in
          let step = N.entering.ns_do-entered ns act s e in
          let inside : (N.here s1 ≡ ns) × H (N.net s1) =
            (N.here-enter ns s e, subst H (fun_ext (λ n. sym (N.net-enter ns n s))) p.1) in
          let there = y.at s1 a inside (ap (λ r. r.0) (sym step) ∙ h) in
          subst (λ t. Home K N t × G a (N.net t)) (ap (λ r. r.1) (sym step))
            (
              N.here-leave s (act s1).1 ∙ p.0,
              subst (G a) (fun_ext (λ n. sym (N.net-leave s n (act s1).1))) there,
            )
    ];
  }

  -- The host's end has the name made for the container.
  pub setup_veth-Yields :
      (sha1 : Str → List ℕ) (req : CniRequest) (conf : NetConf)
      → Yields
          (λ s. Unit {0})
          (setup_veth K sha1 req.if_name req.container_id conf.mtu)
          (λ links s. links.0.name ≡ generate_host_veth_name sha1 req.container_id)
  unfolding setup_veth
  setup_veth-Yields sha1 req conf =
      Yields-then (λ s. Unit {0}) _ _
        (Yields-exec (λ s. Unit {0}) _ "failed to add veth pair" [] (λ s p e. tt))
        (Yields-bind _ _
          (Yields-query (K.link_by_name req.if_name) "failed to look up container veth %q"
            (req.if_name ∷ []))
          (λ cont.
            Yields-bind _ _
              (Yields-query (K.link_by_name peer) "failed to look up host veth %q" (peer ∷ []))
              (λ host.
                Yields-weaken {R = λ links s. links.0.name ≡ peer} _ (Yields-pure (host, cont))
                  (λ links s q.
                    ap (λ (l : Link × Link). l.0.name) (sym q.0)
                    ∙ N.name-link (current K N s) peer host
                        (sym (N.link_by_name-link peer s) ∙ q.1.1)))))
    where
      peer : Str
      peer = generate_host_veth_name sha1 req.container_id

  pub make_pair-Yields :
      (sha1 : Str → List ℕ) (req : CniRequest) (conf : NetConf)
      → Yields
          (λ s. Unit {0})
          (make_pair K sha1 req conf)
          (λ links s. links.0.name ≡ generate_host_veth_name sha1 req.container_id)
  make_pair-Yields sha1 req conf = Yields-bind _ _ (setup_veth-Yields sha1 req conf) (λ links.
      Yields-then (λ s. links.0.name ≡ generate_host_veth_name sha1 req.container_id) _ _
        (Yields-exec (λ s. links.0.name ≡ generate_host_veth_name sha1 req.container_id)
          (K.link_set_ns links.0 host_netns) "failed to move %q to host netns" (links.0.name ∷ [])
          (λ s p e. p))
        (Yields-weaken _ (Yields-pure links)
          (λ l s q. ap (λ (l : Link × Link). l.0.name) (sym q.0) ∙ q.1)))

  -- The host's end before the allocation.
  abbrev pub IsReady : Str → N.Net → Type 0
  IsReady name m = IsLive N m name × (N.sysctl m (proxy_arp_path name) ≡ some (codes "1"))

  pub home_apply : (c : Setting) (s : K.State) → Home K N s → Home K N (apply K c s).1
  home_apply c s h = N.here-apply c s ∙ h

  pub open_pod-Yields :
      (C : Codecs) (req : CniRequest) (conf : NetConf) (ns : Netns)
      → Yields
          (λ s. Home K N s × (K.get_ns req.netns s ≡ got ns))
          (open_pod K C req conf)
          (λ pod s.
            ((pod.ns ≡ ns)
              × (pod.host_iface.name ≡ generate_host_veth_name C.sha1 req.container_id))
            × Here K N (Home K N) home_apply (IsReady pod.host_iface.name) s)
  open_pod-Yields C req conf ns =
      Yields-bind _ _ (Yields-query (K.get_ns req.netns) "failed to open netns %q" (req.netns ∷ []))
        (λ found.
          Yields-assume _
            (Yields-given {X = found ≡ ns} _ (λ same.
              Yields-bind _ _
                (ns_do-Yields (λ n. Unit {0})
                  (λ links n. links.0.name ≡ generate_host_veth_name C.sha1 req.container_id) found
                  (make_pair K C.sha1 req conf)
                  (Yields-assume _ (make_pair-Yields C.sha1 req conf) (λ s p. tt)))
                (λ links. opened found same links)))
            (λ s p. (ground (arith, p), (p.0.0, tt))))
    where
      gen : Str
      gen = generate_host_veth_name C.sha1 req.container_id

      opened :
          (found : Netns)
          → found ≡ ns
          → (links : Link × Link)
          → Yields {A = Pod}
              (λ s. Home K N s × (links.0.name ≡ gen))
              (do
                host_link ←
                    query
                      (K.link_by_name links.0.name)
                      "failed to find host veth %q"
                      (links.0.name ∷ [])
                exec (K.link_set_up host_link) "failed to bring up %q" (links.0.name ∷ [])
                enable_proxy_arp K links.0.name
                pure (record {
                  conf = conf;
                  ns = found;
                  host_iface = record { name = links.0.name; sandbox = [] };
                  cont_iface = record { name = links.1.name; sandbox = req.netns };
                }))
              (λ pod s.
                ((pod.ns ≡ ns) × (pod.host_iface.name ≡ gen))
                × Here K N (Home K N) home_apply (IsReady pod.host_iface.name) s)
      opened found same links =
          let name = links.0.name in
          Yields-assume _
            (Yields-given {X = name ≡ gen} _ (λ named.
              Yields-bind _ _
                (link_by_name-Yields K N (Home K N) home_apply name (λ m. Unit {0})
                  "failed to find host veth %q" (name ∷ []))
                (λ host_link.
                  Yields-then (Here K N (Home K N) home_apply (λ m. IsLive N m name)) _ _
                    (setting-Yields K N (Home K N) home_apply (set_up host_link)
                      (λ m. Unit {0} × (N.link m name ≡ got host_link)) (λ m. IsLive N m name)
                      "failed to bring up %q" (name ∷ [])
                      (λ s p done. set_up-IsLive K N host_link s name p.1 done))
                    (Yields-then (Here K N (Home K N) home_apply (IsReady name)) _ _
                      (enable_proxy_arp-Yields K N (Home K N) home_apply name)
                      (Yields-weaken _ (Yields-pure _) (λ pod s q.
                        subst
                          (λ (p : Pod).
                            ((p.ns ≡ ns) × (p.host_iface.name ≡ gen))
                            × Here K N (Home K N) home_apply (IsReady p.host_iface.name) s)
                          q.0 ((same, named), q.1)))))))
            (λ s p. (p.1, (p.0, tt)))

  pub prepare_ok :
      (C : Codecs) (req : CniRequest) (ns : Netns) (pod : Pod) (s : K.State)
      → Home K N s
      → K.get_ns req.netns s ≡ got ns
      → (prepare K C req s).0 ≡ ok pod
      → ((pod.ns ≡ ns) × (pod.host_iface.name ≡ generate_host_veth_name C.sha1 req.container_id))
        × Here K N (Home K N) home_apply (IsReady pod.host_iface.name) (prepare K C req s).1
  unfolding prepare
  prepare_ok C req ns pod s h g done = elim (Result-cases (load_conf C.unmarshal_conf req.config)) [
    | inr (t, e) ↦ ground (arith, e, done)
    | inl (conf, e) ↦
        let step : open_pod K C req conf s ≡ prepare K C req s = ground (arith, e) in
        subst
          (λ t.
            ((pod.ns ≡ ns)
              × (pod.host_iface.name ≡ generate_host_veth_name C.sha1 req.container_id))
            × Here K N (Home K N) home_apply (IsReady pod.host_iface.name) t)
          (ap (λ r. r.1) step)
          ((open_pod-Yields C req conf ns).at s pod (h, g) (ap (λ r. r.0) step ∙ done))
  ]
