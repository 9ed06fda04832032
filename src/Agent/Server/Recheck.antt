-- ===== src/Agent/Server/Recheck.antt =====
-- `cmdAdd` and then `cmdCheck` of the same container.
use purenet.Base.{ℕ, ◌≡◌, ◌≢◌, ◌∙◌, sym, ap, subst, inl, inr, true, none, List, [], ◌∷◌, Str, arith}
use purenet.Errors.{ok}
use purenet.Inet.{IpNet}
use purenet.Network.Kernel.{got, refused, Link, Addr, Reply-cases, Netns, host_netns, Kernel}
use purenet.Network.Action.{Action}
use purenet.Network.Namespaces.{Namespaces}
use purenet.Ipam.{check}
use purenet.Ipam.Store.{Store, IsLawful}
use purenet.Ipam.Invariant.{IsValid}
use purenet.Cni.{CniRequest}
use purenet.Agent.Server.Defs.{Codecs, CniResult, check_link}
use purenet.Agent.Server.Handlers.{World, cmd_add, cmd_check}
use purenet.Agent.Server.Home.{Home}
use purenet.Agent.Server.Steps.{PodSide, current}
use purenet.Agent.Server.Wiring.{pod_address, cmd_add-IsWired}

module _ (K : Kernel) (N : Namespaces K) where
  check_link_wired :
      (req : CniRequest) (s : K.State) (address : IpNet) (gw : List ℕ)
      → PodSide N (current K N s) req.if_name address gw
      → ((l : Link) (e : Str) → K.addr_list l s ≢ refused e)
      → (check_link K req s).0 ≡ ok tt
  check_link_wired req s address gw p answers =
      let l = p.end_up.device in
      let found : K.link_by_name req.if_name s ≡ got l =
        N.link_by_name-link req.if_name s ∙ p.end_up.found in
      let listed = N.addr_list-Assigned l req.if_name address s p.end_up.found p.assigned in
      elim (Reply-cases (K.addr_list l s)) [
        | inr (e, h) ↦ absurd (answers l e h)
        | inl (addrs, h) ↦ by_addrs addrs l found p.end_up.up listed h
      ]
    where
      by_addrs :
          (addrs : List Addr) (l : Link)
          → K.link_by_name req.if_name s ≡ got l
          → l.up ≡ true
          → K.addr_list l s ≢ got []
          → K.addr_list l s ≡ got addrs
          → (check_link K req s).0 ≡ ok tt
      by_addrs [] l found up listed h = absurd (listed h)
      by_addrs (a ∷ addrs) l found up listed h = ground (arith, found, up, h)

  ns_do_entered :
      (ns : Netns) (act : Action K.State (Unit {0})) (s : K.State)
      → (N.entering.enter ns s).0 ≡ none
      → (act (N.entering.enter ns s).1).0 ≡ ok tt
      → (K.ns_do ns act s).0 ≡ ok tt
  ns_do_entered ns act s e h = ap (λ r. r.0) (N.entering.ns_do-entered ns act s e) ∙ h

  -- On a valid allocator with a gateway, from the agent's namespace: after a `cmdAdd` that succeeds
  -- for a pod in another namespace, `cmdCheck` of the container succeeds, if the pod's namespace is
  -- still there and can be entered and the kernel does not fail to list addresses.
  pub cmd_add_check :
      (S : Store) (L : IsLawful S) (C : Codecs) (req : CniRequest) (result : CniResult) (ns : Netns)
      (w : World K S)
      → IsValid w.alloc
      → w.alloc.gateway ≢ []
      → Home K N w.kernel
      → K.get_ns req.netns w.kernel ≡ got ns
      → ns ≢ host_netns
      → (cmd_add K S C req w).0 ≡ ok result
      → K.get_ns req.netns (cmd_add K S C req w).1.kernel ≡ got ns
      → (N.entering.enter ns (cmd_add K S C req w).1.kernel).0 ≡ none
      → ((l : Link) (e : Str)
          → K.addr_list l (N.entering.enter ns (cmd_add K S C req w).1.kernel).1 ≢ refused e)
      → (cmd_check K S req (cmd_add K S C req w).1).0 ≡ ok tt
  unfolding cmd_check check
  cmd_add_check S L C req result ns w v gateway home found apart done opened entered answers =
      let w' = (cmd_add K S C req w).1 in
      let (ip, held, wired) =
        cmd_add-IsWired K S N L C req result ns w v gateway home found apart done in
      let s1 = (N.entering.enter ns w'.kernel).1 in
      let same : N.net w'.kernel ns ≡ current K N s1 =
        sym (N.net-enter ns ns w'.kernel)
        ∙ ap (N.net s1) (sym (N.here-enter ns w'.kernel entered)) in
      let there =
        subst (λ m. PodSide N m req.if_name (pod_address K N w.alloc.subnet ip) w.alloc.gateway)
          same wired.pod_side in
      let looked = ns_do_entered ns (check_link K req) w'.kernel entered (
        check_link_wired req s1 (pod_address K N w.alloc.subnet ip) w.alloc.gateway there
          answers) in
      ground (arith, held, opened, looked)
