-- ===== src/Agent/Server/Teardown.antt =====
-- What a `cmdDel` that succeeds has taken away.
use purenet.Base.{
  ◌≡◌, ◌≢◌, ◌∙◌, sym, ap, subst, refl, inl, inr, none, [], ◌∷◌, Str, codes, lookup, arith,
  Option-cases,
}
use purenet.Errors.{ok}
use purenet.Network.Kernel.{got, refused, Reply-cases, Netns, Kernel}
use purenet.Network.Namespaces.{Namespaces}
use purenet.Network.Yields.{Yields}
use purenet.Network.Veth.{delete_veth}
use purenet.Ipam.{del}
use purenet.Ipam.Store.{Store, IsLawful}
use purenet.Ipam.Invariant.{IsValid}
use purenet.Cni.{CniRequest}
use purenet.Agent.Server.Handlers.{World, cmd_del}
use purenet.Agent.Server.Pods.{cmd_del_released}
use purenet.Agent.Server.Home.{Home, cmd_del-Home}
use purenet.Agent.Server.Opening.{ns_do-Yields}

module _ (K : Kernel) (N : Namespaces K) where
  -- No link has that name.
  abbrev pub IsGone : Str → N.Net → Type 0
  IsGone name m = N.link m name ≡ refused (codes "Link not found")

  delete_veth-IsGone :
      (name : Str) (ns : Netns)
      → Yields
          (λ s. (N.here s ≡ ns) × Unit {0})
          (delete_veth K name)
          (λ _ s. IsGone name (N.net s ns))
  unfolding delete_veth
  delete_veth-IsGone name ns = record {
    at = λ s a p done.
        subst (λ n. IsGone name (N.net (delete_veth K name s).1 n)) p.0 (gone s a done);
  }
    where
      gone :
          (s : K.State) (a : Unit {0})
          → (delete_veth K name s).0 ≡ ok a
          → IsGone name (N.net (delete_veth K name s).1 (N.here s))
      gone s a done = elim (Reply-cases (K.link_by_name name s)) [
        | inr (e, h) ↦
            let same : e ≡ codes "Link not found" = ground (arith, h, done) in
            let last : s ≡ (delete_veth K name s).1 = ground (arith, h, done) in
            ap (λ t. N.link (N.net t (N.here s)) name) (sym last)
            ∙ sym (N.link_by_name-link name s)
            ∙ h
            ∙ ap refused same
        | inl (l, h) ↦
            let deleted : (K.link_del l s).0 ≡ none =
              ground (arith, h, done, Option-cases (K.link_del l s).0) in
            let last : (K.link_del l s).1 ≡ (delete_veth K name s).1 = ground (arith, h, deleted) in
            ap (λ t. N.link (N.net t (N.here s)) name) (sym last)
            ∙ N.link-link_del l name s (sym (N.link_by_name-link name s) ∙ h) deleted
      ]

  -- What it does in the kernel.
  cmd_del_kernel :
      (S : Store) (req : CniRequest) (ns : Netns) (w : World K S)
      → req.netns ≢ []
      → K.get_ns req.netns w.kernel ≡ got ns
      → (cmd_del K S req w).0 ≡ ok tt
      → let (r, w') = cmd_del K S req w in
        (r, w'.kernel) ≡ K.ns_do ns (delete_veth K req.if_name) w.kernel
  unfolding cmd_del
  cmd_del_kernel S req ns w named found done = by_netns req.netns refl
    where
      by_netns :
          (n : Str)
          → req.netns ≡ n
          → let (r, w') = cmd_del K S req w in
            (r, w'.kernel) ≡ K.ns_do ns (delete_veth K req.if_name) w.kernel
      by_netns [] e = absurd (named e)
      by_netns (c ∷ n) e =
          ground (arith, e, found, done, Option-cases (del S req.container_id w.alloc w.disk).0)

  -- On a valid allocator, from the agent's namespace: after a `cmdDel` that succeeds and whose
  -- pod's namespace is still there, the container holds no address, no link in that namespace has
  -- the interface's name, and the thread is in the agent's namespace.
  pub cmd_del-IsGone :
      (S : Store) (L : IsLawful S) (req : CniRequest) (ns : Netns) (w : World K S)
      → IsValid w.alloc
      → Home K N w.kernel
      → req.netns ≢ []
      → K.get_ns req.netns w.kernel ≡ got ns
      → (cmd_del K S req w).0 ≡ ok tt
      → let w' = (cmd_del K S req w).1 in
        (lookup req.container_id w'.alloc.allocs ≡ none)
        × IsGone req.if_name (N.net w'.kernel ns)
        × Home K N w'.kernel
  cmd_del-IsGone S L req ns w v home named found done =
      let step = cmd_del_kernel S req ns w named found done in
      let left =
        (ns_do-Yields K N (λ n. Unit {0}) (λ _ n. IsGone req.if_name (n ns)) ns
            (delete_veth K req.if_name) (delete_veth-IsGone req.if_name ns)).at
          w.kernel tt (home, tt) (ap (λ r. r.0) (sym step) ∙ done) in
      (
        (cmd_del_released K S L req w v done).0,
        subst (λ k. IsGone req.if_name (N.net k ns)) (ap (λ r. r.1) (sym step)) left.1,
        cmd_del-Home K S N req w home,
      )
