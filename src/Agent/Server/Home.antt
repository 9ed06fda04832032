-- ===== src/Agent/Server/Home.antt =====
-- The network namespace of the thread that serves a request.
use purenet.Base.{
  refl, subst, sym, ◌≡◌, ◌∙◌, ap, inl, inr, none, List, [], ◌∷◌, Str, arith, Option-cases,
}
use purenet.Errors.{Result-cases}
use purenet.Network.Kernel.{Netns, host_netns, Kernel}
use purenet.Network.Action.{Action}
use purenet.Network.Keeps.{Keeps}
use purenet.Network.Namespaces.{Namespaces}
use purenet.Cni.{CniRequest}
use purenet.Network.Kernel.{Reply-cases}
use purenet.Ipam.{del}
use purenet.Ipam.Store.{Store}
use purenet.Network.Veth.{delete_veth}
use purenet.Agent.Server.Handlers.{World, cmd_del}
use purenet.Agent.Server.Defs.{Codecs, Pod, CniResult, Versioned-cases, convert, for_each}

-- What each keeps, all keep.
pub for_each-Keeps :
    {S A : Type 0} (Q : S → Type 0) (act : A → Action S (Unit {0})) (xs : List A)
    → ((x : A) → Keeps Q (act x))
    → Keeps Q (for_each act xs)
unfolding Keeps for_each
for_each-Keeps Q act [] keep s h = h
for_each-Keeps Q act (x ∷ xs) keep s h = elim (Result-cases (act x s).0) [
  | inl (u, e) ↦
      let last : (for_each act (x ∷ xs) s).1 ≡ (for_each act xs (act x s).1).1 =
        ground (arith, e) in
      subst Q (sym last) (for_each-Keeps Q act xs keep (act x s).1 (keep x s h))
  | inr (t, e) ↦
      let last : (for_each act (x ∷ xs) s).1 ≡ (act x s).1 = ground (arith, e) in
      subst Q (sym last) (keep x s h)
]

module _ (K : Kernel) (N : Namespaces K) where
  abbrev pub Home : K.State → Type 0
  Home s = N.here s ≡ host_netns

  -- `netNS.Do` comes back, whatever the function that it runs does.
  ns_do-Keeps : {A : Type 0} (ns : Netns) (act : Action K.State A) → Keeps Home (K.ns_do ns act)
  unfolding Keeps
  ns_do-Keeps ns act s h = elim (Option-cases (N.entering.enter ns s).0) [
    | inl e ↦
        ap (λ r. N.here r.1) (N.entering.ns_do-entered ns act s e)
        ∙ N.here-leave s (act (N.entering.enter ns s).1).1
        ∙ h
    | inr (t, e) ↦
        ap (λ r. N.here r.1) (N.entering.ns_do-refused ns act s t e)
        ∙ N.here-enter_failed ns s (λ f. ground (arith, e, f))
        ∙ h
  ]

  pub convert-Keeps :
      (Q : K.State → Type 0) (C : Codecs) (pod : Pod) (result : CniResult)
      → Keeps Q (convert K C pod result)
  unfolding Keeps
  convert-Keeps Q C pod result s q =
      let same : (convert K C pod result s).1 ≡ s =
        ground (arith, Versioned-cases (C.get_as_version result pod.conf.cni_version)) in
      subst Q (sym same) q

module _ (K : Kernel) (S : Store) (N : Namespaces K) where
  pub cmd_del-Home :
      (req : CniRequest) (w : World K S) → Home K N w.kernel → Home K N (cmd_del K S req w).1.kernel
  unfolding cmd_del Keeps
  cmd_del-Home req w h = elim (Option-cases (del S req.container_id w.alloc w.disk).0) [
    | inr (t, e) ↦ ground (arith, e, h)
    | inl e ↦ by_netns req.netns refl e
  ]
    where
      by_netns :
          (n : Str)
          → req.netns ≡ n
          → (del S req.container_id w.alloc w.disk).0 ≡ none
          → Home K N (cmd_del K S req w).1.kernel
      by_netns [] e q = ground (arith, e, q, h)
      by_netns (c ∷ n) e q = elim (Reply-cases (K.get_ns (c ∷ n) w.kernel)) [
        | inr (t, g) ↦ ground (arith, e, q, g, h)
        | inl (ns, g) ↦
            let last : (cmd_del K S req w).1.kernel
                ≡ (K.ns_do ns (delete_veth K req.if_name) w.kernel).1 =
              ground (arith, e, q, g) in
            ap N.here last ∙ ns_do-Keeps K N ns (delete_veth K req.if_name) w.kernel h
      ]
