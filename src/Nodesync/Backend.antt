-- ===== src/Nodesync/Backend.antt =====
-- What the handlers need of the calls that program a peer, and the invariant of the record.
use purenet.Base.{
  ◌≡◌, ◌≢◌, ◌∙◌, sym, ap, subst, none, some, Str, str_dec, lookup, insert, erase, lookup-insert,
  lookup-erase, arith,
}
use purenet.Errors.{ok}
use purenet.Network.Action.{Action}
use purenet.Nodesync.Node.{NodeRoute, Controller}

-- What a backend promises. `Installed` is the state of the kernel that a peer needs; `Clear` says
-- that the kernel has nothing else for a CIDR; `Apart` says that two CIDRs are different blocks.
pub record IsBackend {S : Type 0} (add del : Str → Str → Action S (Unit {0})) : Type 1 where
  pub Installed : Str → Str → S → Type 0
  pub Clear : Str → S → Type 0
  pub Apart : Str → Str → Type 0
  pub add-Installed :
      (cidr ip : Str) (s : S)
      → Clear cidr s
      → (add cidr ip s).0 ≡ ok tt
      → Installed cidr ip (add cidr ip s).1
  pub add-Installed_other :
      (cidr ip cidr' ip' : Str) (s : S)
      → Apart cidr' cidr
      → Installed cidr' ip' s
      → Installed cidr' ip' (add cidr ip s).1
  pub del-Installed_other :
      (cidr ip cidr' ip' : Str) (s : S)
      → Apart cidr' cidr
      → Installed cidr' ip' s
      → Installed cidr' ip' (del cidr ip s).1

module _ {S : Type 0} (add del : Str → Str → Action S (Unit {0})) (B : IsBackend add del) where
  open B use {Installed, Clear, Apart}

  -- Each node on record is a remote one and is programmed, and no two have one block.
  pub record IsTracking (c : Controller) (s : S) : Type 0 where
    pub remote : lookup c.node_name c.routes ≡ none
    pub installed :
        (n : Str) (r : NodeRoute) → lookup n c.routes ≡ some r → Installed r.pod_cidr r.node_ip s
    pub apart :
        (n m : Str) (r q : NodeRoute)
        → n ≢ m
        → lookup n c.routes ≡ some r
        → lookup m c.routes ≡ some q
        → Apart r.pod_cidr q.pod_cidr

  -- The cluster gives the node a block that no other node on record has.
  abbrev pub HasOwnBlock : Str → Str → Controller → Type 0
  HasOwnBlock name cidr c =
      (m : Str) (q : NodeRoute)
      → m ≢ name
      → lookup m c.routes ≡ some q
      → Apart q.pod_cidr cidr × Apart cidr q.pod_cidr

  not_own :
      (name : Str) (c : Controller) (m : Str) (q : NodeRoute)
      → lookup name c.routes ≡ none
      → lookup m c.routes ≡ some q
      → m ≢ name
  not_own name c m q new h e = cc (ap (λ n. lookup n c.routes) e)

  -- Whether the call succeeds or not, the other peers stay.
  pub kept_by_add :
      (name cidr ip : Str) (c : Controller) (s : S)
      → IsTracking c s
      → lookup name c.routes ≡ none
      → HasOwnBlock name cidr c
      → IsTracking c (add cidr ip s).1
  kept_by_add name cidr ip c s k new own = record {
    remote = k.remote;
    installed = λ n r h.
        B.add-Installed_other cidr ip r.pod_cidr r.node_ip s
          (own n r (not_own name c n r new h) h).0 (k.installed n r h);
    apart = k.apart;
  }

  abbrev pub recorded : Str → NodeRoute → Controller → Controller
  recorded name r c = record c { routes = insert name r c.routes }

  -- A peer that is programmed goes on record.
  pub recorded-IsTracking :
      (name : Str) (r : NodeRoute) (c : Controller) (s : S)
      → IsTracking c s
      → name ≢ c.node_name
      → HasOwnBlock name r.pod_cidr c
      → Installed r.pod_cidr r.node_ip s
      → IsTracking (recorded name r c) s
  recorded-IsTracking name r c s k other own here = record {
    remote = ground (arith, lookup-insert c.node_name name r c.routes, k.remote);
    installed = λ n q h. elim (str_dec name n) [
      | yes e ↦
          let is : r ≡ q = ground (arith, lookup-insert n name r c.routes) in
          subst (λ (t : NodeRoute). Installed t.pod_cidr t.node_ip s) is here
      | no ne ↦ k.installed n q (ground (arith, lookup-insert n name r c.routes))
    ];
    apart = λ n m p q ne hn hm. elim (str_dec name n) [
      | yes e ↦
          let is : r ≡ p = ground (arith, lookup-insert n name r c.routes) in
          let old : lookup m c.routes ≡ some q = ground (arith, lookup-insert m name r c.routes) in
          subst (λ (t : NodeRoute). Apart t.pod_cidr q.pod_cidr) is
            (own m q (λ e'. ne (sym e ∙ sym (e'))) old).1
      | no n_other ↦
          let old : lookup n c.routes ≡ some p = ground (arith, lookup-insert n name r c.routes) in
          elim (str_dec name m) [
            | yes e ↦
                let is : r ≡ q = ground (arith, lookup-insert m name r c.routes) in
                subst (λ (t : NodeRoute). Apart p.pod_cidr t.pod_cidr) is
                  (own n p (λ e'. n_other (sym e')) old).0
            | no m_other ↦ k.apart n m p q ne old (ground (arith, lookup-insert m name r c.routes))
          ]
    ];
  }

  -- A peer off the record, its CIDR apart from the others, may go from the kernel.
  pub erased-IsTracking :
      (name cidr ip : Str) (c : Controller) (s : S)
      → IsTracking c s
      → HasOwnBlock name cidr c
      → IsTracking (record c { routes = erase name c.routes }) (del cidr ip s).1
  erased-IsTracking name cidr ip c s k own = record {
    remote = ground (arith, lookup-erase c.node_name name c.routes, k.remote);
    installed = λ n r h.
        let old : lookup n c.routes ≡ some r = ground (arith, lookup-erase n name c.routes) in
        let not_it : n ≢ name = λ e. ground (arith, lookup-erase n name c.routes) in
        B.del-Installed_other cidr ip r.pod_cidr r.node_ip s (own n r not_it old).0
          (k.installed n r old);
    apart = λ n m r q ne hn hm.
        k.apart n m r q ne (ground (arith, lookup-erase n name c.routes))
          (ground (arith, lookup-erase m name c.routes));
  }
