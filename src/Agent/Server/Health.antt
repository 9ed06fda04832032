-- ===== src/Agent/Server/Health.antt =====
-- What a `CmdCheck` without an error has seen.
use purenet.Base.{
  ◌≡◌, inl, inr, true, Bool-cases, ◌⊎◌, none, some, List, [], ◌∷◌, Str, lookup, arith, Option-cases,
}
use purenet.Errors.{ok}
use purenet.Inet.{Ip4}
use purenet.Network.Kernel.{got, refused, Reply-cases, Link, Addr, Netns, Kernel}
use purenet.Network.Entering.{Entering}
use purenet.Network.Action.{Action}
use purenet.Cni.{CniRequest}
use purenet.Ipam.{check}
use purenet.Ipam.Store.{Store}
use purenet.Agent.Server.Defs.{check_link}
use purenet.Agent.Server.Handlers.{World, cmd_check}

module _ (K : Kernel) where
  -- A link that is up and has an address.
  pub record IsHealthy (req : CniRequest) (s : K.State) : Type 0 where
    pub link : Link
    pub found : K.link_by_name req.if_name s ≡ got link
    pub up : link.up ≡ true
    pub addr : Addr
    pub others : List Addr
    pub listed : K.addr_list link s ≡ got (addr ∷ others)

  check_link_ok :
      (req : CniRequest) (s : K.State) → (check_link K req s).0 ≡ ok tt → IsHealthy req s
  check_link_ok req s done = elim (Reply-cases (K.link_by_name req.if_name s)) [
    | inr (e, h) ↦ ground (arith, h)
    | inl (link, h) ↦ by_addrs link h (Reply-cases (K.addr_list link s))
  ]
    where
      by_addrs :
          (link : Link)
          → K.link_by_name req.if_name s ≡ got link
          → ((as' : List Addr) × (K.addr_list link s ≡ got as'))
            ⊎ ((e : Str) × (K.addr_list link s ≡ refused e))
          → IsHealthy req s
      by_addrs link h (inr (e, h')) = ground (arith, h, h', Bool-cases link.up)
      by_addrs link h (inl ([], h')) = ground (arith, h, h', Bool-cases link.up)
      by_addrs link h (inl (a ∷ rest, h')) = record {
        link = link;
        found = h;
        up = ground (arith, h, h', Bool-cases link.up);
        addr = a;
        others = rest;
        listed = h';
      }

module _ (K : Kernel) (D : Entering K) where
  ns_do_ok :
      (ns : Netns) (act : Action K.State (Unit {0})) (s : K.State)
      → (K.ns_do ns act s).0 ≡ ok tt
      → ((D.enter ns s).0 ≡ none) × ((act (D.enter ns s).1).0 ≡ ok tt)
  ns_do_ok ns act s done = elim (Option-cases (D.enter ns s).0) [
    | inl h ↦ (h, ground (arith, D.ns_do-entered ns act s h, done))
    | inr (e, h) ↦ ground (arith, D.ns_do-refused ns act s e h, done)
  ]

  module _ (S : Store) where
    -- A `cmdCheck` that succeeds has found that the container holds an address, and that in its
    -- namespace its interface is there, is up and has an address.
    pub cmd_check_ok :
        (req : CniRequest) (w : World K S)
        → (cmd_check K S req w).0 ≡ ok tt
        → (ip : Ip4) × (ns : Netns) × (lookup req.container_id w.alloc.allocs ≡ some ip)
          × (K.get_ns req.netns w.kernel ≡ got ns)
          × ((D.enter ns w.kernel).0 ≡ none)
          × IsHealthy K req (D.enter ns w.kernel).1
    unfolding cmd_check check
    cmd_check_ok req w done = elim (Option-cases (lookup req.container_id w.alloc.allocs)) [
      | inl h ↦ ground (arith, h)
      | inr (ip, h) ↦ elim (Reply-cases (K.get_ns req.netns w.kernel)) [
        | inr (e, h') ↦ ground (arith, h, h')
        | inl (ns, h') ↦
            let inside : (K.ns_do ns (check_link K req) w.kernel).0 ≡ ok tt =
              ground (arith, h, h', done) in
            let (entered, seen) = ns_do_ok ns (check_link K req) w.kernel inside in
            (ip, ns, h, h', entered, check_link_ok K req (D.enter ns w.kernel).1 seen)
      ]
    ]
