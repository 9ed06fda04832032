-- ===== src/Nodesync/Vxlan/Overlay.antt =====
-- `addPeer` and `delPeer` as a backend of the handlers.
use purenet.Base.{
  ℕ, ◌⊎◌, ◌≡◌, ◌≢◌, inl, inr, refl, sym, subst, some, [], ◌∷◌, Str, arith, Option-cases,
}
use purenet.Errors.{Result, ok}
use purenet.Inet.{Ip, Ip4, IpNet, Inet6, parse_ip, parse_cidr, to4}
use purenet.Network.Kernel.{Kernel}
use purenet.Network.Action.{Action}
use purenet.Network.Keeps.{Keeps}
use purenet.Network.Vxlan.{slice4, add_vxlan_peer, del_vxlan_peer}
use purenet.Network.Vxlan.Mac.{vtep_mac_injective}
use purenet.Network.Vxlan.Peers.{Tables}
use purenet.Network.Vxlan.Separate.{Separate}
use purenet.Nodesync.Backend.{IsBackend}
use purenet.Nodesync.Vxlan.Defs.{with_peer, add_peer, del_peer}
use purenet.Nodesync.Vxlan.Peers.{
  Entries, Distinct, NoOther, add_vxlan_peer-Entries, add_vxlan_peer-Entries_other,
  del_vxlan_peer-Entries_other,
}

List-cases : (s : Ip) → (s ≡ []) ⊎ ((b : ℕ) × (rest : Ip) × (s ≡ b ∷ rest))
List-cases [] = inl refl
List-cases (b ∷ rest) = inr (b, rest, refl)

to4-slice4 : (ip : Ip) (a : Ip4) → to4 ip ≡ some a → to4 (slice4 ip) ≡ some a
unfolding to4
to4-slice4 ip a h = ground (arith, h)

-- Blocks with different IPv4 addresses have different entries.
to4-Distinct :
    (K : Kernel) (T : Tables K) (b c : IpNet) (a d : Ip4)
    → to4 b.ip ≡ some a
    → to4 c.ip ≡ some d
    → a ≢ d
    → Distinct K T b c
to4-Distinct K T b c a d hb hc ne = (
  λ e. ne (ground (arith, hb, hc, e)),
  λ e. ne (ground (arith, hb, hc, e)),
  λ e.
      ne
        (vtep_mac_injective (slice4 b.ip) (slice4 c.ip) a d (to4-slice4 b.ip a hb)
          (to4-slice4 c.ip d hc) e).0,
)

module _ (K : Kernel) (six : Inet6) where
  with_peer-Keeps :
      (Q : K.State → Type 0) (call : IpNet → Ip → Action K.State (Unit {0})) (cidr ip : Str)
      → ((block : IpNet) (node_ip : Ip)
          → parse_cidr six cidr ≡ some block
          → Keeps Q (call block node_ip))
      → Keeps Q (with_peer K six call cidr ip)
  unfolding with_peer Keeps
  with_peer-Keeps Q call cidr ip keep s q = elim (Option-cases (parse_cidr six cidr)) [
    | inl bad ↦
        let same : (with_peer K six call cidr ip s).1 ≡ s = ground (arith, bad) in
        subst Q (sym same) q
    | inr (block, good) ↦ elim (List-cases (parse_ip six ip)) [
      | inl bad ↦
          let same : (with_peer K six call cidr ip s).1 ≡ s = ground (arith, good, bad) in
          subst Q (sym same) q
      | inr (b, rest, e) ↦
          let step : (with_peer K six call cidr ip s).1 ≡ (call block (parse_ip six ip) s).1 =
            ground (arith, good, e) in
          subst Q (sym step) (keep block (parse_ip six ip) good s q)
    ]
  ]

  with_peer-ok :
      (call : IpNet → Ip → Action K.State (Unit {0})) (cidr ip : Str) (s : K.State)
      → (with_peer K six call cidr ip s).0 ≡ ok tt
      → (block : IpNet) × (parse_cidr six cidr ≡ some block)
        × (parse_ip six ip ≢ [])
        × (with_peer K six call cidr ip s ≡ call block (parse_ip six ip) s)
  unfolding with_peer
  with_peer-ok call cidr ip s done = elim (Option-cases (parse_cidr six cidr)) [
    | inl bad ↦ ground (arith, bad, done)
    | inr (block, good) ↦ elim (List-cases (parse_ip six ip)) [
      | inl bad ↦ ground (arith, good, bad, done)
      | inr (b, rest, e) ↦ (block, good, λ h. ground (arith, e, h), ground (arith, good, e))
    ]
  ]

  module _ (T : Tables K) where
    -- The tunnel sends the block that the text names to the address that the text names.
    abbrev pub Tunnelled : Str → Str → K.State → Type 0
    Tunnelled cidr ip s =
        (block : IpNet) × (parse_cidr six cidr ≡ some block)
        × (parse_ip six ip ≢ [])
        × Entries K T block (parse_ip six ip) s

    abbrev pub Untunnelled : Str → K.State → Type 0
    Untunnelled cidr s = (block : IpNet) → parse_cidr six cidr ≡ some block → NoOther K T block s

    abbrev pub OtherAddress : Str → Str → Type 0
    OtherAddress cidr cidr' =
        (b c : IpNet)
        → parse_cidr six cidr ≡ some b
        → parse_cidr six cidr' ≡ some c
        → (a : Ip4) × (d : Ip4) × (to4 b.ip ≡ some a) × (to4 c.ip ≡ some d) × (a ≢ d)

    kept_by_call :
        (call : IpNet → Ip → Action K.State (Unit {0})) (cidr ip cidr' ip' : Str) (s : K.State)
        → ((b c : IpNet) (p q : Ip) → Distinct K T b c → Keeps (Entries K T b p) (call c q))
        → OtherAddress cidr' cidr
        → Tunnelled cidr' ip' s
        → Tunnelled cidr' ip' (with_peer K six call cidr ip s).1
    unfolding Keeps
    kept_by_call call cidr ip cidr' ip' s keep apart (b, good, addr, entries) = (
      b,
      good,
      addr,
      with_peer-Keeps (Entries K T b (parse_ip six ip')) call cidr ip
          (λ c q own.
            let (a, d, is_a, is_d, ne) = apart b c good own in
            keep b c (parse_ip six ip') q (to4-Distinct K T b c a d is_a is_d ne))
          s entries,
    )

    module _ (N : Separate K T) where
      -- An `addPeer` without an error, for a block whose route is not there or from an earlier run,
      -- tunnels the block to the node.
      pub add_peer-Tunnelled :
          (cidr ip : Str) (s : K.State)
          → Untunnelled cidr s
          → (add_peer K six cidr ip s).0 ≡ ok tt
          → Tunnelled cidr ip (add_peer K six cidr ip s).1
      unfolding add_peer
      add_peer-Tunnelled cidr ip s clear done =
          let (b, good, addr, step) = with_peer-ok (add_vxlan_peer K) cidr ip s done in
          let fine : (add_vxlan_peer K b (parse_ip six ip) s).0 ≡ ok tt =
            ground (arith, step, done) in
          (
            b,
            good,
            addr,
            subst (λ (t : Result (Unit {0}) × K.State). Entries K T b (parse_ip six ip) t.1)
                (sym step) (add_vxlan_peer-Entries K T N b (parse_ip six ip) s (clear b good) fine),
          )

      pub add_peer-Tunnelled_other :
          (cidr ip cidr' ip' : Str) (s : K.State)
          → OtherAddress cidr' cidr
          → Tunnelled cidr' ip' s
          → Tunnelled cidr' ip' (add_peer K six cidr ip s).1
      unfolding add_peer
      add_peer-Tunnelled_other cidr ip cidr' ip' s =
          kept_by_call (add_vxlan_peer K) cidr ip cidr' ip' s
            (λ b c p q. add_vxlan_peer-Entries_other K T N b p c q)

      pub del_peer-Tunnelled_other :
          (cidr ip cidr' ip' : Str) (s : K.State)
          → OtherAddress cidr' cidr
          → Tunnelled cidr' ip' s
          → Tunnelled cidr' ip' (del_peer K six cidr ip s).1
      unfolding del_peer
      del_peer-Tunnelled_other cidr ip cidr' ip' s =
          kept_by_call (del_vxlan_peer K) cidr ip cidr' ip' s
            (λ b c p q. del_vxlan_peer-Entries_other K T N b p c q)

      abbrev pub vxlan_backend : IsBackend (add_peer K six) (del_peer K six)
      vxlan_backend = record {
        Installed = Tunnelled;
        Clear = Untunnelled;
        Apart = OtherAddress;
        add-Installed = add_peer-Tunnelled;
        add-Installed_other = add_peer-Tunnelled_other;
        del-Installed_other = del_peer-Tunnelled_other;
      }
