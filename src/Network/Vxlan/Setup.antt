-- ===== src/Network/Vxlan/Setup.antt =====
-- What `SetupVXLAN` leaves.
use purenet.Base.{
  ◌≡◌, ◌≢◌, ap, ◌⊎◌, ◌∙◌, inl, inr, refl, sym, true, subst, str_dec, Option, none, some, Str, codes,
  arith,
}
use purenet.Errors.{ok, Result-cases}
use purenet.Inet.{IpNet}
use purenet.Network.Kernel.{got, Reply-cases, Link, Addr, Kernel}
use purenet.Network.Vxlan.Defs.{
  vxlan_if_name, slice4, vtep_mac, host_net, ensure_vxlan, setup_vxlan,
}

-- The state of a link by its name, and what is documented of the calls that set it: each sets what
-- it names and leaves the rest, and an address is refused as "file exists" only where it is there.
pub record Interfaces (K : Kernel) : Type 1 where
  pub mac : K.State → Str → Option Str
  pub Assigned : K.State → Str → IpNet → Type 0
  pub mac-set :
      (l : Link) (m : Str) (s : K.State)
      → (K.link_set_hardware_addr l m s).0 ≡ none
      → mac (K.link_set_hardware_addr l m s).1 l.name ≡ some m
  pub link-mac_set :
      (l : Link) (m n : Str) (s : K.State)
      → K.link_by_name n (K.link_set_hardware_addr l m s).1 ≡ K.link_by_name n s
  pub Assigned-addr_add :
      (l : Link) (a : Addr) (s : K.State)
      → ((K.addr_add l a s).0 ≡ none) ⊎ ((K.addr_add l a s).0 ≡ some (codes "file exists"))
      → Assigned (K.addr_add l a s).1 l.name a.net
  pub mac-addr_add :
      (l : Link) (a : Addr) (n : Str) (s : K.State) → mac (K.addr_add l a s).1 n ≡ mac s n
  pub link-addr_add :
      (l : Link) (a : Addr) (n : Str) (s : K.State)
      → K.link_by_name n (K.addr_add l a s).1 ≡ K.link_by_name n s
  pub mac-set_up : (l : Link) (n : Str) (s : K.State) → mac (K.link_set_up l s).1 n ≡ mac s n
  pub Assigned-set_up :
      (l : Link) (n : Str) (net : IpNet) (s : K.State)
      → Assigned s n net
      → Assigned (K.link_set_up l s).1 n net
  pub name-link_by_name :
      (l : Link) (n : Str) (s : K.State) → K.link_by_name n s ≡ got l → l.name ≡ n
  pub link-set_up :
      (l : Link) (n : Str) (s : K.State)
      → K.link_by_name n s ≡ got l
      → (K.link_set_up l s).0 ≡ none
      → K.link_by_name n (K.link_set_up l s).1 ≡ got (record l { up = true })

accepted :
    (a : Option Str)
    → ((e : Str) → e ≢ codes "file exists" → a ≢ some e)
    → (a ≡ none) ⊎ (a ≡ some (codes "file exists"))
accepted none never = inl refl
accepted (some e) never = elim (str_dec e (codes "file exists")) [
  | yes is ↦ inr (ap some is)
  | no ne ↦ absurd (never e ne refl)
]

module _ (K : Kernel) (I : Interfaces K) where
  -- The interface of the tunnel is up, with the block's MAC address and its address.
  pub record IsSetUp (block : IpNet) (s : K.State) : Type 0 where
    pub link : Link
    pub found : K.link_by_name vxlan_if_name s ≡ got link
    pub up : link.up ≡ true
    pub mac : I.mac s vxlan_if_name ≡ some (vtep_mac (slice4 block.ip))
    pub addressed : I.Assigned s vxlan_if_name (host_net (slice4 block.ip))

  module _ (block : IpNet) (link : Link) (s : K.State)
      (found : K.link_by_name vxlan_if_name s ≡ got link) where
    abbrev s1 : K.State
    s1 = (K.link_set_hardware_addr link (vtep_mac (slice4 block.ip)) s).1

    abbrev own : Addr
    own = record { net = host_net (slice4 block.ip) }

    abbrev s2 : K.State
    s2 = (K.addr_add link own s1).1

    configured-IsSetUp :
        (K.link_set_hardware_addr link (vtep_mac (slice4 block.ip)) s).0 ≡ none
        → ((K.addr_add link own s1).0 ≡ none)
          ⊎ ((K.addr_add link own s1).0 ≡ some (codes "file exists"))
        → (K.link_set_up link s2).0 ≡ none
        → IsSetUp block (K.link_set_up link s2).1
    configured-IsSetUp m a u =
        let name = I.name-link_by_name link vxlan_if_name s found in
        let mac = vtep_mac (slice4 block.ip) in
        let there : K.link_by_name vxlan_if_name s2 ≡ got link =
          I.link-addr_add link own vxlan_if_name s1
          ∙ I.link-mac_set link mac vxlan_if_name s
          ∙ found in
        record {
          link = record link { up = true };
          found = I.link-set_up link vxlan_if_name s2 there u;
          up = refl;
          mac =
              I.mac-set_up link vxlan_if_name s2
              ∙ I.mac-addr_add link own vxlan_if_name s1
              ∙ subst (λ (n : Str). I.mac s1 n ≡ some mac) name (I.mac-set link mac s m);
          addressed = I.Assigned-set_up link vxlan_if_name (host_net (slice4 block.ip)) s2 (
              subst (λ (n : Str). I.Assigned s2 n (host_net (slice4 block.ip))) name
                (I.Assigned-addr_add link own s1 a));
        }

  -- After a `SetupVXLAN` that succeeds, whether it found the interface or made it and whether the
  -- address was there or not, the interface is up and has the MAC address and the address of the
  -- node's block.
  pub setup_vxlan-IsSetUp :
      (block : IpNet) (s : K.State)
      → (setup_vxlan K block s).0 ≡ ok tt
      → IsSetUp block (setup_vxlan K block s).1
  unfolding setup_vxlan str_dec
  setup_vxlan-IsSetUp block s done = elim (Result-cases (ensure_vxlan K s).0) [
    | inr (e, h) ↦ ground (arith, h)
    | inl (u, h) ↦
        let t = (ensure_vxlan K s).1 in
        elim (Reply-cases (K.link_by_name vxlan_if_name t)) [
          | inr (e, h') ↦ ground (arith, h, h')
          | inl (link, h') ↦
              let t1 = s1 block link t h' in
              let t2 = s2 block link t h' in
              let a = (K.addr_add link (own block link t h') t1).0 in
              let m : (K.link_set_hardware_addr link (vtep_mac (slice4 block.ip)) t).0 ≡ none =
                ground (arith, h, h', done) in
              let added : (a ≡ none) ⊎ (a ≡ some (codes "file exists")) =
                accepted a (λ e ne refusal. ground (arith, h, h', m, refusal, done)) in
              let u : (K.link_set_up link t2).0 ≡ none = ground (arith, h, h', m, added, done) in
              let same : (setup_vxlan K block s).1 ≡ (K.link_set_up link t2).1 =
                ground (arith, h, h', m, added, u) in
              subst (IsSetUp block) (sym same) (configured-IsSetUp block link t h' m added u)
        ]
  ]
