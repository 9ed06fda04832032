-- ===== src/Ipam/Load.antt =====
-- `load` and `New`: which entries of a state file come back, and a restart of the agent.
use purenet.Base.{
  ℕ, ◌+◌, ◌*◌, ◌/◌, ◌≤◌, ◌<◌, ◌≡◌, refl, ap, ◌⊎◌, inl, inr, Option, none, some, [], ◌∷◌, Str,
  str_dec, Dict, lookup, insert, NodupKeys, lookup-insert, arith, Option-cases, Bool-cases, true,
  if◌then◌else◌,
}
use purenet.Inet.{
  Ip4, IsBytes, IpNet, Inet6, number4, to4, contains, ip_string, dec, family, parse_ip, dotted_quad,
}
use purenet.Inet.RoundTrip.{parse4-ip_string}
use purenet.Ipam.Defs.{load_entry, load_entries}
use purenet.Ipam.Scan.{IsBlock, size_of}
use purenet.Ipam.Invariant.{IsHost}

family-ip_string : (a : Ip4) → IsBytes a → family (ip_string a) ≡ dotted_quad
unfolding family ip_string dec
family-ip_string a v = ground arith

-- The text that the allocator writes is read back as the address.
pub to4-parse_ip : (v6 : Inet6) (a : Ip4) → IsBytes a → to4 (parse_ip v6 (ip_string a)) ≡ some a
unfolding parse_ip to4
to4-parse_ip v6 a v = rw (family-ip_string a v, parse_ip, parse4-ip_string a v)

div_in_block : (q s x : ℕ) → q * s ≤ x → x < q * s + s → x / s ≡ q
div_in_block q s x lo hi = grind arith

-- A host address of the block is in it.
pub contains-IsHost : (n : IpNet) (ip : Ip4) → IsBlock n → IsHost n ip → contains n ip ≡ true
unfolding contains
contains-IsHost n ip b h =
    let same : h.base ≡ b.base = ground (arith, b.is_v4, h.is_v4) in
    let at : number4 h.base ≡ number4 b.base = ap number4 same in
    let net : number4 b.base / size_of n ≡ b.prefix =
      div_in_block b.prefix (size_of n) (number4 b.base) (omega (arith, b.aligned))
        (omega (arith, b.aligned, h.above, h.below, at)) in
    let host : number4 ip / size_of n ≡ b.prefix =
      div_in_block b.prefix (size_of n) (number4 ip) (omega (arith, b.aligned, h.above, at))
        (omega (arith, b.aligned, h.below, at)) in
    rw (b.is_v4, contains) (ground (arith, net, host))

-- What `load` makes of a key of the file.
unfoldable pub entry_ip : Inet6 → IpNet → Str → Option Ip4
entry_ip v6 subnet s = elim (to4 (parse_ip v6 s)) [
  | none ↦ none
  | some ip ↦ if contains subnet ip then some ip else none
]

module _ (v6 : Inet6) (subnet : IpNet) where
  load_entry_cases :
      (s cid : Str) (allocs : Dict Ip4) (used : Dict Str)
      → ((entry_ip v6 subnet s ≡ none)
          × (load_entry v6 subnet (s, cid) (allocs, used) ≡ (allocs, used)))
        ⊎ ((ip : Ip4) × (entry_ip v6 subnet s ≡ some ip)
            × (load_entry v6 subnet (s, cid) (allocs, used)
                ≡ (insert cid ip allocs, insert s cid used)))
  unfolding entry_ip load_entry
  load_entry_cases s cid allocs used = elim (Option-cases (to4 (parse_ip v6 s))) [
    | inl e ↦ inl (ground arith, ground arith)
    | inr (ip, e) ↦ elim (Bool-cases (contains subnet ip)) [
      | inl inside ↦ inr (ip, ground arith, ground arith)
      | inr outside ↦ inl (ground arith, ground arith)
    ]
  ]

  -- The entries that come back in `used` are those of the file whose key is an IPv4 address in the
  -- subnet.
  pub load_used_cases :
      (s : Str) (m : Dict Str) (allocs : Dict Ip4) (used : Dict Str)
      → NodupKeys m
      → ((cid : Str) × (ip : Ip4) × (lookup s m ≡ some cid)
          × (entry_ip v6 subnet s ≡ some ip)
          × (lookup s (load_entries v6 subnet m (allocs, used)).1 ≡ some cid))
        ⊎ (((cid : Str) → lookup s m ≡ some cid → entry_ip v6 subnet s ≡ none)
            × (lookup s (load_entries v6 subnet m (allocs, used)).1 ≡ lookup s used))
  unfolding load_entries
  load_used_cases s [] allocs used keys = inr (λ cid h. cc, refl)
  load_used_cases s ((t, c) ∷ r) allocs used keys = elim (load_entry_cases t c allocs used) [
    | inl (skipped, e) ↦ elim (load_used_cases s r allocs used keys.1) [
      | inl (cid, ip, h, read, q) ↦ inl (cid, ip, ground (arith, keys.0), read, ground arith)
      | inr (absent, q) ↦ inr (
        λ cid h. elim (str_dec t s) [ yes p ↦ rw (← p) skipped | no p ↦ absent cid (ground arith) ],
        ground arith,
      )
    ]
    | inr (i, taken, e) ↦ elim (load_used_cases s r (insert c i allocs) (insert t c used) keys.1) [
      | inl (cid, ip, h, read, q) ↦ inl (cid, ip, ground (arith, keys.0), read, ground arith)
      | inr (absent, q) ↦ elim (str_dec t s) [
        | yes p ↦ inl (c, i, ground arith, rw (← p) taken, ground (arith, lookup-insert s t c used))
        | no p ↦ inr (λ cid h. absent cid (ground arith), ground (arith, lookup-insert s t c used))
      ]
    ]
  ]

  -- A container comes back with the address of an entry that names it.
  pub load_allocs_cases :
      (cid : Str) (m : Dict Str) (allocs : Dict Ip4) (used : Dict Str)
      → NodupKeys m
      → ((s : Str) × (ip : Ip4) × (lookup s m ≡ some cid)
          × (entry_ip v6 subnet s ≡ some ip)
          × (lookup cid (load_entries v6 subnet m (allocs, used)).0 ≡ some ip))
        ⊎ (((s : Str) → lookup s m ≡ some cid → entry_ip v6 subnet s ≡ none)
            × (lookup cid (load_entries v6 subnet m (allocs, used)).0 ≡ lookup cid allocs))
  unfolding load_entries
  load_allocs_cases cid [] allocs used keys = inr (λ s h. cc, refl)
  load_allocs_cases cid ((t, c) ∷ r) allocs used keys = elim (load_entry_cases t c allocs used) [
    | inl (skipped, e) ↦ elim (load_allocs_cases cid r allocs used keys.1) [
      | inl (s, ip, h, read, q) ↦ inl (s, ip, ground (arith, keys.0), read, ground arith)
      | inr (absent, q) ↦ inr (
        λ s h. elim (str_dec t s) [ yes p ↦ rw (← p) skipped | no p ↦ absent s (ground arith) ],
        ground arith,
      )
    ]
    | inr (i, taken, e) ↦
        elim (load_allocs_cases cid r (insert c i allocs) (insert t c used) keys.1) [
          | inl (s, ip, h, read, q) ↦ inl (s, ip, ground (arith, keys.0), read, ground arith)
          | inr (absent, q) ↦ elim (str_dec c cid) [
            | yes p ↦ inl (t, i, ground arith, taken, ground (arith, lookup-insert cid c i allocs))
            | no p ↦ inr (
              λ s h. elim (str_dec t s) [
                | yes same ↦ absurd (p (ground arith))
                | no other ↦ absent s (ground arith)
              ],
              ground (arith, lookup-insert cid c i allocs),
            )
          ]
        ]
  ]
