-- ===== src/Ipam/Capacity.antt =====
-- How many containers a block has room for.
use purenet.Base.{
  ℕ, ◌+◌, ◌-◌, ◌^◌, ◌≤◌, ◌<◌, ◌≡◌, sym, ap, ◌∙◌, inl, inr, some, Option-cases, Str, lookup, length,
  arith,
}
use purenet.Base.Counts.{length_below, length_covers}
use purenet.Errors.{GoError, err}
use purenet.Inet.{Ip4, IsBytes, number4, ip_string}
use purenet.Ipam.Defs.{Allocator, next_free_ip, uint32_to_ip}
use purenet.Ipam.Scan.{
  size_of, IsExhausted, next_free_ip_lem, number4-uint32_to_ip, uint32_to_ip-number4,
  uint32_to_ip-IsBytes,
}
use purenet.Ipam.Invariant.{IsValid, ip_string_injective, no_double_allocation}

-- The addresses of the block but the network's, the gateway's and the broadcast.
abbrev pub capacity : Allocator → ℕ
capacity a = size_of a.subnet - 3

module _ (a : Allocator) (v : IsValid a) where
  -- The place of an address among those that can be given.
  abbrev place : Ip4 → ℕ
  place ip = number4 ip - (number4 v.block.base + 2)

  in_block :
      (c : Str) (ip : Ip4)
      → lookup c a.allocs ≡ some ip
      → IsBytes ip
        × (number4 v.block.base + 2 ≤ number4 ip)
        × (number4 ip + 1 < number4 v.block.base + size_of a.subnet)
  in_block c ip e =
      let h = v.hosts c ip e in
      let same : number4 h.base ≡ number4 v.block.base =
        ap number4 (ground (arith, h.is_v4, v.block.is_v4)) in
      (h.bytes, omega (arith, h.above), omega (arith, h.below))

  place_injective :
      (c d : Str) (ip j : Ip4)
      → lookup c a.allocs ≡ some ip
      → lookup d a.allocs ≡ some j
      → place ip ≡ place j
      → ip ≡ j
  place_injective c d ip j p q same =
      let (b, lo, hi) = in_block c ip p in
      let (b', lo', hi') = in_block d j q in
      let value : number4 ip ≡ number4 j = omega arith in
      sym (uint32_to_ip-number4 ip b) ∙ ap uint32_to_ip value ∙ uint32_to_ip-number4 j b'

  held_at :
      IsExhausted a v.block
      → (o : ℕ) → o < capacity a
      → (c : Str) × (ip : Ip4) × (lookup c a.allocs ≡ some ip) × (place ip ≡ o)
  held_at full o lt =
      let n = number4 v.block.base + 2 + o in
      let small : n < 2 ^ 32 = omega (arith, v.block.fits, lt) in
      let j = uint32_to_ip n in
      let value = number4-uint32_to_ip n small in
      let bytes = uint32_to_ip-IsBytes n small in
      elim (Option-cases (lookup (ip_string j) a.used)) [
        | inl free ↦ absurd (full j bytes (omega arith) (omega arith) free)
        | inr (c, taken) ↦
            let (ip, held, text) = v.backward (ip_string j) c taken in
            let same = ip_string_injective j ip bytes (v.hosts c ip held).bytes text in
            (c, ip, held, ap place (sym same) ∙ omega (arith, value))
      ]

  -- On a valid allocator no more containers hold an address than the block has addresses less
  -- three, and `nextFreeIP` fails only when exactly so many do: no address is lost.
  pub allocs_bound :
      (length a.allocs ≤ capacity a)
      × ((e : GoError) → next_free_ip a ≡ err e → length a.allocs ≡ capacity a)
  allocs_bound =
      let most =
        length_below place (capacity a) a.allocs v.keys
          (λ c ip e. let (b, lo, hi) = in_block c ip e in omega arith)
          (λ c d ip j p q same.
            no_double_allocation a c d ip v p
              (q ∙ ap some (sym (place_injective c d ip j p q same)))) in
      (
        most,
        λ e failed. elim (next_free_ip_lem a v.block) [
          | inl (ip, given, f) ↦ ground (arith, given, failed)
          | inr (t, refused, full) ↦
              let least = length_covers place (capacity a) a.allocs v.keys (held_at full) in
              omega arith
        ],
      )
