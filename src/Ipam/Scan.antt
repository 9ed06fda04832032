-- ===== src/Ipam/Scan.antt =====
-- The conversions between addresses and numbers, and the scan of `nextFreeIP`.
use Prim.Native.Nat.{bit_or}
use purenet.Base.{
  ℕ, zero, suc, ◌+◌, ◌-◌, ◌*◌, ◌%◌, ◌^◌, ◌≤◌, ◌<◌, ◌≡◌, sym, ◌∙◌, ap, subst, ◌≢◌, ◌⊎◌, inl, inr,
  Option, none, some, Str, [], ◌∷◌, Dict, lookup, arith, Option-cases, ℕ_discrete,
}
use purenet.Base.Bits.{bit_or-shl}
use purenet.Errors.{GoError, errorf, Result, ok, err}
use purenet.Inet.{Ip4, IsBytes, IpNet, number4, to4, ip_string}
use purenet.Ipam.Defs.{Allocator, ip_to_uint32, uint32_to_ip, one_shl, scan_free, next_free_ip}

-- The shifts and ors put the bytes together.
pub ip_to_uint32-number4 : (a : Ip4) → IsBytes a → ip_to_uint32 a ≡ number4 a
unfolding ip_to_uint32
ip_to_uint32-number4 a v =
    let two : bit_or (a.b0 * 2 ^ 24) (a.b1 * 2 ^ 16) ≡ (a.b0 * 256 + a.b1) * 2 ^ 16 =
      bit_or-shl 24 a.b0 (a.b1 * 2 ^ 16) (omega arith) ∙ omega arith in
    let three : bit_or ((a.b0 * 256 + a.b1) * 2 ^ 16) (a.b2 * 2 ^ 8)
        ≡ (a.b0 * 65536 + a.b1 * 256 + a.b2) * 2 ^ 8 =
      bit_or-shl 16 (a.b0 * 256 + a.b1) (a.b2 * 2 ^ 8) (omega arith) ∙ omega arith in
    ap (λ (t : ℕ). bit_or (bit_or t (a.b2 * 2 ^ 8)) a.b3) two
    ∙ ap (λ (t : ℕ). bit_or t a.b3) three
    ∙ bit_or-shl 8 (a.b0 * 65536 + a.b1 * 256 + a.b2) a.b3 (omega arith)
    ∙ omega arith

pub uint32_to_ip-IsBytes : (n : ℕ) → n < 2 ^ 32 → IsBytes (uint32_to_ip n)
unfolding uint32_to_ip
uint32_to_ip-IsBytes n h = omega arith

pub number4-uint32_to_ip : (n : ℕ) → n < 2 ^ 32 → number4 (uint32_to_ip n) ≡ n
unfolding uint32_to_ip
number4-uint32_to_ip n h = omega arith

pub uint32_to_ip-number4 : (a : Ip4) → IsBytes a → uint32_to_ip (number4 a) ≡ a
unfolding uint32_to_ip
uint32_to_ip-number4 a v = ground arith

-- An IPv4 block: an aligned range of addresses that ends below 2 ^ 32.
abbrev pub size_of : IpNet → ℕ
size_of n = 2 ^ (n.bits - n.ones)

pub record IsBlock (n : IpNet) : Type 0 where
  pub base : Ip4
  pub is_v4 : to4 n.ip ≡ some base
  pub bytes : IsBytes base
  pub few : n.bits - n.ones ≤ 32
  pub prefix : ℕ
  pub aligned : number4 base ≡ prefix * size_of n
  pub fits : number4 base + size_of n ≤ 2 ^ 32

-- What the scan looks at in the round for an offset.
abbrev pub addr_at : ℕ → ℕ → Ip4
addr_at base offset = uint32_to_ip ((base + offset % 2 ^ 32) % 2 ^ 32)

abbrev pub IsTaken : Dict Str → Ip4 → Type 0
IsTaken used ip = lookup (ip_string ip) used ≢ none

-- The scan stops at the first offset whose address is free.
scan_free_first :
    (used : Dict Str) (base rounds offset : ℕ) (ip : Ip4)
    → scan_free used base rounds offset ≡ some ip
    → (o : ℕ) × (offset ≤ o)
      × (o < offset + rounds)
      × (ip ≡ addr_at base o)
      × (lookup (ip_string ip) used ≡ none)
      × ((p : ℕ) → offset ≤ p → p < o → IsTaken used (addr_at base p))
unfolding scan_free
scan_free_first used base zero offset ip e = cc
scan_free_first used base (suc rounds) offset ip e =
    elim (Option-cases (lookup (ip_string (addr_at base offset)) used)) [
      | inl free ↦
          let here : ip ≡ addr_at base offset = ground arith in
          (offset, omega arith, omega arith, here, rw here free, λ p lo hi. absurd (omega arith))
      | inr (cid, taken) ↦
          let (o, lo, hi, here, free, below) =
            scan_free_first used base rounds (offset + 1) ip (ground arith) in
          (
            o,
            omega arith,
            omega arith,
            here,
            free,
            λ p lo' hi'. elim (ℕ_discrete p offset) [
              | yes q ↦ λ f. cc (ap (λ (t : ℕ). lookup (ip_string (addr_at base t)) used) q)
              | no q ↦ below p (omega arith) hi'
            ],
          )
    ]

scan_free-none :
    (used : Dict Str) (base rounds offset : ℕ)
    → scan_free used base rounds offset ≡ none
    → (p : ℕ) → offset ≤ p
    → p < offset + rounds
    → IsTaken used (addr_at base p)
unfolding scan_free
scan_free-none used base zero offset e p lo hi = absurd (omega arith)
scan_free-none used base (suc rounds) offset e p lo hi = elim (ℕ_discrete p offset) [
  | yes q ↦ λ f. ground (arith, ap (λ (t : ℕ). lookup (ip_string (addr_at base t)) used) q)
  | no q ↦ scan_free-none used base rounds (offset + 1) (ground arith) p (omega arith) (omega arith)
]

-- What `nextFreeIP` promises of its result: the lowest host address of the block, network address
-- and gateway left out, that no container holds.
pub record IsFirstFree (n : IpNet) (base : Ip4) (used : Dict Str) (ip : Ip4) : Type 0 where
  pub offset : ℕ
  pub after_gateway : 2 ≤ offset
  pub before_broadcast : offset + 1 < size_of n
  pub at_offset : number4 ip ≡ number4 base + offset
  pub bytes : IsBytes ip
  pub free : lookup (ip_string ip) used ≡ none
  pub lowest :
      (j : Ip4) → IsBytes j → number4 base + 2 ≤ number4 j → number4 j < number4 ip → IsTaken used j

one_shl_lem : (k : ℕ) → k ≤ 32 → one_shl k ≡ 2 ^ k
unfolding one_shl
one_shl_lem k h = ground arith

module _ (a : Allocator) (b : IsBlock a.subnet) where
  abbrev rounds : ℕ
  rounds = size_of a.subnet - 1 - 2

  abbrev found : Option Ip4
  found = scan_free a.used (number4 b.base) rounds 2

  -- The scan, with the guard and the conversions out of the way.
  next_free_ip_unfolded : next_free_ip a ≡ elim found as (λ _. Result Ip4) [
    | some ip ↦ ok ip
    | none ↦ err (errorf "subnet %s is exhausted" (a.subnet.ip ∷ []))
  ]
  unfolding next_free_ip
  next_free_ip_unfolded =
      rw (b.is_v4, next_free_ip, ip_to_uint32-number4 b.base b.bytes, one_shl_lem _ b.few)

  addr_at_offset :
      (o : ℕ)
      → o < size_of a.subnet
      → addr_at (number4 b.base) o ≡ uint32_to_ip (number4 b.base + o)
  addr_at_offset o h = ap uint32_to_ip (omega (arith, b.fits))

  addr_at-number4 :
      (j : Ip4)
      → IsBytes j
      → number4 b.base ≤ number4 j
      → number4 j < number4 b.base + size_of a.subnet
      → addr_at (number4 b.base) (number4 j - number4 b.base) ≡ j
  addr_at-number4 j v lo hi =
      addr_at_offset (number4 j - number4 b.base) (omega arith)
      ∙ ap uint32_to_ip (omega arith)
      ∙ uint32_to_ip-number4 j v

  addr_at-IsBytes : (o : ℕ) → IsBytes (addr_at (number4 b.base) o)
  addr_at-IsBytes o = uint32_to_ip-IsBytes _ (omega arith)

  first_of_found : (ip : Ip4) → found ≡ some ip → IsFirstFree a.subnet b.base a.used ip
  first_of_found ip e =
      let (o, lo, hi, here, free, below) = scan_free_first a.used (number4 b.base) rounds 2 ip e in
      let at : number4 ip ≡ number4 b.base + o =
        ap number4 (here ∙ addr_at_offset o (omega arith))
        ∙ number4-uint32_to_ip _ (omega (arith, b.fits)) in
      record {
        offset = o;
        after_gateway = lo;
        before_broadcast = omega arith;
        at_offset = at;
        bytes = subst IsBytes (sym here) (addr_at-IsBytes o);
        free = free;
        lowest = λ j v above under.
            subst (IsTaken a.used) (addr_at-number4 j v (omega arith) (omega arith))
              (below (number4 j - number4 b.base) (omega arith) (omega arith));
      }

  -- Every host address of the block is held.
  abbrev pub IsExhausted : Type 0
  IsExhausted =
      (j : Ip4)
      → IsBytes j
      → number4 b.base + 2 ≤ number4 j
      → number4 j + 1 < number4 b.base + size_of a.subnet
      → IsTaken a.used j

  exhausted_of_none : found ≡ none → IsExhausted
  exhausted_of_none e j v lo hi =
      subst (IsTaken a.used) (addr_at-number4 j v (omega arith) (omega arith)) (
        scan_free-none a.used (number4 b.base) rounds 2 e (number4 j - number4 b.base) (omega arith)
          (omega arith))

  -- In an IPv4 block `nextFreeIP` gives the lowest free host address, or an error when every one is
  -- held.
  pub next_free_ip_lem :
      ((ip : Ip4) × (next_free_ip a ≡ ok ip) × IsFirstFree a.subnet b.base a.used ip)
      ⊎ ((e : GoError) × (next_free_ip a ≡ err e) × IsExhausted)
  next_free_ip_lem = elim (Option-cases found) [
    | inl e ↦ inr (
      errorf "subnet %s is exhausted" (a.subnet.ip ∷ []),
      rw (next_free_ip_unfolded, e),
      exhausted_of_none e,
    )
    | inr (ip, e) ↦ inl (ip, rw (next_free_ip_unfolded, e), first_of_found ip e)
  ]
