-- ===== src/Inet/Cidr.antt =====
-- `net.ParseCIDR` on the text of an IPv4 block.
use purenet.Base.{
  ℕ, zero, suc, ◌+◌, ◌-◌, ◌*◌, ◌/◌, ◌^◌, ◌≤◌, ◌<◌, ◌≡◌, refl, ◌≢◌, Bool, true, ◌&&◌, some, [], ◌∷◌,
  ◌++◌, Str, ◌==◌, arith, ℕ_discrete,
}
use purenet.Inet.{
  Ip4, IsBytes, IpNet, Inet6, number4, of_number4, bytes4, dec, ip_string, family, cut_slash,
  decimal, parse_cidr, dotted_quad,
}
use purenet.Inet.RoundTrip.{parse4-ip_string}

abbrev NoSlash : Str → Type 0
NoSlash [] = Unit
NoSlash (c ∷ s) = (c ≢ b'/') × NoSlash s

NoSlash-append : (s t : Str) → NoSlash s → NoSlash t → NoSlash (s ++ t)
NoSlash-append [] t hs ht = ht
NoSlash-append (c ∷ s) t hs ht = (hs.0, NoSlash-append s t hs.1 ht)

cut_slash-append : (s t : Str) → NoSlash s → cut_slash (s ++ (b'/' ∷ t)) ≡ some (s, t)
unfolding cut_slash
cut_slash-append [] t h = refl
cut_slash-append (c ∷ s) t h = ground (arith, cut_slash-append s t h.1)

dec-NoSlash : (n : ℕ) → NoSlash (dec n)
unfolding dec
dec-NoSlash n = ground arith

ip_string-NoSlash : (a : Ip4) → NoSlash (ip_string a)
unfolding ip_string
ip_string-NoSlash a =
    let field = λ (n : ℕ) (s : Str) (h : NoSlash s).
      NoSlash-append (dec n) (b'.' ∷ s) (dec-NoSlash n) (omega arith, h) in
    field a.b0 _ (field a.b1 _ (field a.b2 _ (dec-NoSlash a.b3)))

decimal-dec : (n : ℕ) → n < 100 → decimal (dec n) 0 ≡ some n
unfolding decimal dec
decimal-dec n h = ground arith

pub family-ip_string : (a : Ip4) → IsBytes a → family (ip_string a) ≡ dotted_quad
unfolding family ip_string dec
family-ip_string a v = ground arith

-- 2 ^ (32 - n) * 2 ^ n is 2 ^ 32: checked at each prefix length.
splits_below : ℕ → Bool
splits_below zero = true
splits_below (suc n) = 2 ^ (32 - n) * 2 ^ n == 2 ^ 32 && splits_below n

splits_below_sound : (m n : ℕ) → splits_below m ≡ true → n < m → 2 ^ (32 - n) * 2 ^ n ≡ 2 ^ 32
unfolding splits_below
splits_below_sound zero n e h = absurd (omega arith)
splits_below_sound (suc m) n e h = elim (ℕ_discrete n m) [
  | yes q ↦ rw q (ground arith)
  | no q ↦ splits_below_sound m n (ground arith) (omega arith)
]

pow_split : (n : ℕ) → n ≤ 32 → 2 ^ (32 - n) * 2 ^ n ≡ 2 ^ 32
unfolding splits_below
pow_split n h = splits_below_sound 33 n refl (omega arith)

-- The block of an address: the bits under the mask, and the size.
abbrev pub network_number : Ip4 → ℕ → ℕ
network_number a n = number4 a / 2 ^ (32 - n) * 2 ^ (32 - n)

masked_bounds : (x s t : ℕ) → s * t ≡ 2 ^ 32 → x < 2 ^ 32 → x / s * s + s ≤ 2 ^ 32
masked_bounds x s t e h =
    let small : x / s < t = grind arith in
    let more : (x / s + 1) * s ≤ t * s = grind arith in omega (arith, more, e)

pub network_number_fits :
    (a : Ip4) (n : ℕ) → IsBytes a → n ≤ 32 → network_number a n + 2 ^ (32 - n) ≤ 2 ^ 32
network_number_fits a n v h =
    masked_bounds (number4 a) (2 ^ (32 - n)) (2 ^ n) (pow_split n h) (omega arith)

abbrev pub network_of : Ip4 → ℕ → IpNet
network_of a n = record { ip = bytes4 (of_number4 (network_number a n)); ones = n; bits = 32 }

abbrev pub cidr_text : Ip4 → ℕ → Str
cidr_text a n = ip_string a ++ (b'/' ∷ dec n)

-- `ParseCIDR` reads the text of a block as that block, its host bits cleared.
pub parse_cidr-cidr_text :
    (v6 : Inet6) (a : Ip4) (n : ℕ)
    → IsBytes a
    → n ≤ 32
    → parse_cidr v6 (cidr_text a n) ≡ some (network_of a n)
unfolding parse_cidr
parse_cidr-cidr_text v6 a n v h =
    rw
      (
        cut_slash-append (ip_string a) (dec n) (ip_string-NoSlash a),
        parse_cidr,
        family-ip_string a v,
        parse4-ip_string a v,
        decimal-dec n (omega arith),
      )
      (ground arith)
