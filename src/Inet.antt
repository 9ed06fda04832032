-- ===== src/Inet.antt =====
-- What the program uses of Go's `net` package: addresses as bytes, CIDR blocks and their text.
-- IPv4 is written out. The text of IPv6, on which the program only ever takes an error branch or
-- hands bytes on, is the parameter `Inet6`.
mod Text
pub mod RoundTrip
pub mod Cidr
unfoldable pub use Text.*
use purenet.Base.{
  ℕ, ◌+◌, ◌-◌, ◌*◌, ◌/◌, ◌^◌, Bool, true, false, Option, none, some, List, [], ◌∷◌, ◌++◌, Str,
  str_dec, ite, take, ltb, ◌==◌, ◌&&◌, if◌then◌else◌,
}
use Prim.Native.Nat.{zero, suc, bit_or, ◌%◌}

-- `net.IP`; `nil` is the empty slice.
abbrev pub Ip : Type 0
Ip = Str

abbrev pub v4_in_v6_prefix : Ip
v4_in_v6_prefix = 0 ∷ 0 ∷ 0 ∷ 0 ∷ 0 ∷ 0 ∷ 0 ∷ 0 ∷ 0 ∷ 0 ∷ 255 ∷ 255 ∷ []

abbrev drop : ℕ → Ip → Ip
drop zero xs = xs
drop (suc n) [] = []
drop (suc n) (x ∷ xs) = drop n xs

-- `ip.To4()`; `none` is `nil`.
unfoldable pub to4 : Ip → Option Ip4
unfolding str_dec
to4 ip = elim (four ip) [
  | some a ↦ some a
  | none ↦ ite (str_dec (take 12 ip) v4_in_v6_prefix) (four (drop 12 ip)) none
]

-- The slice of four bytes that `To4` returns.
abbrev pub bytes4 : Ip4 → Ip
bytes4 a = a.b0 ∷ a.b1 ∷ a.b2 ∷ a.b3 ∷ []

-- `net.IpNet`, with the mask as `Mask.Size()` gives it.
pub record IpNet : Type 0 where
  pub ip : Ip
  pub ones : ℕ
  pub bits : ℕ

-- The bytes as one number, the first byte on top.
abbrev pub number4 : Ip4 → ℕ
number4 a = a.b0 * 2 ^ 24 + a.b1 * 2 ^ 16 + a.b2 * 2 ^ 8 + a.b3

-- `n.Contains(ip)` for an address of four bytes: the bits under the mask agree.
unfoldable pub contains : IpNet → Ip4 → Bool
unfolding to4
contains n ip = elim (to4 n.ip) [
  | none ↦ false
  | some base ↦ number4 base / 2 ^ (n.bits - n.ones) == number4 ip / 2 ^ (n.bits - n.ones)
]

-- Go's parsers of IPv6 text: `nil` or sixteen bytes, and a block or an error.
pub record Inet6 : Type 0 where
  pub parse_ip6 : Str → Ip
  pub parse_cidr6 : Str → Option IpNet

-- The first `.`, `:` or `%` decides how an address is read.
pub data Family : Type 0 where
  dotted_quad colons neither : Family

unfoldable pub family : Str → Family
family [] = neither
family (c ∷ s) =
    let rest = family s in
    if c == b'.'
    then dotted_quad
    else if c == b':'
    then colons
    else if c == b'%'
    then neither
    else rest

-- `net.ParseIP`: an IPv4 address comes in its form of sixteen bytes.
unfoldable pub parse_ip : Inet6 → Str → Ip
unfolding family parse4
parse_ip v6 s = elim (family s) [
  | dotted_quad ↦ elim (parse4 s) [ none ↦ [] | some a ↦ v4_in_v6_prefix ++ bytes4 a ]
  | colons ↦ v6.parse_ip6 s
  | neither ↦ []
]

-- The text before and after the first `/`.
unfoldable pub cut_slash : Str → Option (Str × Str)
cut_slash [] = none
cut_slash (c ∷ s) =
    let rest = cut_slash s in
    if c == b'/' then some ([], s) else elim rest [ none ↦ none | some (a, b) ↦ some (c ∷ a, b) ]

-- A decimal number of at least one digit that takes up the whole text.
unfoldable pub decimal : Str → ℕ → Option ℕ
unfolding is_digit
decimal [] v = none
decimal (c ∷ []) v = if is_digit c then some (v * 10 + (c - b'0')) else none
decimal (c ∷ d ∷ s) v =
    let rest = decimal (d ∷ s) (v * 10 + (c - b'0')) in if is_digit c then rest else none

-- byte(n >> k)
abbrev pub byte_at : ℕ → ℕ → ℕ
byte_at n k = n / 2 ^ k % 256

-- A number below 2 ^ 32 as four bytes.
abbrev pub of_number4 : ℕ → Ip4
of_number4 n = record { b0 = byte_at n 24; b1 = byte_at n 16; b2 = byte_at n 8; b3 = byte_at n 0 }

-- `net.ParseCIDR`, its second result: the address under the mask, and the mask.
unfoldable pub parse_cidr : Inet6 → Str → Option IpNet
unfolding family parse4 cut_slash decimal
parse_cidr v6 s = elim (cut_slash s) [
  | none ↦ none
  | some (addr, mask) ↦ elim (family addr) [
    | colons ↦ v6.parse_cidr6 s
    | neither ↦ none
    | dotted_quad ↦ elim (parse4 addr) [
      | none ↦ none
      | some a ↦ elim (decimal mask 0) [
        | none ↦ none
        | some n ↦
            if ltb 32 n
            then none
            else some (record {
              ip = bytes4 (of_number4 (number4 a / 2 ^ (32 - n) * 2 ^ (32 - n)));
              ones = n;
              bits = 32;
            })
      ]
    ]
  ]
]
