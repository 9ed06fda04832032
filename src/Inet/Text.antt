-- ===== src/Inet/Text.antt =====
-- The dotted text of an IPv4 address, printed (`net.IP.String`) and parsed (`net.ParseIP`).
use purenet.Base.{
  ℕ, ◌+◌, ◌-◌, ◌*◌, ◌/◌, ◌%◌, ◌<◌, Bool, ◌&&◌, ◌||◌, Option, none, some, List, [], ◌∷◌, ◌++◌, Str,
  length, ltb, leb, ◌==◌, if◌then◌else◌,
}

-- A slice of four bytes.
pub record Ip4 : Type 0 where
  pub b0 : ℕ
  pub b1 : ℕ
  pub b2 : ℕ
  pub b3 : ℕ

-- What a slice of bytes holds anyway.
pub record IsBytes (a : Ip4) : Type 0 where
  pub lt0 : a.b0 < 256
  pub lt1 : a.b1 < 256
  pub lt2 : a.b2 < 256
  pub lt3 : a.b3 < 256

abbrev pub four : Str → Option Ip4
four (a ∷ b ∷ c ∷ d ∷ []) = some (record { b0 = a; b1 = b; b2 = c; b3 = d })
four _ = none

-- A byte in decimal, with no leading zero.
unfoldable pub dec : ℕ → Str
dec n =
    if ltb n 10
    then (b'0' + n) ∷ []
    else if ltb n 100
    then (b'0' + n / 10) ∷ (b'0' + n % 10) ∷ []
    else (b'0' + n / 100) ∷ (b'0' + n / 10 % 10) ∷ (b'0' + n % 10) ∷ []

-- `ip.String()` of a slice of four bytes.
unfoldable pub ip_string : Ip4 → Str
ip_string a = dec a.b0 ++ (b'.' ∷ dec a.b1 ++ (b'.' ∷ dec a.b2 ++ (b'.' ∷ dec a.b3)))

unfoldable pub is_digit : ℕ → Bool
is_digit c = leb b'0' c && leb c b'9'

-- The loop over the bytes: the fields that are complete, the value of the present one and how many
-- digits it has. A leading zero, a value over 255, an empty field and a fifth field are errors.
unfoldable pub scan : Str → List ℕ → ℕ → ℕ → Option (List ℕ)
unfolding is_digit
scan [] fields v digits =
    if digits == 0 then none else if length fields == 3 then some (fields ++ v ∷ []) else none
scan (c ∷ s) fields v digits =
    let next_field = scan s (fields ++ v ∷ []) 0 0 in
    let next_digit = scan s fields (v * 10 + (c - b'0')) (digits + 1) in
    if is_digit c
    then (if digits == 1 && v == 0
        then none
        else if ltb 255 (v * 10 + (c - b'0'))
        then none
        else next_digit)
    else if c == b'.'
    then (if digits == 0 || length fields == 3 then none else next_field)
    else none

unfoldable pub parse4 : Str → Option Ip4
parse4 s = elim (scan s [] 0 0) [ none ↦ none | some fields ↦ four fields ]
