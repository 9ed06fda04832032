-- ===== src/Network/Veth/Names.antt =====
-- The names of the host's ends.
use purenet.Base.{ℕ, ◌*◌, ◌/◌, ◌<◌, ◌≤◌, ◌≡◌, refl, ap, List, [], ◌∷◌, Str, length, take, arith}
use Prim.Native.Nat.{zero, suc, ◌%◌}
use purenet.Network.Veth.Defs.{hex_digit, hex_string, generate_host_veth_name}

-- Each byte is two characters.
hex_string-length : (bs : List ℕ) → length (hex_string bs) ≡ 2 * length bs
unfolding hex_string
hex_string-length [] = refl
hex_string-length (b ∷ bs) = ground (arith, hex_string-length bs)

length-take : (n : ℕ) (xs : Str) → n ≤ length xs → length (take n xs) ≡ n
length-take zero xs le = refl
length-take (suc n) [] le = ground arith
length-take (suc n) (x ∷ xs) le = ap suc (length-take n xs (omega arith))

hex_digit_injective : (m n : ℕ) → m < 16 → n < 16 → hex_digit m ≡ hex_digit n → m ≡ n
hex_digit_injective m n lm ln e = ground arith

-- For a digest of twenty bytes, as SHA-1 gives it, the host's end of a container has a name of
-- fifteen characters, what the kernel has room for.
pub length-generate_host_veth_name :
    (sha1 : Str → List ℕ) (id : Str)
    → length (sha1 id) ≡ 20
    → length (generate_host_veth_name sha1 id) ≡ 15
unfolding generate_host_veth_name
length-generate_host_veth_name sha1 id is =
    omega (arith, length-take 11 (hex_string (sha1 id)), hex_string-length (sha1 id), is)

-- Every number of the list is below the bound.
abbrev pub AllBelow : ℕ → List ℕ → Type 0
AllBelow n [] = Unit
AllBelow n (b ∷ bs) = (b < n) × AllBelow n bs

-- Two digests whose eleven leading digits agree have one first byte and one rest.
hex_byte_injective :
    (a b : ℕ)
    → a < 256
    → b < 256
    → hex_digit (a / 16) ≡ hex_digit (b / 16)
    → hex_digit (a % 16) ≡ hex_digit (b % 16)
    → a ≡ b
hex_byte_injective a b la lb hi lo = omega (
  arith,
  hex_digit_injective (a / 16) (b / 16) (omega arith) (omega arith) hi,
  hex_digit_injective (a % 16) (b % 16) (omega arith) (omega arith) lo,
)

abbrev odd : ℕ → ℕ
odd zero = 1
odd (suc n) = suc (suc (odd n))

hex_string_prefix :
    (n : ℕ) (xs ys : List ℕ)
    → AllBelow 256 xs
    → AllBelow 256 ys
    → n ≤ length xs
    → n ≤ length ys
    → take (odd n) (hex_string xs) ≡ take (odd n) (hex_string ys)
    → take n xs ≡ take n ys
unfolding hex_string
hex_string_prefix zero xs ys la lb na nb same = refl
hex_string_prefix (suc n) [] ys la lb na nb same = ground (arith, na)
hex_string_prefix (suc n) (a ∷ xs) [] la lb na nb same = ground (arith, nb)
hex_string_prefix (suc n) (a ∷ xs) (b ∷ ys) la lb na nb same =
    let hi : hex_digit (a / 16) ≡ hex_digit (b / 16) = cc same in
    let lo : hex_digit (a % 16) ≡ hex_digit (b % 16) = cc same in
    let rest : take (odd n) (hex_string xs) ≡ take (odd n) (hex_string ys) = cc same in
    cc (
      hex_byte_injective a b la.0 lb.0 hi lo,
      hex_string_prefix n xs ys la.1 lb.1 (omega (arith, na)) (omega (arith, nb)) rest,
    )

-- Where the names of two containers agree, so do the first five bytes of their digests: a clash of
-- names is a clash of the hash.
pub generate_host_veth_name_clash :
    (sha1 : Str → List ℕ) (id id' : Str)
    → ((s : Str) → (length (sha1 s) ≡ 20) × AllBelow 256 (sha1 s))
    → generate_host_veth_name sha1 id ≡ generate_host_veth_name sha1 id'
    → take 5 (sha1 id) ≡ take 5 (sha1 id')
unfolding generate_host_veth_name
generate_host_veth_name_clash sha1 id id' digest same =
    hex_string_prefix 5 (sha1 id) (sha1 id') (digest id).1 (digest id').1
      (omega (arith, (digest id).0)) (omega (arith, (digest id').0)) (cc same)
