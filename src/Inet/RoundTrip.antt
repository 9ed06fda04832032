-- ===== src/Inet/RoundTrip.antt =====
-- Dotted text and addresses correspond one to one.
use purenet.Base.{
  ℕ, ◌+◌, ◌-◌, ◌*◌, ◌≤◌, ◌<◌, ◌≡◌, refl, sym, ◌∙◌, ◌≢◌, ◌⊎◌, inl, inr, some, List, [], ◌∷◌, ◌++◌,
  Str, length, ◌==◌, true, false, arith, Option-cases, if◌then◌else◌,
}
use mathlib.Core.List.{append_assoc, append_cancel_right}
use purenet.Inet.Text.{Ip4, IsBytes, four, dec, ip_string, scan, parse4}

-- One field of the text is read back as its value.
scan-dec_dot :
    (n : ℕ) (s : Str) (fields : List ℕ)
    → n < 256
    → (length fields == 3) ≡ false
    → scan (dec n ++ (b'.' ∷ s)) fields 0 0 ≡ scan s (fields ++ n ∷ []) 0 0
unfolding dec scan
scan-dec_dot n s fields h few = ground arith

scan-dec_end :
    (n : ℕ) (fields : List ℕ)
    → n < 256
    → (length fields == 3) ≡ true
    → scan (dec n) fields 0 0 ≡ some (fields ++ n ∷ [])
unfolding dec scan
scan-dec_end n fields h full = ground arith

abbrev fields4 : Ip4 → List ℕ
fields4 a = a.b0 ∷ a.b1 ∷ a.b2 ∷ a.b3 ∷ []

scan-ip_string : (a : Ip4) → IsBytes a → scan (ip_string a) [] 0 0 ≡ some (fields4 a)
unfolding ip_string
scan-ip_string a v =
    scan-dec_dot a.b0 _ [] v.lt0 refl
    ∙ scan-dec_dot a.b1 _ (a.b0 ∷ []) v.lt1 refl
    ∙ scan-dec_dot a.b2 _ (a.b0 ∷ a.b1 ∷ []) v.lt2 refl
    ∙ scan-dec_end a.b3 (a.b0 ∷ a.b1 ∷ a.b2 ∷ []) v.lt3 refl

-- `ParseIP` reads what `String` prints.
pub parse4-ip_string : (a : Ip4) → IsBytes a → parse4 (ip_string a) ≡ some a
unfolding parse4
parse4-ip_string a v = rw (scan-ip_string a v, parse4)

-- The digits read so far, and what they say of the value.
abbrev digits_text : ℕ → ℕ → Str
digits_text v g = if g == 0 then [] else dec v

abbrev IsRun : ℕ → ℕ → Type 0
IsRun v g =
    ((g ≡ 0) × (v ≡ 0))
    ⊎ ((g ≡ 1) × (v < 10))
    ⊎ ((g ≡ 2) × (10 ≤ v) × (v < 100))
    ⊎ ((g ≡ 3) × (100 ≤ v) × (v < 256))

abbrev dotted : List ℕ → Str
dotted [] = []
dotted (x ∷ xs) = dec x ++ (b'.' ∷ dotted xs)

dotted-snoc : (xs : List ℕ) (x : ℕ) → dotted (xs ++ x ∷ []) ≡ dotted xs ++ (dec x ++ (b'.' ∷ []))
dotted-snoc [] x = refl
dotted-snoc (y ∷ xs) x = rw (dotted-snoc xs x) (sym (append_assoc (dec y) _ _))

abbrev ReadsDigit : ℕ → Str → List ℕ → ℕ → ℕ → List ℕ → Type 0
ReadsDigit c s fields v g fs =
    (b'0' ≤ c)
    × (c ≤ b'9')
    × ((g ≡ 1) → (v ≢ 0))
    × (v * 10 + (c - b'0') ≤ 255)
    × (scan s fields (v * 10 + (c - b'0')) (g + 1) ≡ some fs)

abbrev ReadsDot : ℕ → Str → List ℕ → ℕ → ℕ → List ℕ → Type 0
ReadsDot c s fields v g fs = (c ≡ b'.') × (g ≢ 0) × (scan s (fields ++ v ∷ []) 0 0 ≡ some fs)

scan_inv :
    (c : ℕ) (s : Str) (fields : List ℕ) (v g : ℕ) (fs : List ℕ)
    → scan (c ∷ s) fields v g ≡ some fs
    → ReadsDigit c s fields v g fs ⊎ ReadsDot c s fields v g fs
unfolding scan
scan_inv c s fields v g fs e = ground arith

IsRun-step :
    (c v g : ℕ)
    → b'0' ≤ c
    → c ≤ b'9'
    → ((g ≡ 1) → (v ≢ 0))
    → v * 10 + (c - b'0') ≤ 255
    → IsRun v g
    → IsRun (v * 10 + (c - b'0')) (g + 1) × (dec (v * 10 + (c - b'0')) ≡ digits_text v g ++ c ∷ [])
unfolding dec
IsRun-step c v g lo hi nz fits r = ground arith

scan_sound :
    (s : Str) (fields : List ℕ) (v g : ℕ) (fs : List ℕ)
    → IsRun v g
    → scan s fields v g ≡ some fs
    → dotted fs ≡ dotted fields ++ (digits_text v g ++ (s ++ b'.' ∷ []))
unfolding scan
scan_sound [] fields v g fs r e = ground (arith, dotted-snoc fields v)
scan_sound (c ∷ s) fields v g fs r e = elim (scan_inv c s fields v g fs e) [
  | inl (lo, hi, nz, fits, next) ↦
      let (r', d) = IsRun-step c v g lo hi nz fits r in
      ground (
        arith,
        scan_sound s fields (v * 10 + (c - b'0')) (g + 1) fs r' next,
        d,
        append_assoc (digits_text v g) (c ∷ []) (s ++ b'.' ∷ []),
      )
  | inr (dot, some_digits, next) ↦ ground (
    arith,
    scan_sound s (fields ++ v ∷ []) 0 0 fs (inl (refl, refl)) next,
    dotted-snoc fields v,
    append_assoc (dotted fields) (dec v ++ b'.' ∷ []) (s ++ b'.' ∷ []),
    append_assoc (dec v) (b'.' ∷ []) (s ++ b'.' ∷ []),
  )
]

abbrev Bytes : List ℕ → Type 0
Bytes [] = Unit
Bytes (x ∷ xs) = (x < 256) × Bytes xs

Bytes-snoc : (xs : List ℕ) (x : ℕ) → Bytes xs → x < 256 → Bytes (xs ++ x ∷ [])
Bytes-snoc [] x h lt = (lt, tt)
Bytes-snoc (y ∷ xs) x h lt = (h.0, Bytes-snoc xs x h.1 lt)

scan-Bytes :
    (s : Str) (fields : List ℕ) (v g : ℕ) (fs : List ℕ)
    → Bytes fields
    → v < 256
    → scan s fields v g ≡ some fs
    → Bytes fs
unfolding scan
scan-Bytes [] fields v g fs b lt e = ground (arith, Bytes-snoc fields v b lt)
scan-Bytes (c ∷ s) fields v g fs b lt e = elim (scan_inv c s fields v g fs e) [
  | inl (lo, hi, nz, fits, next) ↦
      scan-Bytes s fields (v * 10 + (c - b'0')) (g + 1) fs b (omega arith) next
  | inr (dot, some_digits, next) ↦
      scan-Bytes s (fields ++ v ∷ []) 0 0 fs (Bytes-snoc fields v b lt) (omega arith) next
]

four_inv : (fs : List ℕ) (a : Ip4) → four fs ≡ some a → fs ≡ fields4 a
four_inv (x ∷ y ∷ z ∷ w ∷ []) a h = ground arith
four_inv _ a h = cc

fields4-dotted : (a : Ip4) → dotted (fields4 a) ≡ ip_string a ++ b'.' ∷ []
unfolding ip_string
fields4-dotted a = simp append_assoc

parse4_inv : (s : Str) (a : Ip4) → parse4 s ≡ some a → scan s [] 0 0 ≡ some (fields4 a)
unfolding parse4
parse4_inv s a h = elim (Option-cases (scan s [] 0 0)) [
  | inl e ↦ ground arith
  | inr (fs, e) ↦ ground (arith, four_inv fs a)
]

-- Only one text is read as an address, the one that `String` prints, and its fields are bytes.
pub parse4_canonical : (s : Str) (a : Ip4) → parse4 s ≡ some a → (ip_string a ≡ s) × IsBytes a
parse4_canonical s a h =
    let e = parse4_inv s a h in
    let all = scan-Bytes s [] 0 0 (fields4 a) tt (omega arith) e in
    (
      append_cancel_right _ _ (b'.' ∷ [])
          (sym (fields4-dotted a) ∙ scan_sound s [] 0 0 _ (inl (refl, refl)) e),
      record { lt0 = all.0; lt1 = all.1.0; lt2 = all.1.1.0; lt3 = all.1.1.1.0 },
    )
