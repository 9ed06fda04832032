-- ===== src/Base/Maps.antt =====
-- A Go map with string keys, as an association list. Go iterates over a map in any order: here in
-- the order of the list, so what is proved for every list holds for every order.
use mathlib.Core.Path.{◌≡◌, refl}
use mathlib.Core.Logic.{ite}
use mathlib.Core.Option.{Option, none, some}
use mathlib.Core.List.{List, [], ◌∷◌}
use native.Mathlib.Omega.{arith}
use purenet.Base.Strings.{Str, str_dec}

abbrev pub Dict {ℓ} : Type ℓ → Type ℓ
Dict V = List (Str × V)

module _ {ℓ} {V : Type ℓ} where
  -- `v, ok := m[k]`
  abbrev pub lookup : Str → Dict V → Option V
  lookup k [] = none
  lookup k (e ∷ m) = ite (str_dec e.0 k) (some e.1) (lookup k m)

  -- `m[k] = v`
  abbrev pub insert : Str → V → Dict V → Dict V
  insert k v [] = (k, v) ∷ []
  insert k v (e ∷ m) = ite (str_dec e.0 k) ((k, v) ∷ m) (e ∷ insert k v m)

  -- `delete(m, k)`
  abbrev pub erase : Str → Dict V → Dict V
  erase k [] = []
  erase k (e ∷ m) = let rest = erase k m in ite (str_dec e.0 k) rest (e ∷ rest)

  -- Two maps with the same entries.
  abbrev pub Same : Dict V → Dict V → Type ℓ
  Same d e = (k : Str) → lookup k d ≡ lookup k e

  -- No key is listed twice.
  abbrev pub NodupKeys : Dict V → Type ℓ
  NodupKeys [] = Unit
  NodupKeys (e ∷ m) = (lookup e.0 m ≡ none) × NodupKeys m

  pub lookup-insert :
      (j k : Str) (v : V) (m : Dict V)
      → lookup j (insert k v m) ≡ ite (str_dec k j) (some v) (lookup j m)
  lookup-insert j k v [] = refl
  lookup-insert j k v (e ∷ m) = ground (arith, lookup-insert j k v m)

  pub lookup-erase :
      (j k : Str) (m : Dict V) → lookup j (erase k m) ≡ ite (str_dec k j) none (lookup j m)
  lookup-erase j k [] = ground arith
  lookup-erase j k (e ∷ m) = ground (arith, lookup-erase j k m)

  pub insert-NodupKeys : (k : Str) (v : V) (m : Dict V) → NodupKeys m → NodupKeys (insert k v m)
  insert-NodupKeys k v [] h = (refl, tt)
  insert-NodupKeys k v (e ∷ m) h =
      ground (arith, insert-NodupKeys k v m h.1, lookup-insert e.0 k v m)

  pub erase-NodupKeys : (k : Str) (m : Dict V) → NodupKeys m → NodupKeys (erase k m)
  erase-NodupKeys k [] h = tt
  erase-NodupKeys k (e ∷ m) h = ground (arith, erase-NodupKeys k m h.1, lookup-erase e.0 k m)

  -- Taking a new key back restores the map, its order included.
  pub erase_absent : (k : Str) (m : Dict V) → lookup k m ≡ none → erase k m ≡ m
  erase_absent k [] h = refl
  erase_absent k (e ∷ m) h = ground (arith, erase_absent k m)

  pub erase-insert_new :
      (k : Str) (v : V) (m : Dict V) → lookup k m ≡ none → erase k (insert k v m) ≡ m
  erase-insert_new k v [] h = ground arith
  erase-insert_new k v (e ∷ m) h = ground (arith, erase-insert_new k v m, erase_absent k m)

  -- Deleting an entry and putting it back restores the entries, if not their order.
  pub insert-erase-Same :
      (k : Str) (v : V) (m : Dict V) → lookup k m ≡ some v → Same (insert k v (erase k m)) m
  insert-erase-Same k v m h j = ground (arith, lookup-insert j k v (erase k m), lookup-erase j k m)
