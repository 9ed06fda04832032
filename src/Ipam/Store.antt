-- ===== src/Ipam/Store.antt =====
-- What pkg/ipam/ipam.go calls outside the repository: files (`os`) and the CBOR codec. The bytes of
-- a file are passed from one to the other and never looked into.
use purenet.Base.{Str, Dict, Same, NodupKeys, Option, none, ◌≡◌, ◌≢◌, refl, ◌⊎◌, inl, inr}

pub data Read (A : Type 0) : Type 0 where
  contents : A → Read A
  not_exist : Read A
  failed : Str → Read A

pub data Decoded (A : Type 0) : Type 0 where
  decoded : A → Decoded A
  malformed : Str → Decoded A

pub Decoded-cases :
    {A : Type 0} (r : Decoded A) → ((a : A) × (r ≡ decoded a)) ⊎ ((e : Str) × (r ≡ malformed e))
Decoded-cases (decoded a) = inl (a, refl)
Decoded-cases (malformed e) = inr (e, refl)

pub Read-cases :
    {A : Type 0} (r : Read A)
    → ((a : A) × (r ≡ contents a)) ⊎ (r ≡ not_exist) ⊎ ((e : Str) × (r ≡ failed e))
Read-cases (contents a) = inl (a, refl)
Read-cases not_exist = inr (inl refl)
Read-cases (failed e) = inr (inr (e, refl))

-- `none` for a nil error, else the error's text.
pub record Store : Type 1 where
  pub Disk : Type 0
  pub Data : Type 0
  pub mkdir_all : Str → Disk → Option Str × Disk
  pub write_file : Str → Data → Disk → Option Str × Disk
  pub rename : Str → Str → Disk → Option Str × Disk
  pub remove : Str → Disk → Disk
  pub read_file : Str → Disk → Read Data
  pub marshal : Dict Str → Decoded Data
  pub unmarshal : Data → Decoded (Dict Str)

-- What is documented of them: a write or a rename that succeeds is read back, a rename that fails
-- leaves its target alone (rename(2)), no call touches another file, and a decoded map has the
-- entries of the map that was encoded.
pub record IsLawful (S : Store) : Type 0 where
  pub read-mkdir_all :
      (p q : Str) (d : S.Disk) → S.read_file q (S.mkdir_all p d).1 ≡ S.read_file q d
  pub read-write :
      (p : Str) (b : S.Data) (d : S.Disk)
      → (S.write_file p b d).0 ≡ none
      → S.read_file p (S.write_file p b d).1 ≡ contents b
  pub read-write_other :
      (p q : Str) (b : S.Data) (d : S.Disk)
      → p ≢ q
      → S.read_file q (S.write_file p b d).1 ≡ S.read_file q d
  pub read-rename :
      (p q : Str) (d : S.Disk)
      → (S.rename p q d).0 ≡ none
      → S.read_file q (S.rename p q d).1 ≡ S.read_file p d
  pub read-rename_failed :
      (p q : Str) (d : S.Disk)
      → (S.rename p q d).0 ≢ none
      → S.read_file q (S.rename p q d).1 ≡ S.read_file q d
  pub read-rename_other :
      (p q r : Str) (d : S.Disk)
      → r ≢ p
      → r ≢ q
      → S.read_file r (S.rename p q d).1 ≡ S.read_file r d
  pub read-remove_other :
      (p q : Str) (d : S.Disk) → p ≢ q → S.read_file q (S.remove p d) ≡ S.read_file q d
  pub unmarshal-marshal :
      (m : Dict Str) (b : S.Data)
      → S.marshal m ≡ decoded b
      → (m' : Dict Str) × (S.unmarshal b ≡ decoded m') × NodupKeys m' × Same m' m
