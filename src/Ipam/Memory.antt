-- ===== src/Ipam/Memory.antt =====
-- A file system and a codec in memory that do what is assumed of the real ones: files by path, a
-- disk that may be full, and a codec that keeps a map as it is, less what a later key hides.
use purenet.Base.{
  Bool, ◌≡◌, ◌≢◌, refl, ap, inl, inr, Option, none, some, [], ◌∷◌, Str, codes, str_dec, Dict,
  lookup, insert, erase, Same, NodupKeys, lookup-insert, lookup-erase, insert-NodupKeys, ite, arith,
  if◌then◌else◌, Option-cases,
}
use purenet.Ipam.Store.{Store, IsLawful, Read, contents, not_exist, decoded}

pub record Files : Type 0 where
  pub files : Dict (Dict Str)
  pub full : Bool

abbrev pub normal : Dict Str → Dict Str
normal [] = []
normal (e ∷ m) = insert e.0 e.1 (normal m)

normal-NodupKeys : (m : Dict Str) → NodupKeys (normal m)
normal-NodupKeys [] = tt
normal-NodupKeys (e ∷ m) = insert-NodupKeys e.0 e.1 (normal m) (normal-NodupKeys m)

normal-Same : (m : Dict Str) → Same (normal m) m
normal-Same [] k = refl
normal-Same (e ∷ m) k = ground (arith, lookup-insert k e.0 e.1 (normal m), normal-Same m k)

abbrev read : Str → Files → Read (Dict Str)
read p d = elim (lookup p d.files) [ none ↦ not_exist | some b ↦ contents b ]

abbrev write : Str → Dict Str → Files → Option Str × Files
write p b d =
    if d.full
    then (some (codes "no space left on device"), d)
    else (none, record d { files = insert p b d.files })

abbrev move : Str → Str → Files → Option Str × Files
move p q d = elim (lookup p d.files) [
  | none ↦ (some (codes "no such file or directory"), d)
  | some b ↦ (none, ite (str_dec p q) d (record d { files = erase p (insert q b d.files) }))
]

abbrev pub memory : Store
memory = record {
  Disk = Files;
  Data = Dict Str;
  mkdir_all = λ p d. (none, d);
  write_file = write;
  rename = move;
  remove = λ p d. record d { files = erase p d.files };
  read_file = read;
  marshal = λ m. decoded m;
  unmarshal = λ m. decoded (normal m);
}

read-move_lem : (p q : Str) (d : Files) → (move p q d).0 ≡ none → read q (move p q d).1 ≡ read p d
read-move_lem p q d h = elim (Option-cases (lookup p d.files)) [
  | inl e ↦ ground arith
  | inr (b, e) ↦ ground (arith, lookup-erase q p (insert q b d.files), lookup-insert q q b d.files)
]

pub read-move_other : (p q r : Str) (d : Files) → r ≢ p → r ≢ q → read r (move p q d).1 ≡ read r d
read-move_other p q r d np nq = elim (Option-cases (lookup p d.files)) [
  | inl h ↦ ground (arith, h)
  | inr (b, h) ↦
      ground
        (arith, h, str_dec p q, lookup-erase r p (insert q b d.files), lookup-insert r q b d.files)
]

pub memory-IsLawful : IsLawful memory
memory-IsLawful = record {
  read-mkdir_all = λ p q d. refl;
  read-write = λ p b d h. ground (arith, lookup-insert p p b d.files);
  read-write_other = λ p q b d ne. ground (arith, lookup-insert q p b d.files);
  read-rename = read-move_lem;
  read-rename_failed = λ p q d h. ground arith;
  read-rename_other = λ p q r d np nq. read-move_other p q r d np nq;
  read-remove_other = λ p q d ne. ground (arith, lookup-erase q p d.files);
  unmarshal-marshal = λ m b e.
      let same : b ≡ m = ground arith in
      (normal m, ap (λ t. decoded (normal t)) same, normal-NodupKeys m, normal-Same m);
}
