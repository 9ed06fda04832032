-- ===== src/Ipam/Persist.antt =====
-- What `persist` leaves on the disk, on each of its branches.
use purenet.Base.{
  ◌≡◌, refl, sym, ap, ◌≢◌, ◌⊎◌, inl, inr, none, some, [], ◌∷◌, Str, str_dec, codes, Dict, lookup,
  insert, Same, NodupKeys, lookup-insert, arith, length-append, Option-cases, length,
}
use purenet.Errors.{GoError, external, wrapf}
use purenet.Inet.{Ip4, ip_string}
use purenet.Ipam.Store.{Store, IsLawful, contents, decoded, malformed, Decoded-cases}
use purenet.Ipam.Defs.{Allocator, state_path, tmp_path, encode, persist}
use purenet.Ipam.Invariant.{IsValid}

-- An address is in the encoded map under the container that holds it, or not at all.
encode_cases :
    (s : Str) (allocs : Dict Ip4) (m : Dict Str)
    → NodupKeys allocs
    → ((cid : Str) × (ip : Ip4) × (lookup cid allocs ≡ some ip)
        × (s ≡ ip_string ip)
        × (lookup s (encode allocs m) ≡ some cid))
      ⊎ (((cid : Str) (ip : Ip4) → lookup cid allocs ≡ some ip → s ≢ ip_string ip)
          × (lookup s (encode allocs m) ≡ lookup s m))
unfolding encode
encode_cases s [] m keys = inr (λ cid ip h. cc, refl)
encode_cases s ((c, i) ∷ r) m keys = elim (encode_cases s r (insert (ip_string i) c m) keys.1) [
  | inl (cid, ip, held, text, e) ↦ inl (cid, ip, ground (arith, keys.0), text, e)
  | inr (absent, e) ↦ elim (str_dec (ip_string i) s) [
    | yes q ↦ inl (c, i, ground arith, sym q, ground (arith, lookup-insert s (ip_string i) c m))
    | no q ↦ inr (
      λ cid ip h text. elim (str_dec c cid) [
        | yes p ↦ q (ground arith)
        | no p ↦ absent cid ip (ground arith) text
      ],
      ground (arith, lookup-insert s (ip_string i) c m),
    )
  ]
]

-- What `persist` encodes is the reverse index.
pub encode-used : (a : Allocator) → IsValid a → Same (encode a.allocs []) a.used
encode-used a v s = elim (encode_cases s a.allocs [] v.keys) [
  | inl (cid, ip, held, text, e) ↦ ground (arith, v.forward cid ip held)
  | inr (absent, e) ↦ elim (Option-cases (lookup s a.used)) [
    | inl free ↦ ground arith
    | inr (cid, taken) ↦
        let (ip, held, text) = v.backward s cid taken in absurd (absent cid ip held text)
  ]
]

pub tmp_path-ne : (path : Str) → tmp_path path ≢ path
tmp_path-ne path e = omega (arith, ap length e, length-append path (codes ".tmp"))

module _ (S : Store) where
  -- The disk does not take the allocations: they cannot be encoded, the temporary file cannot be
  -- written, or it cannot be renamed.
  pub data Refused (a : Allocator) (d : S.Disk) : Type 0 where
    no_encoding : (t : Str) → S.marshal (encode a.allocs []) ≡ malformed t → Refused a d
    no_write :
        (b : S.Data) (t : Str)
        → S.marshal (encode a.allocs []) ≡ decoded b
        → (S.write_file (tmp_path (state_path a)) b d).0 ≡ some t
        → Refused a d
    no_rename :
        (b : S.Data) (t : Str)
        → S.marshal (encode a.allocs []) ≡ decoded b
        → (S.write_file (tmp_path (state_path a)) b d).0 ≡ none
        → (S.rename
            (tmp_path (state_path a))
            (state_path a)
            (S.write_file (tmp_path (state_path a)) b d).1).0
          ≡ some t
        → Refused a d

module _ (S : Store) (L : IsLawful S) where
  -- The state file holds these entries.
  abbrev pub IsWritten : Str → Dict Str → S.Disk → Type 0
  IsWritten path m d =
      (b : S.Data) × (m' : Dict Str) × (S.read_file path d ≡ contents b)
      × (S.unmarshal b ≡ decoded m')
      × NodupKeys m'
      × Same m' m

  abbrev pub Kept : Allocator → S.Disk → Type 0
  Kept a d =
      (((persist S a d).0 ≡ none) × IsWritten (state_path a) (encode a.allocs []) (persist S a d).1)
      ⊎ ((e : GoError) × ((persist S a d).0 ≡ some e)
          × Refused S a d
          × (S.read_file (state_path a) (persist S a d).1 ≡ S.read_file (state_path a) d))

  -- The temporary file is written, and is renamed or removed.
  wrote :
      (a : Allocator) (d : S.Disk) (b : S.Data)
      → S.marshal (encode a.allocs []) ≡ decoded b
      → (S.write_file (tmp_path (state_path a)) b d).0 ≡ none
      → Kept a d
  unfolding persist
  wrote a d b e w =
      let path = state_path a in
      let d1 = (S.write_file (tmp_path path) b d).1 in
      elim (Option-cases (S.rename (tmp_path path) path d1).0) [
        | inl r ↦
            let (m', u, nodup, same) = L.unmarshal-marshal (encode a.allocs []) b e in
            inl (
              ground arith,
              (
                b,
                m',
                ground (
                  arith,
                  L.read-rename (tmp_path path) path d1 r,
                  L.read-write (tmp_path path) b d w,
                ),
                u,
                nodup,
                same,
              ),
            )
        | inr (t, r) ↦
            let d2 = (S.rename (tmp_path path) path d1).1 in
            inr (
              wrapf "rename state file" [] (external t),
              ground arith,
              no_rename b t e w r,
              ground (
                arith,
                L.read-remove_other (tmp_path path) path d2 (tmp_path-ne path),
                L.read-rename_failed (tmp_path path) path d1 (λ q. cc),
                L.read-write_other (tmp_path path) path b d (tmp_path-ne path),
              ),
            )
      ]

  -- A `persist` that succeeds has written the allocations; one that fails has been refused at one
  -- of its steps and has left the state file as it was.
  pub persist_cases : (a : Allocator) (d : S.Disk) → Kept a d
  unfolding persist
  persist_cases a d =
      let path = state_path a in
      elim (Decoded-cases (S.marshal (encode a.allocs []))) [
        | inr (t, e) ↦
            inr (wrapf "cbor marshal" [] (external t), ground arith, no_encoding t e, ground arith)
        | inl (b, e) ↦ elim (Option-cases (S.write_file (tmp_path path) b d).0) [
          | inr (t, w) ↦ inr (
            wrapf "write tmp file" [] (external t),
            ground arith,
            no_write b t e w,
            ground (arith, L.read-write_other (tmp_path path) path b d (tmp_path-ne path)),
          )
          | inl w ↦ wrote a d b e w
        ]
      ]
