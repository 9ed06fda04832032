-- ===== src/Nodesync/Conf.antt =====
-- `writeCNIConfig` of pkg/nodesync/nodesync.go. `json.MarshalIndent` is the parameter
-- `marshal_indent`.
use purenet.Base.{
  ℤ, pos, ◌≡◌, ◌≢◌, ◌⊎◌, inl, inr, ◌++◌, Option, none, some, [], Str, codes, arith, Option-cases,
}
use purenet.Errors.{GoError, external, wrapf}
use purenet.Ipam.Store.{Store, IsLawful, contents, Decoded, decoded, malformed, Decoded-cases}
use purenet.Ipam.Persist.{tmp_path-ne}

pub record CniConf : Type 0 where
  pub cni_version : Str
  pub name : Str
  pub type : Str
  pub mtu : ℤ

abbrev pub purenet_conf : CniConf
purenet_conf = record {
  cni_version = codes "1.0.0";
  name = codes "purenet";
  type = codes "purenet";
  mtu = pos 1500;
}

module _ (S : Store) (marshal_indent : CniConf → Decoded S.Data) where
  -- `none` is a nil error.
  unfoldable pub write_cni_config : Str → S.Disk → Option GoError × S.Disk
  write_cni_config path d = elim (marshal_indent purenet_conf) [
    | malformed e ↦ (some (external e), d)
    | decoded b ↦
        let tmp = path ++ codes ".tmp" in
        let (w, d1) = S.write_file tmp b d in
        elim w [
          | some e ↦ (some (wrapf "writing CNI config tmp file" [] (external e)), d1)
          | none ↦
              let (r, d2) = S.rename tmp path d1 in
              elim r [
                | some e ↦ (some (wrapf "renaming CNI config" [] (external e)), S.remove tmp d2)
                | none ↦ (none, d2)
              ]
        ]
  ]

  module _ (L : IsLawful S) where
    at_path :
        (path : Str) (d : S.Disk)
        → let (e, d') = write_cni_config path d in
          ((e ≡ none)
            × (b : S.Data) × (marshal_indent purenet_conf ≡ decoded b)
            × (S.read_file path d' ≡ contents b))
          ⊎ ((e ≢ none) × (S.read_file path d' ≡ S.read_file path d))
    unfolding write_cni_config
    at_path path d =
        let tmp = path ++ codes ".tmp" in
        let ne = tmp_path-ne path in
        elim (Decoded-cases (marshal_indent purenet_conf)) [
          | inr (t, e) ↦ inr (ground (arith, e), ground (arith, e))
          | inl (b, e) ↦
              let d1 = (S.write_file tmp b d).1 in
              let d2 = (S.rename tmp path d1).1 in
              let written = L.read-write_other tmp path b d ne in
              elim (Option-cases (S.write_file tmp b d).0) [
                | inr (t, w) ↦ inr (ground (arith, e, w), ground (arith, e, w, written))
                | inl w ↦ elim (Option-cases (S.rename tmp path d1).0) [
                  | inl r ↦
                      let moved = L.read-rename tmp path d1 in
                      inl (
                        ground (arith, e, w, r),
                        b,
                        e,
                        ground (arith, e, w, r, moved, L.read-write tmp b d),
                      )
                  | inr (t, r) ↦
                      let removed = L.read-remove_other tmp path d2 ne in
                      let kept = L.read-rename_failed tmp path d1 in
                      inr (ground (arith, e, w, r), ground (arith, e, w, r, removed, kept, written))
                ]
              ]
        ]

    elsewhere :
        (path other : Str) (d : S.Disk)
        → other ≢ path
        → other ≢ path ++ codes ".tmp"
        → S.read_file other (write_cni_config path d).1 ≡ S.read_file other d
    unfolding write_cni_config
    elsewhere path o d p q =
        let tmp = path ++ codes ".tmp" in
        elim (Decoded-cases (marshal_indent purenet_conf)) [
          | inr (t, e) ↦ ground (arith, e)
          | inl (b, e) ↦
              let d1 = (S.write_file tmp b d).1 in
              let d2 = (S.rename tmp path d1).1 in
              let written = L.read-write_other tmp o b d in
              let moved = L.read-rename_other tmp path o d1 in
              let removed = L.read-remove_other tmp o d2 in
              elim (Option-cases (S.write_file tmp b d).0) [
                | inr (t, w) ↦ ground (arith, e, w, written)
                | inl w ↦
                    ground
                      (arith, e, w, Option-cases (S.rename tmp path d1).0, removed, moved, written)
              ]
        ]

    -- The container runtime sees the whole configuration or what was there before:
    -- `writeCNIConfig` without an error has put the encoded configuration at the path, and with
    -- one, at whatever step, it has left the file as it was. Files other than this one and the
    -- temporary one are not touched.
    pub write_cni_config_atomic :
        (path : Str) (d : S.Disk)
        → let (e, d') = write_cni_config path d in
          (((e ≡ none)
              × (b : S.Data) × (marshal_indent purenet_conf ≡ decoded b)
              × (S.read_file path d' ≡ contents b))
            ⊎ ((e ≢ none) × (S.read_file path d' ≡ S.read_file path d)))
          × ((other : Str)
              → other ≢ path
              → other ≢ path ++ codes ".tmp"
              → S.read_file other d' ≡ S.read_file other d)
    write_cni_config_atomic path d = (at_path path d, λ other p q. elsewhere path other d p q)
