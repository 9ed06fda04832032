-- ===== src/Ipam/Restart.antt =====
-- A restart of the agent: `New` finds in the state file what the allocator held.
use purenet.Base.{
  ◌≡◌, refl, sym, ◌∙◌, inl, inr, none, some, [], ◌∷◌, Str, Dict, lookup, Same, NodupKeys,
  insert-NodupKeys, arith, Option-cases,
}
use purenet.Errors.{ok}
use purenet.Inet.{Ip4, IpNet, Inet6, to4, parse_ip, parse_cidr, ip_string}
use purenet.Ipam.Store.{Store, IsLawful}
use purenet.Ipam.Defs.{Allocator, state_path, first_host_ip, load_entry, load_entries, load, new}
use purenet.Ipam.Scan.{IsBlock}
use purenet.Ipam.Invariant.{IsHost, IsValid}
use purenet.Ipam.Calls.{InStep}
use purenet.Ipam.Load.{to4-parse_ip, contains-IsHost, entry_ip, load_used_cases, load_allocs_cases}

load_entry-NodupKeys :
    (v6 : Inet6) (n : IpNet) (e : Str × Str) (allocs : Dict Ip4) (used : Dict Str)
    → NodupKeys allocs
    → NodupKeys (load_entry v6 n e (allocs, used)).0
unfolding load_entry
load_entry-NodupKeys v6 n (s, cid) allocs used k = elim (Option-cases (to4 (parse_ip v6 s))) [
  | inl e ↦ ground arith
  | inr (ip, e) ↦ ground (arith, insert-NodupKeys cid ip allocs k)
]

load_entries-NodupKeys :
    (v6 : Inet6) (n : IpNet) (m : Dict Str) (acc : Dict Ip4 × Dict Str)
    → NodupKeys acc.0
    → NodupKeys (load_entries v6 n m acc).0
unfolding load_entries
load_entries-NodupKeys v6 n [] acc k = k
load_entries-NodupKeys v6 n (e ∷ m) (allocs, used) k =
    load_entries-NodupKeys v6 n m (load_entry v6 n e (allocs, used))
      (load_entry-NodupKeys v6 n e allocs used k)

-- The order of the maps does not matter to the invariant.
pub IsValid-Same :
    (a b : Allocator)
    → IsValid a
    → b.subnet ≡ a.subnet
    → Same b.allocs a.allocs
    → Same b.used a.used
    → NodupKeys b.allocs
    → IsValid b
IsValid-Same a b v net same_allocs same_used keys = record {
  block = rw net v.block;
  keys = keys;
  forward = λ cid ip h. same_used (ip_string ip) ∙ v.forward cid ip (sym (same_allocs cid) ∙ h);
  backward = λ s cid h.
      let (ip, held, text) = v.backward s cid (sym (same_used s) ∙ h) in
      (ip, same_allocs cid ∙ held, text);
  hosts = λ cid ip h. rw net (v.hosts cid ip (sym (same_allocs cid) ∙ h));
}

entry_ip-ip_string :
    (v6 : Inet6) (n : IpNet) (ip : Ip4)
    → IsBlock n
    → IsHost n ip
    → entry_ip v6 n (ip_string ip) ≡ some ip
unfolding entry_ip
entry_ip-ip_string v6 n ip b host =
    rw (to4-parse_ip v6 ip host.bytes, entry_ip) (rw (contains-IsHost n ip b host))

module _ (v6 : Inet6) (a : Allocator) (v : IsValid a) where
  entry_ip_held :
      (s cid : Str)
      → lookup s a.used ≡ some cid
      → (ip : Ip4) × (lookup cid a.allocs ≡ some ip) × (entry_ip v6 a.subnet s ≡ some ip)
  entry_ip_held s cid h =
      let (ip, held, text) = v.backward s cid h in
      (ip, held, cc (text, entry_ip-ip_string v6 a.subnet ip v.block (v.hosts cid ip held)))

  module _ (m : Dict Str) (keys : NodupKeys m) (same : Same m a.used) where
    loaded_used : Same (load_entries v6 a.subnet m ([], [])).1 a.used
    loaded_used s = elim (load_used_cases v6 a.subnet s m [] [] keys) [
      | inl (cid, ip, h, read, q) ↦ q ∙ sym h ∙ same s
      | inr (absent, q) ↦ elim (Option-cases (lookup s a.used)) [
        | inl free ↦ q ∙ sym free
        | inr (cid, taken) ↦
            let (ip, held, read) = entry_ip_held s cid taken in
            cc (absent cid (same s ∙ taken), read)
      ]
    ]

    loaded_allocs : Same (load_entries v6 a.subnet m ([], [])).0 a.allocs
    loaded_allocs cid = elim (load_allocs_cases v6 a.subnet cid m [] [] keys) [
      | inl (s, ip, h, read, q) ↦
          let (j, held, read') = entry_ip_held s cid (sym (same s) ∙ h) in cc
      | inr (absent, q) ↦ elim (Option-cases (lookup cid a.allocs)) [
        | inl free ↦ q ∙ sym free
        | inr (ip, held) ↦
            let taken = v.forward cid ip held in
            let (j, held', read) = entry_ip_held (ip_string ip) cid taken in
            cc (absent (ip_string ip) (same (ip_string ip) ∙ taken), read)
      ]
    ]

-- The allocator that a restart builds.
pub record IsRestored (a b : Allocator) : Type 0 where
  pub valid : IsValid b
  pub subnet : b.subnet ≡ a.subnet
  pub gateway : b.gateway ≡ first_host_ip a.subnet
  pub data_dir : b.data_dir ≡ a.data_dir
  pub allocs : Same b.allocs a.allocs
  pub used : Same b.used a.used

IsRestored-of :
    (a : Allocator) (allocs : Dict Ip4) (used : Dict Str)
    → IsValid a
    → Same allocs a.allocs
    → Same used a.used
    → NodupKeys allocs
    → IsRestored a (record a { allocs = allocs; used = used; gateway = first_host_ip a.subnet })
IsRestored-of a allocs used v same_allocs same_used keys = record {
  valid = IsValid-Same a _ v refl same_allocs same_used keys;
  subnet = refl;
  gateway = refl;
  data_dir = refl;
  allocs = same_allocs;
  used = same_used;
}

nothing_held : (a : Allocator) → IsValid a → ((s : Str) → lookup s a.used ≡ none) → Same [] a.allocs
nothing_held a v free cid = elim (Option-cases (lookup cid a.allocs)) [
  | inl e ↦ sym e
  | inr (ip, held) ↦ cc (v.forward cid ip held, free (ip_string ip))
]

module _ (S : Store) (L : IsLawful S) (v6 : Inet6) where
  -- Where the disk is in step with a valid allocator and the data directory can be made, `New` for
  -- the same pod CIDR succeeds and holds the same allocations, whatever order the file has them in.
  pub new_restart :
      (a : Allocator) (d : S.Disk) (pod_cidr : Str)
      → IsValid a
      → InStep S L a d
      → parse_cidr v6 pod_cidr ≡ some a.subnet
      → (S.mkdir_all a.data_dir d).0 ≡ none
      → (b : Allocator) × (new S v6 pod_cidr a.data_dir d ≡ (ok b, (S.mkdir_all a.data_dir d).1))
        × IsRestored a b
  unfolding new load state_path
  new_restart a d pod_cidr v (inl (missing, free)) parsed made = (
    record a { allocs = []; used = []; gateway = first_host_ip a.subnet },
    ground (arith, L.read-mkdir_all a.data_dir (state_path a) d),
    IsRestored-of a [] [] v (nothing_held a v free) (λ s. sym (free s)) tt,
  )
  new_restart a d pod_cidr v (inr (b, m', r, u, nodup, same)) parsed made =
      let loaded = load_entries v6 a.subnet m' ([], []) in
      (
        record a { allocs = loaded.0; used = loaded.1; gateway = first_host_ip a.subnet },
        ground (arith, L.read-mkdir_all a.data_dir (state_path a) d),
        IsRestored-of a loaded.0 loaded.1 v (loaded_allocs v6 a v m' nodup same)
            (loaded_used v6 a v m' nodup same) (load_entries-NodupKeys v6 a.subnet m' ([], []) tt),
      )
