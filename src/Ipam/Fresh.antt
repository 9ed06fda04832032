-- ===== src/Ipam/Fresh.antt =====
-- `New` with no state file: the first start of the agent on a node.
use purenet.Base.{
  ℕ, ◌+◌, ◌-◌, ◌*◌, ◌/◌, ◌%◌, ◌^◌, ◌≤◌, ◌<◌, ◌≡◌, refl, ap, ◌∙◌, inl, none, [], Str, arith,
}
use native.Mathlib.Nat.{pow-suc}
use purenet.Base.{◌++◌, codes}
use purenet.Base.Bits.{pow_pos}
use purenet.Errors.{ok}
use purenet.Inet.{Ip4, IsBytes, Inet6, number4, of_number4, bytes4, byte_at, to4}
use purenet.Inet.Cidr.{
  network_number, network_of, network_number_fits, cidr_text, parse_cidr-cidr_text,
}
use purenet.Ipam.Store.{Store, IsLawful, not_exist}
use purenet.Ipam.Defs.{Allocator, state_path, first_host_ip, load, new}
use purenet.Ipam.Scan.{IsBlock}
use purenet.Ipam.Invariant.{IsValid}
use purenet.Ipam.Calls.{InStep}

number4-of_number4 : (n : ℕ) → n < 2 ^ 32 → number4 (of_number4 n) ≡ n
number4-of_number4 n h = omega arith

pub network_of-IsBlock : (a : Ip4) (n : ℕ) → IsBytes a → n ≤ 32 → IsBlock (network_of a n)
unfolding to4
network_of-IsBlock a n v h =
    let fits = network_number_fits a n v h in
    let pos = pow_pos (32 - n) in
    let number = number4-of_number4 (network_number a n) (omega arith) in
    record {
      base = of_number4 (network_number a n);
      is_v4 = refl;
      bytes = omega (arith, fits);
      few = omega arith;
      prefix = number4 a / 2 ^ (32 - n);
      aligned = number;
      fits = rw number fits;
    }

-- The gateway is the address after the network address, in every block of more than one address.
pub first_host_ip_lem :
    (a : Ip4) (n : ℕ)
    → IsBytes a
    → n ≤ 31
    → (g : Ip4) × (first_host_ip (network_of a n) ≡ bytes4 g) × (number4 g ≡ network_number a n + 1)
unfolding first_host_ip
first_host_ip_lem a n v h =
    let nn = network_number a n in
    let half = number4 a / 2 ^ (32 - n) * 2 ^ (31 - n) in
    let double : 2 ^ (32 - n) ≡ 2 ^ (31 - n) * 2 =
      ap (λ (t : ℕ). 2 ^ t) (omega arith) ∙ pow-suc 2 (31 - n) in
    let even : nn ≡ half * 2 = ap (λ (t : ℕ). number4 a / 2 ^ (32 - n) * t) double ∙ omega arith in
    let below = network_number_fits a n v (omega arith) in
    let pos = pow_pos (32 - n) in
    (
      record {
        b0 = byte_at nn 24;
        b1 = byte_at nn 16;
        b2 = byte_at nn 8;
        b3 = (byte_at nn 0 + 1) % 256;
      },
      refl,
      omega (arith, even, below, pos),
    )

-- The allocator of a block that holds nothing.
abbrev pub fresh_of : Ip4 → ℕ → Str → Allocator
fresh_of base n data_dir = record {
  subnet = network_of base n;
  gateway = first_host_ip (network_of base n);
  data_dir = data_dir;
  allocs = [];
  used = [];
}

pub fresh_of-IsValid :
    (base : Ip4) (n : ℕ) (data_dir : Str)
    → IsBytes base
    → n ≤ 32
    → IsValid (fresh_of base n data_dir)
fresh_of-IsValid base n data_dir v h = record {
  block = network_of-IsBlock base n v h;
  keys = tt;
  forward = λ cid ip e. cc;
  backward = λ s cid e. cc;
  hosts = λ cid ip e. cc;
}

module _ (S : Store) (L : IsLawful S) (v6 : Inet6) where
  -- `New` for the text of an IPv4 block, with a directory that can be made and no state file in it,
  -- gives a valid allocator that holds nothing, in step with the disk.
  pub new_fresh :
      (base : Ip4) (n : ℕ) (data_dir : Str) (d : S.Disk)
      → IsBytes base
      → n ≤ 32
      → (S.mkdir_all data_dir d).0 ≡ none
      → S.read_file (data_dir ++ codes "/allocations.cbor") d ≡ not_exist
      → let a = fresh_of base n data_dir in
        let d' = (S.mkdir_all data_dir d).1 in
        (new S v6 (cidr_text base n) data_dir d ≡ (ok a, d')) × IsValid a × InStep S L a d'
  unfolding new load state_path
  new_fresh base n data_dir d v h made missing =
      let gone = L.read-mkdir_all data_dir (data_dir ++ codes "/allocations.cbor") d ∙ missing in
      (
        ground (arith, parse_cidr-cidr_text v6 base n v h, gone),
        fresh_of-IsValid base n data_dir v h,
        inl (gone, λ s. refl),
      )
