-- ===== src/Agent/Main/Served.antt =====
-- From the start of the agent to any requests that it serves.
use purenet.Base.{◌≡◌, ◌≢◌, inl, inr, ap, subst, some, List, Str, lookup, arith}
use purenet.Errors.{ok}
use purenet.Inet.{Ip4, Inet6, parse_cidr}
use purenet.Network.Kernel.{Kernel}
use purenet.Ipam.Store.{Store, IsLawful, Decoded}
use purenet.Ipam.{Allocator, state_path, new}
use purenet.Ipam.Invariant.{IsValid}
use purenet.Ipam.Calls.{InStep, InStep-read, IsSound}
use purenet.Ipam.Restart.{IsRestored, new_restart}
use purenet.Ipam.Run.{made_of_new, restarted-IsSound}
use purenet.Nodesync.Conf.{CniConf}
use purenet.Nodesync.Start.{own_pod_cidr}
use purenet.Agent.Server.{World, Codecs}
use purenet.Agent.Server.Pods.{IsGood}
use purenet.Agent.Server.Serving.{Call, serve_all, serve_all_safe}
use purenet.Agent.Main.Defs.{cni_conf_path, ipam_data_dir, Options, Environment, Process, start_up}
use purenet.Agent.Main.Joined.{conf_tmp, IsServing}
use purenet.Agent.Main.Order.{start_up_cases}

state_path-ne :
    (a : Allocator)
    → a.data_dir ≡ ipam_data_dir
    → (state_path a ≢ cni_conf_path) × (state_path a ≢ conf_tmp)
unfolding state_path
state_path-ne a e = ((λ q. ground (arith, e, q)), (λ q. ground (arith, e, q)))

module _ (K : Kernel) (S : Store) (L : IsLawful S) (six : Inet6)
    (marshal : CniConf → Decoded S.Data) where
  module _ (E : Environment) (p : Process K S six marshal) (own : Str) (a : Allocator) where
    serving-IsRestored :
        (p' : Process K S six marshal)
        → IsServing K S six marshal E p p'
        → own_pod_cidr E.informer E.node_name ≡ ok own
        → parse_cidr six own ≡ some a.subnet
        → a.data_dir ≡ ipam_data_dir
        → IsValid a
        → InStep S L a p.disk
        → (b : Allocator) × (p'.serving ≡ some b) × IsRestored a b × IsSound S L (b, p'.disk)
    serving-IsRestored p' s known parsed dir v i =
        let (nc, nt) = state_path-ne a dir in
        let same : s.own ≡ own = ground (arith, s.known, known) in
        let made : new S six own a.data_dir s.found ≡ (ok s.alloc, s.left) =
          ground (arith, s.made, same, dir) in
        let made_ok : (new S six own a.data_dir s.found).0 ≡ ok s.alloc = ap (λ t. t.0) made in
        let in_step : InStep S L a s.found =
          InStep-read S L a p.disk s.found (s.before (state_path a) nc nt) i in
        let sound : IsSound S L (s.alloc, s.left) =
          subst (λ (d : S.Disk). IsSound S L (s.alloc, d)) (ap (λ t. t.1) made)
            (restarted-IsSound S L six own a s.alloc s.found parsed made_ok v in_step) in
        let (b, again, restored) =
          new_restart S L six a s.found own v in_step parsed
            (made_of_new S L six own a s.alloc s.found parsed made_ok) in
        let one : b ≡ s.alloc = ground (arith, again, made_ok) in
        (
          s.alloc,
          s.served,
          subst (IsRestored a) one restored,
          (sound.0, InStep-read S L s.alloc s.left p'.disk (s.after (state_path s.alloc)) sound.1),
        )

    -- Where the state file is in step with a valid allocator of the own node's pod CIDR, or is not
    -- there and the allocator holds nothing, and `run` gets to the wait for a signal: the server
    -- has the allocations of that allocator again, and after any requests that it then serves,
    -- whatever the kernel has become meanwhile, no two containers hold one address and the state
    -- file has what the memory has.
    pub start_up-serves_safely :
        (opts : Options) (C : Codecs)
        → own_pod_cidr E.informer E.node_name ≡ ok own
        → parse_cidr six own ≡ some a.subnet
        → a.data_dir ≡ ipam_data_dir
        → IsValid a
        → InStep S L a p.disk
        → (start_up K S six marshal E opts p).0 ≡ ok tt
        → let p' = (start_up K S six marshal E opts p).1 in
          (b : Allocator) × (p'.serving ≡ some b)
          × IsRestored a b
          × ((cs : List Call) (k : K.State)
              → let w = serve_all K S C cs (record { kernel = k; alloc = b; disk = p'.disk }) in
                IsGood K S L w
                × ((c e : Str) (ip : Ip4)
                    → lookup c w.alloc.allocs ≡ some ip
                    → lookup e w.alloc.allocs ≡ some ip
                    → c ≡ e))
    start_up-serves_safely opts C known parsed dir v i done =
        elim (start_up_cases K S six marshal L E opts p) [
          | inr (bad, s) ↦ absurd (bad done)
          | inl (fine, s) ↦
              let p' = (start_up K S six marshal E opts p).1 in
              let (b, served, restored, sound) = serving-IsRestored p' s known parsed dir v i in
              (
                b,
                served,
                restored,
                λ cs k.
                    let w : World K S = record { kernel = k; alloc = b; disk = p'.disk } in
                    let (good, apart, hosts) = serve_all_safe K S C L cs w sound in (good, apart),
              )
        ]
