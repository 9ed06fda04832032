-- ===== src/Agent/Server/Serving.antt =====
-- What the handlers answer, and what holds after any requests.
use purenet.Base.{◌≡◌, ◌≢◌, inl, inr, ap, ◌∙◌, none, some, List, [], ◌∷◌, Str, lookup, arith}
use purenet.Errors.{GoError, errorf, wrapf, Result, ok, err, Result-cases}
use purenet.Inet.{Ip4}
use purenet.Network.Kernel.{got, Reply-cases, Kernel}
use purenet.Cni.{
  CniRequest, CniResponse, as_error, error_response, error_code_check_interface_failure,
}
use purenet.Ipam.Store.{Store, IsLawful}
use purenet.Ipam.{check}
use purenet.Ipam.Invariant.{IsHost, IsValid, no_double_allocation}
use purenet.Agent.Server.Defs.{CniResult, Codecs}
use purenet.Agent.Server.Handlers.{
  World, cmd_add, cmd_del, cmd_check, handle_add, handle_del, handle_check,
}
use purenet.Agent.Server.Pods.{
  IsGood, cmd_add-IsGood, cmd_del-IsGood, cmd_check-IsGood, cmd_add_held, cmd_del_released,
}

-- A request by its method.
pub data Call : Type 0 where
  call_add call_del call_check : CniRequest → Call

module _ (K : Kernel) (S : Store) (C : Codecs) where
  unfoldable pub serve : Call → World K S → Result CniResponse × World K S
  unfolding handle_add handle_del handle_check
  serve (call_add req) = handle_add K S C req
  serve (call_del req) = handle_del K S C req
  serve (call_check req) = handle_check K S C req

  unfoldable pub serve_all : List Call → World K S → World K S
  unfolding serve
  serve_all [] w = w
  serve_all (c ∷ cs) w = serve_all cs (serve c w).1

  -- A handler leaves the world as the command does.
  pub handle_add_world :
      (req : CniRequest) (w : World K S) → (handle_add K S C req w).1 ≡ (cmd_add K S C req w).1
  unfolding handle_add
  handle_add_world req w = elim (Result-cases (cmd_add K S C req w).0) [
    | inr (e, h) ↦ ground (arith, h)
    | inl (r, h) ↦ ground (arith, h, Reply-cases (C.print_to r))
  ]

  pub handle_del_world :
      (req : CniRequest) (w : World K S) → (handle_del K S C req w).1 ≡ (cmd_del K S req w).1
  unfolding handle_del
  handle_del_world req w = ground (arith, Result-cases (cmd_del K S req w).0)

  pub handle_check_world :
      (req : CniRequest) (w : World K S) → (handle_check K S C req w).1 ≡ (cmd_check K S req w).1
  unfolding handle_check
  handle_check_world req w = ground (arith, Result-cases (cmd_check K S req w).0)

  -- On a valid allocator, an answer of `CmdAdd` without an error code says that the container holds
  -- an address, and has the bytes of the result of `cmdAdd`.
  pub handle_add_ok :
      (L : IsLawful S) (req : CniRequest) (resp : CniResponse) (w : World K S)
      → IsValid w.alloc
      → (handle_add K S C req w).0 ≡ ok resp
      → as_error resp ≡ none
      → (result : CniResult) × (ip : Ip4) × ((cmd_add K S C req w).0 ≡ ok result)
        × (C.print_to result ≡ got resp.result)
        × (lookup req.container_id (handle_add K S C req w).1.alloc.allocs ≡ some ip)
  unfolding handle_add as_error error_response
  handle_add_ok L req resp w v answered fine = elim (Result-cases (cmd_add K S C req w).0) [
    | inr (e, h) ↦ ground (arith, h)
    | inl (result, h) ↦
        let (ip, pod, held, p, version) = cmd_add_held K S L C req result w v h in
        (
          result,
          ip,
          h,
          ground (arith, h, Reply-cases (C.print_to result)),
          ap (λ (t : World K S). lookup req.container_id t.alloc.allocs) (handle_add_world req w)
              ∙ held,
        )
  ]

  handle_del_ok :
      (req : CniRequest) (resp : CniResponse) (w : World K S)
      → (handle_del K S C req w).0 ≡ ok resp
      → as_error resp ≡ none
      → (cmd_del K S req w).0 ≡ ok tt
  unfolding handle_del as_error error_response
  handle_del_ok req resp w answered fine = elim (Result-cases (cmd_del K S req w).0) [
    | inr (e, h) ↦ ground (arith, h)
    | inl (u, h) ↦ h
  ]

  handle_check_unknown :
      (req : CniRequest) (w : World K S)
      → lookup req.container_id w.alloc.allocs ≡ none
      → (later : CniResponse) × ((handle_check K S C req w).0 ≡ ok later) × (as_error later ≢ none)
  unfolding handle_check cmd_check check as_error error_response
  handle_check_unknown req w unknown =
      let (e, h) = checked in
      (
        error_response C.error_text error_code_check_interface_failure (some e),
        ground (arith, h),
        λ h'. ground arith,
      )
    where
      checked : (e : GoError) × ((cmd_check K S req w).0 ≡ err e)
      checked = (
        wrapf "IPAM check failed" []
            (errorf "no allocation for container %s" (req.container_id ∷ [])),
        ground (arith, unknown),
      )

  -- On a valid allocator, a `CmdDel` that answers without an error code has released the address of
  -- the container, and a `CmdCheck` of the container right after it answers with an error code.
  pub handle_del_check :
      (L : IsLawful S) (req : CniRequest) (resp : CniResponse) (w : World K S)
      → IsValid w.alloc
      → (handle_del K S C req w).0 ≡ ok resp
      → as_error resp ≡ none
      → let w' = (handle_del K S C req w).1 in
        (lookup req.container_id w'.alloc.allocs ≡ none)
        × (later : CniResponse) × ((handle_check K S C req w').0 ≡ ok later)
        × (as_error later ≢ none)
  handle_del_check L req resp w v answered fine =
      let done = handle_del_ok req resp w answered fine in
      let gone =
        ap (λ (t : World K S). lookup req.container_id t.alloc.allocs) (handle_del_world req w)
        ∙ (cmd_del_released K S L req w v done).0 in
      let (later, answer, failed) = handle_check_unknown req (handle_del K S C req w).1 gone in
      (gone, later, answer, failed)

  module _ (L : IsLawful S) where
    serve-IsGood : (c : Call) (w : World K S) → IsGood K S L w → IsGood K S L (serve c w).1
    unfolding serve
    serve-IsGood (call_add req) w good =
        rw (handle_add_world req w) (cmd_add-IsGood K S L C req w good)
    serve-IsGood (call_del req) w good =
        rw (handle_del_world req w) (cmd_del-IsGood K S L req w good)
    serve-IsGood (call_check req) w good =
        rw (handle_check_world req w) (cmd_check-IsGood K S L req w good)

    serve_all-IsGood :
        (cs : List Call) (w : World K S) → IsGood K S L w → IsGood K S L (serve_all cs w)
    unfolding serve_all
    serve_all-IsGood [] w good = good
    serve_all-IsGood (c ∷ cs) w good = serve_all-IsGood cs (serve c w).1 (serve-IsGood c w good)

    -- From a valid allocator in step with the disk, after any requests, whatever the kernel and the
    -- disk answer on the way, no two containers hold one address, each address held is a host
    -- address of the pod CIDR, and the state file has what the memory has.
    pub serve_all_safe :
        (cs : List Call) (w : World K S)
        → IsGood K S L w
        → let w' = serve_all cs w in
          IsGood K S L w'
          × ((c e : Str) (ip : Ip4)
              → lookup c w'.alloc.allocs ≡ some ip
              → lookup e w'.alloc.allocs ≡ some ip
              → c ≡ e)
          × ((c : Str) (ip : Ip4) → lookup c w'.alloc.allocs ≡ some ip → IsHost w'.alloc.subnet ip)
    serve_all_safe cs w good =
        let kept = serve_all-IsGood cs w good in
        (
          kept,
          λ c e ip p q. no_double_allocation (serve_all cs w).alloc c e ip kept.0 p q,
          kept.0.hosts,
        )
