-- ===== src/Agent/Service.antt =====
-- The agent's server behind its socket: pkg/agent/server.go registered with grpc, and the client of
-- cmd/purenet/main.go at the other end.
mod Tests
use purenet.Base.{
  ◌≡◌, ◌∙◌, ◌⊎◌, inl, inr, refl, sym, ap, subst, none, some, Str, str_dec, lookup, arith,
  Bool-cases,
}
use purenet.Errors.{GoError, Result, ok, err, Result-cases}
use purenet.Inet.{Ip4}
use purenet.Network.Kernel.{got, Kernel}
use purenet.Cni.{CniRequest, CniResponse, as_error}
use purenet.Cni.Client.{
  other_code, RpcError, Reply, responded, broken, Transport, method_add, method_del,
}
use purenet.Cni.Service.{
  Answer, answer, status_error, plain_error, request, CniBackendServer, Handler, Registration,
  register_cni_backend_server, find_method, service_desc, cmd_add_handler, cmd_del_handler,
  cmd_check_handler,
}
use purenet.Cni.Shim
use purenet.Cni.Shim.{CmdArgs, build_request}
use purenet.Cni.Outcome.{cmd_add_ok, cmd_del_ok}
use purenet.Ipam.Store.{Store, IsLawful}
use purenet.Ipam.Invariant.{IsValid}
use purenet.Agent.Server.{CniResult, Codecs, World, cmd_add, handle_add, handle_del, handle_check}
use purenet.Agent.Server.Serving.{handle_add_ok, handle_del_check}

abbrev pub answer_of : {W : Type 0} → Result CniResponse × W → Answer × W
answer_of (r, w) = elim r [ ok resp ↦ (answer resp, w) | err e ↦ (plain_error e, w) ]

-- What the client gets for an answer of the server.
abbrev pub reply_of : (GoError → Str) → Answer → Reply
reply_of text a = elim a [
  | answer resp ↦ responded resp
  | status_error code t ↦ broken (record { code = code; text = t })
  | plain_error e ↦ broken (record { code = other_code; text = text e })
]

module _ (K : Kernel) (S : Store) (C : Codecs) where
  -- `agent.NewServer(alloc)` as the implementation of the service.
  unfoldable pub agent_server : CniBackendServer (World K S)
  agent_server = record {
    cmd_add = λ req w. answer_of (handle_add K S C req w);
    cmd_del = λ req w. answer_of (handle_del K S C req w);
    cmd_check = λ req w. answer_of (handle_check K S C req w);
  }

  -- What is relied on of grpc and the socket: a call either breaks, or is answered by the handler
  -- that is registered for its full name, to which the request arrives as it was sent. Writing to
  -- the output does not touch the agent.
  pub record IsServedBy (T : Transport) (R : Registration (World K S)) (world : T.State → World K S)
      : Type 0 where
    pub carried :
        (path : Str) (h : Handler (World K S)) (req : CniRequest) (s : T.State)
        → find_method (World K S) path R.desc.service_name R.desc.methods ≡ some h
        → let call = h R.server (request req) none (world s) in
          let got_back = T.invoke path req s in
          ((e : RpcError) × (got_back.0 ≡ broken e))
          ⊎ ((got_back.0 ≡ reply_of C.error_text call.0) × (world got_back.1 ≡ call.1))
    pub silent : (text : Str) (s : T.State) → world (T.write_stdout text s).1 ≡ world s

  abbrev pub registered : Registration (World K S)
  registered = register_cni_backend_server (World K S) agent_server

  module _ (T : Transport) (world : T.State → World K S)
      (served : IsServedBy T registered world) where
    answered_add :
        (req : CniRequest) (resp : CniResponse) (s : T.State)
        → (T.invoke method_add req s).0 ≡ responded resp
        → ((handle_add K S C req (world s)).0 ≡ ok resp)
          × (world (T.invoke method_add req s).1 ≡ (handle_add K S C req (world s)).1)
    unfolding agent_server register_cni_backend_server service_desc cmd_add_handler find_method
        str_dec
    answered_add req resp s back =
        elim (served.carried method_add (cmd_add_handler (World K S)) req s refl) [
          | inl (e, broke) ↦ cc (broke, back)
          | inr (same, after) ↦
              ground (arith, same, after, back, Result-cases (handle_add K S C req (world s)).0)
        ]

    answered_del :
        (req : CniRequest) (resp : CniResponse) (s : T.State)
        → (T.invoke method_del req s).0 ≡ responded resp
        → ((handle_del K S C req (world s)).0 ≡ ok resp)
          × (world (T.invoke method_del req s).1 ≡ (handle_del K S C req (world s)).1)
    unfolding agent_server register_cni_backend_server service_desc cmd_del_handler find_method
        str_dec
    answered_del req resp s back =
        elim (served.carried method_del (cmd_del_handler (World K S)) req s refl) [
          | inl (e, broke) ↦ cc (broke, back)
          | inr (same, after) ↦
              ground (arith, same, after, back, Result-cases (handle_del K S C req (world s)).0)
        ]

    no_error : (resp : CniResponse) → resp.error_code ≡ 0 → as_error resp ≡ none
    unfolding as_error
    no_error resp zero = ground (arith, zero)

    module _ (L : IsLawful S) where
      -- Where the agent has a valid allocator and the client's ADD succeeds, the agent's `cmdAdd`
      -- for the runtime's arguments made a result, the container holds an address in the agent,
      -- and what the client wrote is the result's text.
      pub shim_add-held :
          (args : CmdArgs) (s : T.State)
          → IsValid (world s).alloc
          → (Shim.cmd_add T args s).0 ≡ none
          → let s' = (Shim.cmd_add T args s).1 in
            (result : CniResult) × (text : Str) × (ip : Ip4) × ((cmd_add K S C
                (build_request args)
                (world s)).0
              ≡ ok result)
            × (C.print_to result ≡ got text)
            × (T.write_stdout text (T.invoke method_add (build_request args) s).1 ≡ (none, s'))
            × (lookup args.container_id (world s').alloc.allocs ≡ some ip)
      unfolding build_request
      shim_add-held args s v done =
          let req = build_request args in
          let (resp, back, zero, written, last) = cmd_add_ok T args s done in
          let (handled, after) = answered_add req resp s back in
          let (result, ip, made, printed, held) =
            handle_add_ok K S C L req resp (world s) v handled (no_error resp zero) in
          let t = (T.invoke method_add req s).1 in
          let same : world (Shim.cmd_add T args s).1 ≡ (handle_add K S C req (world s)).1 =
            ap world last ∙ served.silent resp.result t ∙ after in
          (
            result,
            resp.result,
            ip,
            made,
            printed,
            ground (arith, written, last),
            ap (λ (w : World K S). lookup args.container_id w.alloc.allocs) same ∙ held,
          )

      -- Where the agent has a valid allocator and the client's DEL succeeds, the container holds
      -- no address in the agent any more.
      pub shim_del-released :
          (args : CmdArgs) (s : T.State)
          → IsValid (world s).alloc
          → (Shim.cmd_del T args s).0 ≡ none
          → lookup args.container_id (world (Shim.cmd_del T args s).1).alloc.allocs ≡ none
      unfolding build_request
      shim_del-released args s v done =
          let req = build_request args in
          let (resp, back, zero, last) = cmd_del_ok T args s done in
          let (handled, after) = answered_del req resp s back in
          let gone =
            (handle_del_check K S C L req resp (world s) v handled (no_error resp zero)).0 in
          let same : world (Shim.cmd_del T args s).1 ≡ (handle_del K S C req (world s)).1 =
            ap world last ∙ after in
          ap (λ (w : World K S). lookup args.container_id w.alloc.allocs) same ∙ gone
