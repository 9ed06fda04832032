-- ===== src/Cni/Outcome.antt =====
-- What the container runtime learns from the client.
use purenet.Base.{
  ℕ, ◌≡◌, ◌↔◌, ◌⊎◌, inl, inr, refl, sym, subst, Option, none, some, [], ◌∷◌, ◌++◌, Str, codes, ◌==◌,
  Bool-cases, arith, Option-cases,
}
use purenet.Errors.{GoError, external, wrapf}
use purenet.Cni.Rpc.{CniRequest, CniResponse, error_response, as_error, error_code_try_again_later}
use purenet.Cni.Client.{
  StatusCode, unimplemented, unavailable, deadline_exceeded, other_code, RpcError, Reply, responded,
  broken, Transport, method_add, method_del, method_check, client_cmd_del, client_cmd_check,
}
use purenet.Cni.Shim.{
  ShimError, cni_error, plain, default_socket_path, CmdArgs, rpc_error, build_request, dial,
  forward, cmd_add, cmd_del, cmd_check, plugin_funcs,
}

-- A response of `ErrorResponse` is an error for the client exactly where its code is not 0.
pub as_error-error_response :
    (text : GoError → Str) (code : ℕ) (e : Option GoError)
    → (as_error (error_response text code e) ≡ none → code ≡ 0)
      × (code ≡ 0 → as_error (error_response text code e) ≡ none)
unfolding as_error error_response
as_error-error_response text code e =
    ((λ h. ground (arith, Bool-cases (code == 0))), (λ h. ground (arith, h)))

-- The agent was not available, or the deadline passed.
abbrev pub IsTransient : Reply → Type 0
IsTransient r =
    (e : RpcError) × (r ≡ broken e) × ((e.code ≡ unavailable) ⊎ (e.code ≡ deadline_exceeded))

-- The runtime is told to try again later.
abbrev pub IsTryAgain : Option ShimError → Type 0
IsTryAgain o = (m : Str) × (d : Str) × (o ≡ some (cni_error error_code_try_again_later m d))

rpc_error_lem : (e : RpcError) → IsTryAgain (some (rpc_error e)) ↔ IsTransient (broken e)
unfolding rpc_error
rpc_error_lem e = go e.code refl
  where
    go : (c : StatusCode) → e.code ≡ c → IsTryAgain (some (rpc_error e)) ↔ IsTransient (broken e)
    go unimplemented h = (λ (m, d, q). ground (arith, h, q), λ (e', q, w). ground (arith, h, q, w))
    go unavailable h = (λ _. (e, refl, inl h), λ _. (e.text, [], ground (arith, h)))
    go deadline_exceeded h = (λ _. (e, refl, inr h), λ _. (e.text, [], ground (arith, h)))
    go other_code h = (λ (m, d, q). ground (arith, h, q), λ (e', q, w). ground (arith, h, q, w))

-- A command of the client, whose outcome is `o`, dials with the outcome `c` and gets the reply `r`.
module _ (o : Option ShimError) where
  forwarded-IsTryAgain :
      (c : Option Str) (r : Reply)
      → ((e : Str) → c ≡ some e → (x : GoError) × (o ≡ some (plain x)))
      → (c ≡ none → (e : RpcError) → r ≡ broken e → o ≡ some (rpc_error e))
      → (c ≡ none
          → (resp : CniResponse) → r ≡ responded resp
          → (o ≡ none) ⊎ ((x : GoError) × (o ≡ some (plain x))))
      → IsTryAgain o ↔ ((c ≡ none) × IsTransient r)
  forwarded-IsTryAgain (some e) r undialed _ _ =
      let (x, p) = undialed e refl in (λ (m, d, q). cc, λ (q, w). cc)
  forwarded-IsTryAgain none (broken e) _ lost _ =
      let p = lost refl e refl in
      (
        λ told. (refl, (rpc_error_lem e).0 (subst IsTryAgain p told)),
        λ (q, w). subst IsTryAgain (sym p) ((rpc_error_lem e).1 w),
      )
  forwarded-IsTryAgain none (responded resp) _ _ answered = elim (answered refl resp refl) [
    | inl p ↦ (λ (m, d, q). cc, λ (q, (e, w, t)). cc)
    | inr (x, p) ↦ (λ (m, d, q). cc, λ (q, (e, w, t)). cc)
  ]

module _ (T : Transport) where
  -- The client's ADD succeeds only if the agent answered the request that the runtime's arguments
  -- make with the code 0, and then what it writes is the answer's result.
  pub cmd_add_ok :
      (args : CmdArgs) (s : T.State)
      → (cmd_add T args s).0 ≡ none
      → (resp : CniResponse) × ((T.invoke method_add (build_request args) s).0 ≡ responded resp)
        × (resp.error_code ≡ 0)
        × ((T.write_stdout resp.result (T.invoke method_add (build_request args) s).1).0 ≡ none)
        × ((cmd_add T args s).1
            ≡ (T.write_stdout resp.result (T.invoke method_add (build_request args) s).1).1)
  unfolding cmd_add
  cmd_add_ok args s done = elim (Option-cases (dial T s)) [
    | inr (e, h) ↦ ground (arith, h)
    | inl dialed ↦ go (T.invoke method_add (build_request args) s).0 refl dialed
  ]
    where
      go :
          (r : Reply)
          → (T.invoke method_add (build_request args) s).0 ≡ r
          → dial T s ≡ none
          → (resp : CniResponse) × ((T.invoke method_add (build_request args) s).0 ≡ responded resp)
            × (resp.error_code ≡ 0)
            × ((T.write_stdout resp.result (T.invoke method_add (build_request args) s).1).0 ≡ none)
            × ((cmd_add T args s).1
                ≡ (T.write_stdout resp.result (T.invoke method_add (build_request args) s).1).1)
      go (broken e) h dialed = ground (arith, h)
      go (responded resp) h dialed =
          let s1 = (T.invoke method_add (build_request args) s).1 in
          (
            resp,
            h,
            ground (arith, Bool-cases (resp.error_code == 0)),
            ground (
              arith,
              Bool-cases (resp.error_code == 0),
              Option-cases (T.write_stdout resp.result s1).0,
            ),
            ground (
              arith,
              Bool-cases (resp.error_code == 0),
              Option-cases (T.write_stdout resp.result s1).0,
            ),
          )

  -- The client's DEL succeeds only if the agent answered the request with the code 0.
  pub cmd_del_ok :
      (args : CmdArgs) (s : T.State)
      → (cmd_del T args s).0 ≡ none
      → (resp : CniResponse) × ((T.invoke method_del (build_request args) s).0 ≡ responded resp)
        × (resp.error_code ≡ 0)
        × ((cmd_del T args s).1 ≡ (T.invoke method_del (build_request args) s).1)
  unfolding cmd_del
  cmd_del_ok args s done = elim (Option-cases (dial T s)) [
    | inr (e, h) ↦ ground (arith, h)
    | inl dialed ↦ go (T.invoke method_del (build_request args) s).0 refl dialed
  ]
    where
      go :
          (r : Reply)
          → (T.invoke method_del (build_request args) s).0 ≡ r
          → dial T s ≡ none
          → (resp : CniResponse) × ((T.invoke method_del (build_request args) s).0 ≡ responded resp)
            × (resp.error_code ≡ 0)
            × ((cmd_del T args s).1 ≡ (T.invoke method_del (build_request args) s).1)
      go (broken e) h dialed = ground (arith, h)
      go (responded resp) h dialed = (
        resp,
        h,
        ground (arith, Bool-cases (resp.error_code == 0)),
        ground (arith, Bool-cases (resp.error_code == 0)),
      )

  -- The socket could be dialled, and the call by this method broke for a reason that passes.
  abbrev pub IsBusy : Str → CmdArgs → T.State → Type 0
  IsBusy method args s =
      (T.new_client (codes "unix://" ++ default_socket_path) s ≡ none)
      × IsTransient (T.invoke method (build_request args) s).0

  abbrev undialed : Str → GoError
  undialed e =
      wrapf "failed to connect to purenet agent at %s" (default_socket_path ∷ []) (external e)

  cmd_add-IsTryAgain :
      (args : CmdArgs) (s : T.State) → IsTryAgain (cmd_add T args s).0 ↔ IsBusy method_add args s
  unfolding cmd_add
  cmd_add-IsTryAgain args s =
      forwarded-IsTryAgain (cmd_add T args s).0
        (T.new_client (codes "unix://" ++ default_socket_path) s)
        (T.invoke method_add (build_request args) s).0 (λ e h. (undialed e, ground (arith, h)))
        (λ h e q. ground (arith, h, q))
        (λ h resp q. elim (Option-cases (as_error resp)) [
          | inr (x, w) ↦ inr (x, ground (arith, h, q, w))
          | inl w ↦
              let s1 = (T.invoke method_add (build_request args) s).1 in
              elim (Option-cases (T.write_stdout resp.result s1).0) [
                | inl z ↦ inl (ground (arith, h, q, w, z))
                | inr (e, z) ↦ inr (external e, ground (arith, h, q, w, z))
              ]
        ])

  forward-IsTryAgain :
      (call : CniRequest → T.State → Reply × T.State) (args : CmdArgs) (s : T.State)
      → IsTryAgain (forward T call args s).0 ↔ (
          (T.new_client (codes "unix://" ++ default_socket_path) s ≡ none)
          × IsTransient (call (build_request args) s).0)
  forward-IsTryAgain call args s =
      forwarded-IsTryAgain (forward T call args s).0
        (T.new_client (codes "unix://" ++ default_socket_path) s) (call (build_request args) s).0
        (λ e h. (undialed e, ground (arith, h))) (λ h e q. ground (arith, h, q))
        (λ h resp q. elim (Option-cases (as_error resp)) [
          | inr (x, w) ↦ inr (x, ground (arith, h, q, w))
          | inl w ↦ inl (ground (arith, h, q, w))
        ])

  -- Each of the client's three commands tells the runtime to try again later exactly where the
  -- socket could be dialled and the call by the command's method failed because the agent was not
  -- available or the deadline passed.
  pub plugin_funcs-IsTryAgain :
      (args : CmdArgs) (s : T.State)
      → (IsTryAgain ((plugin_funcs T).add args s).0 ↔ IsBusy method_add args s)
        × (IsTryAgain ((plugin_funcs T).del args s).0 ↔ IsBusy method_del args s)
        × (IsTryAgain ((plugin_funcs T).check args s).0 ↔ IsBusy method_check args s)
  unfolding cmd_del cmd_check
  plugin_funcs-IsTryAgain args s = (
    cmd_add-IsTryAgain args s,
    forward-IsTryAgain (client_cmd_del T) args s,
    forward-IsTryAgain (client_cmd_check T) args s,
  )
