-- ===== src/Cni/Shim.antt =====
-- cmd/purenet/main.go: the client that the container runtime starts for each event of a pod.
use purenet.Base.{ℕ, Option, none, some, [], ◌∷◌, ◌++◌, Str, codes}
use purenet.Errors.{GoError, external, wrapf}
use purenet.Cni.Rpc.{
  CniRequest, as_error, error_code_try_again_later, error_code_unknown_rpc_error,
  error_code_incompatible_api_version,
}
use purenet.Cni.Client.{
  unimplemented, unavailable, deadline_exceeded, other_code, RpcError, Reply, responded, broken,
  Transport, client_cmd_add, client_cmd_del, client_cmd_check,
}

-- An error of the client: a `types.Error` of the CNI library, or any other.
pub data ShimError : Type 0 where
  cni_error : ℕ → Str → Str → ShimError
  plain : GoError → ShimError

-- `skel.CmdArgs`
pub record CmdArgs : Type 0 where
  pub container_id : Str
  pub netns : Str
  pub if_name : Str
  pub args : Str
  pub path : Str
  pub stdin_data : Str

abbrev pub default_socket_path : Str
default_socket_path = codes "/var/run/purenet/cni.sock"

unfoldable pub rpc_error : RpcError → ShimError
rpc_error e = elim e.code [
  | unimplemented ↦
      cni_error error_code_incompatible_api_version
        (codes "incompatible API version between purenet shim and agent") e.text
  | unavailable ↦ cni_error error_code_try_again_later e.text []
  | deadline_exceeded ↦ cni_error error_code_try_again_later e.text []
  | other_code ↦ cni_error error_code_unknown_rpc_error e.text []
]

unfoldable pub build_request : CmdArgs → CniRequest
build_request args = record {
  container_id = args.container_id;
  netns = args.netns;
  if_name = args.if_name;
  args = args.args;
  path = args.path;
  config = args.stdin_data;
}

module _ (T : Transport) where
  open T use {State, new_client, write_stdout}

  abbrev pub dial : State → Option ShimError
  dial s = elim (new_client (codes "unix://" ++ default_socket_path) s) [
    | none ↦ none
    | some e ↦ some (
        plain (
          wrapf "failed to connect to purenet agent at %s" (default_socket_path ∷ []) (external e)))
  ]

  unfoldable pub cmd_add : CmdArgs → State → Option ShimError × State
  unfolding rpc_error as_error build_request
  cmd_add args s = elim (dial s) [
    | some e ↦ (some e, s)
    | none ↦
        let (r, s1) = client_cmd_add T (build_request args) s in
        elim r [
          | broken e ↦ (some (rpc_error e), s1)
          | responded resp ↦ elim (as_error resp) [
            | some e ↦ (some (plain e), s1)
            | none ↦
                let (w, s2) = write_stdout resp.result s1 in
                elim w [ none ↦ (none, s2) | some e ↦ (some (plain (external e)), s2) ]
          ]
        ]
  ]

  -- What `cmdDel` and `cmdCheck` both do.
  abbrev pub forward :
      (CniRequest → State → Reply × State) → CmdArgs → State → Option ShimError × State
  forward call args s = elim (dial s) [
    | some e ↦ (some e, s)
    | none ↦
        let (r, s1) = call (build_request args) s in
        elim r [
          | broken e ↦ (some (rpc_error e), s1)
          | responded resp ↦ elim (as_error resp) [
            | some e ↦ (some (plain e), s1)
            | none ↦ (none, s1)
          ]
        ]
  ]

  unfoldable pub cmd_del : CmdArgs → State → Option ShimError × State
  unfolding rpc_error as_error build_request
  cmd_del = forward (client_cmd_del T)

  unfoldable pub cmd_check : CmdArgs → State → Option ShimError × State
  unfolding rpc_error as_error build_request
  cmd_check = forward (client_cmd_check T)

  -- `skel.CNIFuncs`, and what `main` gives to `skel.PluginMainFuncs`.
  pub record CniFuncs : Type 0 where
    pub add : CmdArgs → State → Option ShimError × State
    pub del : CmdArgs → State → Option ShimError × State
    pub check : CmdArgs → State → Option ShimError × State

  abbrev pub plugin_funcs : CniFuncs
  plugin_funcs = record { add = cmd_add; del = cmd_del; check = cmd_check }
