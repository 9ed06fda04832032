-- ===== src/Agent/Server/Handlers.antt =====
-- `cmdAdd`, `cmdDel` and `cmdCheck`, and the handlers around them.
use purenet.Base.{none, some, [], ◌∷◌}
use purenet.Errors.{external, wrapf, ok, err}
use purenet.Network.Kernel.{got, refused, Kernel}
use purenet.Network.Action.{Action, query, ◌>>=◌}
use purenet.Network.Veth.{delete_veth}
use purenet.Cni.{
  CniRequest, CniResponse, error_response, error_code_config_interface_failure,
  error_code_check_interface_failure,
}
use purenet.Ipam.Store.{Store}
use purenet.Ipam.{Allocator, add, del, check}
use purenet.Agent.Server.Defs.{Pod, CniResult, Codecs, prepare, result_of, attach, check_link}

module _ (K : Kernel) (S : Store) where
  -- The kernel, and the server's allocator with its disk.
  pub record World : Type 0 where
    pub kernel : K.State
    pub alloc : Allocator
    pub disk : S.Disk

  abbrev pub on_kernel : {A : Type 0} → Action K.State A → Action World A
  on_kernel act w = let (r, k) = act w.kernel in (r, record w { kernel = k })

  unfoldable pub allocate_and_attach : Codecs → CniRequest → Pod → Action World CniResult
  allocate_and_attach C req pod w =
      let (r, a, d) = add S req.container_id w.alloc w.disk in
      let w' = record w { alloc = a; disk = d } in
      elim r [
        | err e ↦ (err (wrapf "IPAM add failed" [] e), w')
        | ok (pod_ip, gw) ↦ on_kernel (attach K C req pod (result_of pod a.subnet pod_ip gw)) w'
      ]

  unfoldable pub cmd_add : Codecs → CniRequest → Action World CniResult
  unfolding allocate_and_attach
  cmd_add C req = do pod ← on_kernel (prepare K C req); allocate_and_attach C req pod

  unfoldable pub cmd_del : CniRequest → Action World (Unit {0})
  cmd_del req w =
      let (e, a, d) = del S req.container_id w.alloc w.disk in
      let w' = record w { alloc = a; disk = d } in
      elim e [
        | some e ↦ (err (wrapf "IPAM delete failed" [] e), w')
        | none ↦ elim req.netns [
          | [] ↦ (ok tt, w')
          | c ∷ netns ↦ elim (K.get_ns (c ∷ netns) w'.kernel) [
            | refused e ↦ (ok tt, w')
            | got ns ↦ on_kernel (K.ns_do ns (delete_veth K req.if_name)) w'
          ]
        ]
      ]

  unfoldable pub cmd_check : CniRequest → Action World (Unit {0})
  cmd_check req w = elim (check req.container_id w.alloc) [
    | err e ↦ (err (wrapf "IPAM check failed" [] e), w)
    | ok ip ↦
        on_kernel
          (do
            ns ← query (K.get_ns req.netns) "failed to open netns %q" (req.netns ∷ [])
            K.ns_do ns (check_link K req))
          w
  ]

  -- A handler's response, or an error of grpc.
  unfoldable pub handle_add : Codecs → CniRequest → Action World CniResponse
  unfolding cmd_add
  handle_add C req w =
      let (r, w') = cmd_add C req w in
      elim r [
        | err e ↦
            (ok (error_response C.error_text error_code_config_interface_failure (some e)), w')
        | ok result ↦ elim (C.print_to result) [
          | refused e ↦ (err (wrapf "failed to serialise CNI result" [] (external e)), w')
          | got bytes ↦ (ok (record { error_code = 0; error_message = []; result = bytes }), w')
        ]
      ]

  abbrev pub empty_response : CniResponse
  empty_response = record { error_code = 0; error_message = []; result = [] }

  unfoldable pub handle_del : Codecs → CniRequest → Action World CniResponse
  unfolding cmd_del
  handle_del C req w =
      let (r, w') = cmd_del req w in
      elim r [
        | err e ↦
            (ok (error_response C.error_text error_code_config_interface_failure (some e)), w')
        | ok _ ↦ (ok empty_response, w')
      ]

  unfoldable pub handle_check : Codecs → CniRequest → Action World CniResponse
  unfolding cmd_check
  handle_check C req w =
      let (r, w') = cmd_check req w in
      elim r [
        | err e ↦ (ok (error_response C.error_text error_code_check_interface_failure (some e)), w')
        | ok _ ↦ (ok empty_response, w')
      ]
