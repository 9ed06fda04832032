-- ===== src/Cni/Service.antt =====
-- The server side of pkg/cni/rpc.go: the interface that the agent implements, and the service
-- descriptor by which grpc finds its methods.
use purenet.Base.{Option, none, some, List, [], ◌∷◌, ◌++◌, Str, codes, str_dec, ite}
use purenet.Errors.{GoError, external}
use purenet.Cni.Rpc.{CniRequest, CniResponse}
use purenet.Cni.Client.{StatusCode, unimplemented, method_add, method_del, method_check}

-- What a method returns: a response, a status error of grpc, or another error.
pub data Answer : Type 0 where
  answer : CniResponse → Answer
  status_error : StatusCode → Str → Answer
  plain_error : GoError → Answer

abbrev pub UnaryHandler : Type 0 → Type 0
UnaryHandler S = CniRequest → S → Answer × S

-- The request that grpc decodes, or the error of the codec.
pub data Incoming : Type 0 where
  request : CniRequest → Incoming
  undecodable : Str → Incoming

-- `grpc.UnaryServerInterceptor`: it gets the request, the method's full name, and what to call.
abbrev pub Interceptor : Type 0 → Type 0
Interceptor S = CniRequest → Str → UnaryHandler S → S → Answer × S

pub record CniBackendServer (S : Type 0) : Type 0 where
  pub cmd_add : UnaryHandler S
  pub cmd_del : UnaryHandler S
  pub cmd_check : UnaryHandler S

module _ (S : Type 0) where
  -- `UnimplementedCNIBackendServer`
  unfoldable pub unimplemented_server : CniBackendServer S
  unimplemented_server = record {
    cmd_add = λ req s. (status_error unimplemented (codes "CmdAdd not implemented"), s);
    cmd_del = λ req s. (status_error unimplemented (codes "CmdDel not implemented"), s);
    cmd_check = λ req s. (status_error unimplemented (codes "CmdCheck not implemented"), s);
  }

  -- What the three handlers below have in common.
  abbrev pub handle_unary :
      Str → UnaryHandler S → Incoming → Option (Interceptor S) → S → Answer × S
  handle_unary full_method call dec interceptor s = elim dec [
    | undecodable e ↦ (plain_error (external e), s)
    | request req ↦ elim interceptor [
      | none ↦ call req s
      | some intercept ↦ intercept req full_method call s
    ]
  ]

  abbrev pub Handler : Type 0
  Handler = CniBackendServer S → Incoming → Option (Interceptor S) → S → Answer × S

  unfoldable pub cmd_add_handler : Handler
  cmd_add_handler srv = handle_unary method_add srv.cmd_add

  unfoldable pub cmd_del_handler : Handler
  cmd_del_handler srv = handle_unary method_del srv.cmd_del

  unfoldable pub cmd_check_handler : Handler
  cmd_check_handler srv = handle_unary method_check srv.cmd_check

  pub record MethodDesc : Type 0 where
    pub method_name : Str
    pub handler : Handler

  pub record ServiceDesc : Type 0 where
    pub service_name : Str
    pub methods : List MethodDesc

  -- `cniBackendServiceDesc`
  unfoldable pub service_desc : ServiceDesc
  unfolding cmd_add_handler cmd_del_handler cmd_check_handler
  service_desc = record {
    service_name = codes "cni.v1.CNIBackend";
    methods =
        record { method_name = codes "CmdAdd"; handler = cmd_add_handler }
        ∷ record { method_name = codes "CmdDel"; handler = cmd_del_handler }
        ∷ record { method_name = codes "CmdCheck"; handler = cmd_check_handler }
        ∷ [];
  }

  -- A service with what implements it, as `RegisterCNIBackendServer` hands it to grpc.
  pub record Registration : Type 0 where
    pub desc : ServiceDesc
    pub server : CniBackendServer S

  unfoldable pub register_cni_backend_server : CniBackendServer S → Registration
  unfolding service_desc
  register_cni_backend_server srv = record { desc = service_desc; server = srv }

  -- How grpc finds a method: by the full name `/service/method`.
  unfoldable pub find_method : Str → Str → List MethodDesc → Option Handler
  unfolding str_dec
  find_method path service [] = none
  find_method path service (d ∷ ds) =
      ite (str_dec path (codes "/" ++ (service ++ (codes "/" ++ d.method_name)))) (some d.handler)
        (find_method path service ds)
