-- ===== src/Cni/Client.antt =====
-- The client side of pkg/cni/rpc.go, over a connection of grpc.
use purenet.Base.{Option, Str, codes}
use purenet.Cni.Rpc.{CniRequest, CniResponse}

-- `status.Code(err)` of grpc, as far as the program looks at it.
pub data StatusCode : Type 0 where
  unimplemented unavailable deadline_exceeded other_code : StatusCode

pub record RpcError : Type 0 where
  pub code : StatusCode
  pub text : Str

-- A call's response, or its error.
pub data Reply : Type 0 where
  responded : CniResponse → Reply
  broken : RpcError → Reply

-- What is called outside the repository: a grpc connection to a socket, a call on it by the full
-- name of a method, within the time limit, and the standard output.
pub record Transport : Type 1 where
  pub State : Type 0
  pub new_client : Str → State → Option Str
  pub invoke : Str → CniRequest → State → Reply × State
  pub write_stdout : Str → State → Option Str × State

abbrev pub method_add : Str
method_add = codes "/cni.v1.CNIBackend/CmdAdd"

abbrev pub method_del : Str
method_del = codes "/cni.v1.CNIBackend/CmdDel"

abbrev pub method_check : Str
method_check = codes "/cni.v1.CNIBackend/CmdCheck"

module _ (T : Transport) where
  abbrev pub client_cmd_add : CniRequest → T.State → Reply × T.State
  client_cmd_add req s = T.invoke method_add req s

  abbrev pub client_cmd_del : CniRequest → T.State → Reply × T.State
  client_cmd_del req s = T.invoke method_del req s

  abbrev pub client_cmd_check : CniRequest → T.State → Reply × T.State
  client_cmd_check req s = T.invoke method_check req s
