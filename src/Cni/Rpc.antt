-- ===== src/Cni/Rpc.antt =====
-- The messages of pkg/cni/rpc.go. The text of an error, `err.Error()`, is the parameter `text`.
use purenet.Base.{ℕ, Option, none, some, [], ◌∷◌, Str, ◌==◌, if◌then◌else◌}
use purenet.Errors.{GoError, errorf}

-- The CNI error codes that the program returns.
abbrev pub error_code_unknown : ℕ
error_code_unknown = 0

abbrev pub error_code_try_again_later : ℕ
error_code_try_again_later = 11

abbrev pub error_code_config_interface_failure : ℕ
error_code_config_interface_failure = 102

abbrev pub error_code_check_interface_failure : ℕ
error_code_check_interface_failure = 103

abbrev pub error_code_unknown_rpc_error : ℕ
error_code_unknown_rpc_error = 201

abbrev pub error_code_incompatible_api_version : ℕ
error_code_incompatible_api_version = 202

pub record CniRequest : Type 0 where
  pub container_id : Str
  pub netns : Str
  pub if_name : Str
  pub args : Str
  pub path : Str
  pub config : Str

pub record CniResponse : Type 0 where
  pub error_code : ℕ
  pub error_message : Str
  pub result : Str

unfoldable pub error_response : (GoError → Str) → ℕ → Option GoError → CniResponse
error_response text code e = record {
  error_code = code;
  error_message = elim e [ none ↦ [] | some e ↦ text e ];
  result = [];
}

-- The argument for `%d` is a text of the one number.
unfoldable pub as_error : CniResponse → Option GoError
as_error r =
    if r.error_code == 0
    then none
    else some (errorf "CNI error %d: %s" ((r.error_code ∷ []) ∷ r.error_message ∷ []))
