-- ===== src/Common/Codes.antt =====
-- The codes of gRPC, and what common/helper.go makes of them and of errors.
use node_nats.Prelude.{ℕ, String, has_suffix, if◌then◌else◌}
use Prim.Native.String

pub data Code : Type 0 where
  ok canceled unknown invalid_argument deadline_exceeded not_found already_exists permission_denied
        resource_exhausted failed_precondition aborted out_of_range unimplemented internal
        unavailable data_loss unauthenticated :
      Code

-- GrpcCodeToHTTP
unfoldable pub grpc_code_to_http : Code → ℕ
grpc_code_to_http ok = 200
grpc_code_to_http canceled = 499
grpc_code_to_http invalid_argument = 400
grpc_code_to_http unauthenticated = 401
grpc_code_to_http permission_denied = 403
grpc_code_to_http not_found = 404
grpc_code_to_http already_exists = 409
grpc_code_to_http resource_exhausted = 429
grpc_code_to_http failed_precondition = 412
grpc_code_to_http aborted = 409
grpc_code_to_http out_of_range = 400
grpc_code_to_http unimplemented = 501
grpc_code_to_http internal = 500
grpc_code_to_http unavailable = 503
grpc_code_to_http deadline_exceeded = 504
grpc_code_to_http unknown = 500
grpc_code_to_http data_loss = 500

abbrev pub code_name : Code → String
code_name ok = "OK"
code_name canceled = "Canceled"
code_name unknown = "Unknown"
code_name invalid_argument = "InvalidArgument"
code_name deadline_exceeded = "DeadlineExceeded"
code_name not_found = "NotFound"
code_name already_exists = "AlreadyExists"
code_name permission_denied = "PermissionDenied"
code_name resource_exhausted = "ResourceExhausted"
code_name failed_precondition = "FailedPrecondition"
code_name aborted = "Aborted"
code_name out_of_range = "OutOfRange"
code_name unimplemented = "Unimplemented"
code_name internal = "Internal"
code_name unavailable = "Unavailable"
code_name data_loss = "DataLoss"
code_name unauthenticated = "Unauthenticated"

-- An error of package errors, the one of a cancelled context, and one of package status, which wraps no other.
pub data CallError : Type 0 where
  context_canceled : CallError
  plain : String → CallError
  status : Code → String → CallError

-- Error()
abbrev pub error_text : CallError → String
error_text context_canceled = "context canceled"
error_text (plain message) = message
error_text (status code message) =
    String.◌++◌ "rpc error: code = " (String.◌++◌ (code_name code) (String.◌++◌ " desc = " message))

-- Code() of status.FromError
abbrev pub code_of : CallError → Code
code_of context_canceled = unknown
code_of (plain message) = unknown
code_of (status code message) = code

-- InterceptNotFound
unfoldable pub intercept_not_found : CallError → CallError
unfolding has_suffix
intercept_not_found e =
    if has_suffix (error_text e) "not found." then status not_found (error_text e) else e
