-- ===== src/Controller/Handlers/Errors.antt =====
-- The errors of the statistics handlers, over both protocols.
use node_nats.Prelude.{◌≡◌, refl, ◌≢◌, ◌≤◌, inl, inr, none, arith, has_suffix, Bool-cases}
use node_nats.Common.Codes
use node_nats.Common.Codes.{
  Code, CallError, error_text, code_of, grpc_code_to_http, intercept_not_found,
}
use node_nats.Controller.Handlers.{
  Answer, value, error, panicked, RpcReply, replied, refused, node_ended, RestReply, sent,
  http_error, rpc_stats, rest_stats,
}

-- A reply of REST stands for one of gRPC: the same statistics; or a status of 400 to 599, which is that of the
-- code, with the error's text; or 500 where the node ended.
abbrev pub StandsFor : {A : Type 0} → RestReply A → RpcReply A → Type 0
StandsFor (sent a) (replied b) = a ≡ b
StandsFor (http_error n message) (refused e) =
    (n ≡ grpc_code_to_http (code_of e)) × (message ≡ error_text e) × (400 ≤ n) × (n ≤ 599)
StandsFor (http_error n message) node_ended = n ≡ 500
StandsFor _ _ = ⊥

error_status : (c : Code) → c ≢ Codes.ok → (400 ≤ grpc_code_to_http c) × (grpc_code_to_http c ≤ 599)
unfolding grpc_code_to_http
error_status Codes.ok h = absurd (h refl)
error_status Codes.canceled h = omega arith
error_status Codes.unknown h = omega arith
error_status Codes.invalid_argument h = omega arith
error_status Codes.deadline_exceeded h = omega arith
error_status Codes.not_found h = omega arith
error_status Codes.already_exists h = omega arith
error_status Codes.permission_denied h = omega arith
error_status Codes.resource_exhausted h = omega arith
error_status Codes.failed_precondition h = omega arith
error_status Codes.aborted h = omega arith
error_status Codes.out_of_range h = omega arith
error_status Codes.unimplemented h = omega arith
error_status Codes.internal h = omega arith
error_status Codes.unavailable h = omega arith
error_status Codes.data_loss h = omega arith
error_status Codes.unauthenticated h = omega arith

intercepted : (e : CallError) → code_of e ≢ Codes.ok → code_of (intercept_not_found e) ≢ Codes.ok
unfolding intercept_not_found
intercepted e h = elim (Bool-cases (has_suffix (error_text e) "not found.")) [
  | inl missing ↦ rw missing (λ p. cc p)
  | inr other ↦ rw other h
]

-- What the backend's error is: one of package status has a code that is no OK.
abbrev pub IsProper : {A : Type 0} → Answer A → Type 0
IsProper (error e) = code_of e ≢ Codes.ok
IsProper _ = Unit

-- For a statistics request whose body is read and any answer of the backend (no error with the code OK), the reply of REST stands
-- for that of gRPC: the same statistics; or an error status, 400 to 599, that belongs to the code of
-- gRPC's error, with its text; or 500 where the backend panics, which ends a node under gRPC.
pub rest_stats-StandsFor :
    {A : Type 0} (answer : Answer A)
    → IsProper answer
    → StandsFor (rest_stats none answer) (rpc_stats answer)
unfolding rest_stats rpc_stats
rest_stats-StandsFor (value stats) h = refl
rest_stats-StandsFor (error e) h =
    let (low, high) = error_status (code_of (intercept_not_found e)) (intercepted e h) in
    (refl, refl, low, high)
rest_stats-StandsFor panicked h = refl
