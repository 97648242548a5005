-- ===== src/Controller/Node/Rest/Alike.antt =====
-- A call over REST against the same call over gRPC.
use mathlib.Core.Path.{subst}
use node_nats.Prelude.{
  ℕ, ◌≡◌, refl, sym, ap, ◌⊎◌, inl, inr, String, Option, none, some, List, [], ◌∷◌, Bool, true,
  false, Bool-cases, str_eq, lookup, Result, ok, fail, panic, ◌>>=◌,
}
use node_nats.Common.User.{User}
use node_nats.Common.Codes.{plain}
use node_nats.Xray.Account.{Account}
use node_nats.Xray.Inbound.{Packages}
use node_nats.Xray.Config.{Config}
use node_nats.Xray.Core.{Answers}
use node_nats.Xray.Backend as Backend
use node_nats.Xray.Backend.{Xray, Created, created, new_xray, sync_one}
use node_nats.Controller.{start_backend, connect, rpc_start, rest_start}
use node_nats.Controller.Access.{RpcAnswer, RestAnswer}
use node_nats.Controller.Access.Laws.{Agrees, rpc_access-Agrees}
use node_nats.Controller.Handlers.{
  RestReply, sent, http_error, put_reply, synced_or_error, rpc_sync_user, rpc_sync_users,
  rest_sync_user, rest_sync_users,
}
use node_nats.Controller.Node.{
  Node, view, with_xray, Starting, detect_backend, Reply, done, failed, denied, reply_of_call,
  Sender,
}
use node_nats.Controller.Node as Rpc
use node_nats.Controller.Node.Rest.{
  Call, start, stop, sync_user, sync_users, read, Outcome, detect_body, launch_with, start_detected,
  sync_one_on, sync_all_on, handle, admitted, serve, operation,
}

-- The same call over gRPC: a user is a stream of one.
abbrev pub over_rpc : Call → Rpc.Call
over_rpc (start body knows_ip s) = Rpc.start s
over_rpc (stop port) = Rpc.stop port
over_rpc (sync_user body received) = Rpc.sync_user (received ∷ [])
over_rpc (sync_users body answers users) = Rpc.sync_users answers users
over_rpc (read op) = Rpc.read op

-- The body is read, a caller has an address, and a user an email.
abbrev pub IsWellRead : Call → Type 0
IsWellRead (start body knows_ip s) = (body ≡ none) × (knows_ip ≡ true)
IsWellRead (sync_user body (user, answers)) = (body ≡ none) × (str_eq user.email "" ≡ false)
IsWellRead (sync_users body answers users) = body ≡ none
IsWellRead _ = Unit

-- Both replies are good, both are errors of the handler, or both are refusals with the same text.
abbrev pub SameReply : RestReply (Unit {0}) → Reply → Type 0
SameReply (sent x) done = Unit
SameReply (http_error status message) (failed message') = Unit
SameReply (http_error status message) (denied code message') = message ≡ message'
SameReply _ _ = ⊥

-- The node after a start that fails: over REST its session is open.
abbrev pub IsReopened : Call → Node → Node → Type 0
IsReopened (start body knows_ip s) n n' =
    (n ≡ record n' { session = connect s.session.ip s.session.keep_alive s.session.now n'.session })
    × (n'.xray ≡ none)
IsReopened _ n n' = ⊥

abbrev pub Same : Call → Node × RestReply (Unit {0}) → Node × Reply → Type 0
Same call (n, r) (n', r') = SameReply r r' × ((n ≡ n') ⊎ IsReopened call n n')

abbrev pub SameOutcome : Call → Outcome → Result (Node × Reply) → Type 0
SameOutcome call (ok a) (ok a') = Same call a a'
SameOutcome call (fail e) (fail e') = Unit
SameOutcome call panic panic = Unit
SameOutcome call _ _ = ⊥

SameOutcome->>= :
    {A : Type 0} (call : Call) (m : Result A) (k : A → Outcome) (k' : A → Result (Node × Reply))
    → ((a : A) → SameOutcome call (k a) (k' a))
    → SameOutcome call (m >>= k) (m >>= k')
SameOutcome->>= call (ok a) k k' h = h a
SameOutcome->>= call (fail e) k k' h = tt
SameOutcome->>= call panic k k' h = tt

launch-Same :
    (body : Option String) (knows_ip : Bool) (s : Starting) (n : Node) (made : Created)
    → Same (start body knows_ip s) (launch_with s n made) (Rpc.launch_with s n made)
unfolding rest_start rpc_start start_backend connect
launch-Same body knows_ip s n (created x) = (tt, inl refl)
launch-Same body knows_ip s n (Created.refused core message) = (tt, inr (refl, refl))

-- The texts at an unknown type of backend differ.
abbrev SameConfig : Result Config → Result Config → Type 0
SameConfig (ok c) (ok c') = c ≡ c'
SameConfig (fail e) (fail e') = Unit
SameConfig panic panic = Unit
SameConfig _ _ = ⊥

SameConfig-refl : (r : Result Config) → SameConfig r r
SameConfig-refl (ok c) = refl
SameConfig-refl (fail e) = tt
SameConfig-refl panic = tt

detect-SameConfig : (s : Starting) → SameConfig (detect_body none s) (detect_backend s)
unfolding detect_body detect_backend
detect-SameConfig s = elim (Bool-cases s.is_xray) [
  | inl xray ↦ rw xray (SameConfig-refl _)
  | inr other ↦ rw other tt
]

detected-Same :
    (pkg : Packages) (s : Starting) (n : Node) (r r' : Result Config)
    → SameConfig r r'
    → SameOutcome
        (start none true s)
        (start_detected r true pkg s n)
        (Rpc.start_detected r' pkg s n)
detected-Same pkg s n (ok c) (ok c') e =
    subst
      (λ d.
        SameOutcome (start none true s) (start_detected (ok c) true pkg s n)
          (Rpc.start_detected (ok d) pkg s n))
      e
      (SameOutcome->>= (start none true s) (new_xray _ _ _ _ _ _) _ _
        (λ made. launch-Same none true s n made))
detected-Same pkg s n (fail m) (fail m') e = (tt, inl refl)
detected-Same pkg s n panic panic e = tt
detected-Same pkg s n (ok c) (fail m) e = absurd e
detected-Same pkg s n (ok c) panic e = absurd e
detected-Same pkg s n (fail m) (ok c) e = absurd e
detected-Same pkg s n (fail m) panic e = absurd e
detected-Same pkg s n panic (ok c) e = absurd e
detected-Same pkg s n panic (fail m) e = absurd e

sync_one-Same :
    (call : Call) (r : Result (Xray × Option String)) (n : Node)
    → SameOutcome call
        (r
          >>= (λ (x', message). ok (x', put_reply message))
          >>= (λ (x', reply). ok (with_xray x' n, reply)))
        (r
          >>= (λ (x', message). synced_or_error message x' (ok (x', none)))
          >>= (λ (x', error). ok (with_xray x' n, reply_of_call error)))
sync_one-Same call (ok (x', none)) n = (tt, inl refl)
sync_one-Same call (ok (x', some message)) n = (tt, inl refl)
sync_one-Same call (fail e) n = tt
sync_one-Same call panic n = tt

sync_all-Same :
    (call : Call) (r : Result (Xray × Option String)) (n : Node)
    → SameOutcome call
        (r
          >>= (λ (x', message). ok (x', put_reply message))
          >>= (λ (x', reply). ok (with_xray x' n, reply)))
        (r
          >>= (λ (x', message). ok (x', elim message [ none ↦ none | some m ↦ some (plain m) ]))
          >>= (λ (x', error). ok (with_xray x' n, reply_of_call error)))
sync_all-Same call (ok (x', none)) n = (tt, inl refl)
sync_all-Same call (ok (x', some message)) n = (tt, inl refl)
sync_all-Same call (fail e) n = tt
sync_all-Same call panic n = tt

sync_one_on-Same :
    (pkg : Packages) (user : User) (answers : String → Account → Option String) (n : Node)
    (xray : Option Xray)
    → str_eq user.email "" ≡ false
    → SameOutcome
        (sync_user none (user, answers))
        (sync_one_on pkg none (user, answers) n xray)
        (Rpc.sync_stream pkg ((user, answers) ∷ []) n xray)
unfolding rest_sync_user rpc_sync_user
sync_one_on-Same pkg user answers n none named = tt
sync_one_on-Same pkg user answers n (some x) named =
    rw named (sync_one-Same (sync_user none (user, answers)) (sync_one pkg answers user x) n)

sync_all_on-Same :
    (pkg : Packages) (answers : Answers) (users : List User) (n : Node) (xray : Option Xray)
    → SameOutcome
        (sync_users none answers users)
        (sync_all_on pkg none answers users n xray)
        (Rpc.sync_all pkg answers users n xray)
unfolding rest_sync_users rpc_sync_users
sync_all_on-Same pkg answers users n none = tt
sync_all_on-Same pkg answers users n (some x) =
    sync_all-Same (sync_users none answers users) (Backend.sync_users pkg answers users x) n

handle-Same :
    (pkg : Packages) (call : Call) (n : Node)
    → IsWellRead call
    → SameOutcome call (handle pkg call n) (Rpc.handle pkg (over_rpc call) n)
unfolding handle Rpc.handle
handle-Same pkg (start body knows_ip s) n (read_well, known) =
    rw (read_well, known) (detected-Same pkg s n _ _ (detect-SameConfig s))
handle-Same pkg (stop port) n h = (tt, inl refl)
handle-Same pkg (sync_user body (user, answers)) n (read_well, named) =
    rw read_well (sync_one_on-Same pkg user answers n n.xray named)
handle-Same pkg (sync_users body answers users) n h =
    rw h (sync_all_on-Same pkg answers users n n.xray)
handle-Same pkg (read op) n h = (tt, inl refl)

operation-over_rpc : (call : Call) → Rpc.operation (over_rpc call) ≡ operation call
operation-over_rpc (start body knows_ip s) = refl
operation-over_rpc (stop port) = refl
operation-over_rpc (sync_user body received) = refl
operation-over_rpc (sync_users body answers users) = refl
operation-over_rpc (read op) = refl

admitted-Same :
    (pkg : Packages) (call : Call) (n : Node) (a : RpcAnswer) (b : RestAnswer)
    → IsWellRead call
    → Agrees a b
    → SameOutcome call (admitted pkg call n b) (Rpc.admitted pkg (over_rpc call) n a)
admitted-Same pkg call n (c, none) (c', none) h same =
    rw same (handle-Same pkg call (record n { session = c' }) h)
admitted-Same pkg call n (c, some (code, message)) (c', some (status, message')) h (same, text) =
    (sym text, inl (ap (λ d. record n { session = d }) (sym same)))
admitted-Same pkg call n (c, none) (c', some refusal) h same = absurd same
admitted-Same pkg call n (c, some (code, message)) (c', none) h same = absurd same

-- A call over REST whose body is read, whose caller has an address and whose user, if any, has an email, against the same
-- call over gRPC with the same key, which is not empty and comes first there: both panic, or both reply, with a
-- good reply, an error of the handler or a refusal of the same text each. The node is then the same, or, where
-- a start fails and leaves no backend over gRPC, that node with the session opened.
pub serve-SameOutcome :
    (pkg : Packages) (parse : String → Option ℕ) (api_key : ℕ) (md : List (String × List String))
    (header : String) (others : List String) (now : ℕ) (call : Call) (n : Node)
    → lookup "x-api-key" md ≡ some (header ∷ others)
    → str_eq header "" ≡ false
    → IsWellRead call
    → SameOutcome call
        (serve pkg parse api_key header now call n)
        (Rpc.serve pkg parse api_key (record { metadata = some md; now = now }) (over_rpc call) n)
unfolding serve Rpc.serve
serve-SameOutcome pkg parse api_key md header others now call n found present h =
    rw (operation-over_rpc call) (
      admitted-Same pkg call n _ _ h (
        rpc_access-Agrees parse api_key (operation call) md header others now n.session found
          present))
