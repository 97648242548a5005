-- ===== src/Controller/Node/Sound.antt =====
-- The session and the backend of the node under every call.
use node_nats.Prelude.{
  ℕ, ◌≡◌, refl, inl, inr, String, Option, none, some, List, [], ◌∷◌, Bool, true, false, ◌==◌,
  lookup, mem, Bool-cases, Result, ok, fail, panic, ◌>>=◌,
}
use node_nats.Common.User.{User}
use node_nats.Xray.Inbound.{Packages}
use node_nats.Xray.Config.{Config}
use node_nats.Xray.Core.{Answers}
use node_nats.Xray.Backend.{Xray, Created, created, new_xray}
use node_nats.Controller.{
  Controller, Launch, launched, Start, new_request, start_backend, connect, rpc_start, disconnect,
}
use node_nats.Controller.Session.{IsSound, run-IsSound, take_over-IsClosed}
use node_nats.Controller.Session as Session
use node_nats.Controller.Access.{
  RpcAnswer, rpc_key, rpc_header, rpc_validate, rpc_checked, rpc_access, backend_methods,
  full_method,
}
use node_nats.Controller.Handlers.{Received, rpc_sync_user, rpc_sync_users}
use node_nats.Controller.Node.{
  Node, view, view_of, with_xray, Starting, Call, start, stop, sync_user, sync_users, read,
  operation, launch_with, start_detected, detect_backend, sync_stream, sync_all, handle, Sender,
  admitted, serve, serve_all,
}

-- The session is sound, and its backend is what the node has: the one that the checks of the interceptors ask.
abbrev pub Holds : Controller → Option Xray → Type 0
Holds c xray = IsSound c × (c.backend ≡ view_of xray)

abbrev pub NodeHolds : Node → Type 0
NodeHolds n = Holds n.session n.xray

-- Of a call that returns.
abbrev pub Keeps {ℓ} : {A : Type ℓ} → Result (Node × A) → Type 0
Keeps (ok (n, a)) = NodeHolds n
Keeps (fail message) = Unit
Keeps panic = Unit

Keeps->>= {ℓ κ} :
    {A : Type ℓ} {B : Type κ} (m : Result A) (k : A → Result (Node × B))
    → ((a : A) → Keeps (k a))
    → Keeps (m >>= k)
Keeps->>= (ok a) k h = h a
Keeps->>= (fail message) k h = tt
Keeps->>= panic k h = tt

-- The check of a key leaves the session or counts a request.
module _ (P : Controller → Type 0)
    (counted : (now : ℕ) (c : Controller) → P c → P (new_request now c)) where
  key-keeps :
      (api_key : ℕ) (key : Option ℕ) (now : ℕ) (c : Controller)
      → P c
      → P (rpc_key api_key key now c).0
  key-keeps api_key none now c p = p
  key-keeps api_key (some key) now c p = elim (Bool-cases (key == api_key)) [
    | inl same ↦ rw same (counted now c p)
    | inr other ↦ rw other p
  ]

  header-keeps :
      (parse : String → Option ℕ) (api_key : ℕ) (values : Option (List String)) (now : ℕ)
      (c : Controller)
      → P c
      → P (rpc_header parse api_key values now c).0
  header-keeps parse api_key none now c p = p
  header-keeps parse api_key (some []) now c p = p
  header-keeps parse api_key (some (header ∷ others)) now c p =
      key-keeps api_key (parse header) now c p

  validate-keeps :
      (parse : String → Option ℕ) (api_key : ℕ) (md : Option (List (String × List String)))
      (now : ℕ) (c : Controller)
      → P c
      → P (rpc_validate parse api_key md now c).0
  unfolding rpc_validate
  validate-keeps parse api_key none now c p = p
  validate-keeps parse api_key (some md) now c p =
      header-keeps parse api_key (lookup "x-api-key" md) now c p

  checked-keeps : (wants : Bool) (answer : RpcAnswer) → P answer.0 → P (rpc_checked wants answer).0
  checked-keeps wants (c, some refusal) p = p
  checked-keeps true (c, none) p = p
  checked-keeps false (c, none) p = p

  access-keeps :
      (parse : String → Option ℕ) (api_key : ℕ) (method : String)
      (md : Option (List (String × List String))) (now : ℕ) (c : Controller)
      → P c
      → P (rpc_access parse api_key method md now c).0
  unfolding rpc_access
  access-keeps parse api_key method md now c p =
      checked-keeps (mem backend_methods method) (rpc_validate parse api_key md now c)
        (validate-keeps parse api_key md now c p)

counted-Holds :
    (xray : Option Xray) (now : ℕ) (c : Controller) → Holds c xray → Holds (new_request now c) xray
unfolding new_request
counted-Holds xray now c (sound, e) = (run-IsSound (Session.request now ∷ []) c sound, e)

with_xray-Holds :
    (x x' : Xray) (n : Node) → NodeHolds n → n.xray ≡ some x → NodeHolds (with_xray x' n)
with_xray-Holds x x' n (inl (closed, _, _), e) has = absurd (cc)
with_xray-Holds x x' n (inr (b, k, open_, live), e) has = (inr (view x', k, refl, live), refl)

stream-Keeps :
    (pkg : Packages) (received : List Received) (n : Node) (xray : Option Xray)
    → NodeHolds n
    → n.xray ≡ xray
    → Keeps (sync_stream pkg received n xray)
stream-Keeps pkg received n none h e = tt
stream-Keeps pkg received n (some x) h e =
    Keeps->>= (rpc_sync_user pkg received x) _ (λ (x', error). with_xray-Holds x x' n h e)

all-Keeps :
    (pkg : Packages) (answers : Answers) (users : List User) (n : Node) (xray : Option Xray)
    → NodeHolds n
    → n.xray ≡ xray
    → Keeps (sync_all pkg answers users n xray)
all-Keeps pkg answers users n none h e = tt
all-Keeps pkg answers users n (some x) h e =
    Keeps->>= (rpc_sync_users pkg answers users x) _ (λ (x', error). with_xray-Holds x x' n h e)

start-IsSound : (s : Start) (c : Controller) → IsSound c → IsSound (rpc_start s c).0
start-IsSound s c sound = run-IsSound (Session.start s ∷ []) c sound

launch-Holds :
    (s : Starting) (n : Node) (made : Created) → NodeHolds n → NodeHolds (launch_with s n made).0
unfolding rpc_start start_backend connect
launch-Holds s n (created x) (sound, e) = (
  start-IsSound (record s.session { detected = none; launch = launched (view x) }) n.session sound,
  refl,
)
launch-Holds s n (Created.refused core message) (sound, e) = (
  start-IsSound (record s.session { detected = none; launch = Launch.refused message }) n.session
      sound,
  (take_over-IsClosed s.session.free_port n.session sound).0,
)

start-Keeps :
    (detected : Result Config) (pkg : Packages) (s : Starting) (n : Node)
    → NodeHolds n
    → Keeps (start_detected detected pkg s n)
start-Keeps (fail message) pkg s n h = h
start-Keeps panic pkg s n h = tt
start-Keeps (ok config) pkg s n h =
    Keeps->>= (new_xray _ _ _ _ _ _) _ (λ made. launch-Holds s n made h)

handle-Keeps : (pkg : Packages) (call : Call) (n : Node) → NodeHolds n → Keeps (handle pkg call n)
unfolding handle disconnect
handle-Keeps pkg (start s) n h = start-Keeps (detect_backend s) pkg s n h
handle-Keeps pkg (stop port) n h = (run-IsSound (Session.stop port ∷ []) n.session h.0, refl)
handle-Keeps pkg (sync_user received) n h = stream-Keeps pkg received n n.xray h refl
handle-Keeps pkg (sync_users answers users) n h = all-Keeps pkg answers users n n.xray h refl
handle-Keeps pkg (read op) n h = h

admitted-Keeps :
    (pkg : Packages) (call : Call) (n : Node) (answer : RpcAnswer)
    → Holds answer.0 n.xray
    → Keeps (admitted pkg call n answer)
admitted-Keeps pkg call n (c, some refusal) h = h
admitted-Keeps pkg call n (c, none) h = handle-Keeps pkg call (record n { session = c }) h

serve-Keeps :
    (pkg : Packages) (parse : String → Option ℕ) (api_key : ℕ) (sender : Sender) (call : Call)
    (n : Node)
    → NodeHolds n
    → Keeps (serve pkg parse api_key sender call n)
unfolding serve
serve-Keeps pkg parse api_key sender call n h = admitted-Keeps pkg call n _ (
    access-keeps (λ c. Holds c n.xray) (counted-Holds n.xray) parse api_key
      (full_method (operation call)) sender.metadata sender.now n.session h)

kept->>= {ℓ κ} :
    {A : Type ℓ} {B : Type κ} (r : Result (Node × A)) (k : Node × A → Result (Node × B))
    → Keeps r
    → ((n : Node) (a : A) → NodeHolds n → Keeps (k (n, a)))
    → Keeps (r >>= k)
kept->>= (ok (n, a)) k kept h = h n a kept
kept->>= (fail message) k kept h = tt
kept->>= panic k kept h = tt

-- After whatever calls over gRPC that the node survives, with or without the key: the session is closed with no backend,
-- goroutine or client, or it has a backend and the goroutines of exactly one context; and the backend that the
-- interceptors check is the one that the handlers use, running or not as its process is.
pub serve_all-NodeHolds :
    (pkg : Packages) (parse : String → Option ℕ) (api_key : ℕ) (calls : List (Sender × Call))
    (n : Node)
    → NodeHolds n
    → Keeps (serve_all pkg parse api_key calls n)
unfolding serve_all
serve_all-NodeHolds pkg parse api_key [] n h = h
serve_all-NodeHolds pkg parse api_key ((sender, call) ∷ calls) n h =
    kept->>= (serve pkg parse api_key sender call n) _
      (serve-Keeps pkg parse api_key sender call n h)
      (λ n' reply h'.
        kept->>= (serve_all pkg parse api_key calls n') _
          (serve_all-NodeHolds pkg parse api_key calls n' h') (λ n'' replies h''. h''))
