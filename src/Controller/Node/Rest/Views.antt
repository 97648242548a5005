-- ===== src/Controller/Node/Rest/Views.antt =====
-- The session and the backend of the node under REST.
use mathlib.Core.Path.{subst}
use node_nats.Prelude.{
  ℕ, ◌≡◌, refl, ap, ◌∙◌, inl, inr, String, Option, none, some, List, [], ◌∷◌, Bool, true, false,
  ◌==◌, str_eq, Bool-cases, Option-cases, Result, ok, fail, panic, ◌>>=◌,
}
use node_nats.Common.User.{User}
use node_nats.Xray.Inbound.{Packages}
use node_nats.Xray.Config.{Config}
use node_nats.Xray.Core.{Answers}
use node_nats.Xray.Backend.{Xray, Created, created, new_xray}
use node_nats.Controller.{
  Backend, Tracker, Controller, new_request, start_backend, connect, take_over, rest_start,
  disconnect,
}
use node_nats.Controller.Session.{take_over-none, take_over-some}
use node_nats.Controller.Access.{
  RestAnswer, rest_key, rest_validate, rest_checked, rest_access, is_private,
}
use node_nats.Controller.Handlers.{Received, rest_sync_user, rest_sync_users}
use node_nats.Controller.Node.{Node, view_of, with_xray, Starting}
use node_nats.Controller.Node.Rest.{
  Call, start, stop, sync_user, sync_users, read, operation, launch_with, start_from,
  start_detected, detect_body, sync_one_on, sync_all_on, handle, admitted, serve, serve_all,
}

-- The context that cancelFunc cancels is the newest one, and its goroutines run.
abbrev IsLed : ℕ → List Tracker → Type 0
IsLed cancel [] = ⊥
IsLed cancel (t ∷ ts) = t.context ≡ cancel

abbrev pub IsHeld : Option Backend → Controller → Type 0
IsHeld none c = Unit
IsHeld (some b) c = IsLed c.cancel c.live

-- The backend of the session is the one of the node, and where there is one, Disconnect ends goroutines that run.
abbrev pub Views : Controller → Option Xray → Type 0
Views c xray = (c.backend ≡ view_of xray) × IsHeld c.backend c

abbrev pub IsViewed : Node → Type 0
IsViewed n = Views n.session n.xray

-- Of a call that returns.
abbrev pub LeavesViewed {ℓ} : {A : Type ℓ} → Result (Node × A) → Type 0
LeavesViewed (ok (n, a)) = IsViewed n
LeavesViewed (fail message) = Unit
LeavesViewed panic = Unit

LeavesViewed->>= {ℓ κ} :
    {A : Type ℓ} {B : Type κ} (m : Result A) (k : A → Result (Node × B))
    → ((a : A) → LeavesViewed (k a))
    → LeavesViewed (m >>= k)
LeavesViewed->>= (ok a) k h = h a
LeavesViewed->>= (fail message) k h = tt
LeavesViewed->>= panic k h = tt

request-IsHeld :
    (o : Option Backend) (now : ℕ) (c : Controller) → IsHeld o c → IsHeld o (new_request now c)
unfolding new_request
request-IsHeld none now c h = h
request-IsHeld (some b) now c h = h

request-Views :
    (xray : Option Xray) (now : ℕ) (c : Controller) → Views c xray → Views (new_request now c) xray
unfolding new_request
request-Views xray now c (same, held) = (same, request-IsHeld c.backend now c held)

key-Views :
    (xray : Option Xray) (api_key : ℕ) (key : Option ℕ) (now : ℕ) (c : Controller)
    → Views c xray
    → Views (rest_key api_key key now c).0 xray
key-Views xray api_key none now c h = h
key-Views xray api_key (some key) now c h = elim (Bool-cases (key == api_key)) [
  | inl same ↦ rw same (request-Views xray now c h)
  | inr other ↦ rw other h
]

checked-Views :
    (xray : Option Xray) (private : Bool) (answer : RestAnswer)
    → Views answer.0 xray
    → Views (rest_checked private answer).0 xray
checked-Views xray private (c, some refusal) h = h
checked-Views xray true (c, none) h = h
checked-Views xray false (c, none) h = h

validate-Views :
    (xray : Option Xray) (parse : String → Option ℕ) (api_key : ℕ) (header : String) (now : ℕ)
    (c : Controller)
    → Views c xray
    → Views (rest_validate parse api_key header now c).0 xray
unfolding rest_validate
validate-Views xray parse api_key header now c h = elim (Bool-cases (str_eq header "")) [
  | inl empty ↦ rw empty h
  | inr present ↦ rw present (key-Views xray api_key (parse header) now c h)
]

with_xray-IsViewed :
    (x x' : Xray) (n : Node) → IsViewed n → n.xray ≡ some x → IsViewed (with_xray x' n)
with_xray-IsViewed x x' n (same, held) has =
    (refl, subst (λ o. IsHeld o n.session) (same ∙ ap view_of has) held)

one-LeavesViewed :
    (pkg : Packages) (body : Option String) (received : Received) (n : Node) (xray : Option Xray)
    → IsViewed n
    → n.xray ≡ xray
    → LeavesViewed (sync_one_on pkg body received n xray)
one-LeavesViewed pkg body received n none h e = tt
one-LeavesViewed pkg body received n (some x) h e =
    LeavesViewed->>= (rest_sync_user pkg body received x) _
      (λ (x', reply). with_xray-IsViewed x x' n h e)

all-LeavesViewed :
    (pkg : Packages) (body : Option String) (answers : Answers) (users : List User) (n : Node)
    (xray : Option Xray)
    → IsViewed n
    → n.xray ≡ xray
    → LeavesViewed (sync_all_on pkg body answers users n xray)
all-LeavesViewed pkg body answers users n none h e = tt
all-LeavesViewed pkg body answers users n (some x) h e =
    LeavesViewed->>= (rest_sync_users pkg body answers users x) _
      (λ (x', reply). with_xray-IsViewed x x' n h e)

-- The handler disconnects where there is a backend.
take_over-unbacked : (port : ℕ) (c : Controller) → (take_over port c).backend ≡ none
take_over-unbacked port c = elim (Option-cases c.backend) [
  | inl closed ↦ ap (λ (d : Controller). d.backend) (take_over-none port c closed) ∙ closed
  | inr (b, running) ↦
      ap (λ (d : Controller). d.backend) (take_over-some port c b running)
      ∙ unfold disconnect in refl
]

launch-IsViewed : (s : Starting) (n : Node) (made : Created) → IsViewed (launch_with s n made).0
unfolding rest_start start_backend connect
launch-IsViewed s n (created x) = (refl, refl)
launch-IsViewed s n (Created.refused core message) =
    let gone = take_over-unbacked s.session.free_port n.session in (gone, rw gone tt)

from-LeavesViewed :
    (knows_ip : Bool) (pkg : Packages) (config : Config) (s : Starting) (n : Node)
    → IsViewed n
    → LeavesViewed (start_from knows_ip pkg config s n)
from-LeavesViewed false pkg config s n h = h
from-LeavesViewed true pkg config s n h =
    LeavesViewed->>= (new_xray _ _ _ _ _ _) _ (λ made. launch-IsViewed s n made)

start-LeavesViewed :
    (detected : Result Config) (knows_ip : Bool) (pkg : Packages) (s : Starting) (n : Node)
    → IsViewed n
    → LeavesViewed (start_detected detected knows_ip pkg s n)
start-LeavesViewed (fail message) knows_ip pkg s n h = h
start-LeavesViewed panic knows_ip pkg s n h = tt
start-LeavesViewed (ok config) knows_ip pkg s n h = from-LeavesViewed knows_ip pkg config s n h

handle-LeavesViewed :
    (pkg : Packages) (call : Call) (n : Node) → IsViewed n → LeavesViewed (handle pkg call n)
unfolding handle disconnect
handle-LeavesViewed pkg (start body knows_ip s) n h =
    start-LeavesViewed (detect_body body s) knows_ip pkg s n h
handle-LeavesViewed pkg (stop port) n h = (refl, tt)
handle-LeavesViewed pkg (sync_user body received) n h =
    one-LeavesViewed pkg body received n n.xray h refl
handle-LeavesViewed pkg (sync_users body answers users) n h =
    all-LeavesViewed pkg body answers users n n.xray h refl
handle-LeavesViewed pkg (read op) n h = h

admitted-LeavesViewed :
    (pkg : Packages) (call : Call) (n : Node) (answer : RestAnswer)
    → Views answer.0 n.xray
    → LeavesViewed (admitted pkg call n answer)
admitted-LeavesViewed pkg call n (c, some refusal) h = h
admitted-LeavesViewed pkg call n (c, none) h =
    handle-LeavesViewed pkg call (record n { session = c }) h

serve-LeavesViewed :
    (pkg : Packages) (parse : String → Option ℕ) (api_key : ℕ) (header : String) (now : ℕ)
    (call : Call) (n : Node)
    → IsViewed n
    → LeavesViewed (serve pkg parse api_key header now call n)
unfolding serve rest_access
serve-LeavesViewed pkg parse api_key header now call n h = admitted-LeavesViewed pkg call n _ (
    checked-Views n.xray (is_private (operation call)) _
      (validate-Views n.xray parse api_key header now n.session h))

left->>= {ℓ κ} :
    {A : Type ℓ} {B : Type κ} (r : Result (Node × A)) (k : Node × A → Result (Node × B))
    → LeavesViewed r
    → ((n : Node) (a : A) → IsViewed n → LeavesViewed (k (n, a)))
    → LeavesViewed (r >>= k)
left->>= (ok (n, a)) k left h = h n a left
left->>= (fail message) k left h = tt
left->>= panic k left h = tt

-- After whatever calls over REST that all return, with or without the key: the backend of the session is the one of the
-- node, running or not as its process is, and where there is one, the context that the next Disconnect cancels has
-- goroutines that run.
pub rest_serve_all-LeavesViewed :
    (pkg : Packages) (parse : String → Option ℕ) (api_key : ℕ) (calls : List (String × ℕ × Call))
    (n : Node)
    → IsViewed n
    → LeavesViewed (serve_all pkg parse api_key calls n)
unfolding serve_all
rest_serve_all-LeavesViewed pkg parse api_key [] n h = h
rest_serve_all-LeavesViewed pkg parse api_key ((header, now, call) ∷ calls) n h =
    left->>= (serve pkg parse api_key header now call n) _
      (serve-LeavesViewed pkg parse api_key header now call n h)
      (λ n' reply h'.
        left->>= (serve_all pkg parse api_key calls n') _
          (rest_serve_all-LeavesViewed pkg parse api_key calls n' h') (λ n'' replies h''. h''))
