-- ===== src/Controller/Node/Keeps.antt =====
-- What every call keeps of the node, and that a caller without the key changes nothing.
use node_nats.Prelude.{
  ℕ, ◌≡◌, refl, ap, inl, inr, String, Option, none, some, List, [], ◌∷◌, ◌==◌, All, lookup, mem,
  Bool-cases, ok, ==_iff,
}
use node_nats.Common.Codes.{Code}
use node_nats.Xray.Inbound.{Packages}
use node_nats.Controller.{Controller}
use node_nats.Controller.Access.{
  RpcAnswer, rpc_key, rpc_header, rpc_validate, rpc_checked, rpc_access, backend_methods,
  full_method,
}
use node_nats.Controller.Node.{
  Node, Call, operation, Reply, denied, Sender, admitted, serve, serve_all,
}

-- The key that the node expects, as the first value in the metadata.
abbrev pub HasKey : (String → Option ℕ) → ℕ → Sender → Type 0
HasKey parse api_key sender =
    (md : List (String × List String)) × (header : String) × (others : List String)
    × (sender.metadata ≡ some md)
    × (lookup "x-api-key" md ≡ some (header ∷ others))
    × (parse header ≡ some api_key)

abbrev Refuses : RpcAnswer → Controller → Type 0
Refuses answer c = (code : Code) × (message : String) × (answer ≡ (c, some (code, message)))

key-Refuses :
    (api_key : ℕ) (key : Option ℕ) (now : ℕ) (c : Controller)
    → ¬ (key ≡ some api_key)
    → Refuses (rpc_key api_key key now c) c
key-Refuses api_key none now c h = (_, _, refl)
key-Refuses api_key (some key) now c h = elim (Bool-cases (key == api_key)) [
  | inl same ↦ absurd (h (ap some ((==_iff key api_key).0 same)))
  | inr other ↦ rw other (_, _, refl)
]

header-Refuses :
    (parse : String → Option ℕ) (api_key : ℕ) (values : Option (List String)) (now : ℕ)
    (c : Controller)
    → ((header : String) (others : List String)
        → values ≡ some (header ∷ others)
        → ¬ (parse header ≡ some api_key))
    → Refuses (rpc_header parse api_key values now c) c
header-Refuses parse api_key none now c h = (_, _, refl)
header-Refuses parse api_key (some []) now c h = (_, _, refl)
header-Refuses parse api_key (some (header ∷ others)) now c h =
    key-Refuses api_key (parse header) now c (h header others refl)

validate-Refuses :
    (parse : String → Option ℕ) (api_key : ℕ) (md : Option (List (String × List String))) (now : ℕ)
    (c : Controller)
    → ¬ HasKey parse api_key (record { metadata = md; now = now })
    → Refuses (rpc_validate parse api_key md now c) c
unfolding rpc_validate
validate-Refuses parse api_key none now c h = (_, _, refl)
validate-Refuses parse api_key (some md) now c h =
    header-Refuses parse api_key (lookup "x-api-key" md) now c
      (λ header others found key. h (md, header, others, refl, found, key))

access-Refuses :
    (parse : String → Option ℕ) (api_key : ℕ) (method : String) (sender : Sender) (c : Controller)
    → ¬ HasKey parse api_key sender
    → Refuses (rpc_access parse api_key method sender.metadata sender.now c) c
unfolding rpc_access
access-Refuses parse api_key method sender c h =
    let (code, message, e) = validate-Refuses parse api_key sender.metadata sender.now c h in
    (code, message, ap (rpc_checked (mem backend_methods method)) e)

abbrev pub IsDenied : Reply → Type 0
IsDenied (denied code message) = Unit
IsDenied _ = ⊥

serve-IsDenied :
    (pkg : Packages) (parse : String → Option ℕ) (api_key : ℕ) (sender : Sender) (call : Call)
    (n : Node)
    → ¬ HasKey parse api_key sender
    → (reply : Reply) × (serve pkg parse api_key sender call n ≡ ok (n, reply)) × IsDenied reply
unfolding serve
serve-IsDenied pkg parse api_key sender call n h =
    let (code, message, e) =
      access-Refuses parse api_key (full_method (operation call)) sender n.session h in
    (denied code message, ap (admitted pkg call n) e, tt)

-- Calls whose metadata does not have the node's key as its first key, whatever they ask for and in whatever order, are all
-- denied, and leave the node as it was, the time of the last request included.
pub serve_all-IsDenied :
    (pkg : Packages) (parse : String → Option ℕ) (api_key : ℕ) (calls : List (Sender × Call))
    (n : Node)
    → All (λ (c : Sender × Call). ¬ HasKey parse api_key c.0) calls
    → (replies : List Reply) × (serve_all pkg parse api_key calls n ≡ ok (n, replies))
      × All IsDenied replies
unfolding serve_all
serve_all-IsDenied pkg parse api_key [] n h = ([], refl, tt)
serve_all-IsDenied pkg parse api_key ((sender, call) ∷ calls) n (keyless, h) =
    let (reply, one, refused) = serve-IsDenied pkg parse api_key sender call n keyless in
    let (replies, later, all) = serve_all-IsDenied pkg parse api_key calls n h in
    (reply ∷ replies, rw (one, later) refl, (refused, all))
