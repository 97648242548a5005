-- ===== src/Controller/Node/Rest/Denied.antt =====
-- A caller of the node under REST without the key.
use node_nats.Prelude.{
  ℕ, ◌≡◌, refl, ap, inl, inr, String, Option, none, some, false, str_eq, ◌==◌, ==_iff, Bool-cases,
  ok,
}
use node_nats.Xray.Inbound.{Packages}
use node_nats.Controller.{Controller}
use node_nats.Controller.Access.{
  RestAnswer, rest_key, rest_validate, rest_checked, rest_access, is_private,
}
use node_nats.Controller.Handlers.{http_error}
use node_nats.Controller.Node.{Node}
use node_nats.Controller.Node.Rest.{Call, operation, admitted, serve}

abbrev HasKey : (String → Option ℕ) → ℕ → String → Type 0
HasKey parse api_key header = (str_eq header "" ≡ false) × (parse header ≡ some api_key)

abbrev Refuses : RestAnswer → Controller → Type 0
Refuses answer c = (status : ℕ) × (message : String) × (answer ≡ (c, some (status, message)))

key-Refuses :
    (api_key : ℕ) (key : Option ℕ) (now : ℕ) (c : Controller)
    → ¬ (key ≡ some api_key)
    → Refuses (rest_key api_key key now c) c
key-Refuses api_key none now c h = (_, _, refl)
key-Refuses api_key (some key) now c h = elim (Bool-cases (key == api_key)) [
  | inl same ↦ absurd (h (ap some ((==_iff key api_key).0 same)))
  | inr other ↦ rw other (_, _, refl)
]

validate-Refuses :
    (parse : String → Option ℕ) (api_key : ℕ) (header : String) (now : ℕ) (c : Controller)
    → ¬ HasKey parse api_key header
    → Refuses (rest_validate parse api_key header now c) c
unfolding rest_validate
validate-Refuses parse api_key header now c h = elim (Bool-cases (str_eq header "")) [
  | inl empty ↦ rw empty (_, _, refl)
  | inr present ↦ rw present (key-Refuses api_key (parse header) now c (λ key. h (present, key)))
]

-- A call over REST whose header is empty or is no UUID or another one is refused, whatever it asks for, and leaves the
-- node as it was.
serve-refused :
    (pkg : Packages) (parse : String → Option ℕ) (api_key : ℕ) (header : String) (now : ℕ)
    (call : Call) (n : Node)
    → ¬ HasKey parse api_key header
    → (status : ℕ) × (message : String) × (serve pkg parse api_key header now call n
        ≡ ok (n, http_error status message))
unfolding serve rest_access
serve-refused pkg parse api_key header now call n h =
    let (status, message, e) = validate-Refuses parse api_key header now n.session h in
    (
      status,
      message,
      ap (λ a. admitted pkg call n (rest_checked (is_private (operation call)) a)) e,
    )
