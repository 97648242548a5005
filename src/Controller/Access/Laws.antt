-- ===== src/Controller/Access/Laws.antt =====
-- The two protocols decide alike, and a call passes exactly with the node's key and, where it wants
-- one, a running backend.
use node_nats.Prelude.{
  ℕ, ◌≡◌, refl, ap, ◌↔◌, ◌⊎◌, inl, inr, String, Option, none, some, List, ◌∷◌, Bool, true, false,
  arith, ◌==◌, str_eq, lookup, mem, Bool-cases,
}
use node_nats.Controller.{Backend, Controller, new_request}
use node_nats.Controller.Access.{
  RpcAnswer, RestAnswer, rpc_key, rest_key, rpc_validate, backend_status, backend_methods,
  rpc_checked, rpc_access, rest_validate, rest_status, rest_checked, rest_access, Operation, start,
  info, stop, logs, stats, user_online, user_online_ip, backend_stats, system_stats, sync_user,
  sync_users, is_private, full_method,
}

-- The method table of gRPC has the private routes of REST.
pub mem-backend_methods : (op : Operation) → mem backend_methods (full_method op) ≡ is_private op
unfolding mem
mem-backend_methods start = refl
mem-backend_methods info = refl
mem-backend_methods stop = refl
mem-backend_methods logs = refl
mem-backend_methods stats = refl
mem-backend_methods user_online = refl
mem-backend_methods user_online_ip = refl
mem-backend_methods backend_stats = refl
mem-backend_methods system_stats = refl
mem-backend_methods sync_user = refl
mem-backend_methods sync_users = refl

-- The same session, and both pass or both refuse with the same text.
abbrev pub Agrees : RpcAnswer → RestAnswer → Type 0
Agrees (c, none) (c', none) = c ≡ c'
Agrees (c, none) (c', some refusal) = ⊥
Agrees (c, some refusal) (c', none) = ⊥
Agrees (c, some (code, message)) (c', some (status, message')) = (c ≡ c') × (message ≡ message')

key-Agrees :
    (api_key : ℕ) (key : Option ℕ) (now : ℕ) (c : Controller)
    → Agrees (rpc_key api_key key now c) (rest_key api_key key now c)
key-Agrees api_key none now c = (refl, refl)
key-Agrees api_key (some key) now c = elim (Bool-cases (key == api_key)) [
  | inl same ↦ rw same refl
  | inr other ↦ rw other (refl, refl)
]

status-Agrees :
    (c : Controller) (b : Option Backend) → Agrees (c, backend_status b) (c, rest_status b)
status-Agrees c none = (refl, refl)
status-Agrees c (some b) = elim (Bool-cases b.started) [
  | inl running ↦ rw running refl
  | inr stopped ↦ rw stopped (refl, refl)
]

checked-Agrees :
    (wants : Bool) (api_key : ℕ) (key : Option ℕ) (now : ℕ) (c : Controller)
    → Agrees
        (rpc_checked wants (rpc_key api_key key now c))
        (rest_checked wants (rest_key api_key key now c))
checked-Agrees wants api_key none now c = (refl, refl)
checked-Agrees wants api_key (some key) now c = elim (Bool-cases (key == api_key)) [
  | inl same ↦ rw same (passed wants)
  | inr other ↦ rw other (refl, refl)
]
  where
    passed :
        (wants : Bool)
        → Agrees
            (rpc_checked wants (new_request now c, none))
            (rest_checked wants (new_request now c, none))
    passed false = refl
    passed true = status-Agrees (new_request now c) (new_request now c).backend

-- For every call with the same header, which is not empty and comes first in the metadata's values, gRPC and REST leave
-- the same session, and both let it pass or both refuse it with the same text.
pub rpc_access-Agrees :
    (parse : String → Option ℕ) (api_key : ℕ) (op : Operation) (md : List (String × List String))
    (header : String) (others : List String) (now : ℕ) (c : Controller)
    → lookup "x-api-key" md ≡ some (header ∷ others)
    → str_eq header "" ≡ false
    → Agrees
        (rpc_access parse api_key (full_method op) (some md) now c)
        (rest_access parse api_key op header now c)
unfolding rpc_access rpc_validate rest_access rest_validate
rpc_access-Agrees parse api_key op md header others now c values present =
    rw (mem-backend_methods op, values, present)
      (checked-Agrees (is_private op) api_key (parse header) now c)

-- The core of the node is running.
abbrev pub IsRunning : Controller → Type 0
IsRunning c = (b : Backend) × (c.backend ≡ some b) × (b.started ≡ true)

abbrev pub IsPermitted : (String → Option ℕ) → ℕ → Operation → String → Controller → Type 0
IsPermitted parse api_key op header c =
    (str_eq header "" ≡ false)
    × (parse header ≡ some api_key)
    × ((is_private op ≡ false) ⊎ IsRunning c)

status_passed :
    (b : Option Backend) → rest_status b ≡ none → (x : Backend) × (b ≡ some x) × (x.started ≡ true)
status_passed none h = ground arith
status_passed (some b) h = (b, refl, ground arith)

running_passes :
    (b : Option Backend) (x : Backend) → b ≡ some x → x.started ≡ true → rest_status b ≡ none
running_passes b x e h = rw (e, h) refl

checked-passes :
    (wants : Bool) (c : Controller)
    → ((rest_checked wants (c, none)).1 ≡ none) ↔ ((wants ≡ false) ⊎ IsRunning c)
checked-passes false c = ground arith
checked-passes true c = (
  λ h. inr (status_passed c.backend h),
  λ r. elim r [ inl e ↦ ground arith | inr (x, e, h) ↦ running_passes c.backend x e h ],
)

key-passes :
    (wants : Bool) (api_key : ℕ) (key : Option ℕ) (now : ℕ) (c : Controller)
    → ((rest_checked wants (rest_key api_key key now c)).1 ≡ none)
      ↔ ((key ≡ some api_key) × ((wants ≡ false) ⊎ IsRunning c))
unfolding new_request
key-passes wants api_key none now c = ground arith
key-passes wants api_key (some key) now c = elim (Bool-cases (key == api_key)) [
  | inl same ↦
      let p = checked-passes wants (new_request now c) in
      rw same (λ h. (ap some (ground arith), p.0 h), λ r. p.1 r.1)
  | inr other ↦ rw other (ground arith)
]

-- A call over REST passes exactly where the header is not empty and parses to the node's key, and the route is public or
-- the core is running.
pub rest_access-IsPermitted :
    (parse : String → Option ℕ) (api_key : ℕ) (op : Operation) (header : String) (now : ℕ)
    (c : Controller)
    → ((rest_access parse api_key op header now c).1 ≡ none) ↔ IsPermitted parse api_key op header c
unfolding rest_access rest_validate
rest_access-IsPermitted parse api_key op header now c = elim (Bool-cases (str_eq header "")) [
  | inl empty ↦ rw empty (ground arith)
  | inr present ↦
      let p = key-passes (is_private op) api_key (parse header) now c in
      rw present (λ h. let (k, r) = p.0 h in (refl, k, r), λ (_, k, r). p.1 (k, r))
]
