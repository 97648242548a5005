-- ===== src/Tests/Access.antt =====
-- The access checks of controller/ at a concrete key and session.
use node_nats.Prelude.{
  ℕ, ◌≡◌, ◌↔◌, refl, none, some, String, Option, List, [], ◌∷◌, str_eq, lookup, if◌then◌else◌,
}
use node_nats.Controller.{new}
use node_nats.Controller.Access.{rpc_access, rest_access, stop, start, full_method}
use node_nats.Controller.Access.Laws.{
  Agrees, IsPermitted, rpc_access-Agrees, rest_access-IsPermitted,
}
use node_nats.Tests.Session.{opened}

-- A parser that reads one text.
abbrev parse : String → Option ℕ
parse header = if str_eq header "key" then some 7 else none

abbrev metadata : List (String × List String)
metadata = ("user-agent", "panel" ∷ []) ∷ ("x-api-key", "key" ∷ "other" ∷ []) ∷ []

rpc_access-Agrees_example :
    Agrees
      (rpc_access parse 7 (full_method stop) (some metadata) 9 opened)
      (rest_access parse 7 stop "key" 9 opened)
unfolding lookup
rpc_access-Agrees_example =
    rpc_access-Agrees parse 7 stop metadata "key" ("other" ∷ []) 9 opened refl refl

rest_access-IsPermitted_example :
    ((rest_access parse 7 stop "key" 9 (new 10000)).1 ≡ none)
    ↔ IsPermitted parse 7 stop "key" (new 10000)
rest_access-IsPermitted_example = rest_access-IsPermitted parse 7 stop "key" 9 (new 10000)

start_with_key : (rest_access parse 7 start "key" 9 (new 10000)).1 ≡ none
unfolding rest_access
start_with_key = refl

stop_without_backend :
    (rest_access parse 7 stop "key" 9 (new 10000)).1 ≡ some (500, "backend not initialized")
unfolding rest_access
stop_without_backend = refl
