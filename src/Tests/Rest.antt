-- ===== src/Tests/Rest.antt =====
-- Calls over REST, and the interceptors of gRPC, at concrete requests.
use node_nats.Prelude.{ℕ, ◌≡◌, refl, String, none, some, List, [], ◌∷◌, true, lookup, ok}
use node_nats.Controller.Handlers.{http_error}
use node_nats.Controller.Node as Rpc
use node_nats.Controller.Node.{Node, Sender}
use node_nats.Controller.Node.Rest.{Call, start, stop, serve, serve_all}
use node_nats.Controller.Node.Rest.Views.{LeavesViewed, rest_serve_all-LeavesViewed}
use node_nats.Controller.Node.Rest.Alike.{SameOutcome, serve-SameOutcome}
use node_nats.Controller.Interceptors.{World, Chain, intercepted}
use node_nats.Controller.Interceptors.Chained.{Chains, handler_of, Follows, intercepted-Follows}
use node_nats.Tests.Digest.{packages}
use node_nats.Tests.Node.{parse, sender, fresh, starting}

abbrev md : List (String × List String)
md = ("x-api-key", "key" ∷ []) ∷ []

serve-SameOutcome_example :
    SameOutcome
      (start none true starting)
      (serve packages parse 5 "key" 9 (start none true starting) fresh)
      (Rpc.serve packages parse 5
        (record { metadata = some md; now = 9 })
        (Rpc.start starting)
        fresh)
unfolding lookup
serve-SameOutcome_example =
    serve-SameOutcome packages parse 5 md "key" [] 9 (start none true starting) fresh refl refl
      (refl, refl)

refused :
    serve packages parse 5 "yek" 9 (stop 20002) fresh
    ≡ ok (fresh, http_error 422 "invalid api key format: must be a valid UUID")
unfolding serve
refused = refl

abbrev calls : List (String × ℕ × Call)
calls = ("key", 9, start none true starting) ∷ ("yek", 10, stop 20002) ∷ ("", 11, stop 20003) ∷ []

rest_serve_all-LeavesViewed_example : LeavesViewed (serve_all packages parse 5 calls fresh)
rest_serve_all-LeavesViewed_example =
    rest_serve_all-LeavesViewed packages parse 5 calls fresh (refl, tt)

-- Each interceptor around those behind it.
abbrev chain : Chain
chain [] handler = handler
chain (i ∷ is) handler = i (chain is handler)

chains : Chains chain
chains = record { empty = λ handler. refl; outermost = λ i is handler. refl }

abbrev world : World
world = record { node = fresh; lines = [] }

intercepted-Follows_example :
    Follows "10.0.0.1:4000" "Start" []
      (intercepted chain parse 5 sender "10.0.0.1:4000" "Start"
        (Rpc.operation (Rpc.start starting))
        (handler_of packages (Rpc.start starting))
        world)
      (Rpc.serve packages parse 5 sender (Rpc.start starting) fresh)
intercepted-Follows_example =
    intercepted-Follows chain chains packages parse 5 sender "10.0.0.1:4000" "Start"
      (Rpc.start starting) world
