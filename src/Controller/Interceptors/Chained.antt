-- ===== src/Controller/Interceptors/Chained.antt =====
-- The chain of interceptors around a handler, against the node that serves a call.
use mathlib.Core.Path.{subst}
use mathlib.Core.List.{append_assoc, append-nil}
use node_nats.Prelude.{
  ℕ, ◌≡◌, refl, sym, ap, ◌∙◌, inl, inr, String, Option, none, some, List, [], ◌∷◌, ◌++◌, Bool, true,
  false, All, mem, Bool-cases, Result, ok, fail, panic, ◌>>=◌, if◌then◌else◌,
}
use node_nats.Common.Codes.{Code}
use node_nats.Xray.Inbound.{Packages}
use node_nats.Controller.Access.{
  RpcAnswer, rpc_validate, rpc_checked, rpc_access, backend_status, backend_methods, full_method,
}
use node_nats.Controller.Node.{Node, Call, operation, Reply, Sender, handle, admitted, serve}
use node_nats.Controller.Interceptors.{
  LogLine, trying, invalid_key, ended, World, Handler, Interceptor, say, pass, validate_api_key,
  say_invalid, validate_stream_answer, validate_api_key_stream, check_backend, is_well, log_request,
  logging, logging_stream, Chain, conditional, conditional_stream, is_stream, intercepted,
}

-- What go-grpc-middleware documents of its chains: the first interceptor is the outermost.
pub record Chains (chain : Chain) : Type 0 where
  pub empty : (handler : Handler) → chain [] handler ≡ handler
  pub outermost :
      (i : Interceptor) (is : List Interceptor) (handler : Handler)
      → chain (i ∷ is) handler ≡ i (chain is handler)

-- The handler of a call.
abbrev pub handler_of : Packages → Call → Handler
handler_of pkg call w = handle pkg call w.node >>= (λ (n, reply). ok (record w { node = n }, reply))

abbrev pub IsOther : LogLine → Type 0
IsOther (ended ip method is_well) = ⊥
IsOther _ = Unit

-- The same node and reply, and one more line for the end of the call, which is the last.
abbrev pub Follows :
    (ip method : String) → List LogLine → Result (World × Reply) → Result (Node × Reply) → Type 0
Follows ip method log (ok (w, reply)) (ok (n, reply')) =
    (reply ≡ reply')
    × (w.node ≡ n)
    × ((others : List LogLine) × All IsOther others
        × (w.lines ≡ log ++ others ++ ended ip method (is_well reply) ∷ []))
Follows ip method log (fail e) (fail e') = e ≡ e'
Follows ip method log panic panic = Unit
Follows ip method log _ _ = ⊥

abbrev keep : World → Result (Node × Reply) → Result (World × Reply)
keep w r = r >>= (λ (n, reply). ok (record w { node = n }, reply))

abbrev checks : Bool → Interceptor
checks wants handler = if wants then check_backend handler else handler

passed :
    (pkg : Packages) (call : Call) (w : World) (n : Node) (o : Option (Code × String))
    → pass (handler_of pkg call) (record w { node = n }) o
      ≡ keep w (admitted pkg call n (n.session, o))
passed pkg call w n none = refl
passed pkg call w n (some refusal) = refl

-- The checks behind the log of a call.
checked :
    (pkg : Packages) (call : Call) (w : World) (n : Node) (wants : Bool) (a : RpcAnswer)
    → pass (checks wants (handler_of pkg call)) (record w { node = record n { session = a.0 } }) a.1
      ≡ keep w (admitted pkg call n (rpc_checked wants a))
unfolding check_backend
checked pkg call w n wants (c, some refusal) = refl
checked pkg call w n false (c, none) = refl
checked pkg call w n true (c, none) =
    passed pkg call w (record n { session = c }) (backend_status c.backend)

logged-Follows :
    (ip method : String) (log others : List LogLine) (w : World) (r : Result (Node × Reply))
    → All IsOther others
    → w.lines ≡ log ++ others
    → Follows ip method log
        (keep w r >>= (λ (w', reply). ok (log_request ip method reply w', reply)))
        r
logged-Follows ip method log others w (ok (n, reply)) h e =
    (refl, refl, (others, h, ap (λ l. l ++ ended ip method (is_well reply) ∷ []) e))
logged-Follows ip method log others w (fail m) h e = refl
logged-Follows ip method log others w panic h e = tt

module _ (chain : Chain) (laws : Chains chain) where
  chain-checks :
      (wants : Bool) (handler : Handler)
      → chain (if wants then check_backend ∷ [] else []) handler ≡ checks wants handler
  chain-checks false handler = laws.empty handler
  chain-checks true handler =
      laws.outermost check_backend [] handler ∙ ap check_backend (laws.empty handler)

  chained :
      (i j : Interceptor) (wants : Bool) (handler : Handler) (w : World)
      → chain (i ∷ j ∷ (if wants then check_backend ∷ [] else [])) handler w
        ≡ i (j (checks wants handler)) w
  chained i j wants handler w =
      ap (λ (f : Handler). f w)
        (laws.outermost i (j ∷ (if wants then check_backend ∷ [] else [])) handler
          ∙ ap i (
              laws.outermost j (if wants then check_backend ∷ [] else []) handler
              ∙ ap j (chain-checks wants handler)))

said :
    (o : Option (Code × String)) (n : Node) (w : World)
    → say_invalid o (record w { node = n }) ≡ record (say_invalid o w) { node = n }
said none n w = refl
said (some (code, message)) n w = refl

say_invalid-node : (o : Option (Code × String)) (w : World) → (say_invalid o w).node ≡ w.node
say_invalid-node none w = refl
say_invalid-node (some (code, message)) w = refl

say_invalid-log :
    (o : Option (Code × String)) (ip method : String) (w : World)
    → (others : List LogLine) × All IsOther others
      × ((say_invalid o (say (trying ip method) w)).lines ≡ w.lines ++ others)
say_invalid-log none ip method w = (trying ip method ∷ [], (tt, tt), refl)
say_invalid-log (some (code, message)) ip method w = (
  trying ip method ∷ invalid_key message ∷ [],
  (tt, (tt, tt)),
  append_assoc w.lines (trying ip method ∷ []) (invalid_key message ∷ []),
)

module _ (chain : Chain) (laws : Chains chain) (pkg : Packages) (parse : String → Option ℕ)
    (api_key : ℕ) (sender : Sender) (ip logged : String) (call : Call) (w : World) where
  abbrev access : RpcAnswer
  access = rpc_validate parse api_key sender.metadata sender.now w.node.session

  abbrev method : String
  method = full_method (operation call)

  unary-Follows :
      Follows ip logged w.lines
        (conditional chain parse api_key sender ip method logged (handler_of pkg call) w)
        (serve pkg parse api_key sender call w.node)
  unfolding conditional logging validate_api_key serve rpc_access
  unary-Follows =
      let wants = mem backend_methods method in
      let run =
        chained chain laws (logging ip logged) (validate_api_key parse api_key sender) wants
          (handler_of pkg call) w
        ∙ ap (λ r. r >>= (λ (w', reply). ok (log_request ip logged reply w', reply)))
            (checked pkg call w w.node wants access) in
      subst (λ r. Follows ip logged w.lines r (serve pkg parse api_key sender call w.node))
        (sym run)
        (logged-Follows ip logged w.lines [] w (admitted pkg call w.node (rpc_checked wants access))
          tt (sym (append-nil w.lines)))

  -- The world in which a stream is served: what it has logged before the handler.
  abbrev opened : World
  opened = say_invalid access.1 (say (trying ip logged) w)

  stream-checked :
      validate_stream_answer
        (checks (mem backend_methods method) (handler_of pkg call))
        (say (trying ip logged) w)
        access
      ≡ keep opened (admitted pkg call w.node (rpc_checked (mem backend_methods method) access))
  stream-checked =
      ap (λ v. pass (checks (mem backend_methods method) (handler_of pkg call)) v access.1)
        (said access.1 (record w.node { session = access.0 }) (say (trying ip logged) w))
      ∙ checked pkg call opened w.node (mem backend_methods method) access

  stream-Follows :
      Follows ip logged w.lines
        (conditional_stream chain parse api_key sender ip method logged (handler_of pkg call) w)
        (serve pkg parse api_key sender call w.node)
  unfolding conditional_stream logging_stream logging validate_api_key_stream serve rpc_access
  stream-Follows =
      let wants = mem backend_methods method in
      let (others, apart, log) = say_invalid-log access.1 ip logged w in
      let run =
        chained chain laws (logging_stream ip logged) (validate_api_key_stream parse api_key sender)
          wants (handler_of pkg call) w
        ∙ ap (λ r. r >>= (λ (w', reply). ok (log_request ip logged reply w', reply)))
            stream-checked in
      subst (λ r. Follows ip logged w.lines r (serve pkg parse api_key sender call w.node))
        (sym run)
        (logged-Follows ip logged w.lines others opened
          (admitted pkg call w.node (rpc_checked wants access)) apart log)

  -- With chains that put the first interceptor outermost: a call, unary or a stream, in the interceptors that the server has
  -- for it, gives the reply and the node of the model of whole calls, panics where that does, and else logs one
  -- line for its end, which is the last and says whether the call ended well.
  pub intercepted-Follows :
      Follows ip logged w.lines
        (intercepted chain parse api_key sender ip logged (operation call) (handler_of pkg call) w)
        (serve pkg parse api_key sender call w.node)
  unfolding intercepted
  intercepted-Follows = elim (Bool-cases (is_stream (operation call))) [
    | inl stream ↦ rw stream stream-Follows
    | inr unary ↦ rw unary unary-Follows
  ]
