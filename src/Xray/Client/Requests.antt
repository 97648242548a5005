-- ===== src/Xray/Client/Requests.antt =====
-- What the core receives.
use mathlib.Core.Path.{subst}
use node_nats.Prelude.{
  ℕ, ◌≤◌, ◌≡◌, refl, sym, String, Option, none, some, List, [], ◌∷◌, arith, lookup, str_eq, All, ok,
  Option-cases, Bool-cases, inl, inr,
}
use node_nats.Common.User.{Bytes}
use node_nats.Xray.Account.{get_email, get_level, known_method, cipher_type_value}
use node_nats.Xray.User.{Call, remove_inbound_user, add_inbound_user}
use node_nats.Xray.Client.{
  TypedMessage, Message, add_user_operation, remove_user_operation, Protobuf, to_typed_message,
  payload, cipher_of, AlterInbound, Sent, alert_inbound, send_add, send_remove, perform,
  perform_all,
}

-- A decoder of what a marshaller writes.
abbrev Decodes : Protobuf → (TypedMessage → Option Message) → Type 0
Decodes p decode =
    (m : Message)
    → (bytes : Bytes) × (p.marshal m ≡ ok bytes)
      × (decode (record { type = p.message_name m; value = bytes }) ≡ some m)

-- The request asks, decoded, for what the call means.
abbrev Asks : Protobuf → (TypedMessage → Option Message) → Call → AlterInbound → Type 0
Asks p decode (remove_inbound_user tag email) r =
    (r.tag ≡ tag) × (decode r.operation ≡ some (remove_user_operation email))
Asks p decode (add_inbound_user tag account) r =
    (account_message : TypedMessage) × (r.tag ≡ tag)
    × (decode r.operation
        ≡ some (add_user_operation (get_level account) (get_email account) account_message))
    × (decode account_message ≡ some (payload p account))

module _ (p : Protobuf) (decode : TypedMessage → Option Message) (decodes : Decodes p decode)
    (core : AlterInbound → Option String) (port : ℕ) where
  typed : (m : Message) → (t : TypedMessage) × (to_typed_message p m ≡ ok t) × (decode t ≡ some m)
  unfolding to_typed_message
  typed m =
      let (bytes, done, back) = decodes m in
      (record { type = p.message_name m; value = bytes }, rw done refl, back)

  perform-Asks :
      (call : Call)
      → (r : AlterInbound) × (perform p core (some port) call ≡ ok (some r, core r))
        × Asks p decode call r
  unfolding perform send_add send_remove alert_inbound
  perform-Asks (remove_inbound_user tag email) =
      let (t, done, back) = typed (remove_user_operation email) in
      (record { tag = tag; operation = t }, rw done refl, (refl, back))
  perform-Asks (add_inbound_user tag account) =
      let (t, done, back) = typed (payload p account) in
      let (t', done', back') =
        typed (add_user_operation (get_level account) (get_email account) t) in
      (record { tag = tag; operation = t' }, rw (done, done') refl, (t, refl, back', back))

  abbrev EachAsks : List Call → List AlterInbound → Type 0
  EachAsks [] [] = Unit
  EachAsks (call ∷ calls) (r ∷ rs) = Asks p decode call r × EachAsks calls rs
  EachAsks _ _ = ⊥

  abbrev sent_with : List AlterInbound → List Sent
  sent_with [] = []
  sent_with (r ∷ rs) = (some r, core r) ∷ sent_with rs

  -- Where the decoder of the core reads back every message that the marshaller writes, the calls of SyncUser on an open client
  -- send one request each, in order, with the inbound's tag, which decodes to the removal of the email or to
  -- the addition of the account's level, email and message; each call returns the core's answer.
  perform_all-EachAsks :
      (calls : List Call)
      → (rs : List AlterInbound) × (perform_all p core (some port) calls ≡ ok (sent_with rs))
        × EachAsks calls rs
  unfolding perform_all
  perform_all-EachAsks [] = ([], refl, tt)
  perform_all-EachAsks (call ∷ calls) =
      let (r, one, asks) = perform-Asks call in
      let (rs, later, all) = perform_all-EachAsks calls in
      (r ∷ rs, rw (one, later) refl, (asks, all))

lookup-All :
    (P : ℕ → Type 0) (key : String) (entries : List (String × ℕ)) (n : ℕ)
    → All (λ (e : String × ℕ). P e.1) entries
    → lookup key entries ≡ some n
    → P n
unfolding lookup
lookup-All P key [] n h e = absurd (cc)
lookup-All P key (entry ∷ rest) n (one, h) e = elim (Bool-cases (str_eq entry.0 key)) [
  | inl same ↦ subst P (ground (arith, e, same)) one
  | inr other ↦ lookup-All P key rest n h (ground (arith, e, other))
]

abbrev Fits : ℕ → Type 0
Fits n = (5 ≤ n) × (n ≤ 9)

listed_fit : All (λ (e : String × ℕ). Fits e.1) cipher_type_value
listed_fit = ground arith

cipher_of-Fits :
    (method : String) (n : ℕ) → lookup method cipher_type_value ≡ some n → Fits (cipher_of method)
unfolding cipher_of
cipher_of-Fits method n found =
    subst (λ o. Fits (elim o [ none ↦ 0 | some n ↦ n ])) (sym found)
      (lookup-All Fits method cipher_type_value n listed_fit found)

none-Fits : Fits (cipher_of "none")
unfolding cipher_of lookup
none-Fits = (omega arith, omega arith)

-- The cipher of a method that NewShadowsocksTcpAccount has passed is one of the core's.
cipher_of-known_method : (method : String) → Fits (cipher_of (known_method method))
unfolding known_method
cipher_of-known_method method = elim (Option-cases (lookup method cipher_type_value)) [
  | inl unknown ↦
      subst (λ o. Fits (cipher_of (elim o [ none ↦ "none" | some _ ↦ method ]))) (sym unknown)
        none-Fits
  | inr (n, found) ↦
      subst (λ o. Fits (cipher_of (elim o [ none ↦ "none" | some _ ↦ method ]))) (sym found)
        (cipher_of-Fits method n found)
]
