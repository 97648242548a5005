-- ===== src/Xray/Client/Outbounds.antt =====
-- The calls for outbound users of backend/xray/api/proxyman.go, which nothing in the node uses.
use node_nats.Prelude.{ℕ, ◌≡◌, refl, String, Option, none, some, Result, ok, fail, panic}
use node_nats.Xray.Account.{Account, get_email, get_level}
use node_nats.Xray.Client.{
  TypedMessage, add_user_operation, remove_user_operation, Protobuf, to_typed_message, payload,
  message, AlterInbound, Sent, alert_inbound, or_error, send_add, send_remove,
}

-- AlterOutboundRequest
pub record AlterOutbound : Type 0 where
  pub tag : String
  pub operation : TypedMessage

abbrev pub SentOut : Type 0
SentOut = Option AlterOutbound × Option String

-- AlertOutbound
unfoldable pub alert_outbound :
    (AlterOutbound → Option String) → Option ℕ → String → TypedMessage → Result SentOut
alert_outbound core none tag operation = panic
alert_outbound core (some port) tag operation =
    let request : AlterOutbound = record { tag = tag; operation = operation } in
    ok (some request, core request)

-- AddOutboundUser
unfoldable pub send_add_outbound :
    Protobuf → (AlterOutbound → Option String) → Option ℕ → String → Account → Result SentOut
unfolding to_typed_message payload alert_outbound
send_add_outbound p core client tag account = or_error (message p account) (λ m.
    or_error (to_typed_message p (add_user_operation (get_level account) (get_email account) m))
      (λ operation. alert_outbound core client tag operation))

-- RemoveOutboundUser
unfoldable pub send_remove_outbound :
    Protobuf → (AlterOutbound → Option String) → Option ℕ → String → String → Result SentOut
unfolding to_typed_message alert_outbound
send_remove_outbound p core client tag email =
    or_error (to_typed_message p (remove_user_operation email))
      (λ operation. alert_outbound core client tag operation)

-- The same request to an inbound.
abbrev as_inbound : AlterOutbound → AlterInbound
as_inbound r = record { tag = r.tag; operation = r.operation }

abbrev sent_in : SentOut → Sent
sent_in (none, error) = (none, error)
sent_in (some r, error) = (some (as_inbound r), error)

abbrev in_result : Result SentOut → Result Sent
in_result (ok s) = ok (sent_in s)
in_result (fail e) = fail e
in_result panic = panic

in_result-or_error :
    (r : Result TypedMessage) (k : TypedMessage → Result SentOut) (k' : TypedMessage → Result Sent)
    → ((m : TypedMessage) → in_result (k m) ≡ k' m)
    → in_result (or_error r k) ≡ or_error r k'
in_result-or_error (ok m) k k' h = h m
in_result-or_error (fail e) k k' h = refl
in_result-or_error panic k k' h = refl

alert_outbound-alike :
    (core : AlterInbound → Option String) (client : Option ℕ) (tag : String)
    (operation : TypedMessage)
    → in_result (alert_outbound (λ r. core (as_inbound r)) client tag operation)
      ≡ alert_inbound core client tag operation
unfolding alert_outbound alert_inbound
alert_outbound-alike core none tag operation = refl
alert_outbound-alike core (some port) tag operation = refl

-- The calls for outbound users send what those for inbound users send, to the other request of the core.
send_outbound-alike :
    (p : Protobuf) (core : AlterInbound → Option String) (client : Option ℕ) (tag email : String)
    (account : Account)
    → (in_result (send_add_outbound p (λ r. core (as_inbound r)) client tag account)
        ≡ send_add p core client tag account)
      × (in_result (send_remove_outbound p (λ r. core (as_inbound r)) client tag email)
          ≡ send_remove p core client tag email)
unfolding send_add_outbound send_remove_outbound send_add send_remove
send_outbound-alike p core client tag email account =
    let alike = λ (operation : TypedMessage). alert_outbound-alike core client tag operation in
    (
      in_result-or_error (message p account) _ _
          (λ m. in_result-or_error (to_typed_message p _) _ _ alike),
      in_result-or_error (to_typed_message p (remove_user_operation email)) _ _ alike,
    )
