-- ===== src/Xray/Client.antt =====
-- backend/xray/api/base.go, message.go and proxyman.go: the client of the core's API, with the Message methods of
-- account.go. proto.Marshal, the text of a UUID and the core's answers are arguments.
pub mod Requests
pub mod Outbounds
use node_nats.Prelude.{
  ℕ, String, Option, none, some, List, [], ◌∷◌, lookup, Result, ok, fail, panic, ◌>>=◌,
}
use node_nats.Common.User.{Bytes}
use node_nats.Xray.Account.{
  Uuid, VmessAccount, VlessAccount, TrojanAccount, ShadowsocksAccount, ShadowsocksTcpAccount,
  Account, vmess, vless, trojan, shadowsocks_tcp, shadowsocks, get_email, get_level,
  cipher_type_value,
}
use node_nats.Xray.User.{Call, remove_inbound_user, add_inbound_user}

-- serial.TypedMessage: the name of a message and its bytes.
pub record TypedMessage : Type 0 where
  pub type : String
  pub value : Bytes

-- The messages that the client sends, by the core's types.
pub data Message : Type 0 where
  vmess_account : (id : String) → Message
  vless_account : (id flow : String) → Message
  trojan_account : (password : Bytes) → Message
  shadowsocks_account : (password : Bytes) (cipher_type : ℕ) → Message
  shadowsocks_2022_account : (key : Bytes) → Message
  add_user_operation : (level : ℕ) (email : String) (account : TypedMessage) → Message
  remove_user_operation : (email : String) → Message

-- proto.Marshal, with its error, and proto.MessageName; UUID.String.
pub record Protobuf : Type 0 where
  pub marshal : Message → Result Bytes
  pub message_name : Message → String
  pub uuid_text : Uuid → String

unfoldable pub to_typed_message : Protobuf → Message → Result TypedMessage
to_typed_message p m = do
  data' ← p.marshal m
  ok (record { type = p.message_name m; value = data' })

-- A missing key of the table of ciphers is 0.
unfoldable pub cipher_of : String → ℕ
unfolding lookup
cipher_of method = elim (lookup method cipher_type_value) [ none ↦ 0 | some n ↦ n ]

abbrev pub vmess_payload : Protobuf → VmessAccount → Message
vmess_payload p a = vmess_account (p.uuid_text a.id)

abbrev pub vless_payload : Protobuf → VlessAccount → Message
vless_payload p a = vless_account (p.uuid_text a.id) a.flow

abbrev pub trojan_payload : TrojanAccount → Message
trojan_payload a = trojan_account a.password

abbrev pub shadowsocks_payload : ShadowsocksAccount → Message
shadowsocks_payload a = shadowsocks_2022_account a.password

unfoldable pub shadowsocks_tcp_payload : ShadowsocksTcpAccount → Message
unfolding cipher_of
shadowsocks_tcp_payload a = shadowsocks_account a.password (cipher_of a.method)

-- The message that the account's Message method wraps.
unfoldable pub payload : Protobuf → Account → Message
unfolding shadowsocks_tcp_payload
payload p (vmess a) = vmess_payload p a
payload p (vless a) = vless_payload p a
payload p (trojan a) = trojan_payload a
payload p (shadowsocks_tcp a) = shadowsocks_tcp_payload a
payload p (shadowsocks a) = shadowsocks_payload a

abbrev pub message : Protobuf → Account → Result TypedMessage
message p account = to_typed_message p (payload p account)

-- AlterInboundRequest
pub record AlterInbound : Type 0 where
  pub tag : String
  pub operation : TypedMessage

-- What a call has sent: the request to the core, where it got so far, and its error.
abbrev pub Sent : Type 0
Sent = Option AlterInbound × Option String

-- AlertInbound, on a client that is open (`some`) or closed, and with what the core answers.
unfoldable pub alert_inbound :
    (AlterInbound → Option String) → Option ℕ → String → TypedMessage → Result Sent
alert_inbound core none tag operation = panic
alert_inbound core (some port) tag operation =
    let request : AlterInbound = record { tag = tag; operation = operation } in
    ok (some request, core request)

-- An error of the marshaller is returned before a request is sent.
abbrev pub or_error :
    {R : Type 0}
    → Result TypedMessage
    → (TypedMessage → Result (Option R × Option String))
    → Result (Option R × Option String)
or_error (ok m) k = k m
or_error (fail e) k = ok (none, some e)
or_error panic k = panic

unfoldable pub send_add :
    Protobuf → (AlterInbound → Option String) → Option ℕ → String → Account → Result Sent
unfolding to_typed_message payload alert_inbound
send_add p core client tag account = or_error (message p account) (λ m.
    or_error (to_typed_message p (add_user_operation (get_level account) (get_email account) m))
      (λ operation. alert_inbound core client tag operation))

unfoldable pub send_remove :
    Protobuf → (AlterInbound → Option String) → Option ℕ → String → String → Result Sent
unfolding to_typed_message alert_inbound
send_remove p core client tag email =
    or_error (to_typed_message p (remove_user_operation email))
      (λ operation. alert_inbound core client tag operation)

-- The calls of SyncUser, on the client.
unfoldable pub perform : Protobuf → (AlterInbound → Option String) → Option ℕ → Call → Result Sent
unfolding send_add send_remove
perform p core client (remove_inbound_user tag email) = send_remove p core client tag email
perform p core client (add_inbound_user tag account) = send_add p core client tag account

unfoldable pub perform_all :
    Protobuf → (AlterInbound → Option String) → Option ℕ → List Call → Result (List Sent)
unfolding perform
perform_all p core client [] = ok []
perform_all p core client (call ∷ calls) = do
  sent ← perform p core client call
  rest ← perform_all p core client calls
  ok (sent ∷ rest)

-- NewXrayAPI: the client of a port, or grpc.NewClient's error. Close drops it.
unfoldable pub new_xray_api : Option String → ℕ → Result (Option ℕ)
new_xray_api none port = ok (some port)
new_xray_api (some e) port = fail e
