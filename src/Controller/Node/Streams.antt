-- ===== src/Controller/Node/Streams.antt =====
-- A client that starts the core and sends streams of users.
use node_nats.Prelude.{ℕ, ◌≡◌, refl, ap, ◌∙◌, String, Option, List, [], ◌∷◌, All, ok, ◌>>=◌}
use node_nats.Common.User.{User}
use node_nats.Common.Password.Laws.{IsDigest}
use node_nats.Xray.Inbound.{Packages, Inbound, kind_of}
use node_nats.Xray.Config.{Config, LogConfig, api_inbound}
use node_nats.Xray.Config.Api.{without_api}
use node_nats.Xray.User.Agreement.{HasCipher}
use node_nats.Controller.Handlers.{Received}
use node_nats.Controller.Handlers.Stream.{
  put_all, IsAccepted, rpc_sync_user-FullSync, with_inbounds,
}
use node_nats.Controller.Node.{
  Node, view, with_xray, Starting, Call, start, sync_user, Reply, done, reply_of_call, sync_stream,
  handle, Sender, admitted, serve, serve_all,
}
use node_nats.Controller.Node.Keeps.{HasKey}
use node_nats.Controller.Node.Serves.{
  running_passes, IsServing, IsReady, counted, start_port, asked, serve-start,
}

abbrev pub Stream : Type 0
Stream = Sender × List Received

abbrev pub put_streams : List Stream → List User → List User
put_streams [] us = us
put_streams ((sender, received) ∷ streams) us = put_streams streams (put_all received us)

abbrev pub calls_of : List Stream → List (Sender × Call)
calls_of [] = []
calls_of ((sender, received) ∷ streams) = (sender, sync_user received) ∷ calls_of streams

abbrev pub all_done : List Stream → List Reply
all_done [] = []
all_done (s ∷ streams) = done ∷ all_done streams

module _ (pkg : Packages) (digest : IsDigest pkg.sha256) (parse : String → Option ℕ) (api_key : ℕ)
    (base : List Inbound) (ciphers : All (λ i. HasCipher (kind_of i)) base) where
  serve-sync_user :
      (sender : Sender) (received : List Received) (us : List User) (n : Node)
      → HasKey parse api_key sender
      → All IsAccepted received
      → IsServing pkg us base n
      → (n' : Node) × (serve pkg parse api_key sender (sync_user received) n ≡ ok (n', done))
        × IsServing pkg (put_all received us) base n'
  unfolding serve handle
  serve-sync_user sender received us n key accepted h =
      let x = h.xray in
      let n₁ = counted sender n in
      let (is, run, synced) =
        rpc_sync_user-FullSync pkg digest base ciphers received us x accepted h.synced in
      let x' = with_inbounds is x in
      (
        with_xray x' n₁,
        ap (admitted pkg (sync_user received) n)
              (running_passes parse api_key sender n.session (view x) key h.seen h.up)
            ∙ ap (sync_stream pkg received n₁) h.has
            ∙ ap (λ r. r >>= (λ (x', error). ok (with_xray x' n₁, reply_of_call error))) run,
        record { xray = x'; has = refl; seen = refl; up = h.up; synced = synced },
      )

  serve-streams :
      (streams : List Stream) (us : List User) (n : Node)
      → All (λ (s : Stream). HasKey parse api_key s.0 × All IsAccepted s.1) streams
      → IsServing pkg us base n
      → (n' : Node) × (serve_all pkg parse api_key (calls_of streams) n ≡ ok (n', all_done streams))
        × IsServing pkg (put_streams streams us) base n'
  unfolding serve_all
  serve-streams [] us n h serving = (n, refl, serving)
  serve-streams ((sender, received) ∷ streams) us n ((key, accepted), h) serving =
      let (n₁, one, serving₁) = serve-sync_user sender received us n key accepted serving in
      let (n₂, later, serving₂) = serve-streams streams (put_all received us) n₁ h serving₁ in
      (n₂, rw (one, later) refl, serving₂)

api_inbound-HasCipher : (port : ℕ) → HasCipher (kind_of (api_inbound port))
unfolding kind_of
api_inbound-HasCipher port = tt

-- On any node, a client with the key sends a start and then any number of streams of users with emails, whose calls the
-- core accepts. The start is ready: its configuration decodes, has a log section, at most one inbound of the API's tag,
-- rules that decode into maps, no nil at level 0 and else inbounds with no users or clients that fit; its users have
-- distinct emails and UUIDs as ids, and nothing fails on the system's side. The digest has 32 bytes, and each Shadowsocks
-- 2022 inbound has a method that names a cipher. Then every call ends well, the node runs a
-- core, and the inbounds of its configuration, the API's first, are synchronised to the users of the start with those of
-- the streams put in, in order.
pub serve_all-IsServing :
    (pkg : Packages) (parse : String → Option ℕ) (api_key : ℕ) (sender : Sender) (s : Starting)
    (config : Config) (l : LogConfig) (streams : List Stream) (n : Node)
    → IsDigest pkg.sha256
    → HasKey parse api_key sender
    → IsReady pkg config l s
    → All (λ i. HasCipher (kind_of i)) (without_api config.inbounds)
    → All (λ (stream : Stream). HasKey parse api_key stream.0 × All IsAccepted stream.1) streams
    → (n' : Node) × (serve_all pkg parse api_key ((sender, start s) ∷ calls_of streams) n
        ≡ ok (n', done ∷ all_done streams))
      × IsServing pkg
          (put_streams streams s.users)
          (asked config (start_port s (counted sender n)))
          n'
unfolding serve_all
serve_all-IsServing pkg parse api_key sender s config l streams n digest key ready ciphers h =
    let port = start_port s (counted sender n) in
    let (n₁, one, serving) = serve-start pkg parse api_key sender s n config l key ready in
    let (n₂, later, served) =
      serve-streams pkg digest parse api_key (asked config port)
        (api_inbound-HasCipher port, ciphers) streams s.users n₁ h serving in
    (n₂, rw (one, later) refl, served)
