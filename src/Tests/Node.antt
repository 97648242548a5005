-- ===== src/Tests/Node.antt =====
-- The node under gRPC, with a client that has the key and one that has not.
use node_nats.Prelude.{
  ℕ, ◌≡◌, refl, inl, String, Option, none, some, List, [], ◌∷◌, true, false, str_eq, contains,
  lookup, All, ok,
}
use node_nats.Xray.Inbound.{kind_of}
use node_nats.Xray.Config.Api.{without_api}
use node_nats.Xray.User.Agreement.{HasCipher}
use node_nats.Controller.{Controller, new, Start}
use node_nats.Controller as Controller
use node_nats.Controller.Node.{
  Node, Starting, detect_backend, Call, start, stop, Reply, done, Sender, serve_all,
}
use node_nats.Controller.Node.Keeps.{HasKey, IsDenied, serve_all-IsDenied}
use node_nats.Controller.Node.Sound.{NodeHolds, Keeps, serve_all-NodeHolds}
use node_nats.Controller.Node.Serves.{IsServing, IsReady, counted, start_port, asked}
use node_nats.Controller.Node.Streams.{Stream, put_streams, calls_of, all_done, serve_all-IsServing}
use node_nats.Tests.Digest.{packages, counting-IsDigest}
use node_nats.Tests.Sync.{ann, bob, bare, secret, distinct, ann-HasUuids, bob-HasUuids}
use node_nats.Tests.Start.{no_policy, config_rules, old_api}
use node_nats.Tests.Process.{section}
use node_nats.Tests.Backend.{wanted, host, host-HasStarted, one, syncable}

-- uuid.Parse, on the one UUID that the tests use
abbrev pub parse : String → Option ℕ
parse text = elim (str_eq text "key") [ true ↦ some 5 | false ↦ none ]

abbrev pub sender : Sender
sender = record { metadata = some (("x-api-key", "key" ∷ []) ∷ []); now = 9 }

abbrev stranger : Sender
stranger = record { metadata = some (("x-api-key", "yek" ∷ "key" ∷ []) ∷ []); now = 9 }

abbrev pub fresh : Node
fresh = record { session = new 20000; xray = none }

abbrev pub starting : Starting
starting = record {
  session = record {
    detected = none;
    ip = "10.0.0.1";
    keep_alive = 60;
    launch = Controller.refused "";
    now = 10;
    free_port = 20001;
  };
  is_xray = true;
  decode_error = none;
  decoded = record wanted { inbounds = [] };
  inbounds = some bare ∷ some old_api ∷ some secret ∷ [];
  exclude = "none" ∷ [];
  users = ann ∷ bob ∷ [];
  debug = false;
  host = host;
}

abbrev streams : List Stream
streams =
    (sender, (bob, λ tag a. none) ∷ [])
    ∷ (sender, (record ann { proxies = none }, λ tag a. none) ∷ [])
    ∷ []

has_key : HasKey parse 5 sender
unfolding lookup
has_key = (("x-api-key", "key" ∷ []) ∷ [], "key", [], refl, refl, refl)

none-some : {A : Type 0} {a : A} → none ≡ some a → ⊥
none-some h = absurd (cc)

has_no_key : ¬ HasKey parse 5 stranger
unfolding lookup
has_no_key (md, header, others, given, found, parsed) = absurd (cc)

ready : IsReady packages wanted section starting
unfolding detect_backend
ready = record {
  detected = refl;
  passes = (refl, refl, (refl, refl, refl, refl), host-HasStarted, refl);
  has_log = refl;
  one_api = one;
  level = no_policy;
  rules = config_rules;
  syncable = syncable;
  distinct = distinct;
  uuids = (ann-HasUuids, (bob-HasUuids, tt));
}

wanted_ciphers : All (λ i. HasCipher (kind_of i)) (without_api wanted.inbounds)
unfolding kind_of lookup contains
wanted_ciphers = (tt, (refl, tt))

serve_all-IsServing_example :
    (n : Node) × (serve_all packages parse 5 ((sender, start starting) ∷ calls_of streams) fresh
      ≡ ok (n, done ∷ all_done streams))
    × IsServing packages
        (put_streams streams (ann ∷ bob ∷ []))
        (asked wanted (start_port starting (counted sender fresh)))
        n
serve_all-IsServing_example =
    serve_all-IsServing packages parse 5 sender starting wanted section streams fresh
      counting-IsDigest has_key ready wanted_ciphers
      ((has_key, ((refl, λ tag a. refl), tt)), ((has_key, ((refl, λ tag a. refl), tt)), tt))

abbrev attack : List (Sender × Call)
attack = (stranger, start starting) ∷ (stranger, stop 20002) ∷ []

serve_all-IsDenied_example :
    (replies : List Reply) × (serve_all packages parse 5 attack fresh ≡ ok (fresh, replies))
    × All IsDenied replies
serve_all-IsDenied_example =
    serve_all-IsDenied packages parse 5 attack fresh (has_no_key, (has_no_key, tt))

fresh-Holds : NodeHolds fresh
fresh-Holds = (inl (refl, refl, refl), refl)

serve_all-NodeHolds_example :
    Keeps
      (serve_all packages parse 5 ((sender, start starting) ∷ (stranger, stop 20002) ∷ []) fresh)
serve_all-NodeHolds_example =
    serve_all-NodeHolds packages parse 5 ((sender, start starting) ∷ (stranger, stop 20002) ∷ [])
      fresh fresh-Holds
