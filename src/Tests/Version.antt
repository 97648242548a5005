-- ===== src/Tests/Version.antt =====
-- The core's version, and the node's start, at concrete texts.
use node_nats.Prelude.{
  Result, ok, fail, ℕ, ◌≡◌, refl, ◌↔◌, String, Option, none, some, [], ◌∷◌, ◌++◌, lookup,
}
use node_nats.Common.User.{Bytes}
use node_nats.Config.{codes, atoi, Env, load}
use node_nats.Config.Octets.{IsIpv4}
use node_nats.Controller.{new, disconnect}
use node_nats.Xray.Version.{output, failed, version, unknown, refresh_version, generate_config_file}
use node_nats.Xray.Version.Found.{IsVersion, refresh_version_iff}
use node_nats.Start.{
  shutdown_grpc, graceful, forced, listen_error, grpc, Surroundings, address, rest, fatal, served,
  main,
}
use node_nats.Start.Address.{address-RoundTrip}

abbrev banner : Bytes
banner = codes "Xray 25.3.6 (Xray, Penetrates Everything.)"

refresh_version_iff_example :
    (refresh_version (output banner) ≡ version (codes "25.3.6"))
    ↔ ((behind : Bytes) × IsVersion banner (codes "25.3.6") behind)
refresh_version_iff_example = refresh_version_iff banner (codes "25.3.6")

versions :
    (refresh_version (output banner) ≡ version (codes "25.3.6"))
    × (refresh_version (output (codes "Xray 25.3")) ≡ unknown "could not parse Xray version")
    × (refresh_version (output (codes " Xray 25.3.6")) ≡ unknown "could not parse Xray version")
    × (refresh_version (failed "no such file") ≡ unknown "no such file")
unfolding refresh_version
versions = (refl, refl, refl, refl)

unmade :
    generate_config_file none (some "denied") none none
    ≡ some "failed to create config directory: denied"
unfolding generate_config_file
unmade = refl

abbrev env : Env
env name =
    lookup name
      (("NODE_HOST", "10.0.0.2") ∷ ("SERVICE_PORT", "+0443") ∷ ("SERVICE_PROTOCOL", "rest") ∷ [])

abbrev parse : String → Option ℕ
parse text = none

address-RoundTrip_example :
    (host port : Bytes) × (address (load parse env) ≡ host ++ (58 ∷ port))
    × IsIpv4 host
    × (atoi port ≡ some (load parse env).service_port)
address-RoundTrip_example = address-RoundTrip parse env

abbrev machine : Result (Unit {0}) → Surroundings (Unit {0})
machine pair = record { load_pair = λ cert key. pair; listen = λ protocol addr. none }

ends :
    main parse env (machine (ok tt)) 40000 (new 20000)
    ≡ served rest (codes "10.0.0.2:443") (disconnect 40000 (new 20000))
unfolding main lookup
ends = refl

no_certificates :
    main parse env (machine (fail "no such file")) 40000 (new 20000) ≡ fatal (codes "no such file")
unfolding main
no_certificates = refl

refused :
    listen_error grpc (codes "10.0.0.2:443") (some "address in use")
    ≡ some (codes "failed to listen on 10.0.0.2:443: address in use")
refused = refl

forced_stop :
    shutdown_grpc (some "deadline exceeded") ≡ (graceful ∷ forced ∷ [], some "deadline exceeded")
forced_stop = refl
