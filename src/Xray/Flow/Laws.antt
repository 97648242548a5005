-- ===== src/Xray/Flow/Laws.antt =====
-- When checkVless of backend/xray/user.go keeps the flow of an account.
use node_nats.Prelude.{
  String, ◌≡◌, refl, ap, ◌≢◌, ◌⊎◌, ◌↔◌, inl, inr, Option, none, some, arith, str_eq, mem, eq_iff,
  true, [], ◌∷◌, Bool-cases,
}
use node_nats.Xray.Account.{VlessAccount}
use node_nats.Xray.Flow.{
  Json, text, object, Fields, member, one_of, cleared, raw_settings, header_type, check_vless,
}

-- The transport: TCP (under either of its names) or KCP.
abbrev pub HasNetwork : Fields → Type 0
HasNetwork stream =
    (member "network" stream ≡ some (text "tcp"))
    ⊎ (member "network" stream ≡ some (text "raw"))
    ⊎ (member "network" stream ≡ some (text "kcp"))

-- The security: TLS or REALITY.
abbrev pub HasSecurity : Fields → Type 0
HasSecurity stream =
    (member "security" stream ≡ some (text "tls"))
    ⊎ (member "security" stream ≡ some (text "reality"))

abbrev pub PermitsFlow : Fields → Type 0
PermitsFlow stream = HasNetwork stream × HasSecurity stream × (header_type stream ≢ some "http")

network_iff :
    (v : Option Json)
    → (one_of ("tcp" ∷ "raw" ∷ "kcp" ∷ []) v ≡ true)
      ↔ ((v ≡ some (text "tcp")) ⊎ (v ≡ some (text "raw")) ⊎ (v ≡ some (text "kcp")))
unfolding mem
network_iff (some (text s)) = ground (arith, eq_iff "tcp" s, eq_iff "raw" s, eq_iff "kcp" s)
network_iff _ = ground arith

security_iff :
    (v : Option Json)
    → (one_of ("tls" ∷ "reality" ∷ []) v ≡ true)
      ↔ ((v ≡ some (text "tls")) ⊎ (v ≡ some (text "reality")))
unfolding mem
security_iff (some (text s)) = ground (arith, eq_iff "tls" s, eq_iff "reality" s)
security_iff _ = ground arith

header_cases :
    (o : Option String)
    → (o ≡ none) ⊎ ((s : String) × (o ≡ some s) × (((str_eq s "http") ≡ true) ↔ (o ≡ some "http")))
header_cases none = inl refl
header_cases (some s) =
    inr (s, refl, (λ h. ap some ((eq_iff s "http").0 h), λ h. (eq_iff s "http").1 (cc)))

module _ (stream : Fields) (account : VlessAccount) where
  pub check_vless-PermitsFlow :
      account.flow ≢ ""
      → (PermitsFlow stream × (check_vless stream account ≡ account))
        ⊎ ((¬ PermitsFlow stream) × (check_vless stream account ≡ cleared account))
  unfolding check_vless
  check_vless-PermitsFlow h = elim (Bool-cases (str_eq account.flow "")) [
    | inl e ↦ absurd (h ((eq_iff account.flow "").0 e))
    | inr e ↦ ground (
      arith,
      network_iff (member "network" stream),
      security_iff (member "security" stream),
      header_cases (header_type stream),
    )
  ]

  -- A header without the key "Type", such as the lower-case "type": "http" of the core's own
  -- configuration, does not clear the flow of a stream that permits it otherwise.
  pub check_vless-ignores_type :
      (raw header : Fields)
      → account.flow ≢ ""
      → HasNetwork stream
      → HasSecurity stream
      → raw_settings stream ≡ some raw
      → member "header" raw ≡ some (object header)
      → member "Type" header ≡ none
      → check_vless stream account ≡ account
  unfolding header_type
  check_vless-ignores_type raw header flow network security e₁ e₂ e₃ =
      ground (arith, check_vless-PermitsFlow flow)
