-- ===== src/Start/Address.antt =====
-- The address that the node listens at.
use mathlib.Core.Path.{subst}
use node_nats.Prelude.{
  ℕ, zero, suc, ◌+◌, ◌/◌, ◌%◌, ◌≤◌, ◌≡◌, ◌≢◌, refl, sym, ap, ◌∙◌, inl, inr, String, Option, some,
  [], ◌∷◌, ◌++◌, false, arith, All, ◌==◌, ==_iff, Bool-cases, if◌then◌else◌,
}
use node_nats.Common.User.{Bytes}
use node_nats.Config.{codes, ℤ, pos, negsuc, max_int64, atoi, Env, load, get_env}
use node_nats.Config.Octets.{IsDigit, value, IsIpv4}
use node_nats.Config.Decimal.{IsNumber, Spells, bare, plus, minus_zero, minus, Spells-atoi}
use node_nats.Config.Loads.{IsHost, IsSetting, load-IsLoaded}
use node_nats.Start.{emit, decimal, format_int, address}

value-emit :
    (fuel n : ℕ) (out : Bytes)
    → n ≤ fuel
    → All IsDigit out
    → All IsDigit (emit fuel n out) × (value (emit fuel n out) 0 ≡ value out n)
unfolding emit
value-emit zero n out h digits = (digits, ap (value out) (omega (arith, h)))
value-emit (suc f) n out h digits = elim (Bool-cases (n == 0)) [
  | inl zero_n ↦ rw zero_n (digits, ap (value out) (sym ((==_iff n 0).0 zero_n)))
  | inr more ↦
      let positive_n : n ≢ 0 = λ e. absurd (ground (arith, more, e)) in
      let (all, e) =
        value-emit f (n / 10) ((48 + n % 10) ∷ out) (omega (arith, h, positive_n))
          ((omega arith, omega arith), digits) in
      rw more (all, e ∙ ap (value out) (omega arith))
]

emit-ne-nil : (fuel n : ℕ) (out : Bytes) → out ≢ [] → emit fuel n out ≢ []
unfolding emit
emit-ne-nil zero n out h = h
emit-ne-nil (suc f) n out h = elim (Bool-cases (n == 0)) [
  | inl zero_n ↦ rw zero_n h
  | inr more ↦ rw more (emit-ne-nil f (n / 10) ((48 + n % 10) ∷ out) (λ e. absurd (cc)))
]

emit_pos-ne-nil : (f n : ℕ) (out : Bytes) → n ≢ 0 → emit (suc f) n out ≢ []
unfolding emit
emit_pos-ne-nil f n out h =
    let more : (n == 0) ≡ false = ground (arith, h) in
    rw more (emit-ne-nil f (n / 10) ((48 + n % 10) ∷ out) (λ e. absurd (cc)))

suc-ne-zero : (n : ℕ) → (suc n == 0) ≡ false
suc-ne-zero n = ground arith

decimal-IsNumber : (n : ℕ) → IsNumber (decimal n) × (value (decimal n) 0 ≡ n)
decimal-IsNumber zero = (((λ e. absurd (cc)), ((omega arith, omega arith), tt)), refl)
decimal-IsNumber (suc n) =
    let (all, e) = value-emit (suc n) (suc n) [] (omega arith) tt in
    let same : decimal (suc n) ≡ emit (suc n) (suc n) [] =
      ap (λ b. if b then 48 ∷ [] else emit (suc n) (suc n) []) (suc-ne-zero n) in
    subst (λ t. IsNumber t × (value t 0 ≡ suc n)) (sym same)
      ((emit_pos-ne-nil n (suc n) [] (λ e. absurd (cc)), all), e)

abbrev pub FitsInt64 : ℤ → Type 0
FitsInt64 (pos n) = n ≤ max_int64
FitsInt64 (negsuc n) = n ≤ max_int64

Spells-FitsInt64 : {s : Bytes} {z : ℤ} → Spells s z → FitsInt64 z
Spells-FitsInt64 (bare number fits) = fits
Spells-FitsInt64 (plus number fits) = fits
Spells-FitsInt64 (minus_zero number e) = omega arith
Spells-FitsInt64 (minus n number e fits) = fits

format_int-Spells : (z : ℤ) → FitsInt64 z → Spells (format_int z) z
format_int-Spells (pos n) fits =
    let (number, e) = decimal-IsNumber n in
    subst (λ m. Spells (decimal n) (pos m)) e (bare number (rw e fits))
format_int-Spells (negsuc n) fits =
    let (number, e) = decimal-IsNumber (suc n) in minus n number e fits

IsSetting-FitsInt64 :
    (text : Bytes) (fallback z : ℤ) → FitsInt64 fallback → IsSetting text fallback z → FitsInt64 z
IsSetting-FitsInt64 text fallback z fits (inl spelled) = Spells-FitsInt64 spelled
IsSetting-FitsInt64 text fallback z fits (inr (_, e)) = subst FitsInt64 (sym e) fits

IsHost-IsIpv4 : (asked host : String) → IsHost asked host → IsIpv4 (codes host)
IsHost-IsIpv4 asked host (inl (ip, e)) = subst (λ h. IsIpv4 (codes h)) (sym e) ip
IsHost-IsIpv4 asked host (inr (_, e)) = subst (λ h. IsIpv4 (codes h)) (sym e) local
  where
    local : IsIpv4 (codes "127.0.0.1")
    local = record {
      first = codes "127";
      second = codes "0";
      third = codes "0";
      fourth = codes "1";
      octets = (omega arith, omega arith, omega arith, omega arith);
      spelled = refl;
    }

-- In every environment, the address that the node listens at is an IPv4 address, a colon and a text from which strconv.Atoi
-- reads the port of the settings back.
pub address-RoundTrip :
    (parse : String → Option ℕ) (env : Env)
    → (host port : Bytes) × (address (load parse env) ≡ host ++ (58 ∷ port))
      × IsIpv4 host
      × (atoi port ≡ some (load parse env).service_port)
unfolding address
address-RoundTrip parse env =
    let cfg = load parse env in
    let loaded = load-IsLoaded parse env in
    let fits = IsSetting-FitsInt64 _ _ cfg.service_port (omega arith) loaded.port in
    (
      codes cfg.node_host,
      format_int cfg.service_port,
      refl,
      IsHost-IsIpv4 (get_env env "NODE_HOST" "0.0.0.0") cfg.node_host loaded.host,
      Spells-atoi (format_int cfg.service_port) cfg.service_port
          (format_int-Spells cfg.service_port fits),
    )
