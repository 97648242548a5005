-- ===== src/Tools/Certificates.antt =====
-- tools/tls.go and tools/file.go. The packages crypto/tls and crypto/x509, and the file system, are arguments.
use node_nats.Prelude.{
  ◌≡◌, refl, String, Option, none, some, List, [], ◌∷◌, Bool, false, Result, ok, fail, panic, ◌>>=◌,
}
use node_nats.Common.User.{Bytes}
use node_nats.Xray.User.{join}

-- ReadFileAsString, with the error of os.ReadFile; a string holds any bytes.
abbrev pub read_file_as_string : (String → Result Bytes) → String → Result Bytes
read_file_as_string read_file path = do bytes ← read_file path; ok bytes

-- The fields of tls.Config that LoadTLSCredentials sets; NoClientCert is `false`.
pub record TlsConfig (Certificate : Type 0) : Type 0 where
  pub certificates : List Certificate
  pub asks_client : Bool

-- LoadTLSCredentials
abbrev pub load_tls_credentials :
    {Certificate : Type 0}
    → (String → String → Result Certificate)
    → String
    → String
    → Result (TlsConfig Certificate)
load_tls_credentials load_pair cert key = do
  server_cert ← load_pair cert key
  ok (record { certificates = server_cert ∷ []; asks_client = false })

-- What LoadClientPool uses: os.ReadFile, x509.SystemCertPool, NewCertPool and AppendCertsFromPEM, which gives no pool where no
-- certificate is read.
pub record Pools (Pool : Type 0) : Type 0 where
  pub read_file : String → Result Bytes
  pub system_pool : Result Pool
  pub new_pool : Pool
  pub append : Bytes → Pool → Option Pool

abbrev pub or_new : {Pool : Type 0} → Pool → Result Pool → Result Pool
or_new new_pool (ok pool) = ok pool
or_new new_pool (fail e) = ok new_pool
or_new new_pool panic = panic

abbrev pub appended : {Pool : Type 0} → Option Pool → Result Pool
appended none = fail "failed to add server CA's certificate"
appended (some pool) = ok pool

abbrev pub read_bytes : Result Bytes → Result Bytes
read_bytes (ok bytes) = ok bytes
read_bytes (fail e) = fail (join "failed to read server certificate: " e)
read_bytes panic = panic

-- LoadClientPool
unfoldable pub load_client_pool : {Pool : Type 0} → Pools Pool → String → Result Pool
load_client_pool pools cert = do
  pem ← read_bytes (pools.read_file cert)
  pool ← or_new pools.new_pool pools.system_pool
  appended (pools.append pem pool)

-- The pool that the certificate is added to.
abbrev base_pool : {Pool : Type 0} → Pools Pool → Result Pool → Pool
base_pool pools (ok pool) = pool
base_pool pools _ = pools.new_pool

appended-inj : {Pool : Type 0} (o : Option Pool) (q : Pool) → appended o ≡ ok q → o ≡ some q
appended-inj none q e = absurd (cc)
appended-inj (some pool) q e = cc

-- A pool that LoadClientPool returns is the system's, or a new one where that has an error, with the certificates of the file
-- added.
load_client_pool-ok :
    {Pool : Type 0} (pools : Pools Pool) (cert : String) (q : Pool)
    → load_client_pool pools cert ≡ ok q
    → (pem : Bytes) × (pools.read_file cert ≡ ok pem)
      × (pools.append pem (base_pool pools pools.system_pool) ≡ some q)
unfolding load_client_pool
load_client_pool-ok {Pool} pools cert q e = go (pools.read_file cert) pools.system_pool e
  where
    go :
        (read : Result Bytes) (system : Result Pool)
        → (read_bytes read >>= (λ pem.
            or_new pools.new_pool system >>= (λ pool. appended (pools.append pem pool))))
          ≡ ok q
        → (pem : Bytes) × (read ≡ ok pem) × (pools.append pem (base_pool pools system) ≡ some q)
    go (ok pem) (ok pool) e = (pem, refl, appended-inj (pools.append pem pool) q e)
    go (ok pem) (fail m) e = (pem, refl, appended-inj (pools.append pem pools.new_pool) q e)
    go (ok pem) panic e = absurd (cc)
    go (fail m) system e = absurd (cc)
    go panic system e = absurd (cc)
