-- ===== src/Controller/Handlers/Stream.antt =====
-- The users of a stream of SyncUser, against the table of users that they stand for.
use node_nats.Prelude.{String, ◌≡◌, refl, Option, none, List, [], ◌∷◌, false, str_eq, All, ok}
use node_nats.Common.User.{User}
use node_nats.Common.Password.Laws.{IsDigest}
use node_nats.Xray.Account.{Account}
use node_nats.Xray.Inbound.{Packages, Inbound, kind_of}
use node_nats.Xray.User.Put.{put_user}
use node_nats.Xray.User.Round.{Each, Accepts, sync_user-Round}
use node_nats.Xray.User.Agreement.{HasCipher, FullSync, Each-IsSyncable, Each-Round}
use node_nats.Xray.Backend.{Xray, sync_one}
use node_nats.Controller.Handlers.{Received, rpc_sync_user}

-- The table with the received users put in, in order.
abbrev pub put_all : List Received → List User → List User
put_all [] us = us
put_all ((user, answers) ∷ received) us = put_all received (put_user user us)

-- A user with an email, whose calls the core accepts.
abbrev pub IsAccepted : Received → Type 0
IsAccepted (user, answers) = (str_eq user.email "" ≡ false) × Accepts answers

abbrev pub with_inbounds : List Inbound → Xray → Xray
with_inbounds is x = record x { config = record x.config { inbounds = is } }

module _ (pkg : Packages) (digest : IsDigest pkg.sha256) (base : List Inbound)
    (ciphers : All (λ i. HasCipher (kind_of i)) base) where
  one_synced :
      (user : User) (answers : String → Account → Option String) (us : List User) (x : Xray)
      → Accepts answers
      → Each (FullSync pkg us) base x.config.inbounds
      → (is : List Inbound) × (sync_one pkg answers user x ≡ ok (with_inbounds is x, none))
        × Each (FullSync pkg (put_user user us)) base is
  unfolding sync_one
  one_synced user answers us x accepts each =
      let before = x.config.inbounds in
      let (is, calls, error, done, round, quiet) =
        sync_user-Round pkg answers user before (Each-IsSyncable pkg us base before each) in
      (
        is,
        rw (done, quiet accepts) refl,
        Each-Round pkg digest user us base before is ciphers each round,
      )

  -- With a digest of 32 bytes and, for each Shadowsocks 2022 inbound, a method that names a cipher: a stream of users with
  -- emails, whose calls the core accepts, takes a backend whose inbounds are synchronised to a list of users to one whose
  -- inbounds are synchronised to the list with the received users put in, in order; nothing but the
  -- inbounds changes, and the stream ends without an error.
  pub rpc_sync_user-FullSync :
      (received : List Received) (us : List User) (x : Xray)
      → All IsAccepted received
      → Each (FullSync pkg us) base x.config.inbounds
      → (is : List Inbound) × (rpc_sync_user pkg received x ≡ ok (with_inbounds is x, none))
        × Each (FullSync pkg (put_all received us)) base is
  unfolding rpc_sync_user
  rpc_sync_user-FullSync [] us x h each = (x.config.inbounds, refl, each)
  rpc_sync_user-FullSync ((user, answers) ∷ received) us x ((named, accepts), h) each =
      let (is, done, one) = one_synced user answers us x accepts each in
      let (is', later, all) =
        rpc_sync_user-FullSync received (put_user user us) (with_inbounds is x) h one in
      (is', rw (named, done) later, all)
