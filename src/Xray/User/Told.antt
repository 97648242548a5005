-- ===== src/Xray/User/Told.antt =====
-- SyncUser of backend/xray/user.go: the calls that the core gets, against the configuration that it leaves.
use node_nats.Prelude.{◌≡◌, none, List, [], ◌∷◌, ◌++◌}
use node_nats.Common.User.{User}
use node_nats.Xray.Account.{Account}
use node_nats.Xray.Inbound.{Inbound, other_kind, kind_of}
use node_nats.Xray.Inbound.View.{client}
use node_nats.Xray.User.{Call}
use node_nats.Xray.User.Round.{Round, asked_of}

-- The calls that a configuration stands for: in each inbound that is not excluded, in order, the user is removed, and
-- added again with the account that it has there, where it has one.
abbrev pub told : User → List Inbound → List Call
told user [] = []
told user (i ∷ is) = asked_of user i (client i user.email) ++ told user is

-- An inbound of a protocol without users has no client of the user's email.
abbrev pub HasNoStray : User → Inbound → Type 0
HasNoStray user i = kind_of i ≡ other_kind → client i user.email ≡ none
