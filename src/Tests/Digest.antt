-- ===== src/Tests/Digest.antt =====
-- A function that meets what is assumed of a digest, for the runs: 32 bytes, whatever the text.
use node_nats.Prelude.{refl, [], ◌∷◌, arith, some, none, str_eq, if◌then◌else◌}
use node_nats.Common.User.{Bytes}
use node_nats.Common.Password.Laws.{IsDigest}
use node_nats.Xray.Inbound.{Packages}

abbrev pub thirty_two : Bytes
thirty_two =
    0 ∷ 1 ∷ 2 ∷ 3 ∷ 4 ∷ 5 ∷ 6 ∷ 7 ∷ 8 ∷ 9 ∷ 10 ∷ 11 ∷ 12 ∷ 13 ∷ 14 ∷ 15 ∷ 16 ∷ 17 ∷ 18 ∷ 19 ∷ 20
    ∷ 21 ∷ 22 ∷ 23 ∷ 24 ∷ 25 ∷ 26 ∷ 27 ∷ 28 ∷ 29 ∷ 30 ∷ 31 ∷ []

abbrev pub counting : Bytes → Bytes
counting text = thirty_two

pub counting-IsDigest : IsDigest counting
counting-IsDigest = record { size = λ text. refl; bytes = λ text. omega arith }

-- A parser of ids that knows two texts.
abbrev pub packages : Packages
packages = record {
  parse_uuid = λ s. if str_eq s "id-1" then some 1 else (if str_eq s "id-2" then some 2 else none);
  sha256 = counting;
}
