-- ===== src/Xray/Flow.antt =====
-- The decoded JSON of the core's configuration, and `checkVless` of backend/xray/user.go.
pub mod Laws
use node_nats.Prelude.{
  String, Option, none, some, List, [], ◌∷◌, Bool, false, not, str_eq, mem, if◌then◌else◌,
}
use node_nats.Xray.Account.{VlessAccount}

-- What encoding/json puts into an interface{}. The program reads no number, so a number is its text.
mutual
  pub data Json : Type 0 where
    null : Json
    bool : Bool → Json
    number : String → Json
    text : String → Json
    array : Items → Json
    object : Fields → Json

  pub data Items : Type 0 where
    nil : Items
    cons : Json → Items → Items

  pub data Fields : Type 0 where
    end : Fields
    field : String → Json → Fields → Fields

-- m[key] on a map[string]interface{}; the last value of a key counts, as the decoder has it.
unfoldable pub member : String → Fields → Option Json
member k end = none
member k (field j v rest) =
    let later = member k rest in
    elim later [ some w ↦ some w | none ↦ if str_eq j k then some v else none ]

-- .(string) and .(map[string]interface{})
abbrev pub as_text : Option Json → Option String
as_text (some (text s)) = some s
as_text _ = none

abbrev pub as_object : Option Json → Option Fields
as_object (some (object m)) = some m
as_object _ = none

-- The comparison of an interface{} with text constants; a missing key equals none of them.
abbrev pub one_of : List String → Option Json → Bool
one_of names v = elim (as_text v) [ none ↦ false | some s ↦ mem names s ]

abbrev pub cleared : VlessAccount → VlessAccount
cleared account = record account { flow = "" }

-- stream["rawSettings"], or stream["tcpSettings"] where the first is no object
unfoldable pub raw_settings : Fields → Option Fields
raw_settings stream = elim (as_object (member "rawSettings" stream)) [
  | some m ↦ some m
  | none ↦ as_object (member "tcpSettings" stream)
]

-- The text under the key "Type" of the object "header".
unfoldable pub header_type : Fields → Option String
unfolding raw_settings
header_type stream = elim (raw_settings stream) [
  | none ↦ none
  | some raw ↦ elim (as_object (member "header" raw)) [
    | none ↦ none
    | some header ↦ as_text (member "Type" header)
  ]
]

unfoldable pub check_vless : Fields → VlessAccount → VlessAccount
check_vless stream account =
    if str_eq account.flow ""
    then account
    else (if not (one_of ("tcp" ∷ "raw" ∷ "kcp" ∷ []) (member "network" stream))
        then cleared account
        else (if not (one_of ("tls" ∷ "reality" ∷ []) (member "security" stream))
            then cleared account
            else elim (header_type stream) [
              | none ↦ account
              | some kind ↦ if str_eq kind "http" then cleared account else account
            ]))
