-- ===== src/Xray/Logs/Buffer.antt =====
-- The channel of backend/xray/log.go: what its receivers get of the lines that are sent.
use node_nats.Prelude.{
  ℕ, ◌+◌, ◌-◌, ◌≤◌, String, Option, none, some, List, [], ◌∷◌, ◌++◌, length, ltb, if◌then◌else◌,
}
use node_nats.Xray.Logs.{Channel, send, receive, left_by}

pub data Use : Type 0 where
  put : String → Use
  get : Use

abbrev pub received : Option (String × Channel) → List String
received none = []
received (some (line, c)) = line ∷ []

abbrev pub use_once : Use → Channel → Channel × List String
use_once (put line) c = (send line c, [])
use_once get c = (left_by (receive c) c, received (receive c))

-- The channel after the uses, and the lines that were received.
abbrev pub run : List Use → Channel → Channel × List String
run [] c = (c, [])
run (u ∷ us) c = let (c', got) = use_once u c in let (c'', later) = run us c' in (c'', got ++ later)

abbrev pub lines_sent : List Use → List String
lines_sent [] = []
lines_sent (put line ∷ us) = line ∷ lines_sent us
lines_sent (get ∷ us) = lines_sent us

-- The first list is the second with some entries left out.
pub data Sub : List String → List String → Type 0 where
  nil : Sub [] []
  skip : {y : String} {xs ys : List String} → Sub xs ys → Sub xs (y ∷ ys)
  keep : {x : String} {xs ys : List String} → Sub xs ys → Sub (x ∷ xs) (x ∷ ys)

-- The lines received and those left, of the lines that were there and those that are sent.
abbrev pub Delivered : List Use → Channel → Channel × List String → Type 0
Delivered us c (c', got) =
    (length c'.buffer ≤ c.capacity) × Sub (got ++ c'.buffer) (c.buffer ++ lines_sent us)

abbrev chan : ℕ → List String → Channel
chan cap b = record { capacity = cap; buffer = b }

-- The lines that are not left out, by the number of lines held alone: those sent while fewer are held than fit.
abbrev pub kept : (capacity held : ℕ) → List Use → List String
kept capacity held [] = []
kept capacity held (put line ∷ us) =
    let with_line = kept capacity (held + 1) us in
    let without = kept capacity held us in if ltb held capacity then line ∷ with_line else without
kept capacity held (get ∷ us) = kept capacity (held - 1) us
