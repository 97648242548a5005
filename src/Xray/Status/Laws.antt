-- ===== src/Xray/Status/Laws.antt =====
-- The wait for the core's start, against its description.
use node_nats.Prelude.{
  String, ◌≡◌, refl, ap, ◌↔◌, none, List, [], ◌∷◌, ◌++◌, true, arith, All, contains, Bool-cases,
  Option-cases, inl, inr,
}
use node_nats.Xray.Status.Failures.{Reports, failure_of_iff}
use node_nats.Xray.Status.{started_text, failure_of, check_status}

-- The core's message comes before the deadline, and no line before it reports a failure.
abbrev pub StartSeen : String → List String → Type 0
StartSeen version lines =
    (front : List String) × (line : String) × (rest : List String) × (lines ≡ front ++ line ∷ rest)
    × (contains line (started_text version) ≡ true)
    × All (λ l. ¬ Reports l) front

status_seen :
    (version : String) (lines : List String)
    → check_status version lines ≡ none
    → StartSeen version lines
unfolding check_status
status_seen version [] h = absurd (ground arith)
status_seen version (line ∷ lines) h = elim (Bool-cases (contains line (started_text version))) [
  | inl here ↦ ([], line, lines, refl, here, tt)
  | inr other ↦ elim (Option-cases (failure_of line)) [
    | inl fine ↦
        let (front, l, rest, same, found, good) = status_seen version lines (ground (arith, h)) in
        (line ∷ front, l, rest, ap (◌∷◌ line) same, found, ((failure_of_iff line).0 fine, good))
    | inr (m, e) ↦ absurd (ground (arith, h))
  ]
]

seen_status :
    (version : String) (front : List String) (line : String) (rest : List String)
    → contains line (started_text version) ≡ true
    → All (λ l. ¬ Reports l) front
    → check_status version (front ++ line ∷ rest) ≡ none
unfolding check_status
seen_status version [] line rest found good = rw found refl
seen_status version (l ∷ front) line rest found (silent, good) =
    let fine = (failure_of_iff l).1 silent in
    let ih = seen_status version front line rest found good in
    elim (Bool-cases (contains l (started_text version))) [
      | inl here ↦ rw here refl
      | inr other ↦ simp (other, fine, ih)
    ]

-- The wait ends without an error exactly where the core's message comes before the deadline, and no line before it
-- reports a failure: none is an entry of the log (a time, a level in brackets, a message) of level Error or with
-- "Failed to start" in its message, and none is no entry and has "Failed to start" in it.
pub check_status-StartSeen :
    (version : String) (lines : List String)
    → (check_status version lines ≡ none) ↔ StartSeen version lines
check_status-StartSeen version lines = (
  status_seen version lines,
  λ (front, line, rest, same, found, good).
      rw same (seen_status version front line rest found good),
)
