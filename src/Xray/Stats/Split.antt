-- ===== src/Xray/Stats/Split.antt =====
-- strings.Split at ">>>" undoes joining, for parts without the character ">".
use mathlib.Core.List.{append-nil, append_assoc}
use node_nats.Prelude.{ℕ, ◌≡◌, refl, ◌≢◌, ap, sym, ◌∙◌, List, [], ◌∷◌, ◌++◌, All, arith}
use node_nats.Common.User.{Bytes}
use node_nats.Xray.Stats.{split_from, split, separator}

-- A part without ">".
abbrev pub IsPart : Bytes → Type 0
IsPart = All (λ c. c ≢ b'>')

split_from-step :
    (cur : Bytes) (x : ℕ) (w : Bytes)
    → x ≢ b'>'
    → split_from cur (x ∷ w) ≡ split_from (cur ++ x ∷ []) w
unfolding split_from
split_from-step cur x [] h = refl
split_from-step cur x (b ∷ []) h = refl
split_from-step cur x (b ∷ c ∷ w) h = ground arith

split_from-part :
    (cur part rest : Bytes)
    → IsPart part
    → split_from cur (part ++ (separator ++ rest)) ≡ (cur ++ part) ∷ split_from [] rest
unfolding split_from
split_from-part cur [] rest h = ap (λ c. c ∷ split_from [] rest) (sym (append-nil cur))
split_from-part cur (x ∷ part) rest (hx, h) =
    split_from-step cur x (part ++ (separator ++ rest)) hx
    ∙ split_from-part (cur ++ x ∷ []) part rest h
    ∙ ap (λ c. c ∷ split_from [] rest) (append_assoc cur (x ∷ []) part)

split_from-last : (cur part : Bytes) → IsPart part → split_from cur part ≡ (cur ++ part) ∷ []
unfolding split_from
split_from-last cur [] h = ap (λ c. c ∷ []) (sym (append-nil cur))
split_from-last cur (x ∷ part) (hx, h) =
    split_from-step cur x part hx
    ∙ split_from-last (cur ++ x ∷ []) part h
    ∙ ap (λ c. c ∷ []) (append_assoc cur (x ∷ []) part)

-- strings.Join(parts, ">>>")
abbrev pub join : Bytes → List Bytes → Bytes
join part [] = part
join part (next ∷ parts) = part ++ (separator ++ join next parts)

-- Splitting a text that joins parts without ">" at ">>>" gives the parts back.
pub split-join :
    (part : Bytes) (parts : List Bytes)
    → IsPart part
    → All IsPart parts
    → split (join part parts) ≡ part ∷ parts
unfolding split
split-join part [] h hs = split_from-last [] part h
split-join part (next ∷ parts) h (hn, hs) =
    split_from-part [] part (join next parts) h ∙ ap (◌∷◌ part) (split-join next parts hn hs)
