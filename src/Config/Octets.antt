-- ===== src/Config/Octets.antt =====
-- The texts that ipPattern of config/config.go matches.
use mathlib.Core.List.{append-nil}
use node_nats.Prelude.{
  ℕ, ◌+◌, ◌-◌, ◌*◌, ◌≤◌, ◌≡◌, refl, sym, ap, ◌∙◌, ◌↔◌, ◌⊎◌, inl, inr, [], ◌∷◌, ◌++◌, Bool, true,
  arith, All, length,
}
use node_nats.Common.User.{Bytes}
use node_nats.Config.{matches, char, octet, dotted, at_end, match_string}

abbrev pub IsDigit : ℕ → Type 0
IsDigit c = (48 ≤ c) × (c ≤ 57)

-- The number that digits spell behind `n`.
abbrev pub value : Bytes → ℕ → ℕ
value [] n = n
value (c ∷ s) n = value s (n * 10 + (c - 48))

-- One to three digits that spell at most 255.
abbrev pub IsOctet : Bytes → Type 0
IsOctet w = All IsDigit w × (1 ≤ length w) × (length w ≤ 3) × (value w 0 ≤ 255)

-- A first part of a text that is an octet, with an accepted rest.
pub record Splits (k : Bytes → Bool) (s : Bytes) : Type 0 where
  pub first : Bytes
  pub rest : Bytes
  pub is_octet : IsOctet first
  pub joined : s ≡ first ++ rest
  pub accepted : k rest ≡ true

one :
    (k : Bytes → Bool) (a : ℕ) → matches octet k (a ∷ []) ≡ true → IsOctet (a ∷ []) × (k [] ≡ true)
unfolding matches
one k a h = ground arith

two :
    (k : Bytes → Bool) (a b : ℕ)
    → matches octet k (a ∷ b ∷ []) ≡ true
    → (IsOctet (a ∷ b ∷ []) × (k [] ≡ true)) ⊎ (IsOctet (a ∷ []) × (k (b ∷ []) ≡ true))
unfolding matches
two k a b h = ground arith

three :
    (k : Bytes → Bool) (a b c : ℕ) (s : Bytes)
    → matches octet k (a ∷ b ∷ c ∷ s) ≡ true
    → (IsOctet (a ∷ b ∷ c ∷ []) × (k s ≡ true))
      ⊎ (IsOctet (a ∷ b ∷ []) × (k (c ∷ s) ≡ true))
      ⊎ (IsOctet (a ∷ []) × (k (b ∷ c ∷ s) ≡ true))
unfolding matches
three k a b c s h = ground arith

split : {k : Bytes → Bool} (w rest : Bytes) → IsOctet w × (k rest ≡ true) → Splits k (w ++ rest)
split w rest (ok, accepted) = record {
  first = w;
  rest = rest;
  is_octet = ok;
  joined = refl;
  accepted = accepted;
}

octet-Splits : (k : Bytes → Bool) (s : Bytes) → matches octet k s ≡ true → Splits k s
octet-Splits k [] h = absurd (unfold matches in ground arith)
octet-Splits k (a ∷ []) h = split (a ∷ []) [] (one k a h)
octet-Splits k (a ∷ b ∷ []) h = elim (two k a b h) [
  | inl both ↦ split (a ∷ b ∷ []) [] both
  | inr first ↦ split (a ∷ []) (b ∷ []) first
]
octet-Splits k (a ∷ b ∷ c ∷ s) h = elim (three k a b c s h) [
  | inl all ↦ split (a ∷ b ∷ c ∷ []) s all
  | inr (inl both) ↦ split (a ∷ b ∷ []) (c ∷ s) both
  | inr (inr first) ↦ split (a ∷ []) (b ∷ c ∷ s) first
]

octet_accepts :
    (k : Bytes → Bool) (w rest : Bytes)
    → IsOctet w
    → k rest ≡ true
    → matches octet k (w ++ rest) ≡ true
unfolding matches
octet_accepts k [] rest ok accepted = absurd (omega (arith, ok.1))
octet_accepts k (a ∷ []) [] ok accepted = ground arith
octet_accepts k (a ∷ []) (b ∷ []) ok accepted = ground arith
octet_accepts k (a ∷ []) (b ∷ c ∷ s) ok accepted = ground arith
octet_accepts k (a ∷ b ∷ []) [] ok accepted = ground arith
octet_accepts k (a ∷ b ∷ []) (c ∷ s) ok accepted = ground arith
octet_accepts k (a ∷ b ∷ c ∷ []) rest ok accepted = ground arith
octet_accepts k (a ∷ b ∷ c ∷ d ∷ s) rest ok accepted = absurd (omega (arith, ok.2))

-- Four octets with dots between them.
pub record IsIpv4 (s : Bytes) : Type 0 where
  pub first : Bytes
  pub second : Bytes
  pub third : Bytes
  pub fourth : Bytes
  pub octets : IsOctet first × IsOctet second × IsOctet third × IsOctet fourth
  pub spelled : s ≡ first ++ 46 ∷ (second ++ 46 ∷ (third ++ 46 ∷ fourth))

dot_first :
    (k : Bytes → Bool) (s : Bytes)
    → matches (char 46) k s ≡ true
    → (rest : Bytes) × (s ≡ 46 ∷ rest) × (k rest ≡ true)
unfolding matches
dot_first k [] h = absurd (ground arith)
dot_first k (c ∷ s) h =
    let (dot, accepted) : (c ≡ 46) × (k s ≡ true) = ground arith in
    (s, ap (λ d. d ∷ s) dot, accepted)

-- An octet and a dot at the start of a text, with an accepted rest.
abbrev Dotted : (Bytes → Bool) → Bytes → Type 0
Dotted k s = (w : Bytes) × (rest : Bytes) × IsOctet w × (s ≡ w ++ 46 ∷ rest) × (k rest ≡ true)

dotted-Dotted : (k : Bytes → Bool) (s : Bytes) → matches dotted k s ≡ true → Dotted k s
dotted-Dotted k s h =
    let split = octet-Splits (matches (char 46) k) s (unfold matches in h) in
    let (rest, dot, accepted) = dot_first k split.rest split.accepted in
    (split.first, rest, split.is_octet, split.joined ∙ ap (λ r. split.first ++ r) dot, accepted)

dotted_accepts :
    (k : Bytes → Bool) (w rest : Bytes)
    → IsOctet w
    → k rest ≡ true
    → matches dotted k (w ++ 46 ∷ rest) ≡ true
dotted_accepts k w rest ok accepted =
    unfold matches in
    octet_accepts (matches (char 46) k) w (46 ∷ rest) ok (unfold matches in accepted)

ends : (s : Bytes) → at_end s ≡ true → s ≡ []
ends [] h = refl
ends (_ ∷ _) h = absurd (cc)

match_string-IsIpv4 : (s : Bytes) → match_string s ≡ true → IsIpv4 s
unfolding match_string
match_string-IsIpv4 s h =
    let tail : (Bytes → Bool) → Bytes → Bool = λ k. matches dotted k in
    let (a, s1, ok_a, e1, h1) =
      dotted-Dotted (tail (tail (matches octet at_end))) s (unfold matches in h) in
    let (b, s2, ok_b, e2, h2) = dotted-Dotted (tail (matches octet at_end)) s1 h1 in
    let (c, s3, ok_c, e3, h3) = dotted-Dotted (matches octet at_end) s2 h2 in
    let last = octet-Splits at_end s3 h3 in
    let e4 : s3 ≡ last.first =
      last.joined
      ∙ ap (λ r. last.first ++ r) (ends last.rest last.accepted)
      ∙ append-nil last.first in
    record {
      first = a;
      second = b;
      third = c;
      fourth = last.first;
      octets = (ok_a, ok_b, ok_c, last.is_octet);
      spelled =
          e1 ∙ ap (λ r. a ++ 46 ∷ r) (e2 ∙ ap (λ r. b ++ 46 ∷ r) (e3 ∙ ap (λ r. c ++ 46 ∷ r) e4));
    }

IsIpv4-match_string : (s : Bytes) → IsIpv4 s → match_string s ≡ true
unfolding match_string
IsIpv4-match_string s ip =
    let (ok_a, ok_b, ok_c, ok_d) = ip.octets in
    let last : matches octet at_end ip.fourth ≡ true =
      sym (ap (matches octet at_end) (append-nil ip.fourth))
      ∙ octet_accepts at_end ip.fourth [] ok_d refl in
    rw (ip.spelled) (
      unfold matches in
      dotted_accepts _ ip.first _ ok_a
        (dotted_accepts _ ip.second _ ok_b (dotted_accepts _ ip.third ip.fourth ok_c last)))

-- The pattern of the node's host matches exactly the texts of four octets with dots between them.
pub match_string_iff : (s : Bytes) → (match_string s ≡ true) ↔ IsIpv4 s
match_string_iff s = (match_string-IsIpv4 s, IsIpv4-match_string s)
