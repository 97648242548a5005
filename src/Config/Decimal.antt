-- ===== src/Config/Decimal.antt =====
-- The texts that strconv.Atoi reads, as config/config.go uses it.
use mathlib.Core.Path.{subst}
use node_nats.Prelude.{
  ℕ, zero, suc, ◌+◌, ◌-◌, ◌*◌, ◌≤◌, ◌≡◌, ◌≢◌, refl, sym, ap, ◌∙◌, ◌⊎◌, inl, inr, some, [], ◌∷◌,
  arith, All, Option-cases,
}
use node_nats.Common.User.{Bytes}
use node_nats.Config.{ℤ, pos, negsuc, scan, magnitude, max_int64, positive, negative, atoi}
use node_nats.Config.Octets.{IsDigit, value}

-- One or more digits.
abbrev pub IsNumber : Bytes → Type 0
IsNumber s = (s ≢ []) × All IsDigit s

scan_sound : (s : Bytes) (n r : ℕ) → scan s n ≡ some r → All IsDigit s × (r ≡ value s n)
unfolding scan
scan_sound [] n r h = ground arith
scan_sound (c ∷ s) n r h = ground (arith, scan_sound s (n * 10 + (c - 48)) r)

scan_complete : (s : Bytes) (n : ℕ) → All IsDigit s → scan s n ≡ some (value s n)
unfolding scan
scan_complete [] n _ = refl
scan_complete (c ∷ s) n (hc, hs) = ground (arith, scan_complete s (n * 10 + (c - 48)) hs)

magnitude_sound : (s : Bytes) (r : ℕ) → magnitude s ≡ some r → IsNumber s × (r ≡ value s 0)
unfolding magnitude
magnitude_sound [] r h = absurd (cc)
magnitude_sound (c ∷ s) r h = let (digits, e) = scan_sound (c ∷ s) 0 r h in (((cc), digits), e)

magnitude_complete : (s : Bytes) → IsNumber s → magnitude s ≡ some (value s 0)
unfolding magnitude
magnitude_complete [] (ne, _) = absurd (ne refl)
magnitude_complete (c ∷ s) (_, digits) = scan_complete (c ∷ s) 0 digits

-- A decimal text with or without a sign, and its number, which 64 bits hold.
pub data Spells : Bytes → ℤ → Type 0 where
  bare : {s : Bytes} → IsNumber s → value s 0 ≤ max_int64 → Spells s (pos (value s 0))
  plus : {s : Bytes} → IsNumber s → value s 0 ≤ max_int64 → Spells (43 ∷ s) (pos (value s 0))
  minus_zero : {s : Bytes} → IsNumber s → value s 0 ≡ 0 → Spells (45 ∷ s) (pos 0)
  minus :
      {s : Bytes} (n : ℕ)
      → IsNumber s
      → value s 0 ≡ suc n
      → n ≤ max_int64
      → Spells (45 ∷ s) (negsuc n)

ℕ-cases : (m n : ℕ) → (m ≡ n) ⊎ (m ≢ n)
ℕ-cases m n = ground arith

positive-some : (n : ℕ) (z : ℤ) → positive (some n) ≡ some z → (n ≤ max_int64) × (z ≡ pos n)
positive-some n z h = ground arith

negative-some :
    (n : ℕ) (z : ℤ) → negative (some (suc n)) ≡ some z → (n ≤ max_int64) × (z ≡ negsuc n)
negative-some n z h = ground arith

-- A number that fits, behind the sign or without one.
positive_sound :
    (s : Bytes) (z : ℤ)
    → positive (magnitude s) ≡ some z
    → IsNumber s × (value s 0 ≤ max_int64) × (z ≡ pos (value s 0))
positive_sound s z h = elim (Option-cases (magnitude s)) [
  | inl none_there ↦ absurd (ground (arith, h, none_there))
  | inr (n, e) ↦
      let (number, exact) = magnitude_sound s n e in
      let (fits, same) = positive-some n z (sym (ap positive e) ∙ h) in
      (number, rw⁻¹ exact fits, same ∙ ap pos exact)
]

positive_complete :
    (s : Bytes)
    → IsNumber s
    → value s 0 ≤ max_int64
    → positive (magnitude s) ≡ some (pos (value s 0))
positive_complete s number fits = rw (magnitude_complete s number) (ground arith)

spells_minus : (s : Bytes) (z : ℤ) → negative (magnitude s) ≡ some z → Spells (45 ∷ s) z
spells_minus s z h = elim (Option-cases (magnitude s)) [
  | inl none_there ↦ absurd (ground (arith, h, none_there))
  | inr (zero, e) ↦
      let (number, exact) = magnitude_sound s zero e in
      let same : pos 0 ≡ z = ground (arith, h, e) in
      subst (λ y. Spells (45 ∷ s) y) same (minus_zero number (sym exact))
  | inr (suc n, e) ↦
      let (number, exact) = magnitude_sound s (suc n) e in
      let (fits, same) = negative-some n z (sym (ap negative e) ∙ h) in
      subst (λ y. Spells (45 ∷ s) y) (sym same) (minus n number (sym exact) fits)
]

spells_plus : (s : Bytes) (z : ℤ) → positive (magnitude s) ≡ some z → Spells (43 ∷ s) z
spells_plus s z h =
    let (number, fits, same) = positive_sound s z h in
    subst (λ y. Spells (43 ∷ s) y) (sym same) (plus number fits)

spells_bare : (s : Bytes) (z : ℤ) → positive (magnitude s) ≡ some z → Spells s z
spells_bare s z h =
    let (number, fits, same) = positive_sound s z h in
    subst (λ y. Spells s y) (sym same) (bare number fits)

pub atoi-Spells : (s : Bytes) (z : ℤ) → atoi s ≡ some z → Spells s z
unfolding atoi
atoi-Spells [] z h = absurd (cc)
atoi-Spells (c ∷ s) z h = elim (ℕ-cases c 43) [
  | inl is_plus ↦
      subst (λ d. Spells (d ∷ s) z) (sym is_plus) (spells_plus s z (ground (arith, h, is_plus)))
  | inr no_plus ↦ elim (ℕ-cases c 45) [
    | inl is_minus ↦
        subst (λ d. Spells (d ∷ s) z) (sym is_minus)
          (spells_minus s z (ground (arith, h, is_minus)))
    | inr no_minus ↦ spells_bare (c ∷ s) z (ground (arith, h, no_plus, no_minus))
  ]
]

pub Spells-atoi : (s : Bytes) (z : ℤ) → Spells s z → atoi s ≡ some z
unfolding atoi
Spells-atoi [] z (bare (ne, _) fits) = absurd (ne refl)
Spells-atoi (c ∷ s) z (bare number fits) =
    let (digit, _) = number.1 in ground (arith, digit, positive_complete (c ∷ s) number fits)
Spells-atoi (c ∷ s) z (plus number fits) = positive_complete s number fits
Spells-atoi (c ∷ s) z (minus_zero number e) = ap negative (magnitude_complete s number ∙ ap some e)
Spells-atoi (c ∷ s) z (minus n number e fits) =
    ap negative (magnitude_complete s number ∙ ap some e) ∙ ground arith
