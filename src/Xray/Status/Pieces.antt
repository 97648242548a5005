-- ===== src/Xray/Status/Pieces.antt =====
-- The pieces of the log pattern of checkXrayStatus of backend/xray/jobs.go: what its scanners take from a line.
use Prim.Native.Char.{Char, code}
use Prim.Native.String.{String, [], ◌∷◌}
use mathlib.Core.Path.{subst}
use node_nats.Prelude.{
  ℕ, ◌≤◌, ◌≡◌, ◌≢◌, refl, sym, ap, ◌∙◌, ◌⊎◌, inl, inr, Option, none, some, true, false, ◌==◌,
  ==_iff, arith, Bool-cases,
}
use node_nats.Xray.Status.{fits_template, after, grown, to_bracket, is_line, message_of}

-- A digit where the template has a d, and the template's character else.
abbrev pub IsPlace : ℕ → ℕ → Type 0
IsPlace d c = ((d ≡ b'd') × (48 ≤ c) × (c ≤ 57)) ⊎ ((d ≢ b'd') × (d ≡ c))

abbrev pub Fits : String → String → Type 0
Fits [] [] = Unit
Fits (d ∷ t) (c ∷ s) = IsPlace (code d) (code c) × Fits t s
Fits _ _ = ⊥

abbrev pub Without : ℕ → String → Type 0
Without n [] = Unit
Without n (c ∷ s) = (code c ≢ n) × Without n s

-- One text and then another.
abbrev pub ahead : String → String → String
ahead [] t = t
ahead (c ∷ s) t = c ∷ ahead s t

fits_template-IsPlace : (d c : Char) → fits_template d c ≡ true → IsPlace (code d) (code c)
fits_template-IsPlace d c h = ground (arith, h)

IsPlace-fits_template : (d c : Char) → IsPlace (code d) (code c) → fits_template d c ≡ true
IsPlace-fits_template d c h = ground (arith, h)

pub some-inj : {A : Type 0} {a b : A} → some a ≡ some b → a ≡ b
some-inj {a} {b} e = cc

pub after_sound : (t s r : String) → after t s ≡ some r → (p : String) × Fits t p × (s ≡ ahead p r)
unfolding after
after_sound [] s r e = ([], tt, some-inj e)
after_sound (d ∷ t) [] r e = absurd (cc)
after_sound (d ∷ t) (c ∷ s) r e = elim (Bool-cases (fits_template d c)) [
  | inl fits ↦
      let (p, h, same) = after_sound t s r (ground (arith, e, fits)) in
      (c ∷ p, (fits_template-IsPlace d c fits, h), ap (λ q. c ∷ q) same)
  | inr other ↦ absurd (ground (arith, e, other))
]

pub after_complete : (t p r : String) → Fits t p → after t (ahead p r) ≡ some r
unfolding after
after_complete [] [] r h = refl
after_complete (d ∷ t) (c ∷ p) r (place, h) =
    rw (IsPlace-fits_template d c place) (after_complete t p r h)
after_complete [] (c ∷ p) r h = absurd h
after_complete (d ∷ t) [] r h = absurd h

grown-some :
    (c : Char) (o : Option (String × String)) (l r : String)
    → grown c o ≡ some (l, r)
    → (l' : String) × (o ≡ some (l', r)) × (c ∷ l' ≡ l)
grown-some c none l r e = absurd (cc)
grown-some c (some (l', r')) l r e =
    let same = some-inj e in
    (
      l',
      ap (λ q. some (l', q)) (ap (λ (q : String × String). q.1) same),
      ap (λ (q : String × String). q.0) same,
    )

-- The text up to the first bracket.
abbrev IsUpTo : String → String → String → Type 0
IsUpTo s l r = Without b']' l × ((c : Char) × (code c ≡ b']') × (s ≡ ahead l (c ∷ r)))

pub to_bracket_sound : (s l r : String) → to_bracket s ≡ some (l, r) → IsUpTo s l r
unfolding to_bracket
to_bracket_sound [] l r e = absurd (cc)
to_bracket_sound (c ∷ s) l r e = elim (Bool-cases (code c == b']')) [
  | inl found ↦
      let here : to_bracket (c ∷ s) ≡ some ([], s) = rw found refl in
      subst (λ (q : String × String). IsUpTo (c ∷ s) q.0 q.1) (some-inj (sym here ∙ e))
        (tt, (c, (==_iff (code c) b']').0 found, refl))
  | inr other ↦
      let on : to_bracket (c ∷ s) ≡ grown c (to_bracket s) = rw other refl in
      let (l', later, same) = grown-some c (to_bracket s) l r (sym on ∙ e) in
      let (free, (d, closes, parts)) = to_bracket_sound s l' r later in
      let ne : code c ≢ b']' = λ f. absurd (ground (arith, f, other)) in
      subst (λ q. IsUpTo (c ∷ s) q r) same ((ne, free), (d, closes, ap (λ q. c ∷ q) parts))
]

pub to_bracket_complete :
    (l r : String) (c : Char)
    → Without b']' l
    → code c ≡ b']'
    → to_bracket (ahead l (c ∷ r)) ≡ some (l, r)
unfolding to_bracket
to_bracket_complete [] r c h e = ground (arith, e)
to_bracket_complete (d ∷ l) r c (ne, h) e =
    let later = to_bracket_complete l r c h e in
    let other : (code d == b']') ≡ false = ground (arith, ne) in rw (other, later) refl

is_line-Without : (s : String) → is_line s ≡ true → Without 10 s
unfolding is_line
is_line-Without [] h = tt
is_line-Without (c ∷ s) h = elim (Bool-cases (code c == 10)) [
  | inl found ↦ absurd (ground (arith, h, found))
  | inr other ↦
      ((λ e. absurd (ground (arith, e, other))), is_line-Without s (ground (arith, h, other)))
]

pub Without-is_line : (s : String) → Without 10 s → is_line s ≡ true
unfolding is_line
Without-is_line [] h = refl
Without-is_line (c ∷ s) (ne, h) =
    let other : (code c == 10) ≡ false = ground (arith, ne) in rw other (Without-is_line s h)

pub message_of-some :
    (text m : String) → message_of text ≡ some m → (text ≡ m) × (m ≢ []) × Without 10 m
message_of-some [] m e = absurd (cc)
message_of-some (c ∷ s) m e = elim (Bool-cases (is_line (c ∷ s))) [
  | inl line ↦
      let here : message_of (c ∷ s) ≡ some (c ∷ s) = rw line refl in
      let same = some-inj (sym here ∙ e) in
      let (ne, free) =
        subst (λ q. (q ≢ []) × Without 10 q) same
          ((λ f. absurd (cc)), is_line-Without (c ∷ s) line) in
      (same, ne, free)
  | inr other ↦ absurd (none-some (sym (here_none other) ∙ e))
]
  where
    none-some : {A : Type 0} {a : A} → none ≡ some a → ⊥
    none-some f = absurd (cc)

    here_none : is_line (c ∷ s) ≡ false → message_of (c ∷ s) ≡ none
    here_none other = rw other refl
