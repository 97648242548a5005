-- ===== src/Xray/Version/Found.antt =====
-- Which version the output of the core's command has.
use mathlib.Core.Path.{subst}
use node_nats.Prelude.{
  ◌≡◌, ◌≢◌, refl, sym, ap, ◌↔◌, inl, inr, Option, none, some, [], ◌∷◌, ◌++◌, true, false, arith,
  All, Bool-cases,
}
use node_nats.Common.User.{Bytes}
use node_nats.Config.{is_digit}
use node_nats.Xray.Version.{
  span_digits, if_some, some_digits, past, core_name, dot, find_version, output, version,
  version_in, refresh_version, ◌>>=◌,
}

-- The rest does not go on with a digit.
abbrev pub Ends : Bytes → Type 0
Ends [] = Unit
Ends (c ∷ s) = is_digit c ≡ false

abbrev pub IsNumber : Bytes → Type 0
IsNumber s = (s ≢ []) × All (λ c. is_digit c ≡ true) s

span_sound :
    (s : Bytes)
    → (s ≡ (span_digits s).0 ++ (span_digits s).1)
      × All (λ c. is_digit c ≡ true) (span_digits s).0
      × Ends (span_digits s).1
unfolding span_digits
span_sound [] = (refl, tt, tt)
span_sound (c ∷ s) = elim (Bool-cases (is_digit c)) [
  | inl digit ↦
      let (joined, digits, ends) = span_sound s in
      rw digit (ap (λ r. c ∷ r) joined, (digit, digits), ends)
  | inr other ↦ rw other (refl, tt, other)
]

span_complete :
    (d r : Bytes) → All (λ c. is_digit c ≡ true) d → Ends r → span_digits (d ++ r) ≡ (d, r)
unfolding span_digits
span_complete [] [] h e = refl
span_complete [] (c ∷ r) h e = rw e refl
span_complete (c ∷ d) r (hc, h) e = rw (hc, span_complete d r h e) refl

abbrev Taken : Bytes → Bytes → Bytes → Type 0
Taken s d r = IsNumber d × (s ≡ d ++ r) × Ends r

some-inj : {A : Type 0} {a b : A} → some a ≡ some b → a ≡ b
some-inj {a} {b} e = cc

if_some_sound :
    (s : Bytes) (p : Bytes × Bytes) (d r : Bytes)
    → (s ≡ p.0 ++ p.1) × All (λ c. is_digit c ≡ true) p.0 × Ends p.1
    → if_some p ≡ some (d, r)
    → Taken s d r
if_some_sound s ([], rest) d r h e = absurd (cc)
if_some_sound s (c ∷ digits, rest) d r (joined, all, ends) e =
    subst (λ (q : Bytes × Bytes). Taken s q.0 q.1) (some-inj e) (((cc), all), joined, ends)

some_digits_sound : (s d r : Bytes) → some_digits s ≡ some (d, r) → Taken s d r
unfolding some_digits
some_digits_sound s d r e = if_some_sound s (span_digits s) d r (span_sound s) e

some_digits_complete : (d r : Bytes) → IsNumber d → Ends r → some_digits (d ++ r) ≡ some (d, r)
unfolding some_digits
some_digits_complete [] r (ne, h) e = absurd (ne refl)
some_digits_complete (c ∷ d) r (ne, h) e = ap if_some (span_complete (c ∷ d) r h e)

past_sound : (t s r : Bytes) → past t s ≡ some r → s ≡ t ++ r
unfolding past
past_sound [] s r e = some-inj e
past_sound (c ∷ t) [] r e = absurd (cc)
past_sound (c ∷ t) (d ∷ s) r e = ground (arith, e, past_sound t s r)

joined :
    (s s₁ s₂ s₃ s₄ s₅ a b c r : Bytes)
    → s ≡ core_name ++ s₁
    → s₁ ≡ a ++ s₂
    → s₂ ≡ 46 ∷ s₃
    → s₃ ≡ b ++ s₄
    → s₄ ≡ 46 ∷ s₅
    → s₅ ≡ c ++ r
    → s ≡ core_name ++ (a ++ (46 ∷ (b ++ (46 ∷ (c ++ r)))))
joined s s₁ s₂ s₃ s₄ s₅ a b c r e₁ e₂ e₃ e₄ e₅ e₆ = rw (e₁, e₂, e₃, e₄, e₅, e₆) refl

-- The parts of a version at the start of an output, which goes on with no digit.
pub record IsVersion (s v rest : Bytes) : Type 0 where
  pub major : Bytes
  pub minor : Bytes
  pub patch : Bytes
  pub numbers : IsNumber major × IsNumber minor × IsNumber patch
  pub spelled : v ≡ major ++ (46 ∷ (minor ++ (46 ∷ patch)))
  pub at_start : s ≡ core_name ++ (major ++ (46 ∷ (minor ++ (46 ∷ (patch ++ rest)))))
  pub ends : Ends rest

bind_some :
    {A B : Type 0} (m : Option A) (f : A → Option B) (b : B)
    → (m >>= f) ≡ some b
    → (a : A) × (m ≡ some a) × (f a ≡ some b)
bind_some none f b e = absurd (cc)
bind_some (some a) f b e = (a, refl, e)

find_version-IsVersion : (s v rest : Bytes) → find_version s ≡ some (v, rest) → IsVersion s v rest
unfolding find_version
find_version-IsVersion s v rest e =
    let (s₁, e₁, f₁) = bind_some (past core_name s) _ (v, rest) e in
    let ((a, s₂), e₂, f₂) = bind_some (some_digits s₁) _ (v, rest) f₁ in
    let (s₃, e₃, f₃) = bind_some (past dot s₂) _ (v, rest) f₂ in
    let ((b, s₄), e₄, f₄) = bind_some (some_digits s₃) _ (v, rest) f₃ in
    let (s₅, e₅, f₅) = bind_some (past dot s₄) _ (v, rest) f₄ in
    let ((c, r), e₆, f₆) = bind_some (some_digits s₅) _ (v, rest) f₅ in
    let (na, ja, _) = some_digits_sound s₁ a s₂ e₂ in
    let (nb, jb, _) = some_digits_sound s₃ b s₄ e₄ in
    let (nc, jc, ends) = some_digits_sound s₅ c r e₆ in
    let same : (a ++ (46 ∷ (b ++ (46 ∷ c))), r) ≡ (v, rest) = some-inj f₆ in
    let here =
      joined s s₁ s₂ s₃ s₄ s₅ a b c r (past_sound core_name s s₁ e₁) ja (past_sound dot s₂ s₃ e₃) jb
        (past_sound dot s₄ s₅ e₅) jc in
    let last : r ≡ rest = ap (λ (q : Bytes × Bytes). q.1) same in
    record {
      major = a;
      minor = b;
      patch = c;
      numbers = (na, nb, nc);
      spelled = sym (ap (λ (q : Bytes × Bytes). q.0) same);
      at_start = subst (λ t. s ≡ core_name ++ (a ++ (46 ∷ (b ++ (46 ∷ (c ++ t)))))) last here;
      ends = subst Ends last ends;
    }

IsVersion-find_version : (s v rest : Bytes) → IsVersion s v rest → find_version s ≡ some (v, rest)
unfolding find_version
IsVersion-find_version s v rest h =
    let (na, nb, nc) = h.numbers in
    rw
      (
        h.at_start,
        h.spelled,
        some_digits_complete h.major (46 ∷ (h.minor ++ (46 ∷ (h.patch ++ rest)))) na refl,
        some_digits_complete h.minor (46 ∷ (h.patch ++ rest)) nb refl,
        some_digits_complete h.patch rest nc h.ends,
      )
      refl

version_in-some :
    (o : Option (Bytes × Bytes)) (v : Bytes)
    → version_in o ≡ version v
    → (rest : Bytes) × (o ≡ some (v, rest))
version_in-some none v e = absurd (cc)
version_in-some (some (w, rest)) v e = (rest, ap (λ u. some (u, rest)) (version-inj e))
  where
    version-inj : {a b : Bytes} → version a ≡ version b → a ≡ b
    version-inj e = cc

-- On an output of the command, refreshVersion returns a version exactly where the output starts with "Xray " and three
-- numbers with dots between them, behind which no digit stands, and then returns those.
pub refresh_version_iff :
    (text v : Bytes)
    → (refresh_version (output text) ≡ version v) ↔ ((rest : Bytes) × IsVersion text v rest)
unfolding refresh_version
refresh_version_iff text v = (
  λ e.
      let (rest, found) = version_in-some (find_version text) v e in
      (rest, find_version-IsVersion text v rest found),
  λ (rest, h). ap version_in (IsVersion-find_version text v rest h),
)
