-- ===== src/Prelude/Threads.antt =====
-- Threads by their numbers: where each is, and the runs of a step relation.
use Prim.Native.Nat.{ℕ}
use mathlib.Core.Path.{◌≡◌, refl}
use mathlib.Core.Logic.{◌≢◌, ◌⊎◌, inl, inr}
use native.Mathlib.Omega.{arith}
use node_nats.Prelude.Tests.{◌==◌, ==_iff, Bool-cases, if◌then◌else◌}

-- Thread `i` goes to `p`.
abbrev pub put {ℓ} : {P : Type ℓ} → (ℕ → P) → ℕ → P → ℕ → P
put pc i p j = if j == i then p else pc j

pub at-put {ℓ} :
    {P : Type ℓ} (pc : ℕ → P) (i : ℕ) (p : P) (j : ℕ)
    → ((j ≡ i) × (put pc i p j ≡ p)) ⊎ ((j ≢ i) × (put pc i p j ≡ pc j))
at-put pc i p j = elim (Bool-cases (j == i)) [
  | inl same ↦ inl ((==_iff j i).0 same, rw same refl)
  | inr other ↦ inr ((λ e. absurd (ground (arith, e, other))), rw other refl)
]

pub data Reach {ℓ} {S : Type ℓ} (Step : S → S → Type ℓ) (s : S) : S → Type ℓ where
  here : Reach Step s s
  next : {t u : S} → Reach Step s t → Step t u → Reach Step s u

pub Reach-trans {ℓ} :
    {S : Type ℓ} {Step : S → S → Type ℓ} {s t u : S}
    → Reach Step s t
    → Reach Step t u
    → Reach Step s u
Reach-trans r here = r
Reach-trans r (next q st) = next (Reach-trans r q) st
