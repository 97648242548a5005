-- ===== src/Prelude/Texts.antt =====
-- What the program uses of Go's package strings, and maps with text keys.
use Prim.Native.String.{String}
use mathlib.Core.Path.{◌≡◌, refl}
use mathlib.Core.Bool.{Bool, true, false, ◌||◌}
use mathlib.Core.Option.{Option, none, some}
use mathlib.Core.List.{List, [], ◌∷◌}
use native.Mathlib.Omega.{arith}
use text.Mathlib.Text.{◌==◌ as eqb, find?}
use text.Mathlib.TextEquality.{eq_iff}
use node_nats.Prelude.Tests.{if◌then◌else◌}

-- `==` on texts
abbrev pub str_eq : String → String → Bool
str_eq = eqb

-- strings.Contains
unfoldable pub contains : String → String → Bool
contains s t = elim (find? s t) [ none ↦ false | some _ ↦ true ]

-- strings.HasSuffix
unfoldable pub has_suffix : String → String → Bool
has_suffix String.[] t = str_eq String.[] t
has_suffix (String.◌∷◌ c s) t = str_eq (String.◌∷◌ c s) t || has_suffix s t

-- slices.Contains on texts
unfoldable pub mem : List String → String → Bool
mem [] x = false
mem (y ∷ ys) x = str_eq y x || mem ys x

-- A Go map with text keys, as an association list; the first entry of a key counts.
module _ {ℓ} {V : Type ℓ} where
  unfoldable pub lookup : (key : String) → List (String × V) → Option V
  lookup key [] = none
  lookup key (entry ∷ rest) =
      let later = lookup key rest in if str_eq entry.0 key then some entry.1 else later

  unfoldable pub insert : (key : String) → V → List (String × V) → List (String × V)
  insert key value [] = (key, value) ∷ []
  insert key value (entry ∷ rest) =
      let later = entry ∷ insert key value rest in
      if str_eq entry.0 key then (key, value) ∷ rest else later

  pub lookup-insert :
      (key other : String) (value : V) (entries : List (String × V))
      → lookup other (insert key value entries)
        ≡ (if str_eq key other then some value else lookup other entries)
  unfolding lookup insert
  lookup-insert key other value [] = refl
  lookup-insert key other value (entry ∷ rest) = ground (
    arith,
    lookup-insert key other value rest,
    eq_iff entry.0 other,
    eq_iff key other,
    eq_iff entry.0 key,
  )
