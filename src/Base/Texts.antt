-- ===== src/Base/Texts.antt =====
-- Names: membership in a list of texts, and lookups by name.
use Prim.Native.String.{String}
use mathlib.Core.Path.{◌≡◌}
use mathlib.Core.Bool.{Bool, true, false}
use mathlib.Core.Option.{Option, none, some}
use mathlib.Core.List.{List, [], ◌∷◌}
use text.Mathlib.Text.{◌==◌ as str_eq}
use text.Mathlib.TextEquality.{eq_iff}
use native.Mathlib.Omega.{arith}
use drive_now.Base.Tests.{if◌then◌else◌}

-- `in`
abbrev pub is_among : String → List String → Bool
is_among name [] = false
is_among name (n ∷ ns) = if str_eq name n then true else is_among name ns

module _ {ℓ} {A : Type ℓ} where
  -- The value of a name; the names of a list of members are distinct.
  abbrev pub lookup : String → List (String × A) → Option A
  lookup name [] = none
  lookup name ((n, a) ∷ rest) = if str_eq n name then some a else lookup name rest

  -- Whether every name is among the given ones.
  abbrev pub only : List String → List (String × A) → Bool
  only names [] = true
  only names ((n, a) ∷ rest) = if is_among n names then only names rest else false

  pub only-lookup :
      (names : List String) (name : String) (a : A) (members : List (String × A))
      → lookup name members ≡ some a
      → is_among name names ≡ false
      → only names members ≡ false
  only-lookup names name a [] e h = absurd (ground arith)
  only-lookup names name a ((n, b) ∷ rest) e h =
      ground (arith, eq_iff n name, only-lookup names name a rest)
