-- ===== src/Base/Fields.antt =====
-- `strings.Split` at one character: a list with at least one field.
use Prim.Native.Nat.{ℕ}
use Prim.Native.Char.{Char, code}
use Prim.Native.String.{String}
use Prim.Native.String as S
use mathlib.Core.List.{List, [], ◌∷◌}
use finnri_api.Base.Tests.{◌==◌, if◌then◌else◌}

abbrev pub extend_first : Char → List String → List String
extend_first c [] = []
extend_first c (s ∷ fields) = S.◌∷◌ c s ∷ fields

unfoldable pub split : ℕ → String → List String
split sep S.[] = "" ∷ []
split sep (S.◌∷◌ c s) =
    let fields = split sep s in if code c == sep then "" ∷ fields else extend_first c fields
