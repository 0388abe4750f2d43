-- ===== src/Prelude/Strings.antt =====
-- The equality test of texts, and texts put together.
use mathlib.Core.List.{List, [], ◌∷◌}
use mathlib.Core.Path.{◌≡◌, refl}
use mathlib.Core.Logic.{◌≢◌, inl, inr}
use mathlib.Core.Bool.{true, false}
use Prim.Native.String.{String, ◌++◌ as str_append}
use text.Mathlib.Text.{◌==◌ as str_eq}
use text.Mathlib.TextEquality.{eq_iff}
use mercado.Prelude.Tests.{Bool-cases}

pub str_eq_refl : (s : String) → str_eq s s ≡ true
str_eq_refl s = (eq_iff s s).1 refl

pub str_eq-false : (s t : String) → s ≢ t → str_eq s t ≡ false
str_eq-false s t h = elim (Bool-cases (str_eq s t)) [
  | inl e ↦ absurd (h ((eq_iff s t).0 e))
  | inr e ↦ e
]

pub str_eq-ne : (s t : String) → str_eq s t ≡ false → s ≢ t
str_eq-ne s t h e = let same = (eq_iff s t).1 e in cc

-- The pieces of a format string.
abbrev pub concat_texts : List String → String
concat_texts [] = ""
concat_texts (s ∷ ss) = str_append s (concat_texts ss)
