-- ===== src/Tests/IntText.antt =====
-- A text for each integer: a sign and strokes.
use Prim.Native.Char.{code}
use mercado.Prelude.Int.{ℤ, pos, negsuc}
use mercado.Prelude.{Option, ℕ, none, suc, ◌≡◌, some, zero, if◌then◌else◌, refl, ◌==◌}
use Prim.Native.String.{String}
use mathlib.Core.Path.{ap}

unfoldable pub ones : ℕ → String
ones zero = ""
ones (suc n) = String.◌∷◌ "1" (ones n)

unfoldable pub count : String → ℕ
count String.[] = 0
count (String.◌∷◌ c s) = suc (count s)

pub count-ones : (n : ℕ) → count (ones n) ≡ n
unfolding count ones
count-ones zero = refl
count-ones (suc n) = ap suc (count-ones n)

unfoldable pub to_text : ℤ → String
to_text (pos n) = String.◌∷◌ "+" (ones n)
to_text (negsuc n) = String.◌∷◌ "-" (ones n)

unfoldable pub parse : String → Option ℤ
parse String.[] = none
parse (String.◌∷◌ c s) = some (if code c == b'+' then pos (count s) else negsuc (count s))

pub parse-to_text : (n : ℤ) → parse (to_text n) ≡ some n
unfolding parse to_text
parse-to_text (pos n) = rw (count-ones n)
parse-to_text (negsuc n) = rw (count-ones n)
