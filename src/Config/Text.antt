-- ===== src/Config/Text.antt =====
-- `ConfigExt` of crates/common_utils/src/ext_traits.rs and `when` of crates/common_utils/src/fp_utils.rs,
-- with `trim` of the standard library.
use mercado.Prelude.{Bool, String, ℕ, if◌then◌else◌, leb, str_eq, true, ◌==◌, false, ◌&&◌, ◌||◌}
use Prim.Native.Char.{Char, code}
use mercado.Prelude.Results.{Result, ok}

-- `char::is_whitespace`: the characters with the property White_Space.
unfoldable pub is_whitespace : Char → Bool
is_whitespace c =
    (leb 9 (code c) && leb (code c) 13)
    || code c == 32
    || code c == 133
    || code c == 160
    || code c == 5760
    || (leb 8192 (code c) && leb (code c) 8202)
    || code c == 8232
    || code c == 8233
    || code c == 8239
    || code c == 8287
    || code c == 12288

unfoldable pub trim_start : String → String
trim_start String.[] = ""
trim_start (String.◌∷◌ c s) =
    let rest = trim_start s in if is_whitespace c then rest else String.◌∷◌ c s

-- A character in front of a text whose end is trimmed.
unfoldable pub put_before : Char → String → String
put_before c String.[] = if is_whitespace c then "" else String.◌∷◌ c ""
put_before c (String.◌∷◌ d s) = String.◌∷◌ c (String.◌∷◌ d s)

unfoldable pub trim_end : String → String
unfolding put_before
trim_end String.[] = ""
trim_end (String.◌∷◌ c s) = put_before c (trim_end s)

unfoldable pub trim : String → String
trim s = trim_end (trim_start s)

unfoldable pub is_empty_text : String → Bool
is_empty_text String.[] = true
is_empty_text (String.◌∷◌ c s) = false

-- For a `Secret<String>` too, whose value it peeks at.
unfoldable pub is_default_or_empty : String → Bool
is_default_or_empty s = str_eq s "" || is_empty_text (trim s)

-- For a u32, where `is_empty_after_trim` is false.
unfoldable pub u32_is_default_or_empty : ℕ → Bool
u32_is_default_or_empty n = n == 0 || false

unfoldable pub when : {E : Type 0} → (predicate : Bool) → Result E (Unit {0}) → Result E (Unit {0})
when predicate f = if predicate then f else ok tt
