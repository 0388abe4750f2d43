-- ===== src/Storage/Kind/RoundTrip.antt =====
-- A message of the invalidation channel is read as it was written.
use mercado.Redis.Replies.{FredValue}
use mercado.Prelude.Results.{ok}
use mercado.Prelude.{
  String, ◌≡◌, none, ◌∙◌, ap, some, Bool-cases, ◌==◌, inl, inr, refl, Option-cases, arith, Option,
}
use mercado.Storage.Kind.{
  config, accounts, all, kind_to_value, kind_from_value, kind_of_parts, split_once_comma, CacheKind,
  ok, config_cache_prefix, accounts_cache_prefix, all_cache_prefix, FredValue,
}
use Prim.Native.Char.{code}
use Prim.Native.String.{◌++◌ as str_append}
use text.Mathlib.TextLemmas.{nil-append, cons-append}

comma-append : (s : String) → str_append "," s ≡ String.◌∷◌ "," s
comma-append s = cons-append "," "" s ∙ ap (String.◌∷◌ ",") (nil-append s)

split_once_comma-append :
    (p s : String)
    → split_once_comma p ≡ none
    → split_once_comma (str_append p (str_append "," s)) ≡ some (p, s)
unfolding split_once_comma
split_once_comma-append String.[] s h = rw (nil-append (str_append "," s), comma-append s) refl
split_once_comma-append (String.◌∷◌ c p) s h =
    rw (cons-append c p (str_append "," s)) (elim (Bool-cases (code c == 44)) [
      | inl e ↦ absurd (ground arith)
      | inr e ↦ elim (Option-cases (split_once_comma p)) [
        | inl none_left ↦ rw (e, split_once_comma-append p s none_left) refl
        | inr (parts, some_left) ↦ absurd (ground arith)
      ]
    ])

-- If the text of a string value is that string, the kind that is received is the kind that was published, also for keys with commas.
pub kind_from-to_value :
    (as_string : FredValue → Option String)
    → ((s : String) → as_string (FredValue.string s) ≡ some s)
    → (kind : CacheKind) → kind_from_value as_string (kind_to_value kind) ≡ ok kind
unfolding kind_from_value kind_to_value kind_of_parts split_once_comma
kind_from-to_value as_string text (config s) =
    rw
      (
        text (str_append config_cache_prefix (str_append "," s)),
        split_once_comma-append config_cache_prefix s refl,
      )
      refl
kind_from-to_value as_string text (accounts s) =
    rw
      (
        text (str_append accounts_cache_prefix (str_append "," s)),
        split_once_comma-append accounts_cache_prefix s refl,
      )
      refl
kind_from-to_value as_string text (all s) =
    rw
      (
        text (str_append all_cache_prefix (str_append "," s)),
        split_once_comma-append all_cache_prefix s refl,
      )
      refl
