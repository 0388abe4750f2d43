-- ===== src/Config/Hashsets.antt =====
-- Sets in the configuration: `deserialize_hashset_inner` and `deserialize_optional_hashset` of
-- crates/router/src/configs/settings.rs. A set is a list without duplicates.
pub mod Members
use mercado.Prelude.{
  List, String, Bool, ◌∷◌, Option, [], concat_texts, if◌then◌else◌, ◌++◌, none, some, ◌==◌,
}
use Prim.Native.Char.{Char, code}
use mercado.Prelude.Results.{Result, ok, err}
use mercado.Config.Text.{trim}

-- `split(',')`: the parts, of which there is always one.
put_in_first : Char → List String → List String
put_in_first c [] = String.◌∷◌ c "" ∷ []
put_in_first c (p ∷ ps) = String.◌∷◌ c p ∷ ps

unfoldable pub split_commas : String → List String
unfolding put_in_first
split_commas String.[] = "" ∷ []
split_commas (String.◌∷◌ c s) =
    let rest = split_commas s in if code c == b',' then "" ∷ rest else put_in_first c rest

-- `join("\n")`
unfoldable pub join_lines : List String → String
join_lines [] = ""
join_lines (e ∷ []) = e
join_lines (e ∷ e' ∷ es) = concat_texts (e ∷ "\n" ∷ join_lines (e' ∷ es) ∷ [])

module _ {T : Type 0} (from_str : String → Result String T) (type_name : String)
    (eq : T → T → Bool) where
  -- `HashSet::insert`
  unfoldable pub insert : T → List T → List T
  insert t [] = t ∷ []
  insert t (x ∷ xs) = let rest = insert t xs in if eq x t then x ∷ xs else x ∷ rest

  parse_error : (part error : String) → String
  parse_error part error =
      concat_texts
        ("Unable to deserialize `" ∷ trim part ∷ "` as `" ∷ type_name ∷ "`: " ∷ error ∷ [])

  -- The closure of `fold`, on a parsed part.
  add_result : String → Result String T → List T × List String → List T × List String
  unfolding parse_error
  add_result part (ok t) (values, errors) = (insert t values, errors)
  add_result part (err error) (values, errors) = (values, errors ++ parse_error part error ∷ [])

  fold_parts : List String → List T × List String → List T × List String
  unfolding add_result
  fold_parts [] acc = acc
  fold_parts (part ∷ parts) acc = fold_parts parts (add_result part (from_str (trim part)) acc)

  result_of : List T × List String → Result String (List T)
  result_of (values, []) = ok values
  result_of (values, e ∷ errors) =
      err (concat_texts ("Some errors occurred:\n" ∷ join_lines (e ∷ errors) ∷ []))

  unfoldable pub deserialize_hashset_inner : String → Result String (List T)
  unfolding fold_parts result_of
  deserialize_hashset_inner value = result_of (fold_parts (split_commas (trim value)) ([], []))

  some_if_filled : Result String (List T) → Result String (Option (List T))
  some_if_filled (ok []) = ok none
  some_if_filled (ok (t ∷ ts)) = ok (some (t ∷ ts))
  some_if_filled (err e) = err e

  -- On the optional text that was read.
  unfoldable pub deserialize_optional_hashset : Option String → Result String (Option (List T))
  unfolding some_if_filled
  deserialize_optional_hashset none = ok none
  deserialize_optional_hashset (some inner) = some_if_filled (deserialize_hashset_inner inner)
