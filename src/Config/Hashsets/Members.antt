-- ===== src/Config/Hashsets/Members.antt =====
-- What is in a set of the configuration.
use mathlib.Core.Path.{subst}
use Prim.Native.Char.{Char, code}
use mercado.Config.Hashsets.{
  insert, fold_parts, add_result, result_of, split_commas, put_in_first, deserialize_hashset_inner,
  parse_error,
}
use mercado.Prelude.{
  List, String, Bool, ◌∷◌, ◌≡◌, true, ◌⊎◌, [], ◌↔◌, arith, inl, inr, refl, ◌++◌, ◌≢◌, if◌then◌else◌,
  ◌==◌, false, sym,
}
use mercado.Prelude.Results.{Result, ok, err, Result-cases}
use mercado.Config.Text.{trim}

abbrev pub Has : {T : Type 0} → T → List T → Type 0
Has t [] = ⊥
Has t (x ∷ xs) = (t ≡ x) ⊎ Has t xs

err_ne_ok : {A : Type 0} {e : String} {a : A} → ◌≢◌ {A = Result String A} (err e) (ok a)
err_ne_ok h = cc

cons_ne_nil : {A : Type 0} {x : A} {xs : List A} → x ∷ xs ≢ []
cons_ne_nil h = cc

append_ne_nil : {A : Type 0} (xs : List A) (x : A) → xs ++ x ∷ [] ≢ []
append_ne_nil [] x h = cc
append_ne_nil (y ∷ ys) x h = cc

cons_part :
    (b : Bool) (c : Char) (p : String) (ps : List String) {rest : List String}
    → rest ≡ p ∷ ps
    → (q : String) × (qs : List String) × ((if b then "" ∷ rest else put_in_first c rest) ≡ q ∷ qs)
unfolding put_in_first
cons_part true c p ps {rest} e = ("", rest, refl)
cons_part false c p ps e = (String.◌∷◌ c p, ps, rw e refl)

split_commas-cons : (s : String) → (p : String) × (ps : List String) × (split_commas s ≡ p ∷ ps)
unfolding split_commas put_in_first
split_commas-cons String.[] = ("", [], refl)
split_commas-cons (String.◌∷◌ c s) =
    let (p, ps, e) = split_commas-cons s in cons_part (code c == b',') c p ps e

module _ {T : Type 0} (from_str : String → Result String T) (type_name : String) (eq : T → T → Bool)
    (eq_iff : (a b : T) → (eq a b ≡ true) ↔ (a ≡ b)) where
  -- Some part of the list is the text of `t`.
  abbrev pub Parses : T → List String → Type 0
  Parses t [] = ⊥
  Parses t (p ∷ ps) = (from_str (trim p) ≡ ok t) ⊎ Parses t ps

  abbrev pub AllParse : List String → Type 0
  AllParse [] = Unit
  AllParse (p ∷ ps) = ((t : T) × (from_str (trim p) ≡ ok t)) × AllParse ps

  insert-Has :
      (t v : T) (vs : List T) → Has t (insert from_str type_name eq v vs) ↔ ((t ≡ v) ⊎ Has t vs)
  unfolding insert
  insert-Has t v [] = ground arith
  insert-Has t v (x ∷ xs) = ground (arith, insert-Has t v xs, eq_iff x v)

  fold_parts-Has :
      (t : T) (ps : List String) (vs : List T) (es : List String)
      → let (values, errors) = fold_parts from_str type_name eq ps (vs, es) in
        Has t values ↔ (Parses t ps ⊎ Has t vs)
  unfolding fold_parts add_result
  fold_parts-Has t [] vs es = ground arith
  fold_parts-Has t (p ∷ ps) vs es = elim (Result-cases (from_str (trim p))) [
    | inl (v, parsed) ↦ rw parsed (
        ground
          (arith, fold_parts-Has t ps (insert from_str type_name eq v vs) es, insert-Has t v vs))
    | inr (e, failed) ↦
        rw failed (
          ground (arith, fold_parts-Has t ps vs (es ++ parse_error from_str type_name eq p e ∷ [])))
  ]

  keeps_after :
      (ps : List String)
      → ((vs : List T) (es : List String)
          → es ≢ []
          → (fold_parts from_str type_name eq ps (vs, es)).1 ≢ [])
      → (p : String) (r : Result String T) (vs : List T) (es : List String) → es ≢ []
      → (fold_parts from_str type_name eq ps (add_result from_str type_name eq p r (vs, es))).1 ≢ []
  unfolding add_result
  keeps_after ps rest p (ok v) vs es some_error =
      rest (insert from_str type_name eq v vs) es some_error
  keeps_after ps rest p (err e) vs es some_error =
      rest vs (es ++ parse_error from_str type_name eq p e ∷ []) (append_ne_nil es _)

  -- An error stays.
  fold_parts-keeps_errors :
      (ps : List String) (vs : List T) (es : List String)
      → es ≢ []
      → (fold_parts from_str type_name eq ps (vs, es)).1 ≢ []
  unfolding fold_parts
  fold_parts-keeps_errors [] vs es some_error = some_error
  fold_parts-keeps_errors (p ∷ ps) vs es some_error =
      keeps_after ps (fold_parts-keeps_errors ps) p (from_str (trim p)) vs es some_error

  no_errors_after :
      (ps : List String)
      → ((vs : List T) → ((fold_parts from_str type_name eq ps (vs, [])).1 ≡ []) ↔ AllParse ps)
      → (p : String) (r : Result String T) (vs : List T)
      → ((fold_parts from_str type_name eq ps (add_result from_str type_name eq p r (vs, []))).1
          ≡ [])
        ↔ (((t : T) × (r ≡ ok t)) × AllParse ps)
  unfolding add_result
  no_errors_after ps rest p (ok v) vs =
      let h = rest (insert from_str type_name eq v vs) in
      ((λ e. ((v, refl), h.0 e)), (λ a. h.1 a.1))
  no_errors_after ps rest p (err e) vs = (
    (λ h.
        absurd (
          fold_parts-keeps_errors ps vs (parse_error from_str type_name eq p e ∷ []) (λ h'. cc) h)),
    (λ a. absurd (err_ne_ok a.0.1)),
  )

  fold_parts-no_errors_iff :
      (ps : List String) (vs : List T)
      → ((fold_parts from_str type_name eq ps (vs, [])).1 ≡ []) ↔ AllParse ps
  unfolding fold_parts
  fold_parts-no_errors_iff [] vs = ((λ e. tt), λ u. refl)
  fold_parts-no_errors_iff (p ∷ ps) vs =
      no_errors_after ps (fold_parts-no_errors_iff ps) p (from_str (trim p)) vs

  -- What is read: all parts are texts of elements, and the set has these and no others.
  abbrev pub IsRead : List String → Result String (List T) → Type 0
  IsRead parts (ok values) =
      AllParse parts × (values ≢ []) × ((t : T) → Has t values ↔ Parses t parts)
  IsRead parts (err message) = ¬ AllParse parts

  IsRead-result_of :
      (p : String) (ps : List String) (acc : List T × List String)
      → ((acc.1 ≡ []) ↔ AllParse (p ∷ ps))
      → ((t : T) → Has t acc.0 ↔ (Parses t (p ∷ ps) ⊎ ⊥))
      → IsRead (p ∷ ps) (result_of from_str type_name eq acc)
  unfolding result_of
  IsRead-result_of p ps (values, []) all has = (
    all.0 refl,
    (λ e. subst (Has (all.0 refl).0.0) e ((has (all.0 refl).0.0).1 (inl (inl (all.0 refl).0.1)))),
    (λ t. ground (arith, has t)),
  )
  IsRead-result_of p ps (values, e ∷ errors) all has = λ a. (cons_ne_nil (all.1 a))

  -- Reading a set succeeds exactly if every part between the commas is the text of an element; the
  -- set then holds what the parts are texts of, nothing else, and at least one element.
  pub deserialize_hashset_inner-IsRead :
      (value : String)
      → IsRead (split_commas (trim value)) (deserialize_hashset_inner from_str type_name eq value)
  unfolding deserialize_hashset_inner
  deserialize_hashset_inner-IsRead value =
      let (p, ps, e) = split_commas-cons (trim value) in
      subst
        (λ parts.
          IsRead parts
            (result_of from_str type_name eq (fold_parts from_str type_name eq parts ([], []))))
        (sym e)
        (IsRead-result_of p ps (fold_parts from_str type_name eq (p ∷ ps) ([], []))
          (fold_parts-no_errors_iff (p ∷ ps) []) (λ t. fold_parts-Has t (p ∷ ps) [] []))
