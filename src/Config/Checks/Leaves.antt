-- ===== src/Config/Checks/Leaves.antt =====
-- What a single check of the configuration comes to.
use mercado.Config.Checks.{List, ltb, not, is_nil, [], ◌∷◌}
use Prim.Native.Char.{Char}
use mercado.Config.Text.{
  when, is_whitespace, is_default_or_empty, put_before, trim_end, trim_start, is_empty_text, trim,
  u32_is_default_or_empty,
}
use mercado.Prelude.{
  String, ◌↔◌, ◌≡◌, Bool, refl, false, arith, ◌⊎◌, true, str_eq-false, if◌then◌else◌, ℕ, ◌<◌, List,
  ltb, not, ◌&&◌, ◌==◌, ◌≢◌, ◌≤◌, [], ◌∷◌,
}
use mercado.Prelude.Results.{Result, ok, err, ◌>>◌, map_err}

-- A text with a character that is no white space.
abbrev pub HasText : String → Type 0
HasText String.[] = ⊥
HasText (String.◌∷◌ c s) = (is_whitespace c ≡ false) ⊎ HasText s

abbrev pub IsOk : {E : Type 0} → Result E (Unit {0}) → Type 0
IsOk r = r ≡ ok tt

pub not-IsOk : {E : Type 0} {e : E} → ¬ IsOk (err e)
not-IsOk h = cc

pub then_iff :
    {E : Type 0} {P Q : Type 0} (r k : Result E (Unit {0}))
    → (IsOk r ↔ P)
    → (IsOk k ↔ Q)
    → IsOk (r >> k) ↔ (P × Q)
then_iff (ok u) k hr hk = (λ e. (hr.0 refl, hk.0 e), λ pq. hk.1 pq.1)
then_iff (err e) k hr hk = (λ f. absurd (not-IsOk f), λ pq. absurd (not-IsOk (hr.1 pq.0)))

pub when_iff :
    {E : Type 0} {P : Type 0} (b : Bool) (e : E) → ((b ≡ false) ↔ P) → IsOk (when b (err e)) ↔ P
unfolding when
when_iff true e h = ground arith
when_iff false e h = ground arith

pub map_err_iff :
    {E F : Type 0} {P : Type 0} (f : E → F) (r : Result E (Unit {0}))
    → (IsOk r ↔ P)
    → IsOk (map_err f r) ↔ P
map_err_iff f (ok u) h = (λ e. h.0 refl, λ p. refl)
map_err_iff f (err e) h = (λ e'. absurd (not-IsOk e'), λ p. absurd (not-IsOk (h.1 p)))

pub is_empty_text-kept :
    (b : Bool) (c : Char)
    → (is_empty_text (if b then "" else String.◌∷◌ c "") ≡ false)
      ↔ ((b ≡ false) ⊎ (is_empty_text "" ≡ false))
unfolding is_empty_text
is_empty_text-kept true c = ground arith
is_empty_text-kept false c = ground arith

pub is_empty_text-put_before :
    (c : Char) (t : String)
    → (is_empty_text (put_before c t) ≡ false)
      ↔ ((is_whitespace c ≡ false) ⊎ (is_empty_text t ≡ false))
unfolding put_before is_empty_text
is_empty_text-put_before c String.[] = is_empty_text-kept (is_whitespace c) c
is_empty_text-put_before c (String.◌∷◌ d t) = ground arith

pub trim_end_iff : (s : String) → (is_empty_text (trim_end s) ≡ false) ↔ HasText s
unfolding trim_end is_empty_text
trim_end_iff String.[] = ground arith
trim_end_iff (String.◌∷◌ c s) =
    ground (arith, is_empty_text-put_before c (trim_end s), trim_end_iff s)

pub trim_start_iff : (s : String) → HasText (trim_start s) ↔ HasText s
unfolding trim_start
trim_start_iff String.[] = ground arith
trim_start_iff (String.◌∷◌ c s) = ground (arith, trim_start_iff s)

pub text_iff : (s : String) → (is_default_or_empty s ≡ false) ↔ HasText s
unfolding is_default_or_empty trim
text_iff String.[] = ground arith
text_iff (String.◌∷◌ c s) = ground (
  arith,
  str_eq-false (String.◌∷◌ c s) "" (λ e. cc),
  trim_end_iff (trim_start (String.◌∷◌ c s)),
  trim_start_iff (String.◌∷◌ c s),
)

pub positive_iff : (n : ℕ) → (u32_is_default_or_empty n ≡ false) ↔ (0 < n)
unfolding u32_is_default_or_empty
positive_iff n = ground arith

pub workers_iff : (n : ℕ) → ((n == 0) ≡ false) ↔ (0 < n)
workers_iff n = ground arith

pub timeout_iff : (m n : ℕ) → (ltb m n ≡ false) ↔ (n ≤ m)
timeout_iff m n = ground arith

pub key_iff : (s : String) → (is_empty_text s ≡ false) ↔ (s ≢ "")
unfolding is_empty_text
key_iff String.[] = ((λ e. cc), λ ne. absurd (ne refl))
key_iff (String.◌∷◌ c s) = ((λ e h. cc), λ ne. refl)

pub unless_iff :
    {P : Type 0} (b c : Bool) → ((c ≡ false) ↔ P) → ((not b && c) ≡ false) ↔ (b ≡ false → P)
unless_iff true c h = ground arith
unless_iff false c h = ((λ e _. h.0 e), λ p. h.1 (p refl))

pub if_iff : {P : Type 0} (b c : Bool) → ((c ≡ false) ↔ P) → ((b && c) ≡ false) ↔ (b ≡ true → P)
if_iff true c h = ((λ e _. h.0 e), λ p. h.1 (p refl))
if_iff false c h = ground arith

pub filled_iff : {A : Type 0} (xs : List A) → (is_nil xs ≡ false) ↔ (xs ≢ [])
filled_iff [] = ((λ e. cc), λ ne. absurd (ne refl))
filled_iff (x ∷ xs) = ((λ e h. cc), λ ne. refl)

pub nil_iff : {A : Type 0} (xs : List A) → (not (is_nil xs) ≡ false) ↔ (xs ≡ [])
nil_iff [] = ((λ e. refl), λ e. refl)
nil_iff (x ∷ xs) = ((λ e. cc), λ e. cc)
