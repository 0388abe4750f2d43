-- ===== src/Prelude/Exec.antt =====
-- Calls that change the world `W` and may end in an error. What was written before an error stays
-- written, so the world comes back beside the error too. `do` is the `?` operator.

use mercado.Prelude.Results.{Result, ok, err}

abbrev pub Exec : Type 0 → Type 0 → Type 0 → Type 0
Exec W E A = W → Result E A × W

module _ {W E : Type 0} where
  abbrev pub pure : {A : Type 0} → A → Exec W E A
  pure a w = (ok a, w)

  abbrev pub raise : {A : Type 0} → E → Exec W E A
  raise e w = (err e, w)

  -- `Result` in the place of a call, as in `compute()?`.
  abbrev pub lift : {A : Type 0} → Result E A → Exec W E A
  lift r w = (r, w)

  abbrev continue : {A B : Type 0} → Result E A × W → (A → Exec W E B) → Result E B × W
  continue (ok a, w) f = f a w
  continue (err e, w) f = (err e, w)

  infixl 5 ◌>>=◌ ◌>>◌
  abbrev pub ◌>>=◌ : {A B : Type 0} → Exec W E A → (A → Exec W E B) → Exec W E B
  ◌>>=◌ m f w = continue (m w) f

  abbrev pub ◌>>◌ : {A B : Type 0} → Exec W E A → Exec W E B → Exec W E B
  m >> k = m >>= λ _. k

module _ {W E F : Type 0} where
  abbrev changed : {A : Type 0} → (E → F) → Result E A × W → Result F A × W
  changed f (ok a, w) = (ok a, w)
  changed f (err e, w) = (err (f e), w)

  -- `map_err`, `change_context`
  abbrev pub map_error : {A : Type 0} → (E → F) → Exec W E A → Exec W F A
  map_error f m w = changed f (m w)

  -- `match call().await { Ok(a) => …, Err(e) => … }` with other errors after it.
  abbrev pub on_result : {A B : Type 0} → Exec W E A → (Result E A → Exec W F B) → Exec W F B
  on_result m f w = let (r, w') = m w in f r w'
