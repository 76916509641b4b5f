-- ===== src/Base/Effect.antt =====
-- A call that changes a world `W` that the program does not own, and may raise. What was done
-- before an exception stays done.

use bo_thesis.Base.Result.{Result, ok, err}

abbrev pub Effect : (E W A : Type 0) → Type 0
Effect E W A = W → Result E A × W

module _ {E W A : Type 0} where
  abbrev pub pure : A → Effect E W A
  pure a w = (ok a, w)

  abbrev pub raise : E → Effect E W A
  raise e w = (err e, w)

  abbrev pub lift : Result E A → Effect E W A
  lift r w = (r, w)

  -- `try: m` with the exception as a value
  abbrev pub attempt : Effect E W A → Effect E W (Result E A)
  attempt m w = let (r, w') = m w in (ok r, w')

module _ {E W A B : Type 0} where
  abbrev pub continue : Result E A → (A → Effect E W B) → Effect E W B
  continue (ok a) f w = f a w
  continue (err e) f w = (err e, w)

  infixl 5 ◌>>=◌ ◌>>◌
  abbrev pub ◌>>=◌ : Effect E W A → (A → Effect E W B) → Effect E W B
  ◌>>=◌ m f w = let (r, w') = m w in continue r f w'

  abbrev pub ◌>>◌ : Effect E W A → Effect E W B → Effect E W B
  m >> n = m >>= λ _. n
