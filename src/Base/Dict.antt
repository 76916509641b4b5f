-- ===== src/Base/Dict.antt =====
-- Python's `dict`: an association list in insertion order. A write to a present key keeps its place.
use bo_thesis.Base.Tests.{Eq, beq_refl, if◌then◌else◌}
use mathlib.Core.Path.{◌≡◌, refl}
use mathlib.Core.Logic.{◌⊎◌}
use mathlib.Core.Option.{Option, none, some}
use mathlib.Core.List.{List, [], ◌∷◌, ◌++◌}
use native.Mathlib.Omega.{arith}

abbrev pub Dict {ℓ κ} : Type ℓ → Type κ → Type (ℓ ⊔ κ)
Dict K V = List (K × V)

-- d.get(key, default), of what is found
abbrev pub get_or {ℓ} : {V : Type ℓ} → V → Option V → V
get_or default none = default
get_or default (some v) = v

module _ {ℓ κ} {K : Type ℓ} {V : Type κ} ⦃e : Eq K⦄ where
  -- d.get(k)
  unfoldable pub get : Dict K V → K → Option V
  get [] k = none
  get ((j, v) ∷ d) k = if e.beq j k then some v else get d k

  -- d[k] = v
  unfoldable pub put : Dict K V → K → V → Dict K V
  put [] k v = (k, v) ∷ []
  put ((j, w) ∷ d) k v = if e.beq j k then (j, v) ∷ d else (j, w) ∷ put d k v

  -- d.pop(k, None)
  unfoldable pub remove : Dict K V → K → Dict K V
  remove [] k = []
  remove ((j, w) ∷ d) k = if e.beq j k then remove d k else (j, w) ∷ remove d k

  -- d.setdefault(k, v), with the dictionary after it
  unfoldable pub setdefault : Dict K V → K → V → Dict K V
  unfolding get put
  setdefault d k v = put d k (get_or v (get d k))

  pub get-put :
      (d : Dict K V) (k j : K) (v : V) → get (put d k v) j ≡ (if e.beq k j then some v else get d j)
  unfolding get put
  get-put [] k j v = refl
  get-put ((i, w) ∷ d) k j v =
      ground (arith, e.beq_iff k j, e.beq_iff i k, e.beq_iff i j, get-put d k j v)

  pub get-put_same : (d : Dict K V) (k : K) (v : V) → get (put d k v) k ≡ some v
  get-put_same d k v = ground (arith, get-put d k k v, beq_refl k)

  -- A write to a key that is not there comes last.
  pub put-fresh : (d : Dict K V) (k : K) (v : V) → get d k ≡ none → put d k v ≡ d ++ ((k, v) ∷ [])
  unfolding get put
  put-fresh [] k v h = refl
  put-fresh ((i, w) ∷ d) k v h = ground (arith, put-fresh d k v)

  pub get-remove :
      (d : Dict K V) (k j : K) → get (remove d k) j ≡ (if e.beq k j then none else get d j)
  unfolding get remove
  get-remove [] k j = ground arith
  get-remove ((i, w) ∷ d) k j =
      ground (arith, e.beq_iff k j, e.beq_iff i k, e.beq_iff i j, get-remove d k j)

  -- A second write to a key makes the first one of no effect.
  pub put-put : (d : Dict K V) (k : K) (v w : V) → put (put d k v) k w ≡ put d k w
  unfolding put
  put-put [] k v w = ground (arith, beq_refl k)
  put-put ((i, u) ∷ d) k v w = ground (arith, put-put d k v w)

  pub get_or-put :
      (d : Dict K V) (k j : K) (u v : V)
      → get_or u (get (put d k v) j) ≡ (if e.beq k j then v else get_or u (get d j))
  get_or-put d k j u v = ground (arith, get-put d k j v)

  -- What a dictionary holds after a write is what was written, or it was there.
  pub get-put_cases :
      (d : Dict K V) (k j : K) (v w : V)
      → get (put d k v) j ≡ some w
      → (k ≡ j) × (v ≡ w) ⊎ (get d j ≡ some w)
  get-put_cases d k j v w h = ground (arith, get-put d k j v, e.beq_iff k j)

pub get-nil {ℓ κ} : {K : Type ℓ} {V : Type κ} ⦃e : Eq K⦄ (k : K) → get {V = V} [] k ≡ none
unfolding get
get-nil k = refl
