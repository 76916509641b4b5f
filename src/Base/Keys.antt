-- ===== src/Base/Keys.antt =====
-- The keys of a dictionary, `list(d)`. An association list stands for a dictionary when no key is
-- there twice.
use bo_thesis.Base.Tests.{Eq, nat_eq}
use bo_thesis.Base.Lists.{All, contains, is_unique}
use bo_thesis.Base.Members.{Member, Member-map, Member→contains}
use bo_thesis.Base.Dict.{Dict, get, put}
use mathlib.Core.Path.{◌≡◌, refl}
use mathlib.Core.Logic.{inl, inr}
use mathlib.Core.Bool.{Bool, true, false}
use mathlib.Core.Option.{Option, none, some}
use mathlib.Core.List.{List, [], ◌∷◌, map}
use native.Mathlib.Omega.{arith}
use Prim.{absurd}

abbrev pub is_found {ℓ} : {V : Type ℓ} → Option V → Bool
is_found none = false
is_found (some v) = true

module _ {K V : Type 0} ⦃e : Eq K⦄ where
  abbrev pub keys : Dict K V → List K
  keys d = map (λ (p : K × V). p.0) d

  abbrev pub IsDict : Dict K V → Type 0
  IsDict d = is_unique (keys d) ≡ true

  pub contains-keys : (d : Dict K V) (k : K) → contains (keys d) k ≡ is_found (get d k)
  unfolding get
  contains-keys [] k = refl
  contains-keys ((j, v) ∷ d) k = ground (arith, contains-keys d k)

  keys-put :
      (d : Dict K V) (k j : K) (v : V)
      → e.beq k j ≡ false
      → contains (keys (put d k v)) j ≡ contains (keys d) j
  unfolding put
  keys-put [] k j v h = ground arith
  keys-put ((i, w) ∷ d) k j v h = ground (arith, keys-put d k j v, e.beq_iff i k, e.beq_iff k j)

  pub put-IsDict : (d : Dict K V) (k : K) (v : V) → IsDict d → IsDict (put d k v)
  unfolding put
  put-IsDict [] k v u = refl
  put-IsDict ((i, w) ∷ d) k v u =
      ground (arith, put-IsDict d k v, keys-put d k i v, e.beq_iff i k, e.beq_iff k i)

  pub get-Member : (d : Dict K V) (k : K) (v : V) → IsDict d → Member (k, v) d → get d k ≡ some v
  unfolding get
  get-Member [] k v u m = absurd m
  get-Member ((i, w) ∷ d) k v u (inl here) = ground (arith, e.beq_iff i k, here)
  get-Member ((i, w) ∷ d) k v u (inr there) = ground (
    arith,
    get-Member d k v,
    e.beq_iff i k,
    Member→contains (keys d) k (Member-map (k, v) (λ (p : K × V). p.0) d there),
  )

pub All-Member {ℓ} :
    {A : Type 0} (P : A → Type ℓ) (xs : List A) → ((a : A) → Member a xs → P a) → All P xs
All-Member P [] h = tt
All-Member P (x ∷ xs) h = (h x (inl refl), All-Member P xs (λ a m. h a (inr m)))
