-- ===== src/Base/Text.antt =====
-- Python's `str` as the list of its code points, with the methods that the program calls.
use Prim.Native.Nat.{ℕ, ◌≤◌}
use Prim.Native.Char.{code}
use Prim.Native.String.{String}
use mathlib.Core.Bool.{Bool, true, false, ◌&&◌, ◌||◌}
use mathlib.Core.List.{List, [], ◌∷◌, ◌++◌, append-nil, append_assoc}
use mathlib.Core.Path.{◌≡◌, refl, ap, sym, ◌∙◌}
use native.Mathlib.Omega.{arith}
use bo_thesis.Base.Tests.{leb, nat_beq, if◌then◌else◌}
use bo_thesis.Base.Lists.{length, All}

abbrev pub Str : Type 0
Str = List ℕ

-- A literal of the source.
abbrev pub codes : String → Str
codes String.[] = []
codes (String.◌∷◌ c s) = code c ∷ codes s

abbrev pub is_empty {ℓ} : {A : Type ℓ} → List A → Bool
is_empty [] = true
is_empty (x ∷ xs) = false

-- str.isspace of one character
unfoldable pub is_space : ℕ → Bool
is_space c =
    (leb 9 c && leb c 13)
    || (leb 28 c && leb c 32)
    || nat_beq c 133
    || nat_beq c 160
    || nat_beq c 5760
    || (leb 8192 c && leb c 8202)
    || nat_beq c 8232
    || nat_beq c 8233
    || nat_beq c 8239
    || nat_beq c 8287
    || nat_beq c 12288

pub lstrip : Str → Str
lstrip [] = []
lstrip (c ∷ s) = let rest = lstrip s in if is_space c then rest else c ∷ s

-- s.rstrip(): a space is kept only in front of something that is kept
pub rstrip : Str → Str
rstrip [] = []
rstrip (c ∷ s) = let rest = rstrip s in if is_space c && is_empty rest then [] else c ∷ rest

unfoldable pub strip : Str → Str
unfolding lstrip rstrip is_space
strip s = rstrip (lstrip s)

pub length-rstrip-le : (s : Str) → length (rstrip s) ≤ length s
unfolding rstrip
length-rstrip-le [] = omega arith
length-rstrip-le (c ∷ s) = ground (arith, length-rstrip-le s)

-- sep.join(parts)
abbrev pub join : Str → List Str → Str
join sep [] = []
join sep (s ∷ []) = s
join sep (s ∷ t ∷ rest) = s ++ (sep ++ join sep (t ∷ rest))

-- s.startswith(prefix)
abbrev pub starts_with : Str → Str → Bool
starts_with [] s = true
starts_with (p ∷ ps) [] = false
starts_with (p ∷ ps) (c ∷ s) = nat_beq p c && starts_with ps s

-- "".join(pieces)
abbrev pub concat : List Str → Str
concat [] = []
concat (s ∷ rest) = s ++ concat rest

pub concat-append : (xs : List Str) (s : Str) → concat (xs ++ (s ∷ [])) ≡ concat xs ++ s
concat-append [] s = append-nil s
concat-append (x ∷ xs) s =
    ap (λ t. x ++ t) (concat-append xs s) ∙ sym (append_assoc x (concat xs) s)

lstrip-plain : (s : Str) → All (λ c. is_space c ≡ false) s → lstrip s ≡ s
unfolding lstrip
lstrip-plain [] h = refl
lstrip-plain (c ∷ s) h = ap (λ b. if b then lstrip s else c ∷ s) h.0

rstrip-plain : (s : Str) → All (λ c. is_space c ≡ false) s → rstrip s ≡ s
unfolding rstrip
rstrip-plain [] h = refl
rstrip-plain (c ∷ s) h =
    ap (λ b. if b && is_empty (rstrip s) then [] else c ∷ rstrip s) h.0
    ∙ ap (λ t. c ∷ t) (rstrip-plain s h.1)

-- A text without spaces is stripped already.
pub strip-plain : (s : Str) → All (λ c. is_space c ≡ false) s → strip s ≡ s
unfolding strip
strip-plain s h = ap rstrip (lstrip-plain s h) ∙ rstrip-plain s h
