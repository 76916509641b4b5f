-- ===== src/Knowledge/ContextBuilder/Clip.antt =====
-- What `_clip` returns, and how long it and `_body` can be.
use bo_thesis.Base.{
  ℕ, ◌-◌, ◌≤◌, ◌≡◌, refl, Bool, true, false, Option, none, some, [], ◌∷◌, ◌++◌, Str, min, ◌*◌, ◌/◌,
  strip, rstrip, max, length, length-append, length-rstrip-le, length-take-le, take, arith,
}
use bo_thesis.Knowledge.{Evidence}
use bo_thesis.Knowledge.ContextBuilder.{
  Limits, clip, context_prefix, context_separator, body_with_context, body_for, body,
}

-- Clipping to a limit of two or more keeps the limit.
pub length-clip-le : (text : Str) (limit : ℕ) → 2 ≤ limit → length (clip text limit) ≤ limit
unfolding clip
length-clip-le text limit h =
    let front = take (max 1 (limit - 1)) text in
    ground (
      arith,
      length-append (rstrip front) (8230 ∷ []),
      length-rstrip-le front,
      length-take-le (max 1 (limit - 1)) text,
    )

-- A text that is clipped to its own length or more is returned whole.
pub clip_short : (text : Str) (limit : ℕ) → length text ≤ limit → clip text limit ≡ text
unfolding clip
clip_short text limit h = ground arith

-- The share of the budget that `_body` gives the canonical text is kept.
length-clip-le_share :
    (content : Str) (limit : ℕ)
    → 4 ≤ limit
    → length (clip content (max 1 (min (length content) (limit * 3 / 4))))
      ≤ max 1 (min (length content) (limit * 3 / 4))
unfolding clip
length-clip-le_share content limit h =
    let share = max 1 (min (length content) (limit * 3 / 4)) in
    let front = take (max 1 (share - 1)) content in
    ground (
      arith,
      length-append (rstrip front) (8230 ∷ []),
      length-rstrip-le front,
      length-take-le (max 1 (share - 1)) content,
    )

length-context_prefix : length context_prefix ≡ 44
unfolding context_prefix
length-context_prefix = refl

module _ {S : Type 0} where
  body_with_context-le :
      (item : Evidence S) (contextual : Str) (limit : ℕ)
      → 2 ≤ limit
      → length (body_with_context item contextual limit) ≤ limit
  unfolding body_with_context
  body_with_context-le item contextual limit h =
      let share = max 1 (min (length item.content) (limit * 3 / 4)) in
      let budget = limit - length context_prefix - length context_separator - share in
      let context = clip (strip contextual) budget in
      let canonical = clip item.content share in
      ground (
        arith,
        length-clip-le item.content limit,
        length-clip-le (strip contextual) budget,
        length-clip-le_share item.content limit,
        length-append context_prefix (context ++ (context_separator ++ canonical)),
        length-append context (context_separator ++ canonical),
        length-append context_separator canonical,
        length-context_prefix,
      )

  body_for-le :
      (wanted : Bool) (item : Evidence S) (contextual : Option Str) (limit : ℕ)
      → 2 ≤ limit
      → length (body_for wanted item contextual limit) ≤ limit
  unfolding body_for
  body_for-le false item contextual limit h = length-clip-le item.content limit h
  body_for-le true item none limit h = length-clip-le item.content limit h
  body_for-le true item (some text) limit h =
      ground (arith, length-clip-le item.content limit, body_with_context-le item text limit)

  -- The body keeps the budget that it is given, retrieval context and labels included.
  pub length-body-le :
      (limits : Limits) (item : Evidence S) (limit : ℕ)
      → 2 ≤ limit
      → length (body limits item limit) ≤ limit
  unfolding body
  length-body-le limits item limit h =
      body_for-le limits.include_contextual_text item item.contextual_text limit h
