-- ===== src/Agent/Reducer/Frame.antt =====
-- What a write of ResponseReducer leaves alone, backend/bothesis/agent/reducer.py.
pub mod Each
use mathlib.Core.Path.{fun_ext}
use bo_thesis.Base.Dict.{Dict, get, put, get_or, setdefault, get-put}
use bo_thesis.Base.{
  ℕ, suc, ◌≡◌, refl, sym, ap, ◌∙◌, Bool, true, false, ◌&&◌, Option, none, some, List, [], ◌∷◌, ◌++◌,
  Str, concat, gather, map, nat_beq, nat_beq_iff, pair_beq, Bool-cases, inl, inr, Eq, nat_eq,
  list_eq, pair_eq, if◌then◌else◌, arith,
}
use bo_thesis.Base.Sorted.{sort_asc}
use bo_thesis.Agent.Protocol.{
  ContentPart, output_text, Item, message, reasoning, function_call, other, summary_text, text_of,
  annotations_of,
}
use bo_thesis.Agent.Reducer.State.{
  PartKey, Reducer, indices, sorted_indices, materialize_part, item_content, reasoning_summary,
  rebuilt, rebuild_shell, rebuild, found_part,
}
use bo_thesis.Agent.Reducer.Writes.{
  adopted, appended, append_text, set_text, add_annotation, place_summary_part, append_summary_text,
  set_summary_text, remember_item_id, text_or_refusal,
}
use bo_thesis.Agent.Reducer.Apply.{
  place_part, place_parts, place_summary_parts, seed, adopted_annotations,
}

-- The dictionaries agree at every key of another item.
abbrev pub Apart : {V : Type 0} → ℕ → Dict PartKey V → Dict PartKey V → Type 0
Apart o d after =
    (j : ℕ)
    → nat_beq o j ≡ false
    → (indices after j ≡ indices d j) × ((c : ℕ) → get after (j, c) ≡ get d (j, c))

abbrev pub ApartArguments : ℕ → Dict ℕ (List Str) → Dict ℕ (List Str) → Type 0
ApartArguments o d after = (j : ℕ) → nat_beq o j ≡ false → get after j ≡ get d j

pub Apart-refl : {V : Type 0} (o : ℕ) (d : Dict PartKey V) → Apart o d d
Apart-refl o d j other_item = (refl, λ c. refl)

indices-put :
    {V : Type 0} (d : Dict PartKey V) (o c j : ℕ) (v : V)
    → nat_beq o j ≡ false
    → indices (put d (o, c) v) j ≡ indices d j
unfolding indices put
indices-put [] o c j v h = ground arith
indices-put (((i, k), w) ∷ d) o c j v h = ground (arith, indices-put d o c j v)

pub put-Apart : {V : Type 0} (d : Dict PartKey V) (o c : ℕ) (v : V) → Apart o d (put d (o, c) v)
put-Apart d o c v j h = (indices-put d o c j v h, λ k. ground (arith, get-put d (o, c) (j, k) v))

pub put-ApartArguments :
    (d : Dict ℕ (List Str)) (o : ℕ) (v : List Str) → ApartArguments o d (put d o v)
put-ApartArguments d o v j h = get-put d o j v ∙ ap (λ t. if t then some v else get d j) h

pub setdefault-Apart :
    {V : Type 0} (d : Dict PartKey V) (o c : ℕ) (v : V) → Apart o d (setdefault d (o, c) v)
unfolding setdefault
setdefault-Apart d o c v = put-Apart d o c (get_or v (get d (o, c)))

pub adopted-Apart :
    (d : Dict PartKey (List Str)) (o c : ℕ) (text : Str) → Apart o d (adopted d (o, c) text)
unfolding adopted setdefault
adopted-Apart d o c [] = put-Apart d o c (get_or [] (get d (o, c)))
adopted-Apart d o c (x ∷ text) = put-Apart d o c ((x ∷ text) ∷ [])

pub appended-Apart :
    {V : Type 0} (d : Dict PartKey (List V)) (o c : ℕ) (v : V) → Apart o d (appended d (o, c) v)
unfolding appended
appended-Apart d o c v = put-Apart d o c (get_or [] (get d (o, c)) ++ (v ∷ []))

Apart-trans :
    {V : Type 0} (o : ℕ) (a b c : Dict PartKey V) → Apart o a b → Apart o b c → Apart o a c
Apart-trans o a b c h k j other_item =
    ((k j other_item).0 ∙ (h j other_item).0, λ i. (k j other_item).1 i ∙ (h j other_item).1 i)

pub appended-ApartArguments :
    (d : Dict ℕ (List Str)) (o : ℕ) (v : Str) → ApartArguments o d (appended d o v)
unfolding appended
appended-ApartArguments d o v = put-ApartArguments d o (get_or [] (get d o) ++ (v ∷ []))

module _ {A : Type 0} where
  -- `after` comes from `r` by writes to what is accumulated of the item at `o`.
  pub record WritesAt (o : ℕ) (r after : Reducer A) : Type 0 where
    pub envelope : after.envelope ≡ r.envelope
    pub shells : after.shells ≡ r.shells
    pub items : after.items ≡ r.items
    pub parts : Apart o r.parts after.parts
    pub text : Apart o r.text after.text
    pub annotations : Apart o r.annotations after.annotations
    pub summary_parts : Apart o r.summary_parts after.summary_parts
    pub summary_text : Apart o r.summary_text after.summary_text
    pub arguments : ApartArguments o r.arguments after.arguments

  pub WritesAt-refl : (o : ℕ) (r : Reducer A) → WritesAt o r r
  WritesAt-refl o r = record {
    envelope = refl;
    shells = refl;
    items = refl;
    parts = Apart-refl o _;
    text = Apart-refl o _;
    annotations = Apart-refl o _;
    summary_parts = Apart-refl o _;
    summary_text = Apart-refl o _;
    arguments = λ j h. refl;
  }

  pub WritesAt-trans :
      (o : ℕ) (r s t : Reducer A) → WritesAt o r s → WritesAt o s t → WritesAt o r t
  WritesAt-trans o r s t h k = record {
    envelope = k.envelope ∙ h.envelope;
    shells = k.shells ∙ h.shells;
    items = k.items ∙ h.items;
    parts = Apart-trans o _ _ _ h.parts k.parts;
    text = Apart-trans o _ _ _ h.text k.text;
    annotations = Apart-trans o _ _ _ h.annotations k.annotations;
    summary_parts = Apart-trans o _ _ _ h.summary_parts k.summary_parts;
    summary_text = Apart-trans o _ _ _ h.summary_text k.summary_text;
    arguments = λ j e. k.arguments j e ∙ h.arguments j e;
  }

  -- What is rebuilt of another item is the same.
  pub rebuilt-WritesAt :
      (o j : ℕ) (r s : Reducer A) (shell : Item A)
      → WritesAt o r s
      → nat_beq o j ≡ false
      → rebuilt s j shell ≡ rebuilt r j shell
  unfolding rebuilt item_content reasoning_summary materialize_part
  rebuilt-WritesAt o j r s shell w h = by_shell shell
    where
      content : item_content s j ≡ item_content r j
      content =
          ap (λ is. gather (λ c. materialize_part s (j, c)) (sort_asc (λ i. i) is)) (w.parts j h).0
          ∙ ap (λ f. gather f (sorted_indices r.parts j))
              (fun_ext
                λ c. rw ((w.parts j h).1 c) rw ((w.text j h).1 c) rw ((w.annotations j h).1 c) refl)

      summary : reasoning_summary s j ≡ reasoning_summary r j
      summary =
          ap
            (λ is.
              map (λ c. summary_text (concat (get_or [] (get s.summary_text (j, c)))))
                (sort_asc (λ i. i) is))
            (w.summary_parts j h).0
          ∙ ap (λ f. map f (sorted_indices r.summary_parts j))
              (fun_ext λ c. rw ((w.summary_text j h).1 c) refl)

      by_shell : (shell : Item A) → rebuilt s j shell ≡ rebuilt r j shell
      by_shell (message m) = ap (λ c. message (record m { content = c })) content
      by_shell (reasoning m) =
          λ i. reasoning (record m { content = content i; summary = summary i })
      by_shell (function_call m) =
          ap (λ t. function_call (record m { arguments = concat (get_or [] t) })) (w.arguments j h)
      by_shell (other m) = refl

  pub content_write :
      (o : ℕ) (r : Reducer A) (parts : Dict PartKey (ContentPart A))
      (text : Dict PartKey (List Str)) (annotations : Dict PartKey (List A))
      → Apart o r.parts parts
      → Apart o r.text text
      → Apart o r.annotations annotations
      → WritesAt o r (record r { parts = parts; text = text; annotations = annotations })
  content_write o r parts text annotations h k l = record {
    envelope = refl;
    shells = refl;
    items = refl;
    parts = h;
    text = k;
    annotations = l;
    summary_parts = Apart-refl o _;
    summary_text = Apart-refl o _;
    arguments = λ j e. refl;
  }

  pub summary_write :
      (o : ℕ) (r : Reducer A) (parts : Dict PartKey (ContentPart A))
      (text : Dict PartKey (List Str))
      → Apart o r.summary_parts parts
      → Apart o r.summary_text text
      → WritesAt o r (record r { summary_parts = parts; summary_text = text })
  summary_write o r parts text h k = record {
    envelope = refl;
    shells = refl;
    items = refl;
    parts = Apart-refl o _;
    text = Apart-refl o _;
    annotations = Apart-refl o _;
    summary_parts = h;
    summary_text = k;
    arguments = λ j e. refl;
  }

  pub arguments_write :
      (o : ℕ) (r : Reducer A) (arguments : Dict ℕ (List Str))
      → ApartArguments o r.arguments arguments
      → WritesAt o r (record r { arguments = arguments })
  arguments_write o r arguments h = record {
    envelope = refl;
    shells = refl;
    items = refl;
    parts = Apart-refl o _;
    text = Apart-refl o _;
    annotations = Apart-refl o _;
    summary_parts = Apart-refl o _;
    summary_text = Apart-refl o _;
    arguments = h;
  }
