-- ===== src/Agent/Tools/Typing.antt =====
-- The schemas of tool arguments as types, for _matches_schema of
-- backend/bothesis/agent/tools/core/registry.py.
use Prim.{absurd}
use bo_thesis.Base.Json.{
  Json, null, boolean, integer, number, string, array, object, Items, nil, cons, Fields, end, field,
}
use bo_thesis.Base.{
  ◌≡◌, ◌⊎◌, inl, inr, refl, sym, ap, ◌∙◌, Bool, true, false, ◌&&◌, ◌||◌, Option, none, some, List,
  [], ◌∷◌, Str, codes, length, any, Member, Bool-cases, nat_eq, if◌then◌else◌, arith,
}
use bo_thesis.Agent.Tools.Schema.{
  get_field, item_count, is_short, is_long, is_excluded, Kind, null_kind, object_kind, array_kind,
  string_kind, integer_kind, number_kind, boolean_kind, any_kind, is_present, has_required,
  is_false, all_declared, is_closed, matches_text, has_length, schema_kinds,
}

-- Every required key is a text, and the object has a value for it.
abbrev pub Requires : Items → Fields → Type 0
Requires nil fields = Unit
Requires (cons (string key) required) fields =
    ((value : Json) × (get_field fields key ≡ some value)) × Requires required fields
Requires (cons _ required) fields = ⊥

-- Every key of the object is declared.
abbrev pub IsDeclared : Fields → (properties : Fields) → Type 0
IsDeclared end properties = Unit
IsDeclared (field key value fields) properties =
    ((schema : Json) × (get_field properties key ≡ some schema)) × IsDeclared fields properties

abbrev pub IsClosed : (schema properties fields : Fields) → Type 0
IsClosed schema properties fields =
    (is_false (get_field schema (codes "additionalProperties")) ≡ false)
    ⊎ IsDeclared fields properties

abbrev pub TextFits : Str → (schema : Fields) → Type 0
TextFits text schema =
    (is_excluded text (get_field schema (codes "enum")) ≡ false)
    × (is_short (length text) (get_field schema (codes "minLength")) ≡ false)
    × (is_long (length text) (get_field schema (codes "maxLength")) ≡ false)

abbrev pub CountFits : Items → (schema : Fields) → Type 0
CountFits items schema =
    (is_short (item_count items) (get_field schema (codes "minItems")) ≡ false)
    × (is_long (item_count items) (get_field schema (codes "maxItems")) ≡ false)

abbrev pub is_object : Option Json → Bool
is_object (some (object fields)) = true
is_object _ = false

-- The typing rules: a value of a type that a schema names, and the values of objects and arrays.
mutual
  pub data HasKind : Json → Fields → Kind → Type 0 where
    anything : {v : Json} {s : Fields} → HasKind v s any_kind
    a_null : {s : Fields} → HasKind null s null_kind
    an_object :
        {fields s : Fields} (properties : Fields) (required : Items)
        → get_field s (codes "properties") ≡ some (object properties)
        → get_field s (codes "required") ≡ some (array required)
        → Requires required fields
        → IsClosed s properties fields
        → HasProperties fields properties
        → HasKind (object fields) s object_kind
    an_array :
        {items : Items} {s : Fields}
        → CountFits items s
        → HasItems items (get_field s (codes "items"))
        → HasKind (array items) s array_kind
    a_string : {text : Str} {s : Fields} → TextFits text s → HasKind (string text) s string_kind
    an_integer : {n : Str} {s : Fields} → HasKind (integer n) s integer_kind
    a_whole_number : {n : Str} {s : Fields} → HasKind (integer n) s number_kind
    a_number : {n : Str} {s : Fields} → HasKind (number n) s number_kind
    a_boolean : {b : Bool} {s : Fields} → HasKind (boolean b) s boolean_kind

  -- A value has a type if it is of one that its schema names.
  pub data HasType : Json → Fields → Type 0 where
    of_kind :
        {v : Json} {s : Fields} (k : Kind) → Member k (schema_kinds s) → HasKind v s k → HasType v s

  pub data HasProperties : Fields → Fields → Type 0 where
    no_more : {properties : Fields} → HasProperties end properties
    one_more :
        {key : Str} {value : Json} {fields properties : Fields} (schema : Fields)
        → get_field properties key ≡ some (object schema)
        → HasType value schema
        → HasProperties fields properties
        → HasProperties (field key value fields) properties

  pub data HasItems : Items → Option Json → Type 0 where
    no_item : {o : Option Json} → HasItems nil o
    one_item :
        {value : Json} {items : Items} {o : Option Json}
        → ItemHasType value o
        → HasItems items o
        → HasItems (cons value items) o

  -- Without a schema the items are any values.
  pub data ItemHasType : Json → Option Json → Type 0 where
    typed_item : {v : Json} (s : Fields) → HasType v s → ItemHasType v (some (object s))
    free_item : {v : Json} {o : Option Json} → is_object o ≡ false → ItemHasType v o

pub any-Member :
    {A : Type 0} (p : A → Bool) (xs : List A)
    → any p xs ≡ true
    → (x : A) × Member x xs × (p x ≡ true)
any-Member p [] h = cc
any-Member p (x ∷ xs) h = elim (Bool-cases (p x)) [
  | inl found ↦ (x, inl refl, found)
  | inr missed ↦
      let (y, m, found) = any-Member p xs (ap (λ b. b || any p xs) (sym missed) ∙ h) in
      (y, inr m, found)
]

pub Member→any :
    {A : Type 0} (p : A → Bool) (xs : List A) (x : A) → Member x xs → p x ≡ true → any p xs ≡ true
Member→any p [] x m h = absurd m
Member→any p (x ∷ xs) y (inl here) h = ground (arith, ap p here, h)
Member→any p (x ∷ xs) y (inr there) h = ground (arith, Member→any p xs y there h)

pub &&-eq-true : (a b : Bool) → (a && b) ≡ true → (a ≡ true) × (b ≡ true)
&&-eq-true true b h = (refl, h)
&&-eq-true false b h = cc

is_present-some : (found : Option Json) → is_present found ≡ true → (v : Json) × (found ≡ some v)
is_present-some none h = cc
is_present-some (some v) h = (v, refl)

pub has_required-Requires :
    (required : Items) (fields : Fields)
    → has_required required fields ≡ true
    → Requires required fields
unfolding has_required
has_required-Requires nil fields h = tt
has_required-Requires (cons (string key) required) fields h =
    let (found, rest) = &&-eq-true _ _ h in
    (is_present-some (get_field fields key) found, has_required-Requires required fields rest)
has_required-Requires (cons _ required) fields h = cc

pub Requires→has_required :
    (required : Items) (fields : Fields)
    → Requires required fields
    → has_required required fields ≡ true
unfolding has_required
Requires→has_required nil fields h = refl
Requires→has_required (cons (string key) required) fields ((v, found), rest) =
    ap (λ o. is_present o && has_required required fields) found
    ∙ Requires→has_required required fields rest
Requires→has_required (cons _ required) fields h = absurd h

all_declared-IsDeclared :
    (fields properties : Fields)
    → all_declared fields properties ≡ true
    → IsDeclared fields properties
all_declared-IsDeclared end properties h = tt
all_declared-IsDeclared (field key value fields) properties h =
    let (found, rest) = &&-eq-true _ _ h in
    (
      is_present-some (get_field properties key) found,
      all_declared-IsDeclared fields properties rest,
    )

IsDeclared→all_declared :
    (fields properties : Fields)
    → IsDeclared fields properties
    → all_declared fields properties ≡ true
IsDeclared→all_declared end properties h = refl
IsDeclared→all_declared (field key value fields) properties ((s, found), rest) =
    ap (λ o. is_present o && all_declared fields properties) found
    ∙ IsDeclared→all_declared fields properties rest

pub is_closed-IsClosed :
    (schema properties fields : Fields)
    → is_closed schema properties fields ≡ true
    → IsClosed schema properties fields
unfolding is_closed
is_closed-IsClosed schema properties fields h =
    elim (Bool-cases (is_false (get_field schema (codes "additionalProperties")))) [
      | inl limited ↦ inr (
          all_declared-IsDeclared fields properties
            (ap (λ b. if b then all_declared fields properties else true) (sym limited) ∙ h))
      | inr free ↦ inl free
    ]

pub IsClosed→is_closed :
    (schema properties fields : Fields)
    → IsClosed schema properties fields
    → is_closed schema properties fields ≡ true
unfolding is_closed
IsClosed→is_closed schema properties fields (inl free) =
    ap (λ b. if b then all_declared fields properties else true) free
IsClosed→is_closed schema properties fields (inr declared) =
    ground (arith, IsDeclared→all_declared fields properties declared)

pub matches_text-TextFits :
    (text : Str) (schema : Fields) → matches_text text schema ≡ true → TextFits text schema
unfolding matches_text
matches_text-TextFits text schema h = ground arith

pub TextFits→matches_text :
    (text : Str) (schema : Fields) → TextFits text schema → matches_text text schema ≡ true
unfolding matches_text
TextFits→matches_text text schema h = ground (arith, h.0, h.1, h.2)

pub has_length-CountFits :
    (items : Items) (schema : Fields) → has_length items schema ≡ true → CountFits items schema
unfolding has_length
has_length-CountFits items schema h = ground arith

pub CountFits→has_length :
    (items : Items) (schema : Fields) → CountFits items schema → has_length items schema ≡ true
unfolding has_length
CountFits→has_length items schema h = ground (arith, h.0, h.1)
