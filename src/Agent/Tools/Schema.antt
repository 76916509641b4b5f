-- ===== src/Agent/Tools/Schema.antt =====
-- _matches_schema of backend/bothesis/agent/tools/core/registry.py. `isinstance(value, Mapping)` is
-- a JSON object, and a key of it is a text. The text of an integer is read as `int` reads it.
use bo_thesis.Base.Json.{
  Json, null, boolean, integer, number, string, array, object, Items, nil, cons, Fields, end, field,
}
use bo_thesis.Base.{
  ℕ, suc, ◌+◌, ◌-◌, ◌*◌, Bool, true, false, not, ◌&&◌, ◌||◌, Option, none, some, List, [], ◌∷◌, Str,
  codes, ◌++◌, length, any, nat_eq, ltb, nat_beq, list_beq, if◌then◌else◌,
}

-- d.get(key)
abbrev pub get_field : Fields → Str → Option Json
get_field end key = none
get_field (field k v fields) key = if list_beq k key then some v else get_field fields key

abbrev pub item_count : Items → ℕ
item_count nil = 0
item_count (cons v items) = suc (item_count items)

-- The number that decimal digits stand for.
abbrev pub digits_from : ℕ → Str → ℕ
digits_from n [] = n
digits_from n (c ∷ digits) = digits_from (n * 10 + (c - 48)) digits

-- `count < bound`, where a bound that starts with a minus sign is negative
abbrev pub lt_bound : ℕ → Str → Bool
lt_bound count [] = false
lt_bound count (c ∷ digits) = if nat_beq c 45 then false else ltb count (digits_from 0 (c ∷ digits))

-- `count > bound`; "-0" is zero.
abbrev pub gt_bound : ℕ → Str → Bool
gt_bound count [] = false
gt_bound count (c ∷ digits) =
    if nat_beq c 45
    then ltb 0 (count + digits_from 0 digits)
    else ltb (digits_from 0 (c ∷ digits)) count

-- `isinstance(minimum, int) and count < minimum`; True and False are 1 and 0.
unfoldable pub is_short : ℕ → Option Json → Bool
is_short count (some (integer bound)) = lt_bound count bound
is_short count (some (boolean true)) = ltb count 1
is_short count _ = false

-- `isinstance(maximum, int) and count > maximum`
unfoldable pub is_long : ℕ → Option Json → Bool
is_long count (some (integer bound)) = gt_bound count bound
is_long count (some (boolean true)) = ltb 1 count
is_long count (some (boolean false)) = ltb 0 count
is_long count _ = false

-- What the text of "type" asks for.
pub data Kind : Type 0 where
  null_kind object_kind array_kind string_kind integer_kind number_kind boolean_kind : Kind
  any_kind unknown_kind : Kind

unfoldable pub kind_of : Str → Kind
kind_of text =
    if list_beq text (codes "null")
    then null_kind
    else if list_beq text (codes "object")
    then object_kind
    else if list_beq text (codes "array")
    then array_kind
    else if list_beq text (codes "string")
    then string_kind
    else if list_beq text (codes "integer")
    then integer_kind
    else if list_beq text (codes "number")
    then number_kind
    else if list_beq text (codes "boolean")
    then boolean_kind
    else unknown_kind

abbrev pub has_text : Items → Str → Bool
has_text nil text = false
has_text (cons (string t) items) text = list_beq t text || has_text items text
has_text (cons _ items) text = has_text items text

-- `isinstance(allowed, list) and value not in allowed`
unfoldable pub is_excluded : Str → Option Json → Bool
is_excluded text (some (array allowed)) = not (has_text allowed text)
is_excluded text _ = false

abbrev pub is_present : Option Json → Bool
is_present none = false
is_present (some v) = true

-- Every required key is a text and there.
unfoldable pub has_required : Items → Fields → Bool
has_required nil fields = true
has_required (cons (string key) required) fields =
    is_present (get_field fields key) && has_required required fields
has_required (cons _ required) fields = false

abbrev pub is_false : Option Json → Bool
is_false (some (boolean false)) = true
is_false _ = false

abbrev pub all_declared : Fields → (properties : Fields) → Bool
all_declared end properties = true
all_declared (field key v fields) properties =
    is_present (get_field properties key) && all_declared fields properties

-- `schema.get("additionalProperties") is False` allows declared keys only.
unfoldable pub is_closed : (schema properties fields : Fields) → Bool
is_closed schema properties fields =
    if is_false (get_field schema (codes "additionalProperties"))
    then all_declared fields properties
    else true

unfoldable pub matches_text : Str → (schema : Fields) → Bool
unfolding is_short is_long is_excluded
matches_text text schema =
    not (is_excluded text (get_field schema (codes "enum")))
    && not (
        is_short (length text) (get_field schema (codes "minLength"))
        || is_long (length text) (get_field schema (codes "maxLength")))

unfoldable pub has_length : Items → (schema : Fields) → Bool
unfolding is_short is_long
has_length items schema =
    not (is_short (item_count items) (get_field schema (codes "minItems")))
    && not (is_long (item_count items) (get_field schema (codes "maxItems")))

abbrev mutual
  -- The types that "type" names: one, or those of a list. A type that is `None` asks for nothing.
  pub kinds_of : Json → List Kind
  kinds_of null = any_kind ∷ []
  kinds_of (string text) = kind_of text ∷ []
  kinds_of (array members) = member_kinds members
  kinds_of _ = unknown_kind ∷ []

  pub member_kinds : Items → List Kind
  member_kinds nil = []
  member_kinds (cons member members) = kinds_of member ++ member_kinds members

abbrev pub expected_kinds : Option Json → List Kind
expected_kinds none = any_kind ∷ []
expected_kinds (some type) = kinds_of type

abbrev pub schema_kinds : Fields → List Kind
schema_kinds schema = expected_kinds (get_field schema (codes "type"))

-- A value by its test at one type: the rest of the schema is the same at each type of a union.
abbrev pub matches_one : (Fields → Kind → Bool) → (schema : Fields) → Bool
matches_one test schema = any (test schema) (schema_kinds schema)

-- `isinstance(schema, Mapping) and _matches_schema(item, schema)`
abbrev pub matches_property : (Fields → Kind → Bool) → Option Json → Bool
matches_property test (some (object schema)) = matches_one test schema
matches_property test _ = false

-- `not isinstance(items, Mapping) or _matches_schema(item, items)`
abbrev pub matches_item : (Fields → Kind → Bool) → Option Json → Bool
matches_item test (some (object schema)) = matches_one test schema
matches_item test _ = true

-- The checks of an object; `test` is that of its values.
unfoldable pub matches_object :
    (fields schema : Fields) → (test : Fields → Bool) → (properties required : Option Json) → Bool
unfolding has_required is_closed
matches_object fields schema test (some (object properties)) (some (array required)) =
    has_required required fields && (is_closed schema properties fields && test properties)
matches_object fields schema test _ _ = false

unfoldable mutual
  unfolding kind_of matches_object matches_text has_length

  pub matches_kind : Json → (schema : Fields) → Kind → Bool
  matches_kind value schema any_kind = true
  matches_kind null schema null_kind = true
  matches_kind (object fields) schema object_kind =
      matches_object fields schema (matches_fields fields) (get_field schema (codes "properties"))
        (get_field schema (codes "required"))
  matches_kind (array items) schema array_kind =
      has_length items schema && matches_items items (get_field schema (codes "items"))
  matches_kind (string text) schema string_kind = matches_text text schema
  matches_kind (integer n) schema integer_kind = true
  matches_kind (integer n) schema number_kind = true
  matches_kind (number n) schema number_kind = true
  matches_kind (boolean b) schema boolean_kind = true
  matches_kind _ schema _ = false

  pub matches_fields : Fields → (properties : Fields) → Bool
  matches_fields end properties = true
  matches_fields (field key value fields) properties =
      matches_property (matches_kind value) (get_field properties key)
      && matches_fields fields properties

  pub matches_items : Items → (schema : Option Json) → Bool
  matches_items nil schema = true
  matches_items (cons value items) schema =
      matches_item (matches_kind value) schema && matches_items items schema

-- _matches_schema
unfoldable pub matches_schema : Json → (schema : Fields) → Bool
unfolding matches_kind
matches_schema value schema = matches_one (matches_kind value) schema
