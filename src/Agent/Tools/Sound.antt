-- ===== src/Agent/Tools/Sound.antt =====
-- _matches_schema and the typing rules, backend/bothesis/agent/tools/core/registry.py.
use bo_thesis.Base.Json.{
  Json, null, boolean, integer, number, string, array, object, Items, nil, cons, Fields, end, field,
}
use bo_thesis.Base.{◌≡◌, ◌↔◌, refl, ap, ◌∙◌, Bool, true, false, ◌&&◌, Option, some, codes, arith}
use bo_thesis.Agent.Tools.Schema.{
  get_field, Kind, null_kind, object_kind, array_kind, string_kind, integer_kind, number_kind,
  boolean_kind, any_kind, schema_kinds, matches_one, matches_property, matches_item, matches_object,
  matches_kind, matches_fields, matches_items, matches_schema,
}
use bo_thesis.Agent.Tools.Typing.{
  HasKind, anything, a_null, an_object, an_array, a_string, an_integer, a_whole_number, a_number,
  a_boolean, HasType, of_kind, HasProperties, no_more, one_more, HasItems, no_item, one_item,
  ItemHasType, typed_item, free_item, is_object, any-Member, Member→any, &&-eq-true,
  has_required-Requires, Requires→has_required, is_closed-IsClosed, IsClosed→is_closed,
  matches_text-TextFits, TextFits→matches_text, has_length-CountFits, CountFits→has_length,
}

-- A test of a value that keeps to the typing rules.
abbrev KeepsTo : Json → (Fields → Kind → Bool) → Type 0
KeepsTo value test = (s : Fields) (k : Kind) → test s k ≡ true → HasKind value s k

one-HasType :
    (value : Json) (s : Fields) (test : Fields → Kind → Bool)
    → KeepsTo value test
    → matches_one test s ≡ true
    → HasType value s
one-HasType value s test keeps h =
    let (k, m, passed) = any-Member (test s) (schema_kinds s) h in of_kind k m (keeps s k passed)

property-HasType :
    (value : Json) (found : Option Json) (test : Fields → Kind → Bool)
    → KeepsTo value test
    → matches_property test found ≡ true
    → (s : Fields) × (found ≡ some (object s)) × HasType value s
property-HasType value (some (object s)) test keeps h = (s, refl, one-HasType value s test keeps h)
property-HasType value _ test keeps h = cc

item-HasType :
    (value : Json) (found : Option Json) (test : Fields → Kind → Bool)
    → KeepsTo value test
    → matches_item test found ≡ true
    → ItemHasType value found
item-HasType value (some (object s)) test keeps h = typed_item s (one-HasType value s test keeps h)
item-HasType value _ test keeps h = free_item refl

object-HasKind :
    (fields s : Fields) (found required : Option Json)
    → ((properties : Fields)
        → matches_fields fields properties ≡ true
        → HasProperties fields properties)
    → get_field s (codes "properties") ≡ found
    → get_field s (codes "required") ≡ required
    → matches_object fields s (matches_fields fields) found required ≡ true
    → HasKind (object fields) s object_kind
unfolding matches_object
object-HasKind fields s (some (object properties)) (some (array required)) typed p q h =
    let (complete, rest) = &&-eq-true _ _ h in
    let (closed, values) = &&-eq-true _ _ rest in
    an_object properties required p q (has_required-Requires required fields complete)
      (is_closed-IsClosed s properties fields closed) (typed properties values)
object-HasKind fields s _ _ typed p q h = cc

mutual
  unfolding matches_kind

  matches_kind-HasKind :
      (value : Json) (s : Fields) (k : Kind) → matches_kind value s k ≡ true → HasKind value s k
  matches_kind-HasKind value s any_kind h = anything
  matches_kind-HasKind null s null_kind h = a_null
  matches_kind-HasKind (object fields) s object_kind h =
      object-HasKind fields s (get_field s (codes "properties")) (get_field s (codes "required"))
        (matches_fields-HasProperties fields) refl refl h
  matches_kind-HasKind (array items) s array_kind h =
      let (count, values) = &&-eq-true _ _ h in
      an_array (has_length-CountFits items s count)
        (matches_items-HasItems items (get_field s (codes "items")) values)
  matches_kind-HasKind (string text) s string_kind h = a_string (matches_text-TextFits text s h)
  matches_kind-HasKind (integer n) s integer_kind h = an_integer
  matches_kind-HasKind (integer n) s number_kind h = a_whole_number
  matches_kind-HasKind (number n) s number_kind h = a_number
  matches_kind-HasKind (boolean b) s boolean_kind h = a_boolean
  matches_kind-HasKind _ s _ h = cc

  matches_fields-HasProperties :
      (fields properties : Fields)
      → matches_fields fields properties ≡ true
      → HasProperties fields properties
  matches_fields-HasProperties end properties h = no_more
  matches_fields-HasProperties (field key value fields) properties h =
      let (first, rest) = &&-eq-true _ _ h in
      let (s, found, typed) =
        property-HasType value (get_field properties key) (matches_kind value)
          (matches_kind-HasKind value) first in
      one_more s found typed (matches_fields-HasProperties fields properties rest)

  matches_items-HasItems :
      (items : Items) (schema : Option Json)
      → matches_items items schema ≡ true
      → HasItems items schema
  matches_items-HasItems nil schema h = no_item
  matches_items-HasItems (cons value items) schema h =
      let (first, rest) = &&-eq-true _ _ h in
      one_item (item-HasType value schema (matches_kind value) (matches_kind-HasKind value) first)
        (matches_items-HasItems items schema rest)

free-matches_item :
    (value : Json) (schema : Option Json)
    → is_object schema ≡ false
    → matches_item (matches_kind value) schema ≡ true
free-matches_item value (some (object s)) h = cc
free-matches_item value _ h = refl

mutual
  unfolding matches_kind

  HasKind→matches_kind :
      (value : Json) (s : Fields) (k : Kind) → HasKind value s k → matches_kind value s k ≡ true
  HasKind→matches_kind value s k anything = refl
  HasKind→matches_kind value s k a_null = refl
  HasKind→matches_kind value s k
        (an_object {fields = fields} properties required p q complete closed typed) =
      rw (p, q)
        (ground (
          arith,
          Requires→has_required required fields complete,
          IsClosed→is_closed s properties fields closed,
          HasProperties→matches_fields fields properties typed,
        ))
  HasKind→matches_kind value s k (an_array {items = items} count typed) = ground (
    arith,
    CountFits→has_length items s count,
    HasItems→matches_items items (get_field s (codes "items")) typed,
  )
  HasKind→matches_kind value s k (a_string {text = text} fits) = TextFits→matches_text text s fits
  HasKind→matches_kind value s k an_integer = refl
  HasKind→matches_kind value s k a_whole_number = refl
  HasKind→matches_kind value s k a_number = refl
  HasKind→matches_kind value s k a_boolean = refl

  HasType→matches_one :
      (value : Json) (s : Fields) → HasType value s → matches_one (matches_kind value) s ≡ true
  HasType→matches_one value s (of_kind k m typed) =
      Member→any (matches_kind value s) (schema_kinds s) k m (HasKind→matches_kind value s k typed)

  HasProperties→matches_fields :
      (fields properties : Fields)
      → HasProperties fields properties
      → matches_fields fields properties ≡ true
  HasProperties→matches_fields fields properties no_more = refl
  HasProperties→matches_fields fields properties
        (one_more {key = key} {value = value} {fields = rest} s found typed more) =
      ap (λ o. matches_property (matches_kind value) o && matches_fields rest properties) found
      ∙ ap (λ b. b && matches_fields rest properties) (HasType→matches_one value s typed)
      ∙ HasProperties→matches_fields rest properties more

  HasItems→matches_items :
      (items : Items) (schema : Option Json)
      → HasItems items schema
      → matches_items items schema ≡ true
  HasItems→matches_items items schema no_item = refl
  HasItems→matches_items items schema (one_item {value = value} {items = rest} typed more) =
      ap (λ b. b && matches_items rest schema) (ItemHasType→matches_item value schema typed)
      ∙ HasItems→matches_items rest schema more

  ItemHasType→matches_item :
      (value : Json) (schema : Option Json)
      → ItemHasType value schema
      → matches_item (matches_kind value) schema ≡ true
  ItemHasType→matches_item value schema (typed_item s typed) = HasType→matches_one value s typed
  ItemHasType→matches_item value schema (free_item free) = free-matches_item value schema free

-- A value is accepted exactly if the typing rules give it a type that the schema names.
pub matches_schema_iff :
    (value : Json) (schema : Fields) → (matches_schema value schema ≡ true) ↔ HasType value schema
unfolding matches_schema
matches_schema_iff value schema = (
  one-HasType value schema (matches_kind value) (matches_kind-HasKind value),
  HasType→matches_one value schema,
)
