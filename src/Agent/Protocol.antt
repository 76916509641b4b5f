-- ===== src/Agent/Protocol.antt =====
-- Items, responses and stream events: backend/bothesis/agent/protocol/content.py, items.py,
-- responses.py and events.py. An annotation, a dictionary of the provider, is a value of a type `A`.
use bo_thesis.Base.{
  ℕ, Bool, true, false, Option, some, List, [], ◌∷◌, Str, concat, keep, any, gather, map,
  if◌then◌else◌,
}

-- An image or a file of the input is kept as one text.
pub data ContentPart (A : Type 0) : Type 0 where
  output_text : Str → List A → ContentPart A
  refusal reasoning_text summary_text input_text : Str → ContentPart A
  input_image input_file : Str → ContentPart A

pub data ItemStatus : Type 0 where
  in_progress completed incomplete : ItemStatus

pub data MessageRole : Type 0 where
  system developer user assistant : MessageRole

pub data MessagePhase : Type 0 where
  commentary final_answer : MessagePhase

pub record MessageItem (A : Type 0) : Type 0 where
  pub role : MessageRole
  pub content : List (ContentPart A)
  pub id : Option Str
  pub status : Option ItemStatus
  pub phase : Option MessagePhase

pub record ReasoningItem (A : Type 0) : Type 0 where
  pub id : Option Str
  pub content : List (ContentPart A)
  pub summary : List (ContentPart A)
  pub encrypted_content : Option Str
  pub status : Option ItemStatus

pub record FunctionCallItem : Type 0 where
  pub call_id : Str
  pub name : Str
  pub arguments : Str
  pub id : Option Str
  pub status : Option ItemStatus

-- The other items, which the reducer keeps whole.
pub record OtherItem : Type 0 where
  pub payload : Str
  pub id : Option Str
  pub status : Option ItemStatus

pub data Item (A : Type 0) : Type 0 where
  message : MessageItem A → Item A
  reasoning : ReasoningItem A → Item A
  function_call : FunctionCallItem → Item A
  other : OtherItem → Item A

pub data ResponseStatus : Type 0 where
  queued in_progress completed incomplete failed cancelled : ResponseStatus

pub record ResponseError : Type 0 where
  pub code : Str
  pub message : Str

-- `details` holds completed_at, usage, incomplete_details and metadata.
pub record Response (A : Type 0) : Type 0 where
  pub status : ResponseStatus
  pub id : Str
  pub created_at : ℕ
  pub model : Option Str
  pub previous_response_id : Option Str
  pub output : List (Item A)
  pub error : Option ResponseError
  pub details : Str

-- The sequence number, which no operation reads, is left out.
pub data StreamEvent (A : Type 0) : Type 0 where
  response_created response_queued response_in_progress : Response A → StreamEvent A
  response_completed response_incomplete response_failed : Response A → StreamEvent A
  error_event : (code : Option Str) → (message : Str) → StreamEvent A
  output_item_added output_item_done : (output_index : ℕ) → Item A → StreamEvent A
  content_part_added content_part_done :
      (item_id : Str) → (output_index content_index : ℕ) → ContentPart A → StreamEvent A
  output_text_delta output_text_done refusal_delta refusal_done reasoning_delta reasoning_done :
      (item_id : Str) → (output_index content_index : ℕ) → Str → StreamEvent A
  output_text_annotation_added :
      (item_id : Str) → (output_index content_index annotation_index : ℕ) → A → StreamEvent A
  reasoning_summary_part_added reasoning_summary_part_done :
      (item_id : Str) → (output_index summary_index : ℕ) → ContentPart A → StreamEvent A
  reasoning_summary_text_delta reasoning_summary_text_done :
      (item_id : Str) → (output_index summary_index : ℕ) → Str → StreamEvent A
  function_call_arguments_delta function_call_arguments_done :
      (item_id : Str) → (output_index : ℕ) → Str → StreamEvent A

abbrev pub is_assistant : MessageRole → Bool
is_assistant assistant = true
is_assistant _ = false

abbrev pub in_final_answer : Option MessagePhase → Bool
in_final_answer (some final_answer) = true
in_final_answer _ = false

abbrev pub in_commentary : Option MessagePhase → Bool
in_commentary (some commentary) = true
in_commentary _ = false

module _ {A : Type 0} where
  -- part.text, of the parts that have one
  abbrev pub text_of : ContentPart A → Str
  text_of (output_text text _) = text
  text_of (reasoning_text text) = text
  text_of (summary_text text) = text
  text_of (input_text text) = text
  text_of (refusal _) = []
  text_of (input_image _) = []
  text_of (input_file _) = []

  abbrev pub annotations_of : ContentPart A → List A
  annotations_of (output_text _ annotations) = annotations
  annotations_of _ = []

  abbrev pub item_id : Item A → Option Str
  item_id (message m) = m.id
  item_id (reasoning r) = r.id
  item_id (function_call c) = c.id
  item_id (other o) = o.id

  abbrev pub item_status : Item A → Option ItemStatus
  item_status (message m) = m.status
  item_status (reasoning r) = r.status
  item_status (function_call c) = c.status
  item_status (other o) = o.status

  abbrev pub with_status : ItemStatus → Item A → Item A
  with_status status (message m) = message (record m { status = some status })
  with_status status (reasoning r) = reasoning (record r { status = some status })
  with_status status (function_call c) = function_call (record c { status = some status })
  with_status status (other o) = other (record o { status = some status })

  abbrev pub is_function_call : Item A → Bool
  is_function_call (function_call c) = true
  is_function_call _ = false

  -- MessageItem.text
  abbrev pub message_text : MessageItem A → Str
  message_text m = concat (map text_of m.content)

  abbrev pub assistant_message : Item A → List (MessageItem A)
  assistant_message (message m) = if is_assistant m.role then m ∷ [] else []
  assistant_message _ = []

  -- Response.messages
  abbrev pub response_messages : Response A → List (MessageItem A)
  response_messages response = gather assistant_message response.output

  -- Response.output_text
  abbrev pub response_output_text : Response A → Str
  response_output_text response = concat (map message_text (response_messages response))

  abbrev pub answer_of : List (MessageItem A) → Response A → Str
  answer_of [] response =
      if any (λ (m : MessageItem A). in_commentary m.phase) (response_messages response)
      then []
      else response_output_text response
  answer_of (m ∷ ms) response = concat (map message_text (m ∷ ms))

  -- Response.final_answer_text
  unfoldable pub final_answer_text : Response A → Str
  final_answer_text response =
      answer_of (keep (λ (m : MessageItem A). in_final_answer m.phase) (response_messages response))
        response

  -- Response.commentary_text
  unfoldable pub commentary_text : Response A → Str
  commentary_text response = concat (
      map message_text
        (keep (λ (m : MessageItem A). in_commentary m.phase) (response_messages response)))

  -- Response.function_calls
  abbrev pub requested_call : Item A → List FunctionCallItem
  requested_call (function_call c) = c ∷ []
  requested_call _ = []

  abbrev pub function_calls : Response A → List FunctionCallItem
  function_calls response = gather requested_call response.output
