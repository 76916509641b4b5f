-- ===== src/Agent/Context.antt =====
-- The conversation window of ContextManager, backend/bothesis/agent/context_manager.py.
pub mod Window
use mathlib.Core.List.{reverse}
use bo_thesis.Base.{
  ℕ, zero, suc, ◌+◌, ◌-◌, Bool, true, false, not, ◌&&◌, List, [], ◌∷◌, ◌++◌, map, keep, any,
  contains, Str, strip, is_empty, length, take, drop, ltb, nat_beq, list_eq, nat_eq, if◌then◌else◌,
}

pub data Role : Type 0 where
  user assistant : Role

pub record ConversationMessage : Type 0 where
  pub role : Role
  pub content : Str

-- The limits of `SessionConfiguration` that bound the window.
pub record SessionConfiguration : Type 0 where
  pub max_history_messages : ℕ
  pub max_history_characters : ℕ
  pub recent_history_messages : ℕ

pub record ConversationWindow : Type 0 where
  pub older_messages : List ConversationMessage
  pub recent_messages : List ConversationMessage

pub record ResourceRef : Type 0 where
  pub id : Str
  pub name : Str

abbrev pub is_assistant : ConversationMessage → Bool
is_assistant m = elim m.role [ user ↦ false | assistant ↦ true ]

abbrev pub messages : ConversationWindow → List ConversationMessage
messages w = w.older_messages ++ w.recent_messages

-- xs[-n:]
abbrev pub last {ℓ} : {A : Type ℓ} → ℕ → List A → List A
last zero xs = xs
last (suc n) xs = drop (length xs - suc n) xs

abbrev pub stripped : ConversationMessage → ConversationMessage
stripped m = record { role = m.role; content = strip m.content }

-- The recent messages with their content stripped, those without content left out.
unfoldable pub candidates :
    SessionConfiguration → List ConversationMessage → List ConversationMessage
candidates config history =
    keep (λ m. not (is_empty m.content)) (map stripped (last config.max_history_messages history))

-- The loop from the latest message backward: it stops at the first that does not fit.
abbrev pub fitting :
    (remaining_characters : ℕ) → List ConversationMessage → List ConversationMessage
fitting remaining [] = []
fitting remaining (m ∷ ms) =
    let rest = fitting (remaining - length m.content) ms in
    if ltb remaining (length m.content) then [] else m ∷ rest

-- `while messages and messages[0].role == "assistant": messages.pop(0)`
abbrev pub without_leading_assistant : List ConversationMessage → List ConversationMessage
without_leading_assistant [] = []
without_leading_assistant (m ∷ ms) =
    let rest = without_leading_assistant ms in if is_assistant m then rest else m ∷ ms

unfoldable pub selected : SessionConfiguration → List ConversationMessage → List ConversationMessage
unfolding candidates
selected config history =
    without_leading_assistant
      (reverse (fitting config.max_history_characters (reverse (candidates config history))))

abbrev pub starts_with_assistant : List ConversationMessage → Bool
starts_with_assistant [] = false
starts_with_assistant (m ∷ ms) = is_assistant m

abbrev pub starts_with_user : List ConversationMessage → Bool
starts_with_user [] = false
starts_with_user (m ∷ ms) = not (is_assistant m)

-- A split between a question and its answer moves in front of the question.
unfoldable pub split_at : SessionConfiguration → List ConversationMessage → ℕ
split_at config ms =
    let at = length ms - config.recent_history_messages in
    if ltb 0 at
      && (ltb at (length ms)
          && (starts_with_assistant (drop at ms) && starts_with_user (drop (at - 1) ms)))
    then at - 1
    else at

unfoldable pub window : SessionConfiguration → List ConversationMessage → ConversationWindow
unfolding selected split_at
window config history =
    let ms = selected config history in
    let at = split_at config ms in
    record { older_messages = take at ms; recent_messages = drop at ms }

-- `words` are the words of at least three characters that the regular expression finds, casefolded.
module _ (words : Str → List Str) (stop_words : List Str) where
  abbrev pub terms : Str → List Str
  terms value = keep (λ word. not (contains stop_words word)) (words value)

  abbrev pub shares_terms : List Str → List Str → Bool
  shares_terms xs ys = any (contains ys) xs

  unfoldable pub relevant_window :
      SessionConfiguration → List ConversationMessage → (user_text : Str) → ConversationWindow
  unfolding window
  relevant_window config history user_text =
      let bounded = window config history in
      record {
        older_messages =
            without_leading_assistant
              (keep (λ m. shares_terms (terms user_text) (terms m.content)) bounded.older_messages);
        recent_messages = bounded.recent_messages;
      }

  -- `seen` holds the ids of the explicit resources and of those already added.
  abbrev pub relevant_from : (user_terms seen : List Str) → List ResourceRef → List ResourceRef
  relevant_from user_terms seen [] = []
  relevant_from user_terms seen (r ∷ rs) =
      let is_new =
        not (contains seen r.id) && shares_terms user_terms (terms (r.id ++ (32 ∷ r.name))) in
      let rest = relevant_from user_terms (if is_new then r.id ∷ seen else seen) rs in
      if is_new then r ∷ rest else rest

  unfoldable pub relevant_resources :
      (explicit : List ResourceRef) → (user_text : Str) → List ResourceRef → List ResourceRef
  relevant_resources explicit user_text resources =
      explicit
      ++ relevant_from (terms user_text) (map (λ (r : ResourceRef). r.id) explicit) resources
