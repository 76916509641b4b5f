-- ===== src/Agent/Context/Window.antt =====
-- What a window holds.
use mathlib.Core.List.{Sublistᴰ, reverse, reverse-append, reverse-reverse}
use mathlib.Core.Path.{subst}
use bo_thesis.Base.{
  ℕ, ◌+◌, ◌-◌, ◌≤◌, ◌≡◌, inl, inr, refl, sym, ap, ◌∙◌, Bool, true, false, List, [], ◌∷◌, ◌++◌,
  append_assoc, keep, Str, length, length-drop, All, All-append_right, All-keep_test,
  take-append-drop, ltb, arith, Bool-cases, if◌then◌else◌, list_eq, nat_eq,
}
use bo_thesis.Agent.Context.{
  ConversationMessage, SessionConfiguration, ConversationWindow, is_assistant, messages, candidates,
  fitting, without_leading_assistant, selected, starts_with_assistant, split_at, window, terms,
  shares_terms, relevant_window,
}

abbrev pub characters : List ConversationMessage → ℕ
characters [] = 0
characters (m ∷ ms) = length m.content + characters ms

characters-append :
    (xs ys : List ConversationMessage) → characters (xs ++ ys) ≡ characters xs + characters ys
characters-append [] ys = omega arith
characters-append (m ∷ ms) ys = omega (arith, characters-append ms ys)

characters-reverse : (xs : List ConversationMessage) → characters (reverse xs) ≡ characters xs
characters-reverse [] = refl
characters-reverse (m ∷ ms) =
    ap characters (reverse-append (m ∷ []) ms)
    ∙ characters-append (reverse ms) (m ∷ [])
    ∙ omega (arith, characters-reverse ms)

characters-fitting-le : (n : ℕ) (ms : List ConversationMessage) → characters (fitting n ms) ≤ n
characters-fitting-le n [] = omega arith
characters-fitting-le n (m ∷ ms) = ground (arith, characters-fitting-le (n - length m.content) ms)

-- The first list ends with the second.
abbrev pub IsSuffix : List ConversationMessage → List ConversationMessage → Type 0
IsSuffix whole part = (dropped : List ConversationMessage) × (whole ≡ dropped ++ part)

fitting-prefix :
    (n : ℕ) (ms : List ConversationMessage)
    → (rest : List ConversationMessage) × (ms ≡ fitting n ms ++ rest)
fitting-prefix n [] = ([], refl)
fitting-prefix n (m ∷ ms) = elim (Bool-cases (ltb n (length m.content))) [
  | inl large ↦ rw large (m ∷ ms, refl)
  | inr fits ↦
      let (rest, same) = fitting-prefix (n - length m.content) ms in
      rw fits (rest, ap (λ t. m ∷ t) same)
]

without_leading_assistant-suffix :
    (ms : List ConversationMessage) → IsSuffix ms (without_leading_assistant ms)
without_leading_assistant-suffix [] = ([], refl)
without_leading_assistant-suffix (m ∷ ms) = elim (Bool-cases (is_assistant m)) [
  | inl answer ↦
      let (dropped, same) = without_leading_assistant-suffix ms in
      rw answer (m ∷ dropped, ap (λ t. m ∷ t) same)
  | inr question ↦ rw question ([], refl)
]

starts-without_leading_assistant :
    (ms : List ConversationMessage) → starts_with_assistant (without_leading_assistant ms) ≡ false
starts-without_leading_assistant [] = refl
starts-without_leading_assistant (m ∷ ms) = ground (arith, starts-without_leading_assistant ms)

IsSuffix-trans : (a b c : List ConversationMessage) → IsSuffix a b → IsSuffix b c → IsSuffix a c
IsSuffix-trans a b c (d, e) (d', e') =
    (d ++ d', e ∙ ap (λ t. d ++ t) e' ∙ sym (append_assoc d d' c))

fitting-IsSuffix :
    (n : ℕ) (ms : List ConversationMessage) → IsSuffix ms (reverse (fitting n (reverse ms)))
fitting-IsSuffix n ms =
    let (rest, same) = fitting-prefix n (reverse ms) in
    (
      reverse rest,
      sym (reverse-reverse ms) ∙ ap reverse same ∙ reverse-append (fitting n (reverse ms)) rest,
    )

characters-IsSuffix :
    (whole part : List ConversationMessage)
    → IsSuffix whole part
    → characters part ≤ characters whole
characters-IsSuffix whole part (dropped, same) =
    omega (arith, ap characters same, characters-append dropped part)

-- The window is the end of the candidates, within the limits, and starts with a question.
pub record IsWindow (config : SessionConfiguration) (history : List ConversationMessage)
    (w : ConversationWindow) : Type 0 where
  pub latest : IsSuffix (candidates config history) (messages w)
  pub bounded : characters (messages w) ≤ config.max_history_characters
  pub starts : starts_with_assistant (messages w) ≡ false
  pub recent : length w.recent_messages ≤ config.recent_history_messages + 1

split_ge :
    (moved : Bool) (n recent : ℕ)
    → n ≤ (if moved then (n - recent) - 1 else n - recent) + recent + 1
split_ge true n recent = omega arith
split_ge false n recent = omega arith

split_at-ge :
    (config : SessionConfiguration) (ms : List ConversationMessage)
    → length ms ≤ split_at config ms + config.recent_history_messages + 1
unfolding split_at
split_at-ge config ms = split_ge _ (length ms) config.recent_history_messages

-- The messages of a window are the latest candidates without a gap, with no more characters than
-- allowed and no answer in front; its recent part holds at most one message more than asked for, the
-- question of the first answer.
pub window-IsWindow :
    (config : SessionConfiguration) (history : List ConversationMessage)
    → IsWindow config history (window config history)
unfolding window selected
window-IsWindow config history =
    let fits =
      reverse (fitting config.max_history_characters (reverse (candidates config history))) in
    let ms = without_leading_assistant fits in
    let whole = take-append-drop (split_at config ms) ms in
    let suffix = without_leading_assistant-suffix fits in
    record {
      latest = rw whole (
          IsSuffix-trans _ fits ms
            (fitting-IsSuffix config.max_history_characters (candidates config history)) suffix);
      bounded = omega (
        arith,
        ap characters whole,
        characters-IsSuffix fits ms suffix,
        characters-reverse
            (fitting config.max_history_characters (reverse (candidates config history))),
        characters-fitting-le config.max_history_characters (reverse (candidates config history)),
      );
      starts = rw whole (starts-without_leading_assistant fits);
      recent = omega (arith, length-drop (split_at config ms) ms, split_at-ge config ms);
    }

characters-keep-le :
    (p : ConversationMessage → Bool) (ms : List ConversationMessage)
    → characters (keep p ms) ≤ characters ms
characters-keep-le p [] = omega arith
characters-keep-le p (m ∷ ms) = ground (arith, characters-keep-le p ms)

keep-sublist :
    (p : ConversationMessage → Bool) (ms : List ConversationMessage) → Sublistᴰ (keep p ms) ms
keep-sublist p [] = Sublistᴰ.slnil
keep-sublist p (m ∷ ms) = elim (Bool-cases (p m)) [
  | inl kept ↦ rw kept (Sublistᴰ.cons-cons refl (keep-sublist p ms))
  | inr left_out ↦ rw left_out (Sublistᴰ.cons (keep-sublist p ms))
]

without_leading_assistant-sublist :
    (p : ConversationMessage → Bool) (ms : List ConversationMessage)
    → Sublistᴰ (without_leading_assistant (keep p ms)) ms
without_leading_assistant-sublist p [] = Sublistᴰ.slnil
without_leading_assistant-sublist p (m ∷ ms) = elim (Bool-cases (p m)) [
  | inl kept ↦ rw kept (elim (Bool-cases (is_assistant m)) [
    | inl answer ↦ rw answer (Sublistᴰ.cons (without_leading_assistant-sublist p ms))
    | inr question ↦ rw question (Sublistᴰ.cons-cons refl (keep-sublist p ms))
  ])
  | inr left_out ↦ rw left_out (Sublistᴰ.cons (without_leading_assistant-sublist p ms))
]

-- The first list is answers, and then the second.
abbrev pub IsWithoutAnswers : List ConversationMessage → List ConversationMessage → Type 0
IsWithoutAnswers whole part =
    (answers : List ConversationMessage) × (whole ≡ answers ++ part)
    × All (λ m. is_assistant m ≡ true) answers

without_leading_assistant-answers :
    (ms : List ConversationMessage) → IsWithoutAnswers ms (without_leading_assistant ms)
without_leading_assistant-answers [] = ([], refl, tt)
without_leading_assistant-answers (m ∷ ms) = elim (Bool-cases (is_assistant m)) [
  | inl answer ↦
      let (answers, same, all_answers) = without_leading_assistant-answers ms in
      rw answer (m ∷ answers, ap (λ t. m ∷ t) same, (answer, all_answers))
  | inr question ↦ rw question ([], refl, tt)
]

module _ (words : Str → List Str) (stop_words : List Str) where
  abbrev pub is_about : Str → ConversationMessage → Bool
  is_about user_text m =
      shares_terms words stop_words (terms words stop_words user_text)
        (terms words stop_words m.content)

  -- What stays of the window for a question: the recent messages, and the older ones that share a
  -- term with it, less the answers that would come first.
  pub record IsRelevant (config : SessionConfiguration) (history : List ConversationMessage)
      (user_text : Str) (w : ConversationWindow) : Type 0 where
    pub recent_kept : w.recent_messages ≡ (window config history).recent_messages
    pub bounded : characters (messages w) ≤ config.max_history_characters
    pub starts : starts_with_assistant w.older_messages ≡ false
    pub part : Sublistᴰ w.older_messages (window config history).older_messages
    pub shared : All (λ m. is_about user_text m ≡ true) w.older_messages
    pub complete :
        IsWithoutAnswers
          (keep (is_about user_text) (window config history).older_messages)
          w.older_messages

  -- A relevant window keeps the recent messages of the window, and of its older ones, in their
  -- order, those that share a term with the question, less the answers in front of the first
  -- question among them; it stays within the characters allowed.
  pub relevant_window-IsRelevant :
      (config : SessionConfiguration) (history : List ConversationMessage) (user_text : Str)
      → IsRelevant config history user_text
          (relevant_window words stop_words config history user_text)
  unfolding relevant_window
  relevant_window-IsRelevant config history user_text =
      let w = window config history in
      let shares = is_about user_text in
      let older = keep shares w.older_messages in
      let (dropped, same) = without_leading_assistant-suffix older in
      record {
        recent_kept = refl;
        bounded = omega (
          arith,
          (window-IsWindow config history).bounded,
          characters-append w.older_messages w.recent_messages,
          characters-append (without_leading_assistant older) w.recent_messages,
          characters-IsSuffix older (without_leading_assistant older) (dropped, same),
          characters-keep-le shares w.older_messages,
        );
        starts = starts-without_leading_assistant older;
        part = without_leading_assistant-sublist shares w.older_messages;
        complete = without_leading_assistant-answers older;
        shared =
            All-append_right (λ m. shares m ≡ true) dropped (without_leading_assistant older)
              (subst (All (λ m. shares m ≡ true)) same (All-keep_test shares w.older_messages));
      }
