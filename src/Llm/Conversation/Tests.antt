-- ===== src/Llm/Conversation/Tests.antt =====
-- A run of a conversation on concrete messages.
use edge_llm.Base.{◌≡◌, refl, [], ◌∷◌, ◌++◌, bytes}
use edge_llm.Llm.Messages.{Role, message}
use edge_llm.Llm.Conversation.{Conversation, add}
use edge_llm.Llm.Conversation.Trim.{IsTrimmed, add-IsTrimmed}

abbrev chat : Conversation
chat = record {
  system = [];
  messages = message Role.user (bytes "hi") ∷ message Role.assistant (bytes "hello") ∷ [];
  budget = 45;
}

add_drops_oldest :
    (add (message Role.user (bytes "bye")) chat).messages
    ≡ message Role.assistant (bytes "hello") ∷ message Role.user (bytes "bye") ∷ []
unfolding add
add_drops_oldest = refl

add-IsTrimmed_example :
    IsTrimmed 45
      (chat.messages ++ (message Role.user (bytes "bye") ∷ []))
      (add (message Role.user (bytes "bye")) chat).messages
add-IsTrimmed_example = add-IsTrimmed (message Role.user (bytes "bye")) chat
