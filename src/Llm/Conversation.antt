-- ===== src/Llm/Conversation.antt =====
-- src/llm/Conversation.{h,cpp}: the messages of a conversation, trimmed to a budget of bytes.
pub mod Trim
mod Tests
use edge_llm.Base.{
  ℕ, ◌+◌, ◌%◌, ◌^◌, Bool, true, false, List, [], ◌∷◌, ◌++◌, Bytes, ltb, if◌then◌else◌, length,
}
use edge_llm.Llm.Messages.{Message, Role, message}

pub record Conversation : Type 0 where
  pub system : Bytes
  pub messages : List Message
  pub budget : ℕ

abbrev pub per_message_overhead : ℕ
per_message_overhead = 16

-- The sum of the loop, which is not wrapped: the contents are in memory together.
unfoldable pub approx_bytes : List Message → ℕ
approx_bytes [] = 0
approx_bytes (m ∷ ms) = length m.content + per_message_overhead + approx_bytes ms

-- The loop of `trim`, which erases the first message.
unfoldable pub trim_messages : ℕ → List Message → List Message
unfolding approx_bytes
trim_messages budget [] = []
trim_messages budget (m ∷ []) = m ∷ []
trim_messages budget (m ∷ n ∷ ms) =
    let rest = trim_messages budget (n ∷ ms) in
    if ltb budget (approx_bytes (m ∷ n ∷ ms)) then rest else m ∷ n ∷ ms

unfoldable pub trim : Conversation → Conversation
unfolding trim_messages
trim c = record c { messages = trim_messages c.budget c.messages }

unfoldable pub add : Message → Conversation → Conversation
unfolding trim
add msg c = trim (record c { messages = c.messages ++ msg ∷ [] })

unfoldable pub set_budget : ℕ → Conversation → Conversation
unfolding trim
set_budget bytes c = trim (record c { budget = bytes })
