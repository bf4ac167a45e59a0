-- ===== src/Agent/History.antt =====
-- internal/agent/history_recovery.go: answers for the calls of tools that an interrupted turn left open.

pub mod Answered
use nex_shell.Prelude.{
  Bool, true, false, not, ◌&&◌, List, [], ◌∷◌, ◌++◌, if◌then◌else◌, Bytes, codes, bytes_equal,
}
use nex_shell.Agent.Types.{member}

pub data Role : Type 0 where
  system user assistant tool : Role

-- A message of the model's protocol. Of the calls that it asks for, the identifiers count.
pub record Message : Type 0 where
  pub role : Role
  pub content : Bytes
  pub tool_call_id : Bytes
  pub tool_calls : List Bytes

unfoldable pub is_tool : Role → Bool
is_tool tool = true
is_tool other = false

-- The content is a JSON text in Chinese in the source: the call was interrupted, its outcome is open.
abbrev pub placeholder : Bytes → Message
placeholder call = record {
  role = tool;
  content = codes "interrupted";
  tool_call_id = call;
  tool_calls = [];
}

-- the answers for the calls that have none
unfoldable pub placeholders : List Bytes → List Bytes → List Message
placeholders answered [] = []
placeholders answered (call ∷ calls) =
    let rest = placeholders answered calls in
    if member call answered then rest else placeholder call ∷ rest

-- the calls of a message that must be answered
unfoldable pub calls_of : Role → List Bytes → List Bytes
calls_of assistant calls = calls
calls_of other calls = []

-- The loop: `calls` are those of the last message that is not a tool's, and `answered` what the messages
-- behind it have answered. The inner loop takes the messages of tools, the outer one any other.
unfoldable pub complete_from : List Bytes → List Bytes → List Message → List Message
complete_from calls answered [] = placeholders answered calls
complete_from calls answered (msg ∷ history) =
    let inner = msg ∷ complete_from calls (msg.tool_call_id ∷ answered) history in
    let outer =
      placeholders answered calls
      ++ msg ∷ complete_from (calls_of msg.role msg.tool_calls) [] history in
    if is_tool msg.role then inner else outer

-- `completeInterruptedToolCalls`
unfoldable pub complete_interrupted_tool_calls : List Message → List Message
complete_interrupted_tool_calls history = complete_from [] [] history
