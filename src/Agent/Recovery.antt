-- ===== src/Agent/Recovery.antt =====
-- internal/agent/tool_recovery.go: mistakes in the calls of tools, handed back to the model to correct.
--
-- A turn has one count of corrections for all its tools, as `buildTools` (tools.go) sets it up, and each tool
-- has its own counts of equal failures: the tools that there are not have those of `unknown_tool` together. What
-- encoding/json does is a parameter, as is the outcome of the tool's own run.

pub mod Mistakes
pub mod Budget
pub mod Ends
use nex_shell.Prelude.{
  ℕ, suc, ◌+◌, Bool, true, false, not, ◌&&◌, ◌||◌, Option, none, some, List, [], ◌∷◌, ◌++◌, ltb,
  leb, if◌then◌else◌, Bytes, codes, bytes_equal, trim_space, has_prefix, Result, ok, err, Exec,
  pure, fail, gets, modify, ◌>>=◌, ◌>>◌,
}
use nex_shell.Agent.Policy.{is}
use nex_shell.Agent.Paths.{is_empty}

-- Errors of a tool. `repeated` and `exhausted` are the two `blockedError`s.
pub data ToolError : Type 0 where
  correctable other : Bytes → ToolError
  cancelled repeated exhausted record_failed : ToolError

-- what the model is told: the mistake, and whether the same call may be tried again
pub record Feedback : Type 0 where
  pub tool : Bytes
  pub message : Bytes
  pub retryable : Bool

-- a text of the tool itself, or feedback in its place
pub data Answer : Type 0 where
  text : Bytes → Answer
  feedback : Feedback → Answer

-- `attempts` by tool and key, `failures` of the budget, what `record` has stored and what the store answers,
-- and the runs of the tools with their arguments
pub record Turn : Type 0 where
  pub attempts : Bytes → Bytes → ℕ
  pub failures : ℕ
  pub recorded : List (Bytes × Bytes)
  pub answers : List Bool
  pub runs : List (Bytes × Bytes)

abbrev pub new_turn : List Bool → Turn
new_turn answers = record {
  attempts = λ tool key. 0;
  failures = 0;
  recorded = [];
  answers = answers;
  runs = [];
}

-- the count of one key of one tool, set anew
unfoldable pub count_again : Bytes → Bytes → ℕ → Turn → Turn
count_again tool key n t = record t {
  attempts = λ name k. if bytes_equal name tool && bytes_equal k key then n else t.attempts name k;
}

-- `take`
unfoldable pub take_one : Exec ToolError Turn Bool
take_one t = (ok (leb (t.failures + 1) 12), record t { failures = t.failures + 1 })

record_with : List Bool → Bytes → Bytes → Exec ToolError Turn (Unit {0})
record_with [] tool message t = (ok tt, record t { recorded = t.recorded ++ (tool, message) ∷ [] })
record_with (true ∷ later) tool message t =
    (ok tt, record t { recorded = t.recorded ++ (tool, message) ∷ []; answers = later })
record_with (false ∷ later) tool message t = (err record_failed, record t { answers = later })

-- the call of `record`
unfoldable pub note : Bytes → Bytes → Exec ToolError Turn (Unit {0})
unfolding record_with
note tool message t = record_with t.answers tool message t

-- `feedback`, of arguments as encoding/json writes them once it has read them
unfoldable pub give_feedback : (Bytes → Bytes) → Bytes → Bytes → Bytes → Exec ToolError Turn Answer
give_feedback canonical tool args message = do
  let key = canonical args ++ 0 ∷ message
  n ← gets (λ t. suc (t.attempts tool key))
  modify (count_again tool key n)
  if ltb 3 n then fail repeated else (do
    within ← take_one
    if not within then fail exhausted else (do
      note tool message
      pure (feedback (record { tool = tool; message = message; retryable = ltb n 3 }))))

-- `correctable` errors of the run become feedback, all others stay what they are
unfoldable pub by_outcome :
    (Bytes → Bytes) → Bytes → Bytes → Result ToolError Bytes → Exec ToolError Turn Answer
by_outcome canonical tool args (ok s) = pure (text s)
by_outcome canonical tool args (err (correctable message)) =
    give_feedback canonical tool args message
by_outcome canonical tool args (err e) = fail e

abbrev bad_arguments : Bytes
bad_arguments = codes "arguments must be a JSON object"

-- the arguments as they are checked: none stand for an empty object where a tool takes no arguments
unfoldable pub normalized : Bytes → Bytes → Bytes
normalized tool args =
    if is_empty (trim_space args) && is "workspace_context" tool
    then codes "{}"
    else trim_space args

-- `InvokableRun`: `stopped` is an error of the context, and `outcome` what the tool's own run gives. The
-- message of a bad argument is in Chinese in the source.
unfoldable pub invokable_run :
    (Bytes → Bytes)
    → (Bytes → Bool)
    → Bytes
    → Bytes
    → Bool
    → Result ToolError Bytes
    → Exec ToolError Turn Answer
invokable_run canonical valid_json tool args stopped outcome =
    if stopped
    then fail cancelled
    else if not (valid_json (normalized tool args))
        || not (has_prefix (codes "{") (normalized tool args))
    then give_feedback canonical tool args bad_arguments
    else (do
      modify (λ t. record t { runs = t.runs ++ (tool, args) ∷ [] })
      by_outcome canonical tool args outcome)

-- what the model is told of a tool that there is not, with the names of those that there are
unfoldable pub unknown_message : Bytes → Bytes → Bytes
unknown_message name available =
    codes "there is no tool " ++ name ++ codes "; available: " ++ available

abbrev pub unknown_tool : Bytes
unknown_tool = codes "unknown_tool"

-- `handleUnknown` (tools.go): the name of the tool stands in the place of the arguments
unfoldable pub handle_unknown : (Bytes → Bytes) → Bytes → Bytes → Bool → Exec ToolError Turn Answer
handle_unknown canonical name available stopped =
    if stopped
    then fail cancelled
    else give_feedback canonical unknown_tool name (unknown_message name available)
