-- ===== src/Agent/Service/Turn.antt =====
-- internal/agent/service.go and events.go: what the loop of a run calls, up to the end of a turn.
--
-- What the agent's framework delivers is an argument: the inputs that it hands over, the events of a turn
-- with their messages, and whether the context is cancelled.

use nex_shell.Prelude.{
  Bool, true, false, not, ◌&&◌, ◌||◌, Option, none, some, List, [], ◌∷◌, ◌++◌, if◌then◌else◌, Bytes,
  codes, bytes_equal, trim_space, Result, ok, err, Exec, pure, fail, gets, modify, ◌>>=◌, ◌>>◌,
}
use nex_shell.Agent.History.{Role, user, assistant, Message}
use nex_shell.Agent.Paths.{is_empty}
use nex_shell.Agent.Policy.{is}
use nex_shell.Agent.Service.{Input, Service, Trouble, Call, stored, or_no_rows, event}
use nex_shell.Agent.Types.{Approval}
use nex_shell.Store.{statement}

-- `blocked` is a `blockedError`; the other errors are texts, or those of the service
pub data RunError : Type 0 where
  blocked failed : Bytes → RunError
  trouble : Trouble → RunError

-- `eventState`
pub record EventState : Type 0 where
  pub pending : Bool
  pub error : Option RunError
  pub summary : Bytes

-- The service with the variables of one run. `idle` says that the loop was told to stop when it has nothing
-- left to do.
pub record Turn : Type 0 where
  pub service : Service
  pub history : List Message
  pub state : EventState
  pub idle : Bool

abbrev pub Step : Type 0 → Type 0
Step A = Exec RunError Turn A

abbrev pub with_service :
    {A : Type 0} → Result Trouble A × Service → Turn → Result RunError A × Turn
with_service (ok a, s) t = (ok a, record t { service = s })
with_service (err e, s) t = (err (trouble e), record t { service = s })

abbrev pub on_service : {A : Type 0} → Call A → Step A
on_service m t = with_service (m t.service) t

unfoldable pub put_history : Bytes → List Message → Call (Unit {0})
put_history id history = do
  stored statement
  modify
      (λ s. record s { histories = λ k. if bytes_equal k id then some history else s.histories k })

-- `appendHistory`
unfoldable pub append_history : Bytes → Message → Step (Unit {0})
append_history id msg = do
  modify (λ t. record t { history = t.history ++ msg ∷ [] })
  history ← gets (λ t. t.history)
  on_service (put_history id history)

abbrev pub user_message : Bytes → Message
user_message text = record { role = user; content = text; tool_call_id = []; tool_calls = [] }

take_input : Bytes → Input → Step (Unit {0})
take_input id item = if is_empty item.text then pure tt else (do
  append_history id (user_message item.text)
  on_service (event id (codes "user") item.text))

unfoldable pub take_inputs : Bytes → List Input → Step (Unit {0})
unfolding take_input
take_inputs id [] = pure tt
take_inputs id (item ∷ items) = do take_input id item; take_inputs id items

-- `GenInput`: the messages for the model. The plans take no part in what is modelled.
unfoldable pub gen_input : Bytes → List Input → Step (List Message)
gen_input id items = do take_inputs id items; on_service (stored statement); gets (λ t. t.history)

-- `targets`, a map
unfoldable pub set_target : Bytes → Bool → List (Bytes × Bool) → List (Bytes × Bool)
set_target key v [] = (key, v) ∷ []
set_target key v ((k, w) ∷ targets) =
    let rest = set_target key v targets in
    if bytes_equal k key then (key, v) ∷ targets else (k, w) ∷ rest

-- `Load` of an approval
unfoldable pub load_approval : Bytes → Call Approval
load_approval key = do stored statement; found ← gets (λ s. s.approvals key); or_no_rows found

resume_target : Input → List (Bytes × Bool) → Step (List (Bytes × Bool))
resume_target item targets = if is_empty item.approval_id then pure targets else (do
  a ← on_service (load_approval item.approval_id)
  pure (set_target a.interrupt_id a.approved targets))

-- `GenResume`: the answers for the interrupted calls
unfoldable pub gen_resume : List Input → List (Bytes × Bool) → Step (List (Bytes × Bool))
unfolding resume_target
gen_resume [] targets = pure targets
gen_resume (item ∷ items) targets = do more ← resume_target item targets; gen_resume items more

-- a point at which the agent waits, with the request for an approval behind it
pub record Point : Type 0 where
  pub id : Bytes
  pub info : Option Approval

pub record Chunk : Type 0 where
  pub role : Option Role
  pub content : Bytes

-- A message as a whole, or in chunks: the role announced for it, what ends the stream, `none` for its
-- regular end, and what `ConcatMessages` makes of the chunks.
pub data Output : Type 0 where
  whole : Option Message → Output
  streamed : Option Role → List Chunk → Option Bytes → Result Bytes Message → Output

pub data EventError : Type 0 where
  cancel_error : EventError
  fails : RunError → EventError

pub record AgentEvent : Type 0 where
  pub error : Option EventError
  pub interrupted : Option (List Point)
  pub agent_name : Bytes
  pub output : Option Output

unfoldable pub set_error : RunError → Turn → Turn
set_error e t = record t { state = record t.state { error = some e } }

-- the error is kept in the state of the run and returned
unfoldable pub stop_with : {A : Type 0} → RunError → Step A
stop_with e = do modify (set_error e); fail e

unfoldable pub ask_for : Bytes → Point → Option Approval → Call (Unit {0})
ask_for id p none = pure tt
ask_for id p (some a) = do
  stored statement
  modify (λ s. record s {
    approvals = λ k.
        if bytes_equal k a.digest then some (record a { interrupt_id = p.id }) else s.approvals k;
  })
  event id (codes "approval_required") a.digest

unfoldable pub ask_all : Bytes → List Point → Call (Unit {0})
unfolding ask_for
ask_all id [] = pure tt
ask_all id (p ∷ points) = do ask_for id p p.info; ask_all id points

unfoldable pub on_interrupt : Bytes → Option (List Point) → Step (Unit {0})
on_interrupt id none = pure tt
on_interrupt id (some points) = do
  modify (λ t. record t { state = record t.state { pending = true } })
  on_service (ask_all id points)

abbrev pub later_role : Option Role → Option Role → Option Role
later_role none role = role
later_role (some r) role = some r

unfoldable pub is_assistant : Option Role → Bool
is_assistant (some assistant) = true
is_assistant other = false

end_stream : Bool → Option Role → Option Bytes → Step (Unit {0})
end_stream cancelled role none = pure tt
end_stream cancelled role (some e) =
    stop_with (
      if is_assistant role && not cancelled
      then blocked (codes "the reply broke off")
      else failed e)

-- the loop over the chunks
unfoldable pub read_stream :
    Bytes → Bool → Option Role → List Chunk → Option Bytes → Step (Unit {0})
unfolding end_stream
read_stream id cancelled role [] ending = end_stream cancelled role ending
read_stream id cancelled role (c ∷ chunks) ending = do
  (if is_assistant (later_role c.role role) && not (is_empty c.content)
      then on_service (event id (codes "assistant_delta") c.content)
      else pure tt)
  read_stream id cancelled (later_role c.role role) chunks ending

unfoldable pub no_calls : List Bytes → Bool
no_calls [] = true
no_calls (c ∷ calls) = false

-- a reply of the model with neither text nor calls of tools
unfoldable pub is_blank : Message → Bool
is_blank m = is_empty (trim_space m.content) && no_calls m.tool_calls

abbrev pub no_reply : RunError
no_reply = blocked (codes "no reply")

summarize : Bytes → Bool → Message → Step (Unit {0})
summarize id streaming m =
    if is_assistant (some m.role) && not (is_empty m.content)
    then (do
      modify (λ t. record t { state = record t.state { summary = m.content } })
      if streaming then pure tt else on_service (event id (codes "assistant") m.content))
    else pure tt

-- A message of the main agent; the result says that it is a reply of the model.
unfoldable pub on_message : Bytes → Bool → Option Message → Step Bool
unfolding summarize
on_message id streaming none = pure false
on_message id streaming (some m) =
    if is_assistant (some m.role) && is_blank m
    then stop_with no_reply
    else (do append_history id m; summarize id streaming m; pure (is_assistant (some m.role)))

unfoldable pub joined_message : Bytes → Result Bytes Message → Step Bool
joined_message id (ok m) = on_message id true (some m)
joined_message id (err e) = fail (failed e)

unfoldable pub on_output : Bytes → Bool → Option Output → Step Bool
unfolding joined_message
on_output id cancelled none = pure false
on_output id cancelled (some (whole m)) = on_message id false m
on_output id cancelled (some (streamed role chunks ending joined)) = do
  read_stream id cancelled role chunks ending
  joined_message id joined

-- `GetMessage` of a message that a helper agent sends: only its error matters
unfoldable pub check_output : Option Output → Step Bool
check_output none = pure false
check_output (some (whole m)) = pure false
check_output (some (streamed role chunks (some e) joined)) = fail (failed e)
check_output (some (streamed role chunks none (err e))) = fail (failed e)
check_output (some (streamed role chunks none (ok m))) = pure false

unfoldable pub is_helper : Bytes → Bool
is_helper name = not (is_empty name) && not (is "operator" name)

-- one event, without an error
on_good_event : Bytes → Bool → AgentEvent → Step Bool
on_good_event id cancelled ev = do
  on_interrupt id ev.interrupted
  if is_helper ev.agent_name then check_output ev.output else on_output id cancelled ev.output

unfoldable pub on_event : Bytes → Bool → Option EventError → AgentEvent → Step Bool
unfolding on_good_event
on_event id cancelled (some cancel_error) ev = pure false
on_event id cancelled (some (fails e)) ev = stop_with e
on_event id cancelled none ev = on_good_event id cancelled ev

-- what follows the loop; `replied` is `hasAssistantOutput`
unfoldable pub end_turn : Bool → Step (Unit {0})
end_turn replied = do
  pending ← gets (λ t. t.state.pending)
  if not pending && not replied
      then stop_with no_reply
      else if not pending
      then modify (λ t. record t { idle = true })
      else pure tt

-- the loop of `consumeEvents`
unfoldable pub consume : Bytes → Bool → Bool → List AgentEvent → Step (Unit {0})
consume id cancelled replied [] = end_turn replied
consume id cancelled replied (ev ∷ events) = do
  more ← on_event id cancelled ev.error ev
  consume id cancelled (replied || more) events

-- `consumeEvents`
unfoldable pub consume_events : Bytes → Bool → List AgentEvent → Step (Unit {0})
consume_events id cancelled events = consume id cancelled false events
