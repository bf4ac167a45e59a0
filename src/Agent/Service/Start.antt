-- ===== src/Agent/Service/Start.antt =====
-- internal/agent/service.go and runtime_version.go: `start`.
use nex_shell.Prelude.{
  Bool, false, not, ◌||◌, Option, none, some, List, [], ◌∷◌, ◌++◌, ltb, if◌then◌else◌, Bytes, codes,
  bytes_equal, pure, fail, gets, modify, ◌>>=◌, ◌>>◌,
}
use nex_shell.Agent.History.{Message, complete_interrupted_tool_calls}
use nex_shell.Agent.Paths.{is_empty}
use nex_shell.Agent.Policy.{is}
use nex_shell.Agent.Service.{
  Input, Run, store_failed, exiting, still_running, wrong_version, needs_upgrade, grant_expired,
  no_model, no_tools, Env, Call, stored, guard, is_running,
}
use nex_shell.Agent.Types.{Task}
use nex_shell.Store.{no_rows, statement, put_task}
use nex_shell.Store.Queries.{load_task}

abbrev pub runtime_version : Bytes
runtime_version = codes "deep-v1"

-- `prepareVersion`
unfoldable pub prepare_version : Task → Call (Unit {0})
prepare_version t =
    if bytes_equal t.runtime_version runtime_version
    then pure tt
    else if not (is_empty t.runtime_version)
    then fail wrong_version
    else fail needs_upgrade

-- `Load` of the model's profile, then `ModelFactory`
unfoldable pub prepare_model : Env → Bytes → Call (Unit {0})
prepare_model env profile = do
  stored statement
  guard (env.profiles profile) (store_failed no_rows)
  guard env.model_ready no_model

or_empty : Option (List Message) → List Message
or_empty none = []
or_empty (some history) = history

-- `Load` of the history: none is stored before the first message
unfoldable pub load_history : Bytes → Call (List Message)
unfolding or_empty
load_history id = do stored statement; gets (λ s. or_empty (s.histories id))

abbrev pub was_broken_off : Task → Bool
was_broken_off t = is "failed" t.status || is "interrupted" t.status || is "blocked" t.status

abbrev pub started : Task → Task
started t = record t { status = codes "running" }

abbrev pub new_run : Bytes → Task → List Message → Input → Run
new_run id t history input = record {
  id = id;
  task = started t;
  history = history;
  inbox = input ∷ [];
  cancelled = false;
}

-- `start`, up to the call of `loop.Run`
unfoldable pub start : Env → Bytes → Input → Call (Unit {0})
unfolding prepare_model load_history
start env id input = do
  closed ← gets (λ s. s.closed)
  guard (not closed) exiting
  running ← gets (λ s. is_running id s.active)
  guard (not running) still_running
  t ← stored (load_task id)
  prepare_version t
  guard (ltb env.now t.grant.expires_at) grant_expired
  prepare_model env t.profile_id
  loaded ← load_history id
  let history = if was_broken_off t then complete_interrupted_tool_calls loaded else loaded
  guard env.tools_ready no_tools
  stored (put_task (started t))
  modify (λ s. record s { active = s.active ++ new_run id t history input ∷ [] })
