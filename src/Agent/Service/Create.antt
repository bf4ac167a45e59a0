-- ===== src/Agent/Service/Create.antt =====
-- internal/agent/service.go, conversation.go and internal/localfiles/files.go: new tasks.
use nex_shell.Prelude.{
  ◌+◌, Bool, true, false, not, ◌||◌, List, [], ◌∷◌, Bytes, codes, trim_space, pure, ◌>>=◌, ◌>>◌,
}
use nex_shell.Agent.Paths.{is_empty, validate_path}
use nex_shell.Agent.Service.{
  store_failed, bad_goal, bad_root, Env, Call, stored, guard, or_error, identify, eight_hours,
}
use nex_shell.Agent.Types.{Task}
use nex_shell.Store.{no_rows, statement, put_task}
use nex_shell.Agent.Service.Start.{runtime_version}

-- `CanonicalRoots`
unfoldable pub canonical_roots : Env → List Bytes → Call (List Bytes)
canonical_roots env [] = pure []
canonical_roots env (p ∷ roots) = do
  guard (validate_path p) bad_root
  real ← or_error bad_root (env.files.eval_symlinks p)
  guard (env.is_dir real) bad_root
  out ← canonical_roots env roots
  pure (real ∷ out)

abbrev pub no_hosts : List Bytes → Bool
no_hosts [] = true
no_hosts (h ∷ hosts) = false

-- a new task with a grant of eight hours
abbrev pub fresh_task :
    Env
    → Bytes
    → Bytes
    → Bytes
    → List Bytes
    → List Bytes
    → List Bytes
    → List Bytes
    → List (Bytes × Bytes)
    → Task
fresh_task env mode goal profile roots hosts ops resources identities = record {
  runtime_version = runtime_version;
  mode = mode;
  id = env.fresh_id;
  goal = goal;
  profile_id = profile;
  grant = record {
    local_roots = roots;
    id = env.fresh_grant;
    host_ids = hosts;
    identities = identities;
    operations = ops;
    resources = resources;
    expires_at = env.now + eight_hours;
  };
  status = codes "ready";
  created_at = env.now;
  summary = [];
  updates = [];
}

-- `NewTask`
unfoldable pub new_task :
    Env → Bytes → Bytes → List Bytes → List Bytes → List Bytes → List Bytes → Call Task
new_task env goal profile hosts ops resources local_roots = do
  guard (not (is_empty (trim_space goal) || no_hosts hosts)) bad_goal
  roots ← canonical_roots env local_roots
  identities ← identify env hosts []
  let t = fresh_task env [] goal profile roots hosts ops resources identities
  stored (put_task t)
  pure t

abbrev pub conversation_operations : List Bytes
conversation_operations =
    codes "observe"
    ∷ codes "service_status"
    ∷ codes "logs"
    ∷ codes "terminal_connect"
    ∷ codes "terminal_read"
    ∷ []

-- `NewConversation`; the text of the goal is in Chinese in the source
unfoldable pub new_conversation : Env → Bytes → List Bytes → List Bytes → Call Task
new_conversation env profile hosts local_roots = do
  stored statement
  guard (env.profiles profile) (store_failed no_rows)
  roots ← canonical_roots env local_roots
  identities ← identify env hosts []
  let t =
      fresh_task env (codes "conversation") (codes "work together") profile roots hosts
        conversation_operations [] identities
  stored (put_task t)
  pure t
