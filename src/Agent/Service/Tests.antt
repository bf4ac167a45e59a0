-- ===== src/Agent/Service/Tests.antt =====
-- The theorems on the service at concrete inputs.
use nex_shell.Prelude.{
  ◌≡◌, ◌≢◌, ◌⊎◌, refl, true, false, Option, none, some, [], ◌∷◌, ◌++◌, All, if◌then◌else◌, codes,
  bytes_equal, ok, err,
}
use nex_shell.Agent.Paths.{is_empty}
use nex_shell.Agent.Policy.{approved_for, is_local}
use nex_shell.Agent.Service.{Input, Run, Service, Env, is_running, identify}
use nex_shell.Agent.Service.Active.{Distinct, IsStored}
use nex_shell.Agent.Service.Active.Stored.{runs_consistent}
use nex_shell.Agent.Service.Closing.{Ending, end_all, stop_final, end_all_none}
use nex_shell.Agent.Service.Control.{any_open, resume, decide, stop}
use nex_shell.Agent.Service.Decisions.{Decided, decide-Decided}
use nex_shell.Agent.Service.Done.{settle_completed}
use nex_shell.Agent.Service.Finish.{
  blocked_text, first_text, ended, readable_verification, is_idle_talk, verified, settle_quiet,
  settle_exit, settle_error, settle_blocked, settle,
}
use nex_shell.Agent.Service.Grants.{Begun, start-Begun}
use nex_shell.Agent.Service.Renewal.{resume_revokes}
use nex_shell.Agent.Service.Start.{prepare_version, prepare_model, load_history, start}
use nex_shell.Agent.Service.Steps.{starts, done, next}
use nex_shell.Agent.Service.Turn.{RunError, EventState}
use nex_shell.Agent.Types.{pos, Task, Request, Approval, Encoders, request_digest}
use nex_shell.Agent.Verify.{
  last_results, set_last, verifies, each_verified, checked, all_verified, is_open,
}
use nex_shell.Agent.Verify.Complete.{Complete}
use nex_shell.Store.{Execution, Row, Db, statement, put_task, put_in, has_task, replace}
use nex_shell.Store.Queries.{of_task, results, find_task, or_missing, load_task}

abbrev encoders : Encoders
encoders = record {
  sha256 = λ b. b;
  host_json = λ h. h.address;
  request_json = λ r. r.operation ++ r.command;
}

abbrev env : Env
env = record {
  encoders = encoders;
  now = 50;
  fresh_id = codes "t9";
  fresh_grant = codes "g9";
  hosts = λ id. err nex_shell.Store.no_rows;
  profiles = λ id. true;
  model_ready = true;
  tools_ready = true;
  accepts = true;
  files = record {
    parse_url = λ u. none;
    home = none;
    eval_symlinks = λ p. some p;
    is_regular = λ p. true;
  };
  is_dir = λ p. true;
  path_digest = λ p. p;
}

abbrev task : Task
task = record {
  runtime_version = codes "deep-v1";
  mode = [];
  id = codes "t1";
  goal = codes "restart";
  profile_id = codes "p1";
  grant = record {
    local_roots = [];
    id = codes "g1";
    host_ids = [];
    identities = [];
    operations = codes "shell" ∷ [];
    resources = [];
    expires_at = 100;
  };
  status = codes "awaiting_approval";
  created_at = 1;
  summary = [];
  updates = [];
}

abbrev restart : Request
restart = record {
  read_offset = pos 0;
  local_path = [];
  source_hash = [];
  upload_mode = [];
  run_id = [];
  agent_name = codes "operator";
  task_id = codes "t1";
  call_id = codes "c1";
  host_id = codes "h1";
  operation = codes "shell";
  resource = [];
  command = codes "restart web";
  content = [];
  expected_hash = [];
  timeout_seconds = pos 30;
}

abbrev asked : Approval
asked = record {
  interrupt_id = codes "i1";
  request = restart;
  digest = request_digest encoders restart;
  grant_id = codes "g1";
  reason = [];
  approved = false;
  decided = false;
}

abbrev restarted : Execution
restarted = record {
  id = codes "e1";
  request = restart;
  status = codes "succeeded";
  exit_code = pos 0;
  output = codes "ok";
  artifact = [];
  error = [];
  started_at = 40;
  finished_at = 41;
}

abbrev service : Service
service = record {
  db = record {
    executions =
        record {
          id = codes "e1";
          task_id = codes "t1";
          call_id = codes "c1";
          digest = [];
          payload = restarted;
        }
        ∷ [];
    tasks = task ∷ [];
    answers = [];
  };
  approvals = λ key. if bytes_equal key (codes "a1") then some asked else none;
  attachments = λ id path. none;
  verifications = λ id host. some (record {
    host_id = host;
    execution_id = codes "e1";
    expected_text = codes "ok";
    agent_name = codes "operator";
    at = 42;
  });
  histories = λ id. none;
  events = [];
  active = [];
  closed = false;
}

abbrev message : Input
message = record { text = codes "go on"; approval_id = [] }

start_succeeds : (start env (codes "t1") message service).0 ≡ ok tt
unfolding start prepare_version prepare_model load_history load_task statement find_task or_missing
    put_task put_in has_task replace is_running bytes_equal is_empty
start_succeeds = refl

start-Begun_example :
    Begun env (codes "t1") message service (start env (codes "t1") message service).1
start-Begun_example = start-Begun env (codes "t1") message service start_succeeds

abbrev begun : Service
begun = (start env (codes "t1") message service).1

runs_consistent_example : Distinct begun.active × All (IsStored begun.db.tasks) begun.active
runs_consistent_example =
    runs_consistent service begun refl
      (next service begun begun (starts env (codes "t1") message service) (done begun))

stop_final_example :
    ((start env (codes "t1") message (stop service).1).1.closed ≡ true)
    × (is_running (codes "t1") (start env (codes "t1") message (stop service).1).1.active ≡ false)
stop_final_example =
    let after : Service = (stop service).1 in
    let final : Service = (start env (codes "t1") message after).1 in
    stop_final service final (codes "t1")
      (next after final final (starts env (codes "t1") message after) (done final))
      (unfold is_running in refl)

abbrev quiet : EventState
quiet = record { pending = false; error = none; summary = codes "restarted" }

abbrev no_exit : Option RunError
no_exit = none

abbrev quiet_end : Run → Ending (λ h. true)
quiet_end r = record { state = quiet; ctx_err = false; exit = no_exit }

end_all_none_example : (end_all (λ h. true) quiet_end begun.active begun).active ≡ []
end_all_none_example = end_all_none (λ h. true) quiet_end begun

decide-Decided_example :
    ((decide env (codes "t1") (codes "a1") true service).1.approvals ≡ service.approvals)
    ⊎ Decided env
        (codes "t1")
        (codes "a1")
        true
        service
        (decide env (codes "t1") (codes "a1") true service).1.approvals
decide-Decided_example = decide-Decided env (codes "t1") (codes "a1") true service

resume_succeeds : (resume env (codes "t1") service).0 ≡ ok tt
unfolding resume start prepare_version prepare_model load_history load_task statement find_task
    or_missing put_task put_in has_task replace is_running bytes_equal is_empty results of_task
    any_open is_open identify
resume_succeeds = refl

abbrev resumed : Task
resumed = record task {
  status = codes "running";
  grant = record task.grant { id = codes "g9"; expires_at = 28800000000050 };
}

resume_stores : find_task (codes "t1") (resume env (codes "t1") service).1.db.tasks ≡ some resumed
unfolding resume start prepare_version prepare_model load_history load_task statement find_task
    or_missing put_task put_in has_task replace is_running bytes_equal is_empty results of_task
    any_open is_open identify
resume_stores = refl

abbrev approved : Approval
approved = record asked { approved = true; decided = true }

other_grant : codes "g1" ≢ codes "g9"
other_grant h = cc

resume_revokes_example : approved_for encoders approved resumed restart ≡ false
resume_revokes_example =
    resume_revokes env (codes "t1") service encoders resumed approved restart resume_succeeds
      resume_stores other_grant

settles :
    (settle (λ h. true) (codes "t1") task quiet false no_exit service).0
    ≡ ok (ended task (codes "completed"))
unfolding settle settle_blocked settle_error settle_exit settle_quiet blocked_text first_text
    is_idle_talk verified results of_task statement all_verified last_results set_last checked
    each_verified verifies readable_verification bytes_equal is_open is_local
settles = refl

settle_completed_example :
    (quiet.pending ≡ false)
    × ((false ≡ false)
        × ((quiet.error ≡ none)
            × ((no_exit ≡ none)
                × Complete
                    (of_task (codes "t1") service.db.executions)
                    (readable_verification (λ h. true) (service.verifications (codes "t1"))))))
settle_completed_example =
    settle_completed (λ h. true) (codes "t1") task (ended task (codes "completed")) quiet false
      no_exit service settles refl
