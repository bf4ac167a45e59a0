-- ===== src/Remote/Tests.antt =====
-- The theorems on commands and executions at concrete inputs.
use nex_shell.Prelude.{
  ◌⊎◌, ◌≢◌, ◌≤◌, ◌≡◌, refl, true, false, Option, none, some, [], ◌∷◌, ◌++◌, Bytes, codes,
  bytes_equal, length, take, ok, has_prefix,
}
use nex_shell.Agent.Gate.{mutates}
use nex_shell.Agent.Paths.{is_empty}
use nex_shell.Agent.Policy.{is_local}
use nex_shell.Agent.Types.{ℤ, pos, Request}
use nex_shell.Zmodem.Hex.{hex_encode}
use nex_shell.Remote.Command.{quote, build_command, is_resource_name}
use nex_shell.Remote.Command.Quoting.{bare, read_word, read_word-quote}
use nex_shell.Remote.Executor.{
  Machine, Manager, Env, out_write, write, write_all, operate, status_of, error_text, first_error,
  concluded, run_operation, run_with, run_claimed, execute,
}
use nex_shell.Remote.Executor.Once.{times, executes, done, next, sent_once}
use nex_shell.Remote.Executor.Outcome.{run_operation_output}
use nex_shell.Store.{
  Execution, has_id, started, statement, claim, insert, confirmed, find_call, finish, update,
}

read_word-quote_example :
    read_word bare (quote (codes "it's; $HOME") ++ (b' ' ∷ codes "next"))
    ≡ some (codes "it's; $HOME", codes "next")
read_word-quote_example = read_word-quote (codes "it's; $HOME") (codes "next")

abbrev install : Request
install = record {
  read_offset = pos 0;
  local_path = [];
  source_hash = [];
  upload_mode = [];
  run_id = [];
  agent_name = codes "operator";
  task_id = codes "t1";
  call_id = codes "c1";
  host_id = codes "h1";
  operation = codes "package_install";
  resource = codes "nginx";
  command = [];
  content = [];
  expected_hash = [];
  timeout_seconds = pos 0;
}

-- a server whose commands end with that code and error
abbrev server : ℤ → Option Bytes → Manager
server code error = record {
  inspect = λ r. ok (codes "{}");
  upload = λ r. (true, none);
  file_hash = λ r. ok (codes "00", codes "1");
  perform = none;
  read_file = λ r. ok ([], []);
  write_file = λ r. ok [];
  reread_file = λ r. ok ([], []);
  file_json = λ content hash. content;
  command = λ c. (codes "un" ∷ codes "packed" ∷ [], (code, error));
  monitor_script = codes "uptime";
}

abbrev env_of : ℤ → Option Bytes → Bytes → Env
env_of code error id = record {
  encoders = record { sha256 = λ b. b; host_json = λ h. []; request_json = λ r. r.command };
  manager = server code error;
  fresh_id = id;
  now = 7;
  finished_at = 9;
  locked = true;
  authorized = true;
  artifact = λ i. ok i;
}

abbrev idle : Machine
idle = record {
  db = record { executions = []; tasks = []; answers = [] };
  events = [];
  sent = [];
  file = [];
  prefix = [];
  error = none;
  writes = [];
}

abbrev env : Env
env = env_of (pos 0) none (codes "e1")

abbrev after : Machine
after = (execute env install idle).1

second_fresh : has_id (codes "e2") after.db.executions ≡ false
unfolding execute run_claimed run_with run_operation operate write_all write out_write build_command
    is_resource_name quote is_local bytes_equal concluded status_of error_text first_error statement
    has_prefix has_id mutates is_empty claim insert confirmed find_call finish update hex_encode
second_fresh = refl

-- the same call, carried out once and asked for again
sent_once_example :
    times
      (codes "t1")
      (codes "c1")
      (execute (env_of (pos 0) none (codes "e2")) install after).1.sent
    ≤ 1
sent_once_example =
    let again : Env = env_of (pos 0) none (codes "e2") in
    let last : Machine = (execute again install after).1 in
    sent_once (codes "t1") (codes "c1") idle last refl tt (
      next idle after last (executes env install idle (unfold has_id in refl))
        (next after last last (executes again install after second_fresh) (done last)))

abbrev claimed : Execution
claimed = started (codes "e1") 7 install

abbrev installed : Execution
installed = record claimed {
  status = codes "succeeded";
  exit_code = pos 0;
  output = codes "unpacked";
  finished_at = 9;
}

install_runs : (run_operation env install claimed idle).0 ≡ ok installed
unfolding run_operation operate write_all write out_write build_command is_resource_name quote
    is_local bytes_equal concluded status_of error_text first_error statement has_prefix
install_runs = refl

run_operation_output_example :
    (length installed.output ≤ 32768)
    × ((installed.status ≢ codes "succeeded")
        ⊎ (installed.output ≡ take 32768 (run_operation env install claimed idle).1.file))
run_operation_output_example = run_operation_output env install claimed installed idle install_runs
