-- ===== src/Agent/TurnTests.antt =====
-- The theorems on the model's calls, the tools' mistakes, the history and the evidence at concrete inputs.
use nex_shell.Prelude.{
  ℕ, zero, suc, ◌≤◌, ◌<◌, ◌≡◌, ◌↔◌, inl, inr, trim_space, trim_left, is_space, refl, Bool, true,
  false, Option, none, some, List, [], ◌∷◌, ◌++◌, All, arith, Bytes, codes, length, Result, ok, err,
  bytes_equal, has_prefix, contains, if◌then◌else◌, ltb,
}
use nex_shell.Agent.Gate.{mutates}
use nex_shell.Agent.History.{assistant, user, Message, complete_interrupted_tool_calls}
use nex_shell.Agent.History.Answered.{Answered, Extends, complete-Answered}
use nex_shell.Agent.Recovery.{correctable, normalized, new_turn, unknown_message}
use nex_shell.Agent.Recovery.Budget.{run_calls, corrections, equal_corrections, corrections_bounded}
use nex_shell.Agent.Recovery.Ends.{mistakes_end, until_error}
use nex_shell.Agent.Recovery.Mistakes.{ToolCall, Json, Mistake}
use nex_shell.Agent.Paths.{is_empty}
use nex_shell.Agent.Retry.{ModelError, model_error_action, fresh_line, retry_model_call}
use nex_shell.Agent.Retry.Attempts.{Passing, Ends, retry_model_call-Ends, retry_model_call_replies}
use nex_shell.Agent.Types.{pos, Task, Request, member}
use nex_shell.Agent.Verify.{
  Verification, is_open, find_evidence, is_evidence, overtaken, check_evidence, verify_result,
  all_verified,
}
use nex_shell.Agent.Verify.Complete.{Complete, all_verified_iff}
use nex_shell.Agent.Verify.Evidence.{Evidence, verify_result-Evidence}
use nex_shell.Store.{Execution}

abbrev overload : ModelError
overload = record { status = some 503; timed_out = false; text = codes "busy" }

-- two calls fail, the third is answered
abbrev third_time : ℕ → Result ModelError Bytes
third_time n = if ltb n 2 then err overload else ok (codes "hello")

abbrev never : ℕ → Bool
never n = false

retry_model_call-Ends_example : Ends third_time never (retry_model_call third_time never fresh_line)
retry_model_call-Ends_example = retry_model_call-Ends third_time never

overload_passes : (i : ℕ) → i < 2 → Passing third_time never i
unfolding model_error_action
overload_passes zero h = (overload, (refl, refl))
overload_passes (suc zero) h = (overload, (refl, refl))
overload_passes (suc (suc i)) h = absurd (omega arith)

reply_is_third : third_time 2 ≡ ok (codes "hello")
reply_is_third = refl

retry_model_call_replies_example :
    (retry_model_call third_time never fresh_line).0 ≡ ok (codes "hello")
retry_model_call_replies_example =
    retry_model_call_replies third_time never 2 (codes "hello") (omega arith) (λ n. refl)
      overload_passes reply_is_third

abbrev json : Json
json = record { valid = λ b. true; canonical = λ b. b }

abbrev failing : ToolCall
failing = record {
  tool = codes "remote_read";
  args = codes "{}";
  known = true;
  available = [];
  stopped = false;
  outcome = err (correctable (codes "no such file"));
}

abbrev thirteen : List ToolCall
thirteen =
    failing ∷ failing ∷ failing ∷ failing ∷ failing ∷ failing ∷ failing ∷ failing ∷ failing
    ∷ failing ∷ failing ∷ failing ∷ failing ∷ []

corrections_bounded_example :
    (corrections (run_calls json thirteen (new_turn [])) ≤ 12)
    × (equal_corrections json
          (codes "remote_read")
          (codes "{}" ++ 0 ∷ codes "no such file")
          (run_calls json thirteen (new_turn []))
        ≤ 3)
corrections_bounded_example =
    corrections_bounded json thirteen [] (codes "remote_read")
      (codes "{}" ++ 0 ∷ codes "no such file")

fails : (message : Bytes) × Mistake json failing message
unfolding normalized trim_space trim_left is_space has_prefix is_empty bytes_equal
fails = (codes "no such file", (refl, inr (refl, inr (refl, refl))))

thirteen_fail : All (λ c. (message : Bytes) × Mistake json c message) thirteen
thirteen_fail = (
  fails,
  (
    fails,
    (
      fails,
      (fails, (fails, (fails, (fails, (fails, (fails, (fails, (fails, (fails, (fails, tt)))))))))),
    ),
  ),
)

-- a tool that there is not
abbrev unheard_of : ToolCall
unheard_of = record failing {
  tool = codes "format_disk";
  known = false;
  available = codes "remote_read, skill";
}

abbrev fifteen : List ToolCall
fifteen = unheard_of ∷ failing ∷ thirteen

unheard_of_fails : (message : Bytes) × Mistake json unheard_of message
unheard_of_fails =
    (unknown_message (codes "format_disk") (codes "remote_read, skill"), (refl, inl (refl, refl)))

fifteen_fail : All (λ c. (message : Bytes) × Mistake json c message) fifteen
fifteen_fail = (unheard_of_fails, (fails, thirteen_fail))

mistakes_end_example : length (until_error (run_calls json fifteen (new_turn []))) ≤ 13
mistakes_end_example = mistakes_end json fifteen [] fifteen_fail

abbrev broken_off : List Message
broken_off =
    record { role = user; content = codes "look"; tool_call_id = []; tool_calls = [] }
    ∷ record {
      role = assistant;
      content = [];
      tool_call_id = [];
      tool_calls = codes "c1" ∷ codes "c2" ∷ [];
    }
    ∷ []

complete-Answered_example :
    Answered (complete_interrupted_tool_calls broken_off)
    × Extends broken_off (complete_interrupted_tool_calls broken_off)
complete-Answered_example = complete-Answered broken_off

abbrev job : Task
job = record {
  runtime_version = codes "deep-v1";
  mode = [];
  id = codes "t1";
  goal = codes "restart";
  profile_id = codes "p1";
  grant = record {
    local_roots = [];
    id = codes "g1";
    host_ids = codes "h1" ∷ [];
    identities = [];
    operations = codes "shell" ∷ [];
    resources = [];
    expires_at = 100;
  };
  status = codes "running";
  created_at = 1;
  summary = [];
  updates = [];
}

abbrev look_at : Request
look_at = record {
  read_offset = pos 0;
  local_path = [];
  source_hash = [];
  upload_mode = [];
  run_id = [];
  agent_name = codes "operator";
  task_id = codes "t1";
  call_id = codes "c1";
  host_id = codes "h1";
  operation = codes "service_status";
  resource = codes "web";
  command = [];
  content = [];
  expected_hash = [];
  timeout_seconds = pos 30;
}

abbrev looked : Execution
looked = record {
  id = codes "e1";
  request = look_at;
  status = codes "succeeded";
  exit_code = pos 0;
  output = codes "web is active";
  artifact = [];
  error = [];
  started_at = 40;
  finished_at = 41;
}

abbrev proof : Verification
proof = record {
  host_id = codes "h1";
  execution_id = codes "e1";
  expected_text = codes "active";
  agent_name = codes "operator";
  at = 42;
}

accepted :
    verify_result job (codes "operator") (looked ∷ []) (codes "e1") (codes "active") 42 ≡ ok proof
unfolding verify_result find_evidence check_evidence is_evidence overtaken is_open has_prefix
    contains mutates member bytes_equal
accepted = refl

verify_result-Evidence_example :
    (codes "operator" ≡ codes "operator")
    × (proof.execution_id ≡ codes "e1")
    × (proof.expected_text ≡ codes "active")
    × ((x : Execution) × Evidence job (looked ∷ []) proof x)
verify_result-Evidence_example =
    verify_result-Evidence job (codes "operator") (looked ∷ []) (codes "e1") (codes "active") 42
      proof accepted

abbrev verifications : Bytes → Option Verification
verifications host = if bytes_equal host (codes "h1") then some proof else none

all_verified_iff_example :
    (all_verified (some (looked ∷ [])) verifications ≡ true) ↔ Complete (looked ∷ []) verifications
all_verified_iff_example = all_verified_iff (looked ∷ []) verifications
