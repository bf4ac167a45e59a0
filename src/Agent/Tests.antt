-- ===== src/Agent/Tests.antt =====
-- The theorems on the policy at concrete inputs.
use nex_shell.Prelude.{
  false, ◌≡◌, ◌↔◌, ◌⊎◌, refl, true, some, [], ◌∷◌, ◌++◌, ok, codes, bytes_equal,
}
use nex_shell.Agent.Gate.{
  World, found, missing, canonical_request, execute_tool, runs, allowed, allowed_remote, mutates,
  known_results, unsettled, by_approval,
}
use nex_shell.Agent.Gate.Authorized.{
  Approved, Local, Remote, execute_tool_authorized, execute_tool-Approved,
}
use nex_shell.Agent.Paths.{
  is_abs, is_empty, has_byte, elements, join, resolve, reversed, clean, clean_elements,
  relative_elements, resolve_relative, stays_up, rel_relative, stays_inside, validate_path, within,
  rel, rel_elements, ups, leaves,
}
use nex_shell.Agent.Paths.Within.{Below, within_iff}
use nex_shell.Agent.Policy.{
  evaluate, evaluate_local, is_known, on_path, always_asks, on_resource, good_path, covered,
  approved_for, is_local, below_any,
}
use nex_shell.Agent.Policy.Local.{LocalInOrder, BelowOne, evaluate_local_sound}
use nex_shell.Agent.Policy.Sound.{Permitted, evaluate_iff}
use nex_shell.Agent.Types.{pos, Host, Task, Request, Approval, Encoders, member, value_of}
use nex_shell.Zmodem.Hex.{hex_encode}

abbrev encoders : Encoders
encoders = record {
  sha256 = λ b. b;
  host_json = λ h. h.address;
  request_json = λ r. r.operation ++ r.command;
}

abbrev server : Host
server = record {
  id = codes "h1";
  name = codes "web";
  address = codes "10";
  port = 22;
  user = codes "ops";
  group = [];
  tags = [];
  auth = codes "key";
  key_path = [];
  jump_id = [];
  proxy = [];
}

abbrev task : Task
task = record {
  runtime_version = [];
  mode = [];
  id = codes "t1";
  goal = [];
  profile_id = [];
  status = codes "running";
  created_at = 1;
  summary = [];
  updates = [];
  grant = record {
    local_roots = codes "/home/ann" ∷ [];
    id = codes "g1";
    host_ids = codes "h1" ∷ [];
    identities = (codes "h1", codes "3130") ∷ [];
    operations = codes "file_read" ∷ [];
    resources = codes "/etc/hosts" ∷ [];
    expires_at = 100;
  };
}

abbrev reading : Request
reading = record {
  read_offset = pos 0;
  local_path = [];
  source_hash = [];
  upload_mode = [];
  run_id = [];
  agent_name = [];
  task_id = codes "t1";
  call_id = codes "c1";
  host_id = codes "h1";
  operation = codes "file_read";
  resource = codes "/etc/hosts";
  command = [];
  content = [];
  expected_hash = [];
  timeout_seconds = pos 0;
}

reading_permitted : evaluate encoders task server reading 50 ≡ ok true
unfolding evaluate member value_of hex_encode is_known has_byte on_path good_path is_abs clean
    clean_elements elements resolve reversed join is_empty covered always_asks on_resource
    bytes_equal
reading_permitted = refl

evaluate_iff_example :
    (evaluate encoders task server reading 50 ≡ ok true) ↔ Permitted encoders task server reading 50
evaluate_iff_example = evaluate_iff encoders task server reading 50

abbrev listing : Request
listing = record reading {
  host_id = [];
  operation = codes "local_list";
  local_path = codes "/home/ann/docs";
}

listing_permitted : evaluate_local task listing 50 ≡ ok true
unfolding evaluate_local is_local validate_path below_any within rel rel_elements ups leaves
    has_byte is_abs clean clean_elements elements resolve reversed join is_empty bytes_equal
listing_permitted = refl

evaluate_local_sound_example :
    LocalInOrder task listing 50 × BelowOne task.grant.local_roots listing.local_path
evaluate_local_sound_example = evaluate_local_sound task listing 50 listing_permitted

within_iff_example :
    (within (codes "/home/ann") (codes "/home/anna") ≡ true)
    ↔ Below (clean_elements (codes "/home/ann")) (clean_elements (codes "/home/anna"))
unfolding is_abs
within_iff_example = within_iff (codes "/home/ann") (codes "/home/anna") refl refl

abbrev command : Request
command = record reading { operation = codes "shell"; command = codes "ls"; resource = [] }

abbrev approval : Approval
approval = record {
  interrupt_id = [];
  request = command;
  digest = hex_encode (codes "shellls");
  grant_id = codes "g1";
  reason = [];
  approved = true;
  decided = true;
}

abbrev world : World
world = record {
  hosts = λ id. found server;
  approvals = λ digest. found approval;
  attachments = λ p. missing;
  results = some [];
  eval_symlinks = λ p. some p;
  now = 50;
}

command_runs : execute_tool encoders world task command ≡ runs command
unfolding execute_tool canonical_request is_empty allowed is_local allowed_remote mutates
    known_results unsettled by_approval approved_for evaluate member value_of hex_encode is_known
    has_byte on_path covered always_asks bytes_equal
command_runs = refl

execute_tool_authorized_example :
    (canonical_request world.eval_symlinks command ≡ some command)
    × (Local encoders world task command ⊎ Remote encoders world task command)
execute_tool_authorized_example =
    execute_tool_authorized encoders world task command command command_runs

execute_tool-Approved_example : Approved encoders world task command
unfolding always_asks bytes_equal
execute_tool-Approved_example =
    execute_tool-Approved encoders world task command command command_runs refl

-- what package filepath says of two relative paths
relative_paths :
    (within (codes "a") (codes "a/b") ≡ true)
    × ((within (codes "a") (codes "ab/../..") ≡ false)
        × ((within (codes "..") (codes "a") ≡ false) × (within (codes ".") (codes "x/./y") ≡ true)))
unfolding within relative_elements resolve_relative stays_up rel_relative stays_inside ups leaves
    is_abs elements reversed join is_empty bytes_equal
relative_paths = (refl, (refl, (refl, refl)))
