-- ===== src/Store/Tests.antt =====
-- The theorems on the store at concrete inputs.
use nex_shell.Prelude.{
  ◌≡◌, ◌≢◌, refl, true, false, List, [], ◌∷◌, ◌++◌, arith, All, codes, bytes_equal, ok,
}
use nex_shell.Agent.Types.{pos, Task, Request, Encoders}
use nex_shell.Store.{
  Db, statement, find_call, has_id, insert, confirmed, claim, finish, update, new_row, started,
  recover, is_running, pending, finish_all, put_all, put_task, put_in, has_task, replace,
  interrupted,
}
use nex_shell.Store.Changes.{
  no_changes, subscribes, unsubscribes, notifies, closes, handle_all, Event, takes, is_subscribed,
  handle, enter, subscribe, notify, wake, wake_all, take_wake_up,
}
use nex_shell.Store.Changes.Safety.{never_panics}
use nex_shell.Store.Changes.Waking.{notify_wakes}
use nex_shell.Store.Once.{claim_once, recovers, done, next}
use nex_shell.Store.Recovery.{Settled, recover_settles}
use nex_shell.Zmodem.Hex.{hex_encode}

abbrev encoders : Encoders
encoders = record {
  sha256 = λ b. b;
  host_json = λ h. h.address;
  request_json = λ r. r.operation ++ r.command;
}

abbrev request : Request
request = record {
  read_offset = pos 0;
  local_path = [];
  source_hash = [];
  upload_mode = [];
  run_id = [];
  agent_name = [];
  task_id = codes "t1";
  call_id = codes "c1";
  host_id = codes "h1";
  operation = codes "shell";
  resource = [];
  command = codes "ls";
  content = [];
  expected_hash = [];
  timeout_seconds = pos 0;
}

abbrev running_task : Task
running_task = record {
  runtime_version = [];
  mode = [];
  id = codes "t1";
  goal = [];
  profile_id = [];
  status = codes "running";
  created_at = 1;
  summary = [];
  updates = [];
  grant = record {
    local_roots = [];
    id = codes "g1";
    host_ids = [];
    identities = [];
    operations = [];
    resources = [];
    expires_at = 100;
  };
}

abbrev empty_db : Db
empty_db = record { executions = []; tasks = running_task ∷ []; answers = [] }

abbrev claimed : Db
claimed = (claim encoders (codes "e1") 5 request empty_db).1

abbrev after_restart : Db
after_restart = (recover claimed).1

first_claim :
    (claim encoders (codes "e1") 5 request empty_db).0 ≡ ok (started (codes "e1") 5 request, true)
unfolding claim statement find_call insert has_id confirmed hex_encode bytes_equal
first_claim = refl

claim_once_example :
    (claim encoders (codes "e2") 9 request after_restart).0
    ≢ ok (started (codes "e2") 9 request, true)
claim_once_example =
    claim_once encoders (codes "e1") (codes "e2") 5 9 request request empty_db after_restart
      (started (codes "e1") 5 request) (started (codes "e2") 9 request) tt first_claim
      (next claimed after_restart after_restart (recovers claimed) (done after_restart)) refl refl
      (λ e. ground arith)

abbrev one_running : Db
one_running = record empty_db { executions = new_row encoders (codes "e1") 5 request ∷ [] }

one_running_recovers : (recover one_running).0 ≡ ok tt
unfolding recover statement finish_all finish update is_running pending put_all put_task put_in
    has_task replace interrupted bytes_equal hex_encode
one_running_recovers = refl

recover_settles_example :
    All (λ row. is_running row.payload ≡ false) (recover one_running).1.executions
    × All Settled (recover one_running).1.tasks
recover_settles_example = recover_settles one_running (refl, tt) one_running_recovers

never_panics_example :
    (handle_all
      (subscribes (codes "t1")
        ∷ notifies (codes "t1")
        ∷ closes
        ∷ unsubscribes (codes "t1") 0
        ∷ subscribes (codes "t1")
        ∷ unsubscribes (codes "t1") 1
        ∷ closes
        ∷ [])
      no_changes).0
    ≡ ok tt
never_panics_example = never_panics (
    subscribes (codes "t1")
    ∷ notifies (codes "t1")
    ∷ closes
    ∷ unsubscribes (codes "t1") 0
    ∷ subscribes (codes "t1")
    ∷ unsubscribes (codes "t1") 1
    ∷ closes
    ∷ [])

-- two subscribers of a task, of which the first has taken its wake-up
abbrev two_subscribers : List Event
two_subscribers =
    subscribes (codes "t1") ∷ subscribes (codes "t1") ∷ notifies (codes "t1") ∷ takes 0 ∷ []

first_subscribed :
    is_subscribed (codes "t1") 0 (handle_all two_subscribers no_changes).1.subscribers ≡ true
unfolding handle_all handle subscribe enter notify wake_all wake take_wake_up is_subscribed
    bytes_equal
first_subscribed = refl

notify_wakes_example :
    ((notify (codes "t1") (handle_all two_subscribers no_changes).1).1.channels 0).waiting ≡ true
notify_wakes_example = notify_wakes two_subscribers (codes "t1") 0 first_subscribed
