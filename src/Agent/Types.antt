-- ===== src/Agent/Types.antt =====
-- internal/domain/types.go and internal/agent/policy.go: the records of the assistant.
use nex_shell.Prelude.{ℕ, Bool, false, List, [], ◌∷◌, Bytes, bytes_equal, ◌||◌, if◌then◌else◌}
use nex_shell.Zmodem.Hex.{hex_encode}

-- signed integers
pub data ℤ : Type 0 where
  pos negsuc : ℕ → ℤ

-- Times are counted from the zero time.
pub record Host : Type 0 where
  pub id : Bytes
  pub name : Bytes
  pub address : Bytes
  pub port : ℕ
  pub user : Bytes
  pub group : Bytes
  pub tags : List Bytes
  pub auth : Bytes
  pub key_path : Bytes
  pub jump_id : Bytes
  pub proxy : Bytes

pub record Grant : Type 0 where
  pub local_roots : List Bytes
  pub id : Bytes
  pub host_ids : List Bytes
  pub identities : List (Bytes × Bytes)
  pub operations : List Bytes
  pub resources : List Bytes
  pub expires_at : ℕ

pub record Task : Type 0 where
  pub runtime_version : Bytes
  pub mode : Bytes
  pub id : Bytes
  pub goal : Bytes
  pub profile_id : Bytes
  pub grant : Grant
  pub status : Bytes
  pub created_at : ℕ
  pub summary : Bytes
  pub updates : List Bytes

pub record Request : Type 0 where
  pub read_offset : ℤ
  pub local_path : Bytes
  pub source_hash : Bytes
  pub upload_mode : Bytes
  pub run_id : Bytes
  pub agent_name : Bytes
  pub task_id : Bytes
  pub call_id : Bytes
  pub host_id : Bytes
  pub operation : Bytes
  pub resource : Bytes
  pub command : Bytes
  pub content : Bytes
  pub expected_hash : Bytes
  pub timeout_seconds : ℤ

pub record Approval : Type 0 where
  pub interrupt_id : Bytes
  pub request : Request
  pub digest : Bytes
  pub grant_id : Bytes
  pub reason : Bytes
  pub approved : Bool
  pub decided : Bool

-- `slices.Contains`
unfoldable pub member : Bytes → List Bytes → Bool
member x [] = false
member x (y ∷ list) = bytes_equal x y || member x list

-- the value of a map, empty for a missing key
unfoldable pub value_of : Bytes → List (Bytes × Bytes) → Bytes
value_of key [] = []
value_of key ((k, v) ∷ entries) =
    let rest = value_of key entries in if bytes_equal k key then v else rest

-- What encoding/json and crypto/sha256 make of a value: its text and the checksum of a text.
pub record Encoders : Type 0 where
  pub sha256 : Bytes → Bytes
  pub host_json : Host → Bytes
  pub request_json : Request → Bytes

abbrev pub host_digest : Encoders → Host → Bytes
host_digest encoders h = hex_encode (encoders.sha256 (encoders.host_json h))

-- `Digest`, at the two types that the policy uses it for
abbrev pub request_digest : Encoders → Request → Bytes
request_digest encoders r = hex_encode (encoders.sha256 (encoders.request_json r))
