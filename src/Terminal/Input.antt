-- ===== src/Terminal/Input.antt =====
-- internal/terminal/input.go: the queue between the emulator and the connection.
--
-- Each operation holds the lock from start to end, so that it is one step. A `Read` that waits gives up the
-- lock: it is no step until there are bytes or an error.
pub mod Order
use nex_shell.Prelude.{
  ℕ, ◌+◌, ◌*◌, Bool, true, false, Option, none, some, List, [], ◌∷◌, ◌++◌, ◌==◌, ltb, if◌then◌else◌,
  Bytes, length, take, drop, Result, ok, err,
}

pub data InputError : Type 0 where
  input_backlog eof closed_pipe : InputError

pub record InputBuffer : Type 0 where
  pub queue : Bytes
  pub failure : Option InputError

abbrev pub new_input_buffer : InputBuffer
new_input_buffer = record { queue = []; failure = none }

abbrev pub max_pending_input : ℕ
max_pending_input = 1024 * 1024

-- `Read` into `n` bytes; `none` if it has to wait
read_from :
    ℕ → Bytes → Option InputError → InputBuffer → Option (Result InputError Bytes × InputBuffer)
read_from n queue (some e) p = some (err e, p)
read_from n [] none p = none
read_from n (b ∷ queue) none p =
    some (ok (take n (b ∷ queue)), record p { queue = drop n (b ∷ queue) })

unfoldable pub read : ℕ → InputBuffer → Option (Result InputError Bytes × InputBuffer)
unfolding read_from
read n p = if n == 0 then some (ok [], p) else read_from n p.queue p.failure p

-- `fail`: the first error stays
failed_with : InputError → Option InputError → InputBuffer → InputBuffer
failed_with e none p = record { queue = []; failure = some e }
failed_with e (some first) p = p

unfoldable pub fail : InputError → InputBuffer → InputBuffer
unfolding failed_with
fail e p = failed_with e p.failure p

write_to : Bytes → Option InputError → InputBuffer → Result InputError ℕ × InputBuffer
write_to b (some e) p = (err e, p)
write_to b none p =
    if ltb max_pending_input (length p.queue + length b)
    then (err input_backlog, fail input_backlog p)
    else (ok (length b), record p { queue = p.queue ++ b })

-- `Write`. The source compares with `maxPendingInput - p.data.Len()`.
unfoldable pub write : Bytes → InputBuffer → Result InputError ℕ × InputBuffer
unfolding write_to
write b p = write_to b p.failure p

unfoldable pub close : InputBuffer → InputBuffer
close p = fail eof p

-- `Err`
unfoldable pub error_of : Option InputError → Option InputError
error_of (some eof) = some closed_pipe
error_of (some e) = some e
error_of none = none
