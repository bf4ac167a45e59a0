-- ===== src/Terminal/Tests.antt =====
-- The theorems on the input queue at concrete inputs.
use nex_shell.Prelude.{◌≤◌, ◌≡◌, refl, List, [], ◌∷◌, ◌++◌, Bytes, length, codes}
use nex_shell.Terminal.Input.{max_pending_input, read, write}
use nex_shell.Terminal.Input.Order.{
  Call, writes, reads, new_log, call, calls, input_order, input_complete,
}

abbrev typing : List Call
typing =
    writes (codes "ls")
    ∷ reads 1
    ∷ writes (codes " -l")
    ∷ reads 10
    ∷ reads 5
    ∷ writes (codes "q")
    ∷ []

input_order_example :
    (length (calls typing new_log).buffer.queue ≤ max_pending_input)
    × ((rest : Bytes) × ((calls typing new_log).delivered ++ rest
          ≡ (calls typing new_log).accepted))
input_order_example = input_order typing

input_complete_example :
    (calls typing new_log).delivered ++ (calls typing new_log).buffer.queue
    ≡ (calls typing new_log).accepted
unfolding calls call read write
input_complete_example = input_complete typing refl
