-- ===== src/Agent/Recovery/Ends.antt =====
-- In a turn of nothing but mistakes, the first error comes early.
use nex_shell.Prelude.{
  ◌≤◌, ◌+◌, if◌then◌else◌, ◌≡◌, refl, ap, Bool, true, false, ◌||◌, List, [], ◌∷◌, arith, Bool-cases,
  inl, inr, Bytes, All, length, Result, ok, err,
}
use nex_shell.Agent.Recovery.{ToolError, Answer, text, feedback, Turn, new_turn}
use nex_shell.Agent.Recovery.Mistakes.{
  ToolCall, Json, run_call, Mistake, Comes, stops, mistaken, gives, breaks, run_call-Comes,
}
use nex_shell.Agent.Recovery.Budget.{
  Reply, run_calls, is_feedback, count, corrections, corrections_bounded,
}

unfoldable pub is_error : Result ToolError Answer → Bool
is_error (ok a) = false
is_error (err e) = true

-- the answers up to and with the first error, which ends the turn
unfoldable pub until_error : List Reply → List Reply
until_error [] = []
until_error (r ∷ replies) = if is_error r.answer then r ∷ [] else r ∷ until_error replies

-- a mistake is answered by feedback or by an error
Mistake-answer :
    (json : Json) (c : ToolCall) (t : Turn) (x : Result ToolError Answer × Turn) (message : Bytes)
    → Mistake json c message
    → Comes json c t x
    → (is_feedback x.0 || is_error x.0) ≡ true
unfolding is_feedback is_error
Mistake-answer json c t x message m (stops s e) = let q = ap (λ p. p.0) e in rw q refl
Mistake-answer json c t (ok (text s), u) message m (mistaken w v n e fed) =
    absurd (fed.no_text s refl)
Mistake-answer json c t (ok (feedback f), u) message m (mistaken w v n e fed) = refl
Mistake-answer json c t (err b, u) message m (mistaken w v n e fed) = refl
Mistake-answer json c t x message (s, inl (n, k)) (gives a (p, kn, q, o) e) = cc
Mistake-answer json c t x message (s, inr (kn, inl (bad, k))) (gives a (p, ky, q, o) e) = cc
Mistake-answer json c t x message (s, inr (kn, inr (good, k))) (gives a (p, ky, q, o) e) = cc
Mistake-answer json c t x message m (breaks b n k e) = let q = ap (λ p. p.0) e in rw q refl

-- Before the first error there are only corrections.
until_error-corrections :
    (json : Json) (calls : List ToolCall) (t : Turn)
    → All (λ c. (message : Bytes) × Mistake json c message) calls
    → length (until_error (run_calls json calls t)) ≤ corrections (run_calls json calls t) + 1
unfolding run_calls until_error count
until_error-corrections json [] t m = omega arith
until_error-corrections json (c ∷ calls) t m = elim (Bool-cases (is_error (run_call json c t).0)) [
  | inl e ↦ rw e (omega arith)
  | inr n ↦
      let a = Mistake-answer json c t (run_call json c t) m.0.0 m.0.1 (run_call-Comes json c t) in
      let fb : is_feedback (run_call json c t).0 ≡ true = ground arith in
      let ih = until_error-corrections json calls (run_call json c t).1 m.1 in
      rw (n, fb) (omega arith)
]

-- When all calls of a turn are mistakes, at most thirteen of them are answered up to and with the first error,
-- however many there are.
pub mistakes_end :
    (json : Json) (calls : List ToolCall) (answers : List Bool)
    → All (λ c. (message : Bytes) × Mistake json c message) calls
    → length (until_error (run_calls json calls (new_turn answers))) ≤ 13
mistakes_end json calls answers m =
    let some_more = until_error-corrections json calls (new_turn answers) m in
    let few = (corrections_bounded json calls answers [] []).0 in omega arith
