-- ===== src/Agent/Recovery/Budget.antt =====
-- How often the model may correct its calls of tools in one turn.
use nex_shell.Prelude.{
  ℕ, ◌+◌, ◌≤◌, ◌≡◌, ◌⊎◌, refl, ap, Bool, true, false, ◌&&◌, List, [], ◌∷◌, ◌++◌, arith,
  if◌then◌else◌, Bool-cases, inl, inr, Bytes, bytes_equal, bytes_equal→eq, Result, ok, err,
}
use nex_shell.Agent.Recovery.{ToolError, Feedback, Answer, text, feedback, Turn, new_turn}
use nex_shell.Agent.Recovery.Mistakes.{
  ToolCall, counted_tool, counted_args, Json, run_call, Mistake, Comes, stops, mistaken, gives,
  breaks, run_call-Comes,
}

-- a call with its answer
pub record Reply : Type 0 where
  pub call : ToolCall
  pub answer : Result ToolError Answer

-- the calls of a turn, one after the other
unfoldable pub run_calls : Json → List ToolCall → Turn → List Reply
run_calls json [] t = []
run_calls json (c ∷ calls) t =
    record { call = c; answer = (run_call json c t).0 } ∷ run_calls json calls (run_call json c t).1

unfoldable pub is_feedback : Result ToolError Answer → Bool
is_feedback (ok (feedback f)) = true
is_feedback (ok (text s)) = false
is_feedback (err e) = false

unfoldable pub repeats : Json → Bytes → Bytes → ToolCall → Result ToolError Answer → Bool
repeats json tool key c (ok (feedback f)) =
    bytes_equal (counted_tool c) tool
    && bytes_equal (json.canonical (counted_args c) ++ 0 ∷ f.message) key
repeats json tool key c (ok (text s)) = false
repeats json tool key c (err e) = false

unfoldable pub count : (Reply → Bool) → List Reply → ℕ
count test [] = 0
count test (r ∷ replies) = (if test r then 1 else 0) + count test replies

-- how many answers are feedback, and how many are feedback on one message of one tool to equal arguments
abbrev pub corrections : List Reply → ℕ
corrections replies = count (λ r. is_feedback r.answer) replies

abbrev pub equal_corrections : Json → Bytes → Bytes → List Reply → ℕ
equal_corrections json tool key replies = count (λ r. repeats json tool key r.call r.answer) replies

-- a measure that no call lowers, and that each counted call raises by one without passing a bound
record Paid (measure : Turn → ℕ) (bound : ℕ) (test : Reply → Bool) (json : Json) : Type 0 where
  keeps : (c : ToolCall) (t : Turn) → measure t ≤ measure (run_call json c t).1
  pays :
      (c : ToolCall) (t : Turn)
      → test (record { call = c; answer = (run_call json c t).0 }) ≡ true
      → (measure (run_call json c t).1 ≡ measure t + 1) × (measure (run_call json c t).1 ≤ bound)

count-Paid :
    (measure : Turn → ℕ) (bound : ℕ) (test : Reply → Bool) (json : Json)
    → Paid measure bound test json
    → (calls : List ToolCall) (t : Turn)
    → (count test (run_calls json calls t) ≡ 0)
      ⊎ (measure t + count test (run_calls json calls t) ≤ bound)
unfolding count run_calls
count-Paid measure bound test json p [] t = inl refl
count-Paid measure bound test json p (c ∷ calls) t =
    let reply : Reply = record { call = c; answer = (run_call json c t).0 } in
    let k = p.keeps c t in
    elim (Bool-cases (test reply)) [
      | inl y ↦
          let q = p.pays c t y in
          rw y (elim (count-Paid measure bound test json p calls (run_call json c t).1) [
            | inl z ↦ inr (omega arith)
            | inr m ↦ inr (omega arith)
          ])
      | inr n ↦ rw n (elim (count-Paid measure bound test json p calls (run_call json c t).1) [
        | inl z ↦ inl (omega arith)
        | inr m ↦ inr (omega arith)
      ])
    ]

module _ (json : Json) (c : ToolCall) (t : Turn) (x : Result ToolError Answer × Turn) where
  failures_grow : Comes json c t x → t.failures ≤ x.1.failures
  failures_grow (stops s e) = omega (arith, ap (λ p. p.1.failures) e)
  failures_grow (mistaken message s m e f) = omega (arith, f.grows, e.0)
  failures_grow (gives s m e) = omega (arith, ap (λ p. p.1.failures) e)
  failures_grow (breaks s m n e) = omega (arith, ap (λ p. p.1.failures) e)

  attempts_grow :
      (tool key : Bytes) → Comes json c t x → t.attempts tool key ≤ x.1.attempts tool key
  attempts_grow tool key (stops s e) = omega (arith, ap (λ p. p.1.attempts tool key) e)
  attempts_grow tool key (mistaken message s m e f) =
      omega (arith, f.counts tool key, ap (λ a. a tool key) e.1)
  attempts_grow tool key (gives s m e) = omega (arith, ap (λ p. p.1.attempts tool key) e)
  attempts_grow tool key (breaks s m n e) = omega (arith, ap (λ p. p.1.attempts tool key) e)

  -- what feedback says of the call and the turn
  feedback-Given :
      (f : Feedback)
      → Comes json c t x
      → x.0 ≡ ok (feedback f)
      → Mistake json c f.message
        × (x.1.failures ≡ t.failures + 1)
        × (x.1.failures ≤ 12)
        × (let key = json.canonical (counted_args c) ++ 0 ∷ f.message in
            (x.1.attempts (counted_tool c) key ≡ t.attempts (counted_tool c) key + 1)
            × (x.1.attempts (counted_tool c) key ≤ 3))
  feedback-Given f (stops s e) g = let q = ap (λ p. p.0) e in cc
  feedback-Given f (gives s m e) g = let q = ap (λ p. p.0) e in cc
  feedback-Given f (breaks s m n e) g = let q = ap (λ p. p.0) e in cc
  feedback-Given f (mistaken message s m e fed) g =
      let (same, more, most, again, few) = fed.given f g in
      let count_eq =
        ap (λ a. a (counted_tool c) (json.canonical (counted_args c) ++ 0 ∷ message)) e.1 in
      let all : Mistake json c message
          × (x.1.failures ≡ t.failures + 1)
          × (x.1.failures ≤ 12)
          × (let key = json.canonical (counted_args c) ++ 0 ∷ message in
              (x.1.attempts (counted_tool c) key ≡ t.attempts (counted_tool c) key + 1)
              × (x.1.attempts (counted_tool c) key ≤ 3)) =
        (m, omega (arith, e.0), most, (omega arith, few)) in
      rw same all

-- Only a call of a tool that there is not, a mistake in the arguments, or a failure that the tool calls correctable,
-- is handed back to the model. An error of the context, of the store or of an operation with an open outcome never is.
pub run_call-Mistake :
    (json : Json) (c : ToolCall) (t : Turn) (f : Feedback)
    → (run_call json c t).0 ≡ ok (feedback f)
    → Mistake json c f.message
run_call-Mistake json c t f g =
    (feedback-Given json c t (run_call json c t) f (run_call-Comes json c t) g).0

feedback_of :
    (x : Result ToolError Answer) → is_feedback x ≡ true → (f : Feedback) × (x ≡ ok (feedback f))
unfolding is_feedback
feedback_of (ok (feedback f)) h = (f, refl)
feedback_of (ok (text s)) h = cc
feedback_of (err e) h = cc

failures-Paid : (json : Json) → Paid (λ t. t.failures) 12 (λ r. is_feedback r.answer) json
failures-Paid json = record {
  keeps = λ c t. failures_grow json c t (run_call json c t) (run_call-Comes json c t);
  pays = λ c t h.
      let (f, g) = feedback_of (run_call json c t).0 h in
      let q = feedback-Given json c t (run_call json c t) f (run_call-Comes json c t) g in
      (q.1, q.2);
}

repeat_of :
    (json : Json) (tool key : Bytes) (c : ToolCall) (x : Result ToolError Answer)
    → repeats json tool key c x ≡ true
    → (f : Feedback) × (x ≡ ok (feedback f))
      × (counted_tool c ≡ tool)
      × (json.canonical (counted_args c) ++ 0 ∷ f.message ≡ key)
unfolding repeats
repeat_of json tool key c (ok (feedback f)) h = (
  f,
  refl,
  bytes_equal→eq (counted_tool c) tool (ground arith),
  bytes_equal→eq (json.canonical (counted_args c) ++ 0 ∷ f.message) key (ground arith),
)
repeat_of json tool key c (ok (text s)) h = cc
repeat_of json tool key c (err e) h = cc

attempts-Paid :
    (json : Json) (tool key : Bytes)
    → Paid (λ t. t.attempts tool key) 3 (λ r. repeats json tool key r.call r.answer) json
attempts-Paid json tool key = record {
  keeps = λ c t. attempts_grow json c t (run_call json c t) tool key (run_call-Comes json c t);
  pays = λ c t h.
      let (f, g, e, k) = repeat_of json tool key c (run_call json c t).0 h in
      let q = feedback-Given json c t (run_call json c t) f (run_call-Comes json c t) g in
      rw (← e, ← k) q.3;
}

-- Whatever the model calls in a turn, and however the tools fail, it gets at most twelve answers that ask
-- for a correction, and at most three for equal arguments of one tool with one message.
pub corrections_bounded :
    (json : Json) (calls : List ToolCall) (answers : List Bool) (tool key : Bytes)
    → (corrections (run_calls json calls (new_turn answers)) ≤ 12)
      × (equal_corrections json tool key (run_calls json calls (new_turn answers)) ≤ 3)
corrections_bounded json calls answers tool key = (
  elim (count-Paid (λ t. t.failures) 12 (λ r. is_feedback r.answer) json (failures-Paid json) calls
      (new_turn answers)) [ inl z ↦ omega arith | inr m ↦ omega arith ],
  elim (count-Paid (λ t. t.attempts tool key) 3 (λ r. repeats json tool key r.call r.answer) json
      (attempts-Paid json tool key) calls (new_turn answers)) [
        | inl z ↦ omega arith
        | inr m ↦ omega arith
      ],
)
