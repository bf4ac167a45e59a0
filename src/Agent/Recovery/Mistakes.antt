-- ===== src/Agent/Recovery/Mistakes.antt =====
-- What one call of a tool comes to, and what a mistake in it does to the turn.
use mathlib.Core.Path.{subst}
use nex_shell.Prelude.{
  sym, ℕ, suc, ◌+◌, ◌≤◌, ◌≡◌, ◌≢◌, ◌⊎◌, refl, Bool, true, false, not, ◌&&◌, ◌||◌, List, [], ◌∷◌,
  ◌++◌, ltb, leb, arith, Bool-cases, inl, inr, Bytes, bytes_equal, bytes_equal→eq, bytes_equal_refl,
  Result, ok, err, Exec, pure, continue, codes, has_prefix,
}
use nex_shell.Agent.Recovery.{
  ToolError, correctable, other, cancelled, repeated, exhausted, record_failed, Feedback, Answer,
  text, feedback, Turn, count_again, take_one, record_with, note, give_feedback, by_outcome,
  bad_arguments, normalized, invokable_run, unknown_message, unknown_tool, handle_unknown,
}

-- what a mistake does to the turn, whatever is answered
pub record Fed (tool key message : Bytes) (t : Turn) (x : Result ToolError Answer × Turn)
    : Type 0 where
  pub grows : t.failures ≤ x.1.failures
  pub counts : (name k : Bytes) → t.attempts name k ≤ x.1.attempts name k
  pub given :
      (f : Feedback)
      → x.0 ≡ ok (feedback f)
      → (f.message ≡ message)
        × (x.1.failures ≡ t.failures + 1)
        × (x.1.failures ≤ 12)
        × (x.1.attempts tool key ≡ t.attempts tool key + 1)
        × (x.1.attempts tool key ≤ 3)
  pub no_text : (s : Bytes) → x.0 ≢ ok (text s)
  pub no_run : x.1.runs ≡ t.runs

counted :
    (tool key : Bytes) (t : Turn) (name k : Bytes)
    → t.attempts name k ≤ (count_again tool key (suc (t.attempts tool key)) t).attempts name k
unfolding count_again
counted tool key t name k = elim (Bool-cases (bytes_equal name tool && bytes_equal k key)) [
  | inl s ↦
      let a : name ≡ tool = bytes_equal→eq name tool (ground arith) in
      let b : k ≡ key = bytes_equal→eq k key (ground arith) in rw s (rw (a, b) (omega arith))
  | inr d ↦ rw d (omega arith)
]

counted_self :
    (tool key : Bytes) (n : ℕ) (t : Turn) → (count_again tool key n t).attempts tool key ≡ n
unfolding count_again
counted_self tool key n t = rw (bytes_equal_refl tool, bytes_equal_refl key) refl

failed-Fed :
    (tool key message : Bytes) (t : Turn) (e : ToolError) (k : ℕ) (answers : List Bool)
    → t.failures ≤ k
    → Fed tool key message t (
      err e,
      record (count_again tool key (suc (t.attempts tool key)) t) {
        failures = k;
        answers = answers;
      },
    )
unfolding count_again
failed-Fed tool key message t e k answers h = record {
  grows = h;
  counts = counted tool key t;
  given = λ f g. cc;
  no_text = λ s g. cc;
  no_run = refl;
}

noted-Fed :
    (tool key message : Bytes) (t : Turn) (later : List Bool)
    → t.failures + 1 ≤ 12
    → t.attempts tool key + 1 ≤ 3
    → Fed tool key message t (
      ok (
          feedback (record {
            tool = tool;
            message = message;
            retryable = ltb (suc (t.attempts tool key)) 3;
          })),
      record (count_again tool key (suc (t.attempts tool key)) t) {
        failures = t.failures + 1;
        recorded = t.recorded ++ (tool, message) ∷ [];
        answers = later;
      },
    )
unfolding count_again
noted-Fed tool key message t later h k =
    let e = counted_self tool key (suc (t.attempts tool key)) t in
    record {
      grows = omega arith;
      counts = counted tool key t;
      given = λ f g. (cc, refl, h, omega (arith, e), omega (arith, e));
      no_text = λ s g. cc;
      no_run = refl;
    }

note-Fed :
    (tool key message : Bytes) (t : Turn) (answers : List Bool)
    → answers ≡ t.answers
    → t.failures + 1 ≤ 12
    → t.attempts tool key + 1 ≤ 3
    → let s = record (count_again tool key (suc (t.attempts tool key)) t) {
      failures = t.failures + 1;
    } in
      Fed tool key message t (
        continue (record_with answers tool message s) λ _. pure (
          feedback (record {
            tool = tool;
            message = message;
            retryable = ltb (suc (t.attempts tool key)) 3;
          })))
unfolding record_with count_again
note-Fed tool key message t [] e h k = noted-Fed tool key message t t.answers h k
note-Fed tool key message t (true ∷ later) e h k = noted-Fed tool key message t later h k
note-Fed tool key message t (false ∷ later) e h k =
    failed-Fed tool key message t record_failed (t.failures + 1) later (omega arith)

give_feedback-Fed :
    (canonical : Bytes → Bytes) (tool args message : Bytes) (t : Turn)
    → Fed tool
        (canonical args ++ 0 ∷ message)
        message
        t
        (give_feedback canonical tool args message t)
unfolding give_feedback take_one note count_again
give_feedback-Fed canonical tool args message t =
    let key = canonical args ++ 0 ∷ message in
    elim (Bool-cases (ltb 3 (suc (t.attempts tool key)))) [
      | inl many ↦
          rw many (failed-Fed tool key message t repeated t.failures t.answers (omega arith))
      | inr few ↦ rw few (elim (Bool-cases (leb (t.failures + 1) 12)) [
        | inl within ↦
            rw within (note-Fed tool key message t t.answers refl (ground arith) (ground arith))
        | inr out ↦
            rw out
              (failed-Fed tool key message t exhausted (t.failures + 1) t.answers (omega arith))
      ])
    ]

-- one call of a tool: what the model sends, whether there is such a tool, or else the names of those that there are,
-- and what the context and the tool's own run give
pub record ToolCall : Type 0 where
  pub tool : Bytes
  pub args : Bytes
  pub known : Bool
  pub available : Bytes
  pub stopped : Bool
  pub outcome : Result ToolError Bytes

-- What `json.Valid` says of a text, and a text as encoding/json writes it once it has read it.
pub record Json : Type 0 where
  pub valid : Bytes → Bool
  pub canonical : Bytes → Bytes

abbrev pub call_by : Bool → Json → ToolCall → Exec ToolError Turn Answer
call_by true json c = invokable_run json.canonical json.valid c.tool c.args c.stopped c.outcome
call_by false json c = handle_unknown json.canonical c.tool c.available c.stopped

abbrev pub run_call : Json → ToolCall → Exec ToolError Turn Answer
run_call json c = call_by c.known json c

-- the tool and the arguments that a mistake is counted under
abbrev pub tool_by : Bool → ToolCall → Bytes
tool_by true c = c.tool
tool_by false c = unknown_tool

abbrev pub args_by : Bool → ToolCall → Bytes
args_by true c = c.args
args_by false c = c.tool

abbrev pub counted_tool : ToolCall → Bytes
counted_tool c = tool_by c.known c

abbrev pub counted_args : ToolCall → Bytes
counted_args c = args_by c.known c

abbrev pub good_arguments : Json → ToolCall → Bool
good_arguments json c =
    json.valid (normalized c.tool c.args) && has_prefix (codes "{") (normalized c.tool c.args)

-- the mistake in a call, as the model is told of it
abbrev pub Mistake : Json → ToolCall → Bytes → Type 0
Mistake json c message =
    (c.stopped ≡ false)
    × (((c.known ≡ false) × (message ≡ unknown_message c.tool c.available))
        ⊎ ((c.known ≡ true)
            × (((good_arguments json c ≡ false) × (message ≡ bad_arguments))
                ⊎ ((good_arguments json c ≡ true) × (c.outcome ≡ err (correctable message))))))

-- what a call comes to: feedback on a mistake, or what the context or the tool gives
pub data Comes (json : Json) (c : ToolCall) (t : Turn) (x : Result ToolError Answer × Turn)
    : Type 0 where
  stops : c.stopped ≡ true → x ≡ (err cancelled, t) → Comes json c t x
  mistaken :
      (message : Bytes) (s : Turn)
      → Mistake json c message
      → (s.failures ≡ t.failures) × (s.attempts ≡ t.attempts)
      → Fed (counted_tool c) (json.canonical (counted_args c) ++ 0 ∷ message) message s x
      → Comes json c t x
  gives :
      (s : Bytes)
      → (c.stopped ≡ false) × (c.known ≡ true) × (good_arguments json c ≡ true) × (c.outcome ≡ ok s)
      → x ≡ (ok (text s), record t { runs = t.runs ++ (c.tool, c.args) ∷ [] })
      → Comes json c t x
  breaks :
      (e : ToolError)
      → (c.stopped ≡ false)
        × (c.known ≡ true)
        × (good_arguments json c ≡ true)
        × (c.outcome ≡ err e)
      → ((message : Bytes) → e ≢ correctable message)
      → x ≡ (err e, record t { runs = t.runs ++ (c.tool, c.args) ∷ [] })
      → Comes json c t x

outcome-Comes :
    (json : Json) (c : ToolCall) (t : Turn) (o : Result ToolError Bytes)
    → c.stopped ≡ false
    → c.known ≡ true
    → good_arguments json c ≡ true
    → c.outcome ≡ o
    → Comes json c t (
        by_outcome json.canonical c.tool c.args o
          (record t { runs = t.runs ++ (c.tool, c.args) ∷ [] }))
unfolding by_outcome
outcome-Comes json c t (ok s) p k q e = gives s (p, k, q, e) refl
outcome-Comes json c t (err (correctable message)) p k q e =
    let s = record t { runs = t.runs ++ (c.tool, c.args) ∷ [] } in
    mistaken message s (p, inr (k, inr (q, e))) (refl, refl)
      (rw k (give_feedback-Fed json.canonical c.tool c.args message s))
outcome-Comes json c t (err (other m)) p k q e = breaks (other m) (p, k, q, e) (λ m f. cc) refl
outcome-Comes json c t (err cancelled) p k q e = breaks cancelled (p, k, q, e) (λ m f. cc) refl
outcome-Comes json c t (err repeated) p k q e = breaks repeated (p, k, q, e) (λ m f. cc) refl
outcome-Comes json c t (err exhausted) p k q e = breaks exhausted (p, k, q, e) (λ m f. cc) refl
outcome-Comes json c t (err record_failed) p k q e =
    breaks record_failed (p, k, q, e) (λ m f. cc) refl

invokable_run-Comes :
    (json : Json) (c : ToolCall) (t : Turn) (stopped : Bool)
    → c.known ≡ true
    → c.stopped ≡ stopped
    → Comes json c t (invokable_run json.canonical json.valid c.tool c.args stopped c.outcome t)
unfolding invokable_run
invokable_run-Comes json c t true k e = stops e refl
invokable_run-Comes json c t false k e = elim (Bool-cases (good_arguments json c)) [
  | inl good ↦
      let fine : (not (json.valid (normalized c.tool c.args))
            || not (has_prefix (codes "{") (normalized c.tool c.args)))
          ≡ false =
        ground arith in
      rw fine (outcome-Comes json c t c.outcome e k good refl)
  | inr bad ↦
      let wrong : (not (json.valid (normalized c.tool c.args))
            || not (has_prefix (codes "{") (normalized c.tool c.args)))
          ≡ true =
        ground arith in
      rw wrong (
        mistaken bad_arguments t (e, inr (k, inl (bad, refl))) (refl, refl)
          (rw k (give_feedback-Fed json.canonical c.tool c.args bad_arguments t)))
]

handle_unknown-Comes :
    (json : Json) (c : ToolCall) (t : Turn) (stopped : Bool)
    → c.known ≡ false
    → c.stopped ≡ stopped
    → Comes json c t (handle_unknown json.canonical c.tool c.available stopped t)
unfolding handle_unknown
handle_unknown-Comes json c t true n e = stops e refl
handle_unknown-Comes json c t false n e =
    let message = unknown_message c.tool c.available in
    mistaken message t (e, inl (n, refl)) (refl, refl)
      (rw n (give_feedback-Fed json.canonical unknown_tool c.tool message t))

pub run_call-Comes : (json : Json) (c : ToolCall) (t : Turn) → Comes json c t (run_call json c t)
run_call-Comes json c t = elim (Bool-cases c.known) [
  | inl k ↦
      subst (λ b. Comes json c t (call_by b json c t)) (sym k)
        (invokable_run-Comes json c t c.stopped k refl)
  | inr n ↦
      subst (λ b. Comes json c t (call_by b json c t)) (sym n)
        (handle_unknown-Comes json c t c.stopped n refl)
]
