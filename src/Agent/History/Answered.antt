-- ===== src/Agent/History/Answered.antt =====
-- After the completion every call of a tool has its answer, and nothing else has changed.
use mathlib.Core.Path.{subst}
use nex_shell.Prelude.{
  ◌≡◌, refl, sym, ap, true, false, ◌||◌, List, [], ◌∷◌, ◌++◌, append-nil, arith, Bytes, All,
  if◌then◌else◌, Bool-cases, inl, inr, bytes_equal_refl,
}
use nex_shell.Agent.History.{
  Role, assistant, Message, is_tool, placeholder, placeholders, calls_of, complete_from,
  complete_interrupted_tool_calls,
}
use nex_shell.Agent.Types.{member}

-- the calls that the tools' messages at the front answer
abbrev pub answers_of : List Message → List Bytes
answers_of [] = []
answers_of (msg ∷ history) =
    let rest = answers_of history in if is_tool msg.role then msg.tool_call_id ∷ rest else []

-- Each call of a message is answered by one of the tools' messages directly behind it.
abbrev pub Answered : List Message → Type 0
Answered [] = Unit {0}
Answered (msg ∷ history) =
    All (λ call. member call (answers_of history) ≡ true) (calls_of msg.role msg.tool_calls)
    × Answered history

-- The second history is the first with answers put in.
pub data Extends : List Message → List Message → Type 0 where
  done : Extends [] []
  kept :
      (msg : Message) {history out : List Message}
      → Extends history out
      → Extends (msg ∷ history) (msg ∷ out)
  added :
      (call : Bytes) {history out : List Message}
      → Extends history out
      → Extends history (placeholder call ∷ out)

-- each of the calls is answered already, or at the front of the messages
abbrev Covered : List Bytes → List Message → List Bytes → Type 0
Covered answered out calls =
    All (λ call. (member call answered || member call (answers_of out)) ≡ true) calls

placeholders-Extends :
    (answered calls : List Bytes) (history out : List Message)
    → Extends history out
    → Extends history (placeholders answered calls ++ out)
unfolding placeholders
placeholders-Extends answered [] history out e = e
placeholders-Extends answered (call ∷ calls) history out e =
    elim (Bool-cases (member call answered)) [
      | inl m ↦ rw m (placeholders-Extends answered calls history out e)
      | inr n ↦ rw n (added call (placeholders-Extends answered calls history out e))
    ]

complete_from-Extends :
    (calls answered : List Bytes) (history : List Message)
    → Extends history (complete_from calls answered history)
unfolding complete_from
complete_from-Extends calls answered [] =
    rw (← append-nil (placeholders answered calls)) (placeholders-Extends answered calls [] [] done)
complete_from-Extends calls answered (msg ∷ history) = elim (Bool-cases (is_tool msg.role)) [
  | inl t ↦ rw t (kept msg (complete_from-Extends calls (msg.tool_call_id ∷ answered) history))
  | inr o ↦ rw o (
      placeholders-Extends answered calls (msg ∷ history)
        (msg ∷ complete_from (calls_of msg.role msg.tool_calls) [] history)
        (kept msg (complete_from-Extends (calls_of msg.role msg.tool_calls) [] history)))
]

placeholders-Answered :
    (answered calls : List Bytes) (out : List Message)
    → Answered out
    → Answered (placeholders answered calls ++ out)
unfolding placeholders calls_of
placeholders-Answered answered [] out h = h
placeholders-Answered answered (call ∷ calls) out h = elim (Bool-cases (member call answered)) [
  | inl m ↦ rw m (placeholders-Answered answered calls out h)
  | inr n ↦ rw n (tt, placeholders-Answered answered calls out h)
]

-- an answer more at the front covers no less
Covered-more :
    (call : Bytes) (answered : List Bytes) (out : List Message) (calls : List Bytes)
    → Covered answered out calls
    → Covered answered (placeholder call ∷ out) calls
unfolding is_tool member
Covered-more call answered out [] h = tt
Covered-more call answered out (c ∷ calls) h =
    ((let k = h.0 in ground arith), Covered-more call answered out calls h.1)

placeholders-Covered :
    (answered calls : List Bytes) (out : List Message)
    → Covered answered (placeholders answered calls ++ out) calls
unfolding placeholders is_tool member
placeholders-Covered answered [] out = tt
placeholders-Covered answered (call ∷ calls) out = elim (Bool-cases (member call answered)) [
  | inl m ↦
      let same : placeholders answered (call ∷ calls) ≡ placeholders answered calls = rw m refl in
      subst (λ p. Covered answered (p ++ out) (call ∷ calls)) (sym same)
        (rw m refl, placeholders-Covered answered calls out)
  | inr n ↦
      let new : placeholders answered (call ∷ calls)
          ≡ placeholder call ∷ placeholders answered calls =
        rw n refl in
      subst (λ p. Covered answered (p ++ out) (call ∷ calls)) (sym new)
        (
          rw (n, bytes_equal_refl call) refl,
          Covered-more call answered (placeholders answered calls ++ out) calls
              (placeholders-Covered answered calls out),
        )
]

-- one more answer taken from the front to those known
Covered-answer :
    (msg : Message) (answered : List Bytes) (out : List Message) (calls : List Bytes)
    → is_tool msg.role ≡ true
    → Covered (msg.tool_call_id ∷ answered) out calls
    → Covered answered (msg ∷ out) calls
unfolding member
Covered-answer msg answered out [] t h = tt
Covered-answer msg answered out (c ∷ calls) t h =
    (rw t (let k = h.0 in ground arith), Covered-answer msg answered out calls t h.1)

Covered-answered :
    (msg : Message) (answered : List Bytes) (out : List Message) (calls : List Bytes)
    → is_tool msg.role ≡ true
    → Covered answered (msg ∷ out) calls
    → Covered (msg.tool_call_id ∷ answered) out calls
unfolding member
Covered-answered msg answered out [] t h = tt
Covered-answered msg answered out (c ∷ calls) t h =
    ((let k = rw t at h.0 in ground arith), Covered-answered msg answered out calls t h.1)

no_calls : (role : Role) (calls : List Bytes) → is_tool role ≡ true → calls_of role calls ≡ []
unfolding is_tool calls_of
no_calls assistant calls t = cc
no_calls other calls t = refl

none_known :
    (out : List Message) (calls : List Bytes)
    → Covered [] out calls
    → All (λ call. member call (answers_of out) ≡ true) calls
unfolding member
none_known out [] h = tt
none_known out (c ∷ calls) h = (h.0, none_known out calls h.1)

complete_from-Answered :
    (calls answered : List Bytes) (history : List Message)
    → Answered (complete_from calls answered history)
      × Covered answered (complete_from calls answered history) calls
unfolding complete_from
complete_from-Answered calls answered [] =
    let e = append-nil (placeholders answered calls) in
    (
      subst Answered e (placeholders-Answered answered calls [] tt),
      subst (λ out. Covered answered out calls) e (placeholders-Covered answered calls []),
    )
complete_from-Answered calls answered (msg ∷ history) = elim (Bool-cases (is_tool msg.role)) [
  | inl t ↦
      let ih = complete_from-Answered calls (msg.tool_call_id ∷ answered) history in
      let out = complete_from calls (msg.tool_call_id ∷ answered) history in
      rw t (
        (rw (no_calls msg.role msg.tool_calls t) tt, ih.0),
        Covered-answer msg answered out calls t ih.1,
      )
  | inr o ↦
      let ih = complete_from-Answered (calls_of msg.role msg.tool_calls) [] history in
      let out = complete_from (calls_of msg.role msg.tool_calls) [] history in
      rw o (
        placeholders-Answered answered calls (msg ∷ out)
            (none_known out (calls_of msg.role msg.tool_calls) ih.1, ih.0),
        placeholders-Covered answered calls (msg ∷ out),
      )
]

-- Every call of a tool in a completed history is answered directly behind its message, and the history
-- has changed in nothing but the answers that were put in.
pub complete-Answered :
    (history : List Message)
    → Answered (complete_interrupted_tool_calls history)
      × Extends history (complete_interrupted_tool_calls history)
unfolding complete_interrupted_tool_calls
complete-Answered history =
    ((complete_from-Answered [] [] history).0, complete_from-Extends [] [] history)

nothing_open :
    (answered calls : List Bytes)
    → All (λ call. (member call answered || false) ≡ true) calls
    → placeholders answered calls ≡ []
unfolding placeholders
nothing_open answered [] h = refl
nothing_open answered (call ∷ calls) h =
    let m : member call answered ≡ true = let k = h.0 in ground arith in
    rw m (nothing_open answered calls h.1)

complete_from_same :
    (calls answered : List Bytes) (history : List Message)
    → Covered answered history calls
    → Answered history
    → complete_from calls answered history ≡ history
unfolding complete_from member
complete_from_same calls answered [] c h = nothing_open answered calls c
complete_from_same calls answered (msg ∷ history) c h = elim (Bool-cases (is_tool msg.role)) [
  | inl t ↦ rw t (
      ap (◌∷◌ msg) (
        complete_from_same calls (msg.tool_call_id ∷ answered) history
          (Covered-answered msg answered history calls t c) h.1))
  | inr o ↦
      let later : Covered [] history (calls_of msg.role msg.tool_calls) = h.0 in
      let none_left : placeholders answered calls ≡ [] = nothing_open answered calls (rw o at c) in
      rw (o, none_left)
        (ap (◌∷◌ msg) (complete_from_same (calls_of msg.role msg.tool_calls) [] history later h.1))
]

-- A history in which every call is answered stays as it is: a second completion changes nothing.
pub complete_of-Answered :
    (history : List Message) → Answered history → complete_interrupted_tool_calls history ≡ history
unfolding complete_interrupted_tool_calls
complete_of-Answered history h = complete_from_same [] [] history tt h
