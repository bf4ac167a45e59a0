-- ===== src/Agent/Service/Quiet.antt =====
-- What a run does during its turns leaves the tasks and the other runs alone.
use nex_shell.Prelude.{
  refl, Bool, true, false, not, ◌&&◌, ◌||◌, Option, none, some, List, [], ◌∷◌, if◌then◌else◌, Bytes,
  codes, Result, ok, err, pure, fail, gets, modify, continue, ◌>>=◌,
}
use nex_shell.Agent.History.{Role, Message}
use nex_shell.Agent.Paths.{is_empty}
use nex_shell.Agent.Service.{Input, Service, Trouble, store_failed, Call}
use nex_shell.Agent.Service.Frames.{
  Alike, Alike-refl, Alike-trans, Still, Still-bind, Still-pure, Still-gets, Still-modify,
  Still-statement, Still-event, Still-or_error,
}
use nex_shell.Agent.Service.Turn.{
  RunError, failed, Turn, Step, with_service, on_service, put_history, append_history, take_inputs,
  gen_input, load_approval, set_target, gen_resume, Point, Chunk, Output, whole, streamed,
  EventError, cancel_error, fails, AgentEvent, set_error, stop_with, ask_for, ask_all, on_interrupt,
  later_role, is_assistant, read_stream, is_blank, no_reply, on_message, joined_message, on_output,
  check_output, is_helper, on_event, end_turn, consume, consume_events,
}
use nex_shell.Agent.Types.{Approval}
use nex_shell.Store.{no_rows}

pub record Quiet {A : Type 0} (m : Step A) : Type 0 where
  pub at : (t : Turn) → Alike t.service (m t).1.service

module _ {A : Type 0} where
  Quiet-pure : (a : A) → Quiet (pure a)
  Quiet-pure a = record { at = λ t. Alike-refl t.service }

  Quiet-fail : (e : RunError) → Quiet {A = A} (fail e)
  Quiet-fail e = record { at = λ t. Alike-refl t.service }

  Quiet-gets : (f : Turn → A) → Quiet (gets f)
  Quiet-gets f = record { at = λ t. Alike-refl t.service }

  Quiet-if : (b : Bool) {m n : Step A} → Quiet m → Quiet n → Quiet (if b then m else n)
  Quiet-if true p q = p
  Quiet-if false p q = q

  with_service-Alike :
      (t : Turn) (x : Result Trouble A × Service)
      → Alike t.service x.1
      → Alike t.service (with_service x t).1.service
  with_service-Alike t (ok a, s) h = h
  with_service-Alike t (err e, s) h = h

  Quiet-service : {m : Call A} → Still m → Quiet (on_service m)
  Quiet-service {m} h = record { at = λ t. with_service-Alike t (m t.service) (h.at t.service) }

Quiet-modify : {f : Turn → Turn} → ((t : Turn) → Alike t.service (f t).service) → Quiet (modify f)
Quiet-modify h = record { at = h }

module _ {A B : Type 0} where
  continue-Alike :
      (s : Service) (x : Result RunError A × Turn) (f : A → Step B)
      → Alike s x.1.service
      → ((a : A) → Quiet (f a))
      → Alike s (continue x f).1.service
  continue-Alike s (ok a, t) f p q = Alike-trans s t.service (f a t).1.service p ((q a).at t)
  continue-Alike s (err e, t) f p q = p

  Quiet-bind : {m : Step A} {f : A → Step B} → Quiet m → ((a : A) → Quiet (f a)) → Quiet (m >>= f)
  Quiet-bind {m} {f} p q = record { at = λ t. continue-Alike t.service (m t) f (p.at t) q }

Still-put_history : (id : Bytes) (history : List Message) → Still (put_history id history)
unfolding put_history
Still-put_history id history =
    Still-bind Still-statement
      λ _. Still-modify (λ s. record { tasks = refl; active = refl; closed = refl })

Quiet-append_history : (id : Bytes) (m : Message) → Quiet (append_history id m)
unfolding append_history
Quiet-append_history id m =
    Quiet-bind (Quiet-modify (λ t. Alike-refl t.service))
      λ _. Quiet-bind (Quiet-gets (λ t. t.history)) λ h. Quiet-service (Still-put_history id h)

Quiet-take_inputs : (id : Bytes) (items : List Input) → Quiet (take_inputs id items)
unfolding take_inputs
Quiet-take_inputs id [] = Quiet-pure tt
Quiet-take_inputs id (item ∷ items) =
    Quiet-bind
      (Quiet-if (is_empty item.text) (Quiet-pure tt) (
        Quiet-bind (Quiet-append_history id _)
          λ _. Quiet-service (Still-event id (codes "user") item.text)))
      λ _. Quiet-take_inputs id items

pub Quiet-gen_input : (id : Bytes) (items : List Input) → Quiet (gen_input id items)
unfolding gen_input
Quiet-gen_input id items =
    Quiet-bind (Quiet-take_inputs id items)
      λ _. Quiet-bind (Quiet-service Still-statement) λ _. Quiet-gets (λ t. t.history)

Still-load_approval : (key : Bytes) → Still (load_approval key)
unfolding load_approval
Still-load_approval key = Still-bind Still-statement λ _.
    Still-bind (Still-gets (λ s. s.approvals key))
      λ found. Still-or_error (store_failed no_rows) found

pub Quiet-gen_resume :
    (items : List Input) (targets : List (Bytes × Bool)) → Quiet (gen_resume items targets)
unfolding gen_resume
Quiet-gen_resume [] targets = Quiet-pure targets
Quiet-gen_resume (item ∷ items) targets =
    Quiet-bind
      (Quiet-if (is_empty item.approval_id) (Quiet-pure targets) (
        Quiet-bind (Quiet-service (Still-load_approval item.approval_id))
          λ a. Quiet-pure (set_target a.interrupt_id a.approved targets)))
      λ more. Quiet-gen_resume items more

Still-ask_for : (id : Bytes) (p : Point) (o : Option Approval) → Still (ask_for id p o)
unfolding ask_for
Still-ask_for id p none = Still-pure tt
Still-ask_for id p (some a) = Still-bind Still-statement λ _.
    Still-bind (Still-modify (λ s. record { tasks = refl; active = refl; closed = refl }))
      λ _. Still-event id (codes "approval_required") a.digest

Still-ask_all : (id : Bytes) (points : List Point) → Still (ask_all id points)
unfolding ask_all
Still-ask_all id [] = Still-pure tt
Still-ask_all id (p ∷ points) = Still-bind (Still-ask_for id p p.info) λ _. Still-ask_all id points

Quiet-on_interrupt : (id : Bytes) (o : Option (List Point)) → Quiet (on_interrupt id o)
unfolding on_interrupt
Quiet-on_interrupt id none = Quiet-pure tt
Quiet-on_interrupt id (some points) =
    Quiet-bind (Quiet-modify (λ t. Alike-refl t.service))
      λ _. Quiet-service (Still-ask_all id points)

Quiet-stop_with : {A : Type 0} (e : RunError) → Quiet {A = A} (stop_with e)
unfolding stop_with set_error
Quiet-stop_with e = Quiet-bind (Quiet-modify (λ t. Alike-refl t.service)) λ _. Quiet-fail e

Quiet-read_stream :
    (id : Bytes) (cancelled : Bool) (role : Option Role) (chunks : List Chunk)
    (ending : Option Bytes)
    → Quiet (read_stream id cancelled role chunks ending)
unfolding read_stream
Quiet-read_stream id cancelled role [] none = Quiet-pure tt
Quiet-read_stream id cancelled role [] (some e) = Quiet-stop_with _
Quiet-read_stream id cancelled role (c ∷ chunks) ending =
    Quiet-bind
      (Quiet-if (is_assistant (later_role c.role role) && not (is_empty c.content))
        (Quiet-service (Still-event id (codes "assistant_delta") c.content)) (Quiet-pure tt))
      λ _. Quiet-read_stream id cancelled (later_role c.role role) chunks ending

Quiet-on_message :
    (id : Bytes) (streaming : Bool) (o : Option Message) → Quiet (on_message id streaming o)
unfolding on_message
Quiet-on_message id streaming none = Quiet-pure false
Quiet-on_message id streaming (some m) =
    Quiet-if (is_assistant (some m.role) && is_blank m) (Quiet-stop_with no_reply) (
      Quiet-bind (Quiet-append_history id m) λ _.
        Quiet-bind
          (Quiet-if (is_assistant (some m.role) && not (is_empty m.content))
            (Quiet-bind (Quiet-modify (λ t. Alike-refl t.service)) λ _.
              Quiet-if streaming (Quiet-pure tt)
                (Quiet-service (Still-event id (codes "assistant") m.content)))
            (Quiet-pure tt))
          λ _. Quiet-pure (is_assistant (some m.role)))

Quiet-joined : (id : Bytes) (r : Result Bytes Message) → Quiet (joined_message id r)
unfolding joined_message
Quiet-joined id (ok m) = Quiet-on_message id true (some m)
Quiet-joined id (err e) = Quiet-fail (failed e)

Quiet-on_output :
    (id : Bytes) (cancelled : Bool) (o : Option Output) → Quiet (on_output id cancelled o)
unfolding on_output
Quiet-on_output id cancelled none = Quiet-pure false
Quiet-on_output id cancelled (some (whole m)) = Quiet-on_message id false m
Quiet-on_output id cancelled (some (streamed role chunks ending joined)) =
    Quiet-bind (Quiet-read_stream id cancelled role chunks ending) λ _. Quiet-joined id joined

Quiet-check_output : (o : Option Output) → Quiet (check_output o)
unfolding check_output
Quiet-check_output none = Quiet-pure false
Quiet-check_output (some (whole m)) = Quiet-pure false
Quiet-check_output (some (streamed role chunks (some e) joined)) = Quiet-fail (failed e)
Quiet-check_output (some (streamed role chunks none (err e))) = Quiet-fail (failed e)
Quiet-check_output (some (streamed role chunks none (ok m))) = Quiet-pure false

Quiet-on_event :
    (id : Bytes) (cancelled : Bool) (o : Option EventError) (ev : AgentEvent)
    → Quiet (on_event id cancelled o ev)
unfolding on_event
Quiet-on_event id cancelled (some cancel_error) ev = Quiet-pure false
Quiet-on_event id cancelled (some (fails e)) ev = Quiet-stop_with e
Quiet-on_event id cancelled none ev = Quiet-bind (Quiet-on_interrupt id ev.interrupted) λ _.
    Quiet-if (is_helper ev.agent_name) (Quiet-check_output ev.output)
      (Quiet-on_output id cancelled ev.output)

Quiet-consume :
    (id : Bytes) (cancelled replied : Bool) (events : List AgentEvent)
    → Quiet (consume id cancelled replied events)
unfolding consume end_turn
Quiet-consume id cancelled replied [] = Quiet-bind (Quiet-gets (λ t. t.state.pending)) λ pending.
    Quiet-if (not pending && not replied) (Quiet-stop_with no_reply)
      (Quiet-if (not pending) (Quiet-modify (λ t. Alike-refl t.service)) (Quiet-pure tt))
Quiet-consume id cancelled replied (ev ∷ events) =
    Quiet-bind (Quiet-on_event id cancelled ev.error ev)
      λ more. Quiet-consume id cancelled (replied || more) events

pub Quiet-consume_events :
    (id : Bytes) (cancelled : Bool) (events : List AgentEvent)
    → Quiet (consume_events id cancelled events)
unfolding consume_events
Quiet-consume_events id cancelled events = Quiet-consume id cancelled false events
