-- ===== src/Application/Transition.antt =====
-- CreateDispute and ApplyEvent of application/service.go, withAuthorizedBy of application/authorize.go
-- and openedPayload of application/suggestions.go: the whole of each handler. encoding/json and
-- google/uuid are parameters; the metrics and the trace are left out.
pub mod Booking
pub mod Laws
pub mod Keeps
pub mod Opening
pub mod Outcomes
use thesis_dispute_engine.Prelude.{
  ℕ, ◌+◌, String, Bool, true, false, Option, none, some, List, [], ◌∷◌, str_eq, if◌then◌else◌,
}
use thesis_dispute_engine.Prelude.Decimal.{Decimals}
use thesis_dispute_engine.Result.{Result, ok, err}
use thesis_dispute_engine.Domain.Vocabulary.{State, initiated, Event, Reason, Rail, Regime}
use thesis_dispute_engine.Domain.Regime.{regime_for, rules_for}
use thesis_dispute_engine.Domain.Lifecycle.{Dispute, apply}
use thesis_dispute_engine.Domain.Deadline.{Calendar, opening_deadlines}
use thesis_dispute_engine.Domain.QuestionSets.{parse_reason, reason_eq}
use thesis_dispute_engine.Application.Records.{
  DisputeRecord, EventRecord, TransactionRecord, CoreConfig, DisputeFacts, Decision, lifecycle,
  event_action,
}
use thesis_dispute_engine.Application.Store.{
  Db, Caller, Tx, pure, lift, ◌>>=◌, ◌>>◌, get_dispute, get_transaction, insert_dispute,
  update_dispute_state, append_event,
}
use thesis_dispute_engine.Application.Clocks.{settle_deadlines, inserted}
use thesis_dispute_engine.Application.Money.{EventFacts, Adapter, Env, post}
use thesis_dispute_engine.Domain.Vocabulary.{PostingKind}
use thesis_dispute_engine.Application.Hold.{Texts, hold_check}
use thesis_dispute_engine.Application.Reassign.{Policy, facts, authorize, is_open_investigation}
use thesis_dispute_engine.Application.Routing.{route}
use thesis_dispute_engine.Application.Notices.{Writer, notify}
use thesis_dispute_engine.Application.Assess.{Times, assess, questionnaire}
use thesis_dispute_engine.Application.ViewRecords.{DisputeView}
use thesis_dispute_engine.Application.Views.{view_with}
use thesis_dispute_engine.Application.Idempotent.{Codec, Idempotency, Answer, idempotent}

-- An object of JSON: its members, each as its text.
abbrev pub Members : Type 0
Members = List (String × String)

pub record Json : Type 0 where
  pub decode : String → Result Members
  pub encode : Members → Result String
  pub texts : List String → String

-- What a model proposed for the reason.
pub record ReasonProposal : Type 0 where
  pub reason : Reason
  pub probability : String
  pub confident : Bool

-- What the service is given: `policy.now` is its clock when the handler asks, `view_now` when the view
-- does; `suggested` encodes an accepted or an overridden proposal, or fails.
pub record Service (N : Type 0) : Type 0 where
  pub policy : Policy N
  pub view_now : ℕ
  pub calendar : Calendar
  pub tenant_core : CoreConfig
  pub adapters : String → Option (Adapter N)
  pub unmarshal : String → Option EventFacts
  pub reference : String → ℕ → PostingKind → String
  pub trim_space : String → String
  pub times : Times
  pub writer : Writer N
  pub json : Json
  pub new_id : Result String
  pub suggested : ReasonProposal → Bool → Result String

abbrev pub env_of : {N : Type 0} → Service N → Env N
env_of svc = record {
  now = svc.policy.now;
  tenant_core = svc.tenant_core;
  adapters = svc.adapters;
  unmarshal = svc.unmarshal;
  reference = svc.reference;
}

abbrev pub texts_of : {N : Type 0} → Service N → Texts
texts_of svc = record { unmarshal = svc.unmarshal; trim_space = svc.trim_space }

-- m[name] = value
abbrev pub put_member : String → String → Members → Members
put_member name value [] = (name, value) ∷ []
put_member name value ((k, v) ∷ m) =
    let rest = put_member name value m in if str_eq k name then (name, value) ∷ m else (k, v) ∷ rest

abbrev encoded : Json → List String → Result Members → Result String
encoded json policies (err e) = err e
encoded json policies (ok m) = json.encode (put_member "authorizedBy" (json.texts policies) m)

unfoldable pub with_authorized_by : Json → String → List String → Result String
with_authorized_by json payload policies = encoded json policies (json.decode payload)

abbrev or_empty_object : Result String → String
or_empty_object (ok s) = s
or_empty_object (err e) = "{}"

unfoldable pub opened_payload :
    (ReasonProposal → Bool → Result String) → Option ReasonProposal → Reason → String
opened_payload suggested none chosen = "{}"
opened_payload suggested (some p) chosen =
    if p.confident then or_empty_object (suggested p (reason_eq p.reason chosen)) else "{}"

unfoldable pub key_ptr : Idempotency → Option String
key_ptr idem = if str_eq idem.key "" then none else some idem.key

abbrev pub event_opened : Event
event_opened = Event.other "OPENED"

abbrev pub is_issue_refund : Event → Bool
is_issue_refund Event.issue_refund = true
is_issue_refund _ = false

abbrev is_receive : Event → Bool
is_receive Event.receive_questionnaire = true
is_receive _ = false

pub record CreateDisputeInput : Type 0 where
  pub transaction_id : String
  pub reason : String
  pub idempotency : Idempotency
  pub suggestion : Option ReasonProposal

pub record ApplyEventInput : Type 0 where
  pub dispute_id : String
  pub event : Event
  pub payload : String
  pub idempotency : Idempotency

module _ (dec : Decimals) where
  open dec use {Num, zero_num}

  abbrev pub opened_record :
      Service Num → String → String → Regime → Reason → TransactionRecord Num → DisputeRecord Num
  opened_record svc id team regime reason txn = record {
    id = id;
    tenant_id = "";
    team = team;
    regime = regime;
    state = initiated;
    appeals = 0;
    version = 1;
    transaction_id = txn.id;
    account_id = txn.account_id;
    disputed_amount = txn.amount;
    currency = txn.currency;
    opened_at = svc.policy.now;
    updated_at = svc.policy.now;
    reason = reason;
  }

  abbrev pub opened_event : Caller Num → Service Num → CreateDisputeInput → Reason → EventRecord
  opened_event c svc inp reason = record {
    seq = 1;
    event = event_opened;
    from_state = State.other "";
    to_state = initiated;
    actor = c.principal.display;
    actor_id = c.principal.id;
    payload = opened_payload svc.suggested inp.suggestion reason;
    idempotency_key = key_ptr inp.idempotency;
    trace_id = svc.policy.trace_id;
    occurred_at = svc.policy.now;
  }

  -- The facts of a dispute that is not there yet.
  abbrev pub create_facts : String → DisputeFacts Num
  create_facts team = record {
    id = "";
    team = team;
    amount = zero_num;
    currency = "";
    rail = Rail.other "";
    state = State.other "";
    investigation_opened_by = "";
  }

  unfoldable pub create_tx :
      Caller Num → Service Num → CreateDisputeInput → Tx Num (DisputeView Num)
  unfolding opened_payload key_ptr
  create_tx c svc inp = do
    txn ← get_transaction c inp.transaction_id
    regime ← lift (regime_for txn.rail txn.account_currency)
    reason ← lift (parse_reason inp.reason)
    id ← lift svc.new_id
    lift (
        authorize c svc.policy "create"
          (create_facts (route dec c.access txn.rail reason "" txn.amount)))
    let rec =
        opened_record svc id (route dec c.access txn.rail reason "" txn.amount) regime reason txn
    insert_dispute c rec
    append_event id (opened_event c svc inp reason)
    r ← lift (rules_for regime)
    inserted c id (opening_deadlines r svc.policy.now svc.calendar)
    notify dec c svc.writer rec initiated 1 svc.policy.now
    assess dec c svc.times rec txn 1 svc.policy.now
    view_with dec c svc.policy svc.view_now rec none

  unfoldable pub create_dispute :
      Caller Num
      → Service Num
      → Codec (DisputeView Num)
      → CreateDisputeInput
      → Db Num
      → Result (Answer (DisputeView Num)) × Db Num
  unfolding create_tx
  create_dispute c svc codec inp =
      idempotent codec c "dispute.create" inp.idempotency (create_tx c svc inp)

  abbrev pub applied_event :
      Caller Num
      → Service Num
      → ApplyEventInput
      → DisputeRecord Num
      → Dispute
      → String
      → EventRecord
  applied_event c svc inp rec next payload = record {
    seq = rec.version + 1;
    event = inp.event;
    from_state = rec.state;
    to_state = next.state;
    actor = c.principal.display;
    actor_id = c.principal.id;
    payload = payload;
    idempotency_key = key_ptr inp.idempotency;
    trace_id = svc.policy.trace_id;
    occurred_at = svc.policy.now;
  }

  -- The facts after the event, without reading them again.
  abbrev facts_after : Caller Num → Event → Dispute → DisputeFacts Num → DisputeFacts Num
  facts_after c event next f = record f {
    state = next.state;
    investigation_opened_by =
        if is_open_investigation event then c.principal.id else f.investigation_opened_by;
  }

  -- The assessment that the customer's answers cause.
  abbrev assess_answers : Caller Num → Service Num → DisputeRecord Num → Event → Tx Num (Unit {0})
  assess_answers c svc rec event =
      if is_receive event
      then (get_transaction c rec.transaction_id >>= λ txn.
          assess dec c svc.times rec txn (rec.version + 1) svc.policy.now)
      else pure tt

  -- What a transition does after its event is logged.
  unfoldable pub aftermath :
      Caller Num → Service Num → DisputeRecord Num → Event → Dispute → String → Tx Num (Unit {0})
  aftermath c svc rec event next payload = do
    questionnaire dec c svc.unmarshal rec event payload svc.policy.now
    settle_deadlines c svc.calendar rec next svc.policy.now
    post dec c (env_of svc) rec next.state (rec.version + 1) payload
    notify dec c svc.writer rec next.state (rec.version + 1) svc.policy.now
    assess_answers c svc rec event

  -- The transition itself: the record under its version, and its event.
  unfoldable pub advance :
      Caller Num
      → Service Num
      → ApplyEventInput
      → DisputeRecord Num
      → Dispute
      → Decision
      → Tx Num String
  unfolding key_ptr with_authorized_by
  advance c svc inp rec next decision = do
    update_dispute_state c rec.id rec.version next.state next.appeals svc.policy.now
    payload ← lift (
        with_authorized_by svc.json (if str_eq inp.payload "" then "{}" else inp.payload)
          decision.policies)
    append_event rec.id (applied_event c svc inp rec next payload)
    pure payload

  unfoldable pub apply_tx : Caller Num → Service Num → ApplyEventInput → Tx Num (DisputeView Num)
  unfolding advance aftermath
  apply_tx c svc inp = do
    rec ← get_dispute c inp.dispute_id
    f ← facts c rec
    decision ← lift (authorize c svc.policy (event_action inp.event) f)
    next ← lift (apply (lifecycle rec) inp.event)
    if is_issue_refund inp.event then hold_check c (texts_of svc) rec inp.payload else pure tt
    payload ← advance c svc inp rec next decision
    aftermath c svc rec inp.event next payload
    view_with dec c svc.policy svc.view_now
        (record rec {
          state = next.state;
          appeals = next.appeals;
          version = rec.version + 1;
          updated_at = svc.policy.now;
        })
        (some (facts_after c inp.event next f))

  unfoldable pub apply_event :
      Caller Num
      → Service Num
      → Codec (DisputeView Num)
      → ApplyEventInput
      → Db Num
      → Result (Answer (DisputeView Num)) × Db Num
  unfolding apply_tx
  apply_event c svc codec inp =
      idempotent codec c "dispute.apply_event" inp.idempotency (apply_tx c svc inp)
