-- ===== src/Application/Reassign.antt =====
-- Reassign of application/routing.go, with authorize and facts of application/authorize.go. The
-- policy engine is the Cedar library, a parameter; so is the encoding of the event's payload.
pub mod Laws
pub mod Keeps
use thesis_dispute_engine.Prelude.{
  ℕ, ◌+◌, String, Bool, true, false, not, Option, none, some, List, [], ◌∷◌, str_eq, if◌then◌else◌,
}
use thesis_dispute_engine.Result.{Result, ok, err}
use thesis_dispute_engine.Errs.{Error, classified, wrap, new, unprocessable}
use thesis_dispute_engine.Domain.Vocabulary.{Event, open_investigation}
use thesis_dispute_engine.Domain.QuestionSets.{contains_text}
use thesis_dispute_engine.Application.Records.{
  Principal, DisputeRecord, EventRecord, Access, DisputeFacts, Decision, err_forbidden,
}
use thesis_dispute_engine.Application.Store.{
  Db, Caller, Tx, pure, fail, lift, ◌>>=◌, ◌>>◌, get_dispute, get_transaction, list_events,
  append_event, update_dispute_team, with_tx,
}

-- What the service is given here: the time, the trace, the policy engine and the encoder.
pub record Policy (N : Type 0) : Type 0 where
  pub now : ℕ
  pub trace_id : Option String
  pub decide : String → Principal → Access N → String → DisputeFacts N → Result Decision
  pub move_payload : String → String → List String → Result String

abbrev pub err_unknown_team : Error
err_unknown_team = new unprocessable "unknown-team" "no such team in this tenant"

abbrev pub unrecorded_investigator : String
unrecorded_investigator = "?unrecorded"

abbrev pub event_reassigned : Event
event_reassigned = Event.other "REASSIGNED"

abbrev pub is_open_investigation : Event → Bool
is_open_investigation open_investigation = true
is_open_investigation _ = false

-- The loop of `facts`: the last event that opened the investigation.
unfoldable pub opener_from : String → List EventRecord → String
opener_from opener [] = opener
opener_from opener (e ∷ es) =
    opener_from
      (if is_open_investigation e.event
        then if str_eq e.actor_id "" then unrecorded_investigator else e.actor_id
        else opener)
      es

abbrev refused : List String → Result Decision
refused [] = err (wrap (classified err_forbidden) "no grant allows %s")
refused (p ∷ ps) = err (wrap (classified err_forbidden) "denied by %s")

-- The end of authorize.
abbrev pub decided : Result Decision → Result Decision
decided (err e) = err (classified err_forbidden)
decided (ok dec) = if not dec.allowed then refused dec.policies else ok dec

module _ {N : Type 0} where
  unfoldable pub facts : Caller N → DisputeRecord N → Tx N (DisputeFacts N)
  unfolding opener_from
  facts c rec = do
    events ← list_events rec.id
    txn ← get_transaction c rec.transaction_id
    pure (record {
      id = rec.id;
      team = rec.team;
      amount = rec.disputed_amount;
      currency = rec.currency;
      rail = txn.rail;
      state = rec.state;
      investigation_opened_by = opener_from "" events;
    })

  unfoldable pub authorize : Caller N → Policy N → String → DisputeFacts N → Result Decision
  authorize c policy action f = decided (policy.decide c.tenant c.principal c.access action f)

  abbrev pub reassigned_event : Caller N → Policy N → DisputeRecord N → String → EventRecord
  reassigned_event c policy rec payload = record {
    seq = rec.version + 1;
    event = event_reassigned;
    from_state = rec.state;
    to_state = rec.state;
    actor = c.principal.display;
    actor_id = c.principal.id;
    payload = payload;
    idempotency_key = none;
    trace_id = policy.trace_id;
    occurred_at = policy.now;
  }

  -- Logged before the move.
  unfoldable pub move_team :
      Caller N → Policy N → DisputeRecord N → String → Decision → Tx N (Unit {0})
  move_team c policy rec team dec = do
    payload ← lift (policy.move_payload rec.team team dec.policies)
    append_event rec.id (reassigned_event c policy rec payload)
    update_dispute_team c rec.id rec.version team policy.now

  unfoldable pub reassign_tx : Caller N → Policy N → String → String → Tx N (Unit {0})
  unfolding move_team authorize facts
  reassign_tx c policy dispute_id team = do
    rec ← get_dispute c dispute_id
    f ← facts c rec
    dec ← lift (authorize c policy "reassign" f)
    if not (contains_text c.access.teams team)
        then fail (classified err_unknown_team)
        else if str_eq team rec.team
        then pure tt
        else move_team c policy rec team dec

  unfoldable pub reassign : Caller N → Policy N → String → String → Db N → Result (Unit {0}) × Db N
  unfolding reassign_tx
  reassign c policy dispute_id team = with_tx (reassign_tx c policy dispute_id team)
