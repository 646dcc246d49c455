-- ===== src/Application/Transition/Booking.antt =====
-- The steps of ApplyEvent that move the record and book what is owed (application/service.go).
use thesis_dispute_engine.Prelude.{
  ◌+◌, String, ◌≡◌, refl, ap, sym, ◌∙◌, inl, inr, true, false, some, List, [], ◌∷◌, ◌++◌, str_eq,
  ◌==◌, ==_iff, Bool-cases, if◌then◌else◌,
}
use thesis_dispute_engine.Prelude.Decimal.{Decimals}
use thesis_dispute_engine.Result.{ok, ok-injective}
use thesis_dispute_engine.Domain.Vocabulary.{Event, SuspenseSettlement}
use thesis_dispute_engine.Domain.Regime.{Rules, rules_for}
use thesis_dispute_engine.Domain.Lifecycle.{Dispute}
use thesis_dispute_engine.Domain.Ledger.{Posting, postings, parse_settlement}
use thesis_dispute_engine.Application.Records.{DisputeRecord, Decision, LedgerEntry}
use thesis_dispute_engine.Application.Store.{
  Db, Caller, put, update_dispute_state, append_event, has_seq, moved_to, >>=-returns, lift-returns,
}
use thesis_dispute_engine.Application.Frame.{
  Aside, Aside-trans, Keeps, Keeps-returns, pure-Keeps, >>=-Keeps, if-Keeps,
}
use thesis_dispute_engine.Application.Frame.Calls.{
  get_transaction-Keeps, questionnaire-Keeps, settle_deadlines-Keeps, notify-Keeps, assess-Keeps,
}
use thesis_dispute_engine.Application.Money.{Env, EventFacts, post, input_of, liability_of}
use thesis_dispute_engine.Application.Money.Laws.{Posted, post-Posted}
use thesis_dispute_engine.Application.Reassign.{facts}
use thesis_dispute_engine.Application.Assess.{questionnaire}
use thesis_dispute_engine.Application.Clocks.{settle_deadlines}
use thesis_dispute_engine.Application.Notices.{notify}
use thesis_dispute_engine.Application.Transition.{
  Service, ApplyEventInput, env_of, with_authorized_by, applied_event, assess_answers, aftermath,
  advance,
}

module _ (dec : Decimals) where
  open dec use {Num}

  -- The record moved under its version, and its event logged at the end.
  abbrev pub advanced :
      Caller Num
      → Service Num
      → ApplyEventInput
      → DisputeRecord Num
      → Dispute
      → String
      → Db Num
      → Db Num
  advanced c svc inp rec next payload db = record db {
    disputes = put rec.id (some (moved_to rec next.state next.appeals svc.policy.now)) db.disputes;
    events =
        put rec.id (db.events rec.id ++ applied_event dec c svc inp rec next payload ∷ [])
          db.events;
  }

  pub advance-returns :
      (c : Caller Num) (svc : Service Num) (inp : ApplyEventInput) (rec : DisputeRecord Num)
      (next : Dispute) (decision : Decision) (payload : String) (db db' : Db Num)
      → db.disputes rec.id ≡ some rec
      → str_eq rec.tenant_id c.tenant ≡ true
      → advance dec c svc inp rec next decision db ≡ (ok payload, db')
      → (has_seq (db.events rec.id) (rec.version + 1) ≡ false)
        × (db' ≡ advanced c svc inp rec next payload db)
  unfolding advance update_dispute_state append_event
  advance-returns c svc inp rec next decision payload db db' held tenant h =
      let same : (rec.version == rec.version) ≡ true = (==_iff rec.version rec.version).1 refl in
      let (p, made, h1) =
        lift-returns
          (with_authorized_by svc.json (if str_eq inp.payload "" then "{}" else inp.payload)
            decision.policies)
          _ (rw (held, tenant, same) at h) in
      elim (Bool-cases (has_seq (db.events rec.id) (rec.version + 1))) [
        | inl yes_ ↦ absurd (let z = rw yes_ at h1 in cc)
        | inr no_ ↦
            let k = rw no_ at h1 in
            let e : p ≡ payload = ok-injective (ap (λ x. x.0) k) in
            (no_, rw (← e) (sym (ap (λ x. x.1) k)))
      ]

  assess_answers-Keeps :
      (c : Caller Num) (svc : Service Num) (rec : DisputeRecord Num) (event : Event)
      → Keeps (assess_answers dec c svc rec event)
  assess_answers-Keeps c svc rec event =
      if-Keeps _
        (>>=-Keeps (get_transaction-Keeps c rec.transaction_id)
          (λ txn. assess-Keeps dec c svc.times rec txn (rec.version + 1) svc.policy.now))
        pure-Keeps

  Posted-Aside :
      {env : Env Num} {rec : DisputeRecord Num} {ps : List (Posting Num)} {db db1 db2 db' : Db Num}
      → Aside db db1
      → Posted env rec ps db1 db2
      → Aside db2 db'
      → Posted env rec ps db db'
  Posted-Aside {env} {rec} {ps} {db} {db1} {db2} {db'} a p b = record {
    added = p.added;
    movements = p.movements;
    carried_out = p.carried_out;
    appended = record {
      written =
          ap (λ m. m rec.id) b.ledger
          ∙ p.appended.written
          ∙ ap (λ (m : String → List (LedgerEntry Num)). m rec.id ++ p.added) a.ledger;
      elsewhere =
          λ k other. ap (λ m. m k) b.ledger ∙ p.appended.elsewhere k other ∙ ap (λ m. m k) a.ledger;
      disputes = b.disputes ∙ p.appended.disputes ∙ a.disputes;
      events = b.events ∙ p.appended.events ∙ a.events;
    };
  }

  -- The movements that a transition owes, from the payload of its event, are on the ledger, and
  -- nothing else was written to a dispute, a log or a ledger.
  pub record Booked (svc : Service Num) (rec : DisputeRecord Num) (next : Dispute)
      (payload : String) (db db' : Db Num) : Type 0 where
    pub rules : Rules
    pub event_facts : EventFacts
    pub liability : Num
    pub settlement : SuspenseSettlement
    pub known : rules_for rec.regime ≡ ok rules
    pub read : svc.unmarshal payload ≡ some event_facts
    pub liable : liability_of dec rules rec.disputed_amount event_facts.liability ≡ ok liability
    pub settled : parse_settlement rules event_facts.settlement ≡ ok settlement
    pub posted :
        Posted
          (env_of svc)
          rec
          (postings dec rules (input_of dec rec next.state liability settlement (db.ledger rec.id)))
          db
          db'

  pub aftermath-Booked :
      (c : Caller Num) (svc : Service Num) (rec : DisputeRecord Num) (event : Event)
      (next : Dispute) (payload : String) (db db' : Db Num)
      → aftermath dec c svc rec event next payload db ≡ (ok tt, db')
      → Booked svc rec next payload db db'
  unfolding aftermath
  aftermath-Booked c svc rec event next payload db db' h =
      let now = svc.policy.now in
      let (_, db1, asked, h1) =
        >>=-returns (questionnaire dec c svc.unmarshal rec event payload now) _ h in
      let (_, db2, settled, h2) = >>=-returns (settle_deadlines c svc.calendar rec next now) _ h1 in
      let (u, db3, booked, h3) =
        >>=-returns (post dec c (env_of svc) rec next.state (rec.version + 1) payload) _ h2 in
      let (_, db4, told, h4) =
        >>=-returns (notify dec c svc.writer rec next.state (rec.version + 1) now) _ h3 in
      let before =
        Aside-trans
          (Keeps-returns (questionnaire-Keeps dec c svc.unmarshal rec event payload now) asked)
          (Keeps-returns (settle_deadlines-Keeps c svc.calendar rec next now) settled) in
      let after =
        Aside-trans
          (Keeps-returns (notify-Keeps dec c svc.writer rec next.state (rec.version + 1) now) told)
          (Keeps-returns (assess_answers-Keeps c svc rec event) h4) in
      let (r, facts, liability, settlement, known, read, liable, parsed, posted) =
        post-Posted dec c (env_of svc) rec next.state (rec.version + 1) payload db2 db3 booked in
      record {
        rules = r;
        event_facts = facts;
        liability = liability;
        settlement = settlement;
        known = known;
        read = read;
        liable = liable;
        settled = parsed;
        posted = Posted-Aside before (rw (ap (λ m. m rec.id) before.ledger) at posted) after;
      }

  pub Booked-from :
      (svc : Service Num) (rec : DisputeRecord Num) (next : Dispute) (payload : String)
      (db1 db2 db' : Db Num)
      → db1 ≡ db2
      → Booked svc rec next payload db1 db'
      → Booked svc rec next payload db2 db'
  Booked-from svc rec next payload db1 db2 db' e b = rw e at b
