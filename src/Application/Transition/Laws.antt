-- ===== src/Application/Transition/Laws.antt =====
-- What ApplyEvent writes (application/service.go).
use thesis_dispute_engine.Prelude.{
  [], ◌∷◌, ◌++◌, refl, ap, ◌∙◌, ◌+◌, String, ◌≡◌, sym, inl, inr, true, false, some, str_eq, eq_iff,
  Bool-cases, if◌then◌else◌,
}
use thesis_dispute_engine.Prelude.Decimal.{Decimals}
use thesis_dispute_engine.Result.{ok}
use thesis_dispute_engine.Domain.Vocabulary.{high}
use thesis_dispute_engine.Domain.Lifecycle.{Dispute, apply}
use thesis_dispute_engine.Application.Records.{
  EventRecord, DisputeRecord, DisputeFacts, Decision, RiskRecord, lifecycle, event_action,
}
use thesis_dispute_engine.Application.Store.{
  put-same, moved_to, Db, Caller, Tx, found, found-eq-ok, get_dispute, has_seq, ◌>>=◌, ◌>>◌,
  >>=-returns, lift-returns, pure, lift,
}
use thesis_dispute_engine.Application.Frame.{Aside, Keeps, Keeps-returns}
use thesis_dispute_engine.Application.Frame.Calls.{view_with-Keeps}
use thesis_dispute_engine.Application.Hold.{hold_check, latest}
use thesis_dispute_engine.Application.Hold.Laws.{Justified, hold_check-Justified}
use thesis_dispute_engine.Application.Reassign.{facts, authorize}
use thesis_dispute_engine.Application.Reassign.Laws.{KeyedById, IsAbout, facts-returns}
use thesis_dispute_engine.Application.ViewRecords.{DisputeView}
use thesis_dispute_engine.Application.Transition.{
  applied_event, Service, ApplyEventInput, texts_of, is_issue_refund, aftermath, advance, apply_tx,
}
use thesis_dispute_engine.Application.Transition.Booking.{
  advanced, advance-returns, Booked, aftermath-Booked, Booked-from,
}

module _ (dec : Decimals) where
  open dec use {Num}

  -- What a transition did: the policies allowed the event on the dispute, the lifecycle accepts it,
  -- a refund under a high risk is justified, the record moved under its version, the event stands at
  -- the end of the log under a number that no entry had, and the ledger has what is owed.
  pub record Applied (c : Caller Num) (svc : Service Num) (inp : ApplyEventInput) (db db' : Db Num)
      : Type 0 where
    pub rec : DisputeRecord Num
    pub about : DisputeFacts Num
    pub decision : Decision
    pub next : Dispute
    pub payload : String
    pub held : db.disputes inp.dispute_id ≡ some rec
    pub tenant : rec.tenant_id ≡ c.tenant
    pub subject : IsAbout c db rec about
    pub allowed : authorize c svc.policy (event_action inp.event) about ≡ ok decision
    pub accepted : apply (lifecycle rec) inp.event ≡ ok next
    pub justified :
        is_issue_refund inp.event ≡ true
        → (r : RiskRecord) → latest (db.risk rec.id) ≡ some r
        → r.assessment.tier ≡ high
        → Justified (texts_of svc) inp.payload
    pub unlogged : has_seq (db.events rec.id) (rec.version + 1) ≡ false
    pub moved :
        (r : DisputeRecord Num) × (db'.disputes rec.id ≡ some r)
        × (r.state ≡ next.state)
        × (r.appeals ≡ next.appeals)
        × (r.version ≡ rec.version + 1)
        × (r.team ≡ rec.team)
    pub logged :
        (e : EventRecord) × (db'.events rec.id ≡ db.events rec.id ++ e ∷ [])
        × (e.seq ≡ rec.version + 1)
        × (e.event ≡ inp.event)
        × (e.from_state ≡ rec.state)
        × (e.to_state ≡ next.state)
        × (e.actor_id ≡ c.principal.id)
    pub booked : Booked dec svc rec next payload (advanced dec c svc inp rec next payload db) db'

  checked_hold :
      (c : Caller Num) (svc : Service Num) (inp : ApplyEventInput) (rec : DisputeRecord Num)
      (u : Unit {0}) (db db' : Db Num)
      → (if is_issue_refund inp.event then hold_check c (texts_of svc) rec inp.payload else pure tt)
          db
        ≡ (ok u, db')
      → (db' ≡ db)
        × (is_issue_refund inp.event ≡ true
            → (r : RiskRecord) → latest (db.risk rec.id) ≡ some r
            → r.assessment.tier ≡ high
            → Justified (texts_of svc) inp.payload)
  checked_hold c svc inp rec u db db' h = elim (Bool-cases (is_issue_refund inp.event)) [
    | inl e ↦
        let (same, j) = hold_check-Justified c (texts_of svc) rec inp.payload db db' (rw e at h) in
        (same, λ _. j)
    | inr e ↦ (sym (ap (λ x. x.1) (rw e at h)), λ y. absurd (let z = sym y ∙ e in cc))
  ]

  -- The transition and what follows it, up to a rest that writes to no dispute, log or ledger.
  advance-Booked :
      (c : Caller Num) (svc : Service Num) (inp : ApplyEventInput) (rec : DisputeRecord Num)
      (next : Dispute) (decision : Decision) (rest : String → Tx Num (DisputeView Num))
      (view : DisputeView Num) (db db' : Db Num)
      → ((payload : String) → Keeps (rest payload))
      → db.disputes rec.id ≡ some rec
      → str_eq rec.tenant_id c.tenant ≡ true
      → (advance dec c svc inp rec next decision >>= λ payload.
            aftermath dec c svc rec inp.event next payload >> rest payload)
          db
        ≡ (ok view, db')
      → (payload : String) × (db1 : Db Num) × (has_seq (db.events rec.id) (rec.version + 1) ≡ false)
        × Booked dec svc rec next payload (advanced dec c svc inp rec next payload db) db1
        × Aside db1 db'
  advance-Booked c svc inp rec next decision rest view db db' keeps held tenant h =
      let (payload, db2, moved, h1) =
        >>=-returns (advance dec c svc inp rec next decision) _ {db = db} h in
      let (v, db3, after, h2) =
        >>=-returns (aftermath dec c svc rec inp.event next payload) (λ _. rest payload) h1 in
      let (unlogged, there) =
        advance-returns dec c svc inp rec next decision payload db db2 held tenant moved in
      (
        payload,
        db3,
        unlogged,
        Booked-from dec svc rec next payload db2 (advanced dec c svc inp rec next payload db) db3
            there (aftermath-Booked dec c svc rec inp.event next payload db2 db3 after),
        Keeps-returns {db = db3} (keeps payload) h2,
      )

  -- The event was let through: the dispute was read, the policies and the lifecycle asked.
  admitted :
      (c : Caller Num) (svc : Service Num) (inp : ApplyEventInput)
      (rest : DisputeRecord Num → DisputeFacts Num → Decision → Dispute → Tx Num (DisputeView Num))
      (view : DisputeView Num) (db db' : Db Num)
      → (get_dispute c inp.dispute_id >>= λ rec. facts c rec >>= λ f.
            lift (authorize c svc.policy (event_action inp.event) f) >>= λ decision.
            lift (apply (lifecycle rec) inp.event) >>= λ next. rest rec f decision next)
          db
        ≡ (ok view, db')
      → (rec : DisputeRecord Num) × (f : DisputeFacts Num) × (decision : Decision)
        × (next : Dispute) × (db.disputes inp.dispute_id ≡ some rec)
        × (str_eq rec.tenant_id c.tenant ≡ true)
        × IsAbout c db rec f
        × (authorize c svc.policy (event_action inp.event) f ≡ ok decision)
        × (apply (lifecycle rec) inp.event ≡ ok next)
        × (rest rec f decision next db ≡ (ok view, db'))
  unfolding get_dispute
  admitted c svc inp rest view db db' h =
      let (rec, read, h1) = lift-returns (found c (db.disputes inp.dispute_id)) _ h in
      let (held, tenant) = found-eq-ok c (db.disputes inp.dispute_id) rec read in
      let (f, of_it, h2) = facts-returns c rec _ h1 in
      let (decision, allowed, h3) =
        lift-returns (authorize c svc.policy (event_action inp.event) f) _ h2 in
      let (next, accepted, h4) =
        lift-returns (apply (lifecycle rec) inp.event) (λ next. rest rec f decision next) h3 in
      (rec, f, decision, next, held, tenant, of_it, allowed, accepted, h4)

  -- The hold on refunds, and the rest.
  held_back :
      (c : Caller Num) (svc : Service Num) (inp : ApplyEventInput) (rec : DisputeRecord Num)
      (rest : Tx Num (DisputeView Num)) (view : DisputeView Num) (db db' : Db Num)
      → ((if is_issue_refund inp.event
              then hold_check c (texts_of svc) rec inp.payload
              else pure tt)
            >> rest)
          db
        ≡ (ok view, db')
      → (is_issue_refund inp.event ≡ true
          → (r : RiskRecord) → latest (db.risk rec.id) ≡ some r
          → r.assessment.tier ≡ high
          → Justified (texts_of svc) inp.payload)
        × (rest db ≡ (ok view, db'))
  held_back c svc inp rec rest view db db' h =
      let (u, db1, hold, h1) =
        >>=-returns
          (if is_issue_refund inp.event
            then hold_check c (texts_of svc) rec inp.payload
            else pure tt)
          (λ _. rest) h in
      let (same, justified) = checked_hold c svc inp rec u db db1 hold in
      (justified, ap rest (sym same) ∙ h1)

  pub apply_tx-Applied :
      (c : Caller Num) (svc : Service Num) (inp : ApplyEventInput) (view : DisputeView Num)
      (db db' : Db Num)
      → KeyedById db
      → apply_tx dec c svc inp db ≡ (ok view, db')
      → (db1 : Db Num) × Applied c svc inp db db1 × Aside db1 db'
  unfolding apply_tx
  apply_tx-Applied c svc inp view db db' keyed h =
      let (rec, f, decision, next, held, tenant, of_it, allowed, accepted, h1) =
        admitted c svc inp _ view db db' h in
      let (justified, h2) = held_back c svc inp rec _ view db db' h1 in
      let (payload, db3, unlogged, booked, aside) =
        advance-Booked c svc inp rec next decision _ view db db'
          (λ p. view_with-Keeps dec c svc.policy svc.view_now _ _)
          (ap db.disputes (keyed inp.dispute_id rec held) ∙ held) tenant h2 in
      (
        db3,
        record {
          rec = rec;
          about = f;
          decision = decision;
          next = next;
          payload = payload;
          held = held;
          tenant = (eq_iff rec.tenant_id c.tenant).0 tenant;
          subject = of_it;
          allowed = allowed;
          accepted = accepted;
          justified = justified;
          unlogged = unlogged;
          moved = (
            _,
            ap (λ m. m rec.id) booked.posted.appended.disputes
                ∙ put-same rec.id (some (moved_to rec next.state next.appeals svc.policy.now))
                    db.disputes,
            refl,
            refl,
            refl,
            refl,
          );
          logged = (
            _,
            ap (λ m. m rec.id) booked.posted.appended.events
                ∙ put-same rec.id
                    (db.events rec.id ++ applied_event dec c svc inp rec next payload ∷ [])
                    db.events,
            refl,
            refl,
            refl,
            refl,
            refl,
          );
          booked = booked;
        },
        aside,
      )
