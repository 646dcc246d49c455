-- ===== src/Application/Transition/Outcomes.antt =====
-- How CreateDispute and ApplyEvent end (application/service.go).
use thesis_dispute_engine.Prelude.{◌≡◌, refl, ap, sym, ◌⊎◌, inl, inr, some, false}
use thesis_dispute_engine.Prelude.Decimal.{Decimals}
use thesis_dispute_engine.Result.{Result, ok, err}
use thesis_dispute_engine.Domain.Regime.{Rules, rules_for}
use thesis_dispute_engine.Domain.Ledger.History.{Move, take_move}
use thesis_dispute_engine.Application.Records.{DisputeRecord}
use thesis_dispute_engine.Application.Store.{Db, Caller, moved_to, put-same}
use thesis_dispute_engine.Application.Frame.{Aside, Aside-trans}
use thesis_dispute_engine.Application.Sound.{case_of, Sound, Sound-KeyedById}
use thesis_dispute_engine.Application.ViewRecords.{DisputeView}
use thesis_dispute_engine.Application.Idempotent.{Codec, Answer, idempotent}
use thesis_dispute_engine.Application.Idempotent.Runs.{Replayed, FromKept, Ends, idempotent-Ends}
use thesis_dispute_engine.Application.Transition.{
  Service, CreateDisputeInput, ApplyEventInput, apply_tx, apply_event, create_tx, create_dispute,
}
use thesis_dispute_engine.Application.Transition.Laws.{Applied, apply_tx-Applied}
use thesis_dispute_engine.Application.Transition.Keeps.{taken}
use thesis_dispute_engine.Application.Transition.Opening.{Opened, create_tx-Opened}

module _ (dec : Decimals) where
  open dec use {Num}

  -- The three ways in which ApplyEvent ends.
  abbrev pub Applies :
      Caller Num
      → Service Num
      → Codec (DisputeView Num)
      → ApplyEventInput
      → Db Num
      → Result (Answer (DisputeView Num)) × Db Num
      → Type 0
  Applies c svc codec inp db (ok a, db') =
      FromKept codec c "dispute.apply_event" inp.idempotency db a db'
      ⊎ ((db1 : Db Num) × (a.replayed ≡ false) × Applied dec c svc inp db db1 × Aside db1 db')
  Applies c svc codec inp db (err e, db') = db' ≡ record db { next_notice = db'.next_notice }

  -- In a store that keeps the invariant, ApplyEvent ends in one of three ways. A repeated request is
  -- answered what the response decodes to that is kept under the caller's key, to a body with the
  -- hash of this one, and writes nothing. A refused one leaves the store as it was, but for the
  -- counter of notices. Else the dispute is one of the caller's tenant, the policies allowed the
  -- event on what the store has of it, the lifecycle accepts it, a refund under a high risk is
  -- justified, and what is written to disputes, logs and ledgers is the record in its new state under
  -- its next version, one entry of the caller's at the end of its log under a number that none had,
  -- from the old state to the new, and the movements that the new state owes.
  pub apply_event-Applies :
      (c : Caller Num) (svc : Service Num) (codec : Codec (DisputeView Num)) (inp : ApplyEventInput)
      (db : Db Num)
      → Sound dec db
      → Applies c svc codec inp db (apply_event dec c svc codec inp db)
  unfolding apply_event
  apply_event-Applies c svc codec inp db sound =
      let fn = apply_tx dec c svc inp in
      go (idempotent codec c "dispute.apply_event" inp.idempotency fn db)
        (idempotent-Ends codec c "dispute.apply_event" inp.idempotency fn db)
    where
      go :
          (x : Result (Answer (DisputeView Num)) × Db Num)
          → Ends codec c "dispute.apply_event" inp.idempotency (apply_tx dec c svc inp) db x
          → Applies c svc codec inp db x
      go (err e, db') k = k
      go (ok a, db') (inl k) = inl k
      go (ok a, db') (inr (db2, first, ran, kept)) =
          let (db1, applied, aside) =
            apply_tx-Applied dec c svc inp a.view db db2 (Sound-KeyedById dec db sound) ran in
          inr (db1, first, applied, Aside-trans aside kept)

  -- The step of the ledger's history that a taken event is.
  abbrev pub Refines :
      ApplyEventInput → Db Num → Result (Answer (DisputeView Num)) × Db Num → Type 0
  Refines inp db (ok a, db') =
      Replayed db a db'
      ⊎ ((rec : DisputeRecord Num) × (rec' : DisputeRecord Num) × (r : Rules) × (m : Move Num)
          × (db.disputes inp.dispute_id ≡ some rec)
          × (db'.disputes inp.dispute_id ≡ some rec')
          × (rules_for rec.regime ≡ ok r)
          × (m.event ≡ inp.event)
          × (take_move dec r rec.disputed_amount rec.currency
                (case_of dec rec (db.ledger inp.dispute_id)) m
              ≡ ok (case_of dec rec' (db'.ledger inp.dispute_id))))
  Refines inp db (err e, db') = (db'.disputes ≡ db.disputes) × (db'.ledger ≡ db.ledger)

  Applied-Refines :
      (c : Caller Num) (svc : Service Num) (inp : ApplyEventInput) (db db1 db' : Db Num)
      (a : Answer (DisputeView Num)) (x : Applied dec c svc inp db db1)
      → inp.dispute_id ≡ x.rec.id
      → Aside db1 db'
      → Refines inp db (ok a, db')
  Applied-Refines c svc inp db db1 db' a x id aside =
      let rec' = moved_to x.rec x.next.state x.next.appeals svc.policy.now in
      let p = x.booked.posted in
      inr (
        x.rec,
        rec',
        x.booked.rules,
        record {
          event = inp.event;
          liability = x.booked.liability;
          settlement = x.booked.settlement;
        },
        x.held,
        rw (aside.disputes, p.appended.disputes, id, put-same x.rec.id (some rec') db.disputes)
            refl,
        x.booked.known,
        refl,
        rw (aside.ledger, id, p.appended.written)
            (taken dec x.booked.rules x.rec inp.event x.next svc.policy.now x.booked.liability
              x.booked.settlement (db.ledger x.rec.id) p.added x.accepted p.movements),
      )

  -- In a store that keeps the invariant, an event that ApplyEvent takes is one step of the abstract
  -- history of a dispute and its ledger, from the record and the postings as they were to the record
  -- and the postings as they are; a replayed one writes nothing, and a refused one changes no
  -- dispute and no ledger.
  pub apply_event-Refines :
      (c : Caller Num) (svc : Service Num) (codec : Codec (DisputeView Num)) (inp : ApplyEventInput)
      (db : Db Num)
      → Sound dec db
      → Refines inp db (apply_event dec c svc codec inp db)
  apply_event-Refines c svc codec inp db sound =
      go (apply_event dec c svc codec inp db) (apply_event-Applies c svc codec inp db sound)
    where
      go :
          (x : Result (Answer (DisputeView Num)) × Db Num)
          → Applies c svc codec inp db x
          → Refines inp db x
      go (err e, db') k = (ap (λ (d : Db Num). d.disputes) k, ap (λ (d : Db Num). d.ledger) k)
      go (ok a, db') (inl (k, _, _)) = inl k
      go (ok a, db') (inr (db1, first, x, aside)) =
          Applied-Refines c svc inp db db1 db' a x
            (sym (Sound-KeyedById dec db sound inp.dispute_id x.rec x.held)) aside

  -- The three ways in which CreateDispute ends.
  abbrev pub Opens :
      Caller Num
      → Service Num
      → Codec (DisputeView Num)
      → CreateDisputeInput
      → Db Num
      → Result (Answer (DisputeView Num)) × Db Num
      → Type 0
  Opens c svc codec inp db (ok a, db') =
      FromKept codec c "dispute.create" inp.idempotency db a db'
      ⊎ ((db1 : Db Num) × (a.replayed ≡ false) × Opened dec c svc inp db db1 × Aside db1 db')
  Opens c svc codec inp db (err e, db') = db' ≡ record db { next_notice = db'.next_notice }

  -- Whatever the store, CreateDispute ends in one of three ways. A repeated request is answered
  -- what the response decodes to that is kept under the caller's key, to a body with the hash of this
  -- one, and writes nothing. A refused one leaves the store as it was, but for the counter of
  -- notices. Else the transaction is one of the caller's tenant, a regime governs it, the reason is
  -- known, the policies allowed the creation in the team that routing chose, and what is written to
  -- disputes, logs and ledgers is a record of the tenant for the transaction's amount, in that team,
  -- in `initiated`, without appeals and under version 1, and the caller's entry of its opening at the
  -- end of its log under number 1.
  pub create_dispute-Opens :
      (c : Caller Num) (svc : Service Num) (codec : Codec (DisputeView Num))
      (inp : CreateDisputeInput) (db : Db Num)
      → Opens c svc codec inp db (create_dispute dec c svc codec inp db)
  unfolding create_dispute
  create_dispute-Opens c svc codec inp db =
      let fn = create_tx dec c svc inp in
      go (idempotent codec c "dispute.create" inp.idempotency fn db)
        (idempotent-Ends codec c "dispute.create" inp.idempotency fn db)
    where
      go :
          (x : Result (Answer (DisputeView Num)) × Db Num)
          → Ends codec c "dispute.create" inp.idempotency (create_tx dec c svc inp) db x
          → Opens c svc codec inp db x
      go (err e, db') k = k
      go (ok a, db') (inl k) = inl k
      go (ok a, db') (inr (db1, first, ran, kept)) =
          inr (db1, first, create_tx-Opened dec c svc inp a.view db db1 ran, kept)
