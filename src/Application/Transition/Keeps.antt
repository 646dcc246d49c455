-- ===== src/Application/Transition/Keeps.antt =====
-- ApplyEvent keeps the invariant of the store (application/service.go).
use thesis_dispute_engine.Prelude.{ℕ, ◌≡◌, refl, ap, sym, ◌∙◌, some, List, [], ◌∷◌, ◌++◌}
use thesis_dispute_engine.Prelude.Decimal.{Decimals}
use thesis_dispute_engine.Result.{ok, ok-injective}
use thesis_dispute_engine.Domain.Vocabulary.{Regime, Event, SuspenseSettlement}
use thesis_dispute_engine.Domain.Regime.{Rules}
use thesis_dispute_engine.Domain.Lifecycle.{Dispute, apply}
use thesis_dispute_engine.Domain.Lifecycle.Bounds.{apply-regime}
use thesis_dispute_engine.Domain.Ledger.{postings}
use thesis_dispute_engine.Domain.Ledger.History.{take_move, take_move-IsBalanced}
use thesis_dispute_engine.Application.Records.{DisputeRecord, LedgerEntry, lifecycle}
use thesis_dispute_engine.Application.Store.{Db, Caller, moved_to}
use thesis_dispute_engine.Application.Money.{postings_of, input_of}
use thesis_dispute_engine.Application.Log.{replay-applied, Numbered-append}
use thesis_dispute_engine.Application.Sound.{
  case_of, Tracked, Sound, Sound-Aside, Sound-Tracked, Sound-KeyedById, Sound-write,
}
use thesis_dispute_engine.Application.ViewRecords.{DisputeView}
use thesis_dispute_engine.Application.Idempotent.{Codec}
use thesis_dispute_engine.Application.Idempotent.Runs.{idempotent-keeps}
use thesis_dispute_engine.Application.Transition.{
  Service, ApplyEventInput, applied_event, apply_tx, apply_event,
}
use thesis_dispute_engine.Application.Transition.Laws.{Applied, apply_tx-Applied}

postings_of-append :
    {N : Type 0} (xs ys : List (LedgerEntry N))
    → postings_of (xs ++ ys) ≡ postings_of xs ++ postings_of ys
postings_of-append [] ys = refl
postings_of-append (x ∷ xs) ys = ap (λ ps. x.posting ∷ ps) (postings_of-append xs ys)

module _ (dec : Decimals) where
  open dec use {Num}

  lifecycle-moved :
      (rec : DisputeRecord Num) (next : Dispute) (now : ℕ)
      → next.regime ≡ rec.regime
      → lifecycle (moved_to rec next.state next.appeals now) ≡ next
  lifecycle-moved rec next now g =
      ap (λ (r : Regime). (record { regime = r; state = next.state; appeals = next.appeals }))
        (sym g)

  -- The record and the ledger after a transition are what the ledger's history makes of the event.
  pub taken :
      (rules : Rules) (rec : DisputeRecord Num) (event : Event) (next : Dispute) (now : ℕ)
      (liability : Num) (settlement : SuspenseSettlement) (have added : List (LedgerEntry Num))
      → apply (lifecycle rec) event ≡ ok next
      → postings_of added
        ≡ postings dec rules (input_of dec rec next.state liability settlement have)
      → take_move dec rules rec.disputed_amount rec.currency
          (case_of dec rec have)
          (record { event = event; liability = liability; settlement = settlement })
        ≡ ok (case_of dec (moved_to rec next.state next.appeals now) (have ++ added))
  unfolding take_move
  taken rules rec event next now liability settlement have added accepted movements =
      rw
        (
          accepted,
          postings_of-append have added,
          movements,
          lifecycle-moved rec next now (apply-regime (lifecycle rec) next event accepted),
        )
        refl

  Applied-Tracked :
      (c : Caller Num) (svc : Service Num) (inp : ApplyEventInput) (db db' : Db Num)
      (a : Applied dec c svc inp db db')
      → Tracked dec a.rec.id a.rec (db.events a.rec.id) (db.ledger a.rec.id)
      → Tracked dec a.rec.id
          (moved_to a.rec a.next.state a.next.appeals svc.policy.now)
          (db.events a.rec.id ++ applied_event dec c svc inp a.rec a.next a.payload ∷ [])
          (db'.ledger a.rec.id)
  Applied-Tracked c svc inp db db' a t =
      let rec = a.rec in
      let rec' = moved_to rec a.next.state a.next.appeals svc.policy.now in
      let regime = apply-regime (lifecycle rec) a.next inp.event a.accepted in
      let same = lifecycle-moved rec a.next svc.policy.now regime in
      let rules : t.rules ≡ a.booked.rules =
        ok-injective (sym t.balanced.valid.known ∙ a.booked.known) in
      record {
        keyed = refl;
        replayed =
            replay-applied rec.regime (db.events rec.id)
              (applied_event dec c svc inp rec a.next a.payload) (lifecycle rec) a.next t.replayed
              a.accepted refl refl
            ∙ ap ok (sym same);
        numbered =
            Numbered-append 0 (db.events rec.id) (applied_event dec c svc inp rec a.next a.payload)
              rec.version t.numbered refl;
        rules = a.booked.rules;
        balanced = rw a.booked.posted.appended.written (
            take_move-IsBalanced dec a.booked.rules rec.disputed_amount rec.currency
              (case_of dec rec (db.ledger rec.id))
              (case_of dec rec' (db.ledger rec.id ++ a.booked.posted.added))
              (record {
                event = inp.event;
                liability = a.booked.liability;
                settlement = a.booked.settlement;
              })
              (rw rules at t.balanced)
              (taken a.booked.rules rec inp.event a.next svc.policy.now a.booked.liability
                a.booked.settlement (db.ledger rec.id) a.booked.posted.added a.accepted
                a.booked.posted.movements));
      }

  apply_tx-Sound :
      (c : Caller Num) (svc : Service Num) (inp : ApplyEventInput) (view : DisputeView Num)
      (db db' : Db Num)
      → Sound dec db
      → apply_tx dec c svc inp db ≡ (ok view, db')
      → Sound dec db'
  apply_tx-Sound c svc inp view db db' sound h =
      let keyed = Sound-KeyedById dec db sound in
      let (db1, a, aside) = apply_tx-Applied dec c svc inp view db db' keyed h in
      let held : db.disputes a.rec.id ≡ some a.rec =
        ap db.disputes (keyed inp.dispute_id a.rec a.held) ∙ a.held in
      Sound-Aside dec db1 db' aside (
        Sound-write dec db db1 a.rec.id (moved_to a.rec a.next.state a.next.appeals svc.policy.now)
          (db.events a.rec.id ++ applied_event dec c svc inp a.rec a.next a.payload ∷ []) sound
          a.booked.posted.appended.disputes a.booked.posted.appended.events
          a.booked.posted.appended.elsewhere
          (Applied-Tracked c svc inp db db1 a (Sound-Tracked dec db a.rec.id a.rec sound held)))

  -- ApplyEvent keeps the invariant, however it ends: whether the event was taken, refused with an
  -- error after some of its writes, or answered from a stored response.
  pub apply_event-Sound :
      (c : Caller Num) (svc : Service Num) (codec : Codec (DisputeView Num)) (inp : ApplyEventInput)
      (db : Db Num)
      → Sound dec db
      → Sound dec (apply_event dec c svc codec inp db).1
  unfolding apply_event
  apply_event-Sound c svc codec inp db h =
      idempotent-keeps codec (Sound dec) (Sound-Aside dec) c "dispute.apply_event" inp.idempotency
        (apply_tx dec c svc inp) db (λ view db' ran. apply_tx-Sound c svc inp view db db' h ran) h
