-- ===== src/Application/Histories.antt =====
-- Every store that the use cases can leave, from an empty one on, whatever requests came, in whatever
-- order, and however each of them ended (application/service.go, routing.go). The transactions are
-- one after another, as WithTx runs them.
use thesis_dispute_engine.Prelude.{String, ◌≡◌, none, some, []}
use thesis_dispute_engine.Prelude.Decimal.{Decimals}
use thesis_dispute_engine.Result.{ok}
use thesis_dispute_engine.Domain.Vocabulary.{closed}
use thesis_dispute_engine.Domain.Ledger.{suspense_balance}
use thesis_dispute_engine.Application.Records.{DisputeRecord, lifecycle}
use thesis_dispute_engine.Application.Store.{Db, Caller}
use thesis_dispute_engine.Application.Money.{postings_of}
use thesis_dispute_engine.Application.Reassign.{Policy, reassign}
use thesis_dispute_engine.Application.Reassign.Keeps.{reassign-Sound}
use thesis_dispute_engine.Application.Log.{replay, Numbered}
use thesis_dispute_engine.Application.Sound.{Sound, Sound-Tracked, Sound-cleared}
use thesis_dispute_engine.Application.ViewRecords.{DisputeView}
use thesis_dispute_engine.Application.Idempotent.{Codec}
use thesis_dispute_engine.Application.Transition.{
  Service, CreateDisputeInput, ApplyEventInput, apply_event, create_dispute,
}
use thesis_dispute_engine.Application.Transition.Keeps.{apply_event-Sound}
use thesis_dispute_engine.Application.Transition.Opening.{create_dispute-Sound}

module _ (dec : Decimals) where
  open dec use {Num, zero_num}

  -- A store before any dispute.
  abbrev pub IsEmpty : Db Num → Type 0
  IsEmpty db = (id : String) → (db.disputes id ≡ none) × (db.events id ≡ []) × (db.ledger id ≡ [])

  -- The identifier that is drawn for a new dispute is not in use.
  abbrev pub IsFresh : Service Num → Db Num → Type 0
  IsFresh svc db = (id : String) → svc.new_id ≡ ok id → db.disputes id ≡ none

  -- One request, of any caller, to a service in any environment.
  pub data Serves : Db Num → Db Num → Type 0 where
    creates :
        (c : Caller Num) (svc : Service Num) (codec : Codec (DisputeView Num))
        (inp : CreateDisputeInput) (db : Db Num)
        → IsFresh svc db
        → Serves db (create_dispute dec c svc codec inp db).1
    applies :
        (c : Caller Num) (svc : Service Num) (codec : Codec (DisputeView Num))
        (inp : ApplyEventInput) (db : Db Num)
        → Serves db (apply_event dec c svc codec inp db).1
    moves :
        (c : Caller Num) (policy : Policy Num) (id team : String) (db : Db Num)
        → Serves db (reassign c policy id team db).1

  pub data Reached : Db Num → Type 0 where
    start : (db : Db Num) → IsEmpty db → Reached db
    later : (db db' : Db Num) → Reached db → Serves db db' → Reached db'

  Serves-Sound : (db db' : Db Num) → Serves db db' → Sound dec db → Sound dec db'
  Serves-Sound _ _ (creates c svc codec inp db fresh) h =
      create_dispute-Sound dec c svc codec inp db h fresh
  Serves-Sound _ _ (applies c svc codec inp db) h = apply_event-Sound dec c svc codec inp db h
  Serves-Sound _ _ (moves c policy id team db) h = reassign-Sound dec c policy id team db h

  pub Reached-Sound : (db : Db Num) → Reached db → Sound dec db
  Reached-Sound _ (start db h) = λ id. let (a, b, e) = h id in rw a (b, e)
  Reached-Sound _ (later db db' r s) = Serves-Sound db db' s (Reached-Sound db r)

  -- Whatever requests were served since the store was empty, each dispute is what its log replays to,
  -- and its log has as many entries as its version, numbered from 1.
  pub Reached-replays :
      (db : Db Num) (id : String) (rec : DisputeRecord Num)
      → Reached db
      → db.disputes id ≡ some rec
      → (replay rec.regime (db.events id) ≡ ok (lifecycle rec))
        × Numbered 0 (db.events id) rec.version
  Reached-replays db id rec reached held =
      let t = Sound-Tracked dec db id rec (Reached-Sound db reached) held in
      (t.replayed, t.numbered)

  -- Whatever requests were served since the store was empty, nothing is left in suspense on the ledger
  -- of a dispute that is closed.
  pub Reached-cleared :
      (db : Db Num) (id : String) (rec : DisputeRecord Num)
      → Reached db
      → db.disputes id ≡ some rec
      → rec.state ≡ closed
      → suspense_balance dec (postings_of (db.ledger id)) ≡ zero_num
  Reached-cleared db id rec reached held e =
      Sound-cleared dec db id rec (Reached-Sound db reached) held e
