-- ===== src/Application/Sound.antt =====
-- The invariant of the store that every use case keeps (application/service.go, routing.go): each
-- dispute is what its log says, and what is on its ledger fits its state.
use thesis_dispute_engine.Prelude.{
  String, ◌≡◌, inl, inr, false, Option, none, some, List, [], str_eq, eq_iff, Bool-cases,
}
use thesis_dispute_engine.Prelude.Decimal.{Decimals}
use thesis_dispute_engine.Result.{ok}
use thesis_dispute_engine.Domain.Vocabulary.{closed}
use thesis_dispute_engine.Domain.Regime.{Rules}
use thesis_dispute_engine.Domain.Ledger.{suspense_balance}
use thesis_dispute_engine.Domain.Ledger.History.{Case, IsBalanced}
use thesis_dispute_engine.Application.Records.{DisputeRecord, EventRecord, LedgerEntry, lifecycle}
use thesis_dispute_engine.Application.Store.{Db, put, put-same, put-other}
use thesis_dispute_engine.Application.Frame.{Aside}
use thesis_dispute_engine.Application.Money.{postings_of}
use thesis_dispute_engine.Application.Reassign.Laws.{KeyedById}
use thesis_dispute_engine.Application.Log.{replay, Numbered}

module _ (dec : Decimals) where
  open dec use {Num, zero_num}

  abbrev pub case_of : DisputeRecord Num → List (LedgerEntry Num) → Case Num
  case_of rec entries = record { dispute = lifecycle rec; ledger = postings_of entries }

  -- The record is what the log replays to, the log has as many entries as the record's version and
  -- numbers them from 1, the state is one that the rules enable, and the suspense balance of the
  -- ledger is one that the state may have.
  pub record Tracked (id : String) (rec : DisputeRecord Num) (log : List EventRecord)
      (entries : List (LedgerEntry Num)) : Type 0 where
    pub keyed : rec.id ≡ id
    pub replayed : replay rec.regime log ≡ ok (lifecycle rec)
    pub numbered : Numbered 0 log rec.version
    pub rules : Rules
    pub balanced : IsBalanced dec rules rec.disputed_amount rec.currency (case_of rec entries)

  -- What is kept under one identifier: nothing, or a dispute with its log and its ledger.
  abbrev pub Row :
      String → Option (DisputeRecord Num) → List EventRecord → List (LedgerEntry Num) → Type 0
  Row id none log entries = (log ≡ []) × (entries ≡ [])
  Row id (some rec) log entries = Tracked id rec log entries

  abbrev pub Sound : Db Num → Type 0
  Sound db = (id : String) → Row id (db.disputes id) (db.events id) (db.ledger id)

  pub Sound-Aside : (db db' : Db Num) → Aside db db' → Sound db → Sound db'
  Sound-Aside db db' a h id = rw (a.disputes, a.events, a.ledger) (h id)

  pub Sound-Tracked :
      (db : Db Num) (id : String) (rec : DisputeRecord Num)
      → Sound db
      → db.disputes id ≡ some rec
      → Tracked id rec (db.events id) (db.ledger id)
  Sound-Tracked db id rec h held = rw held at (h id)

  pub Sound-KeyedById : (db : Db Num) → Sound db → KeyedById db
  Sound-KeyedById db h id rec held = (Sound-Tracked db id rec h held).keyed

  -- A write under one identifier keeps the invariant if what is there then does.
  pub Sound-write :
      (db db' : Db Num) (id : String) (rec : DisputeRecord Num) (log : List EventRecord)
      → Sound db
      → db'.disputes ≡ put id (some rec) db.disputes
      → db'.events ≡ put id log db.events
      → ((k : String) → str_eq k id ≡ false → db'.ledger k ≡ db.ledger k)
      → Tracked id rec log (db'.ledger id)
      → Sound db'
  Sound-write db db' id rec log h d e l t k = elim (Bool-cases (str_eq k id)) [
    | inl same ↦
        rw
          (
            (eq_iff k id).0 same,
            d,
            e,
            put-same id (some rec) db.disputes,
            put-same id log db.events,
          )
          t
    | inr other ↦
        rw
          (
            d,
            e,
            l k other,
            put-other id (some rec) db.disputes k other,
            put-other id log db.events k other,
          )
          (h k)
  ]

  -- In a store that keeps the invariant, a dispute in `closed` has nothing left in suspense.
  pub Sound-cleared :
      (db : Db Num) (id : String) (rec : DisputeRecord Num)
      → Sound db
      → db.disputes id ≡ some rec
      → rec.state ≡ closed
      → suspense_balance dec (postings_of (db.ledger id)) ≡ zero_num
  Sound-cleared db id rec h held e =
      let b = (Sound-Tracked db id rec h held).balanced.balanced in rw e at b
