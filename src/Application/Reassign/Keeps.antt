-- ===== src/Application/Reassign/Keeps.antt =====
-- Reassign keeps the invariant of the store (application/routing.go).
use thesis_dispute_engine.Prelude.{String, ◌≡◌, refl, ap, ◌∙◌, inl, inr, some, [], ◌∷◌, ◌++◌}
use thesis_dispute_engine.Prelude.Decimal.{Decimals}
use thesis_dispute_engine.Result.{Result, ok, err}
use thesis_dispute_engine.Application.Records.{DisputeRecord, lifecycle}
use thesis_dispute_engine.Application.Store.{Db, Caller, moved_team, with_tx, committed}
use thesis_dispute_engine.Application.Log.{replay-reassigned, Numbered-append}
use thesis_dispute_engine.Application.Reassign.{Policy, reassigned_event, reassign_tx, reassign}
use thesis_dispute_engine.Application.Reassign.Laws.{Moved, reassign-Moved}
use thesis_dispute_engine.Application.Sound.{
  Sound, Sound-Aside, Sound-Tracked, Sound-KeyedById, Sound-write,
}

module _ (dec : Decimals) where
  open dec use {Num}

  Moved-Sound :
      (c : Caller Num) (policy : Policy Num) (rec : DisputeRecord Num) (team : String)
      (db db' : Db Num)
      → Sound dec db
      → db.disputes rec.id ≡ some rec
      → Moved c policy rec team db db'
      → Sound dec db'
  Moved-Sound c policy rec team db db' sound held m =
      let t = Sound-Tracked dec db rec.id rec sound held in
      let e = reassigned_event c policy rec m.payload in
      Sound-write dec db db' rec.id (moved_team rec team policy.now) (db.events rec.id ++ e ∷ [])
        sound m.updated m.logged (λ k _. ap (λ l. l k) m.ledger)
        (record {
          keyed = refl;
          replayed =
              replay-reassigned rec.regime (db.events rec.id) e (lifecycle rec) t.replayed refl refl
                refl;
          numbered = Numbered-append 0 (db.events rec.id) e rec.version t.numbered refl;
          rules = t.rules;
          balanced = rw m.ledger t.balanced;
        })

  -- Reassign keeps the invariant, however it ends.
  pub reassign-Sound :
      (c : Caller Num) (policy : Policy Num) (id : String) (team : String) (db : Db Num)
      → Sound dec db
      → Sound dec (reassign c policy id team db).1
  unfolding reassign with_tx
  reassign-Sound c policy id team db sound = go (reassign_tx c policy id team db) refl
    where
      go :
          (x : Result (Unit {0}) × Db Num)
          → reassign_tx c policy id team db ≡ x
          → Sound dec (committed db x).1
      go (err e, db1) k =
          Sound-Aside dec db (record db { next_notice = db1.next_notice })
            (record { disputes = refl; events = refl; ledger = refl }) sound
      go (ok u, db1) k =
          let keyed = Sound-KeyedById dec db sound in
          let (rec, f, decision, held, _, _, _, _, rest) =
            reassign-Moved c policy id team db db1 keyed (ap (committed db) k) in
          elim rest [
            | inl same ↦ rw same.1 sound
            | inr m ↦
                Moved-Sound c policy rec team db db1 sound
                  (ap db.disputes (keyed id rec held) ∙ held) m
          ]
