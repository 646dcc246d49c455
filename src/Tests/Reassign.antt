-- ===== src/Tests/Reassign.antt =====
-- A run of Reassign (application/routing.go), in whole cents.
use thesis_dispute_engine.Prelude.{◌≡◌, refl, ◌⊎◌, true, none, some, [], ◌∷◌, String, arith, eq_iff}
use thesis_dispute_engine.Prelude.Int.{ℤ, pos}
use thesis_dispute_engine.Result.{ok}
use thesis_dispute_engine.Domain.Vocabulary.{Rail}
use thesis_dispute_engine.Application.Records.{DisputeRecord}
use thesis_dispute_engine.Application.Store.{Db, get_dispute, put, with_tx}
use thesis_dispute_engine.Tests.Application.{access, caller, dispute, stored}
use thesis_dispute_engine.Domain.QuestionSets.{contains_text}
use thesis_dispute_engine.Application.Records.{DisputeFacts, Decision}
use thesis_dispute_engine.Application.Store.{
  get_transaction, list_events, append_event, update_dispute_team, moved_team,
}
use thesis_dispute_engine.Application.Reassign.{
  Policy, reassign, reassign_tx, move_team, authorize, facts, opener_from, reassigned_event,
}
use thesis_dispute_engine.Application.Reassign.Laws.{KeyedById, IsAbout, Moved, reassign-Moved}

abbrev pub with_transaction : Db ℤ
with_transaction = record stored {
  transactions =
      put "t1"
        (some (record {
          id = "t1";
          tenant_id = "bank";
          account_id = "a1";
          rail = Rail.card;
          amount = pos 12000;
          currency = "USD";
          account_currency = "USD";
          account_opened_at = 0;
          merchant = "ACME";
          mcc = "5815";
          occurred_at = 5;
        }))
        (λ _. none);
}

abbrev pub policy : Policy ℤ
policy = record {
  now = 90;
  trace_id = none;
  decide = λ tenant p a action f. ok (record { allowed = true; policies = "leads" ∷ [] });
  move_payload = λ from to policies. ok to;
}

abbrev moved : Db ℤ
moved = record with_transaction {
  disputes = put "d1" (some (moved_team dispute "general" 90)) stored.disputes;
  events = put "d1" (reassigned_event caller policy dispute "general" ∷ []) stored.events;
  idempotent = stored.idempotent;
  deadlines = stored.deadlines;
  ledger = stored.ledger;
  questions = stored.questions;
  risk = stored.risk;
}

reassign_run : reassign caller policy "d1" "general" with_transaction ≡ (ok tt, moved)
unfolding reassign reassign_tx move_team authorize facts opener_from get_dispute get_transaction
    list_events append_event update_dispute_team with_tx
reassign_run = refl

stored-KeyedById : KeyedById with_transaction
stored-KeyedById id r h = ground (arith, eq_iff id "d1")

reassign-Moved_example :
    (rec : DisputeRecord ℤ) × (f : DisputeFacts ℤ) × (dec : Decision) × (with_transaction.disputes
        "d1"
      ≡ some rec)
    × (rec.tenant_id ≡ "bank")
    × IsAbout caller with_transaction rec f
    × (authorize caller policy "reassign" f ≡ ok dec)
    × (contains_text access.teams "general" ≡ true)
    × (((◌≡◌ {A = String} "general" rec.team) × (moved ≡ with_transaction))
        ⊎ Moved caller policy rec "general" with_transaction moved)
reassign-Moved_example =
    reassign-Moved caller policy "d1" "general" with_transaction moved stored-KeyedById reassign_run
