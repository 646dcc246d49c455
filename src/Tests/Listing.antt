-- ===== src/Tests/Listing.antt =====
-- Runs of ListDisputes (application/service.go): a list of two disputes in pages of one.
use thesis_dispute_engine.Prelude.{◌+◌, ◌≡◌, refl, none, some, [], ◌∷◌, map, false}
use thesis_dispute_engine.Prelude.Int.{ℤ}
use thesis_dispute_engine.Application.Records.{DisputeRecord}
use thesis_dispute_engine.Application.Store.{Db, put}
use thesis_dispute_engine.Application.Listing.{ListQuery, page_tx, list_disputes, items_tx}
use thesis_dispute_engine.Application.Listing.Described.{described}
use thesis_dispute_engine.Application.Listing.Wanted.{Wanted}
use thesis_dispute_engine.Application.Listing.Pages.{follow}
use thesis_dispute_engine.Tests.Application.{caller, dispute, stored}

abbrev newer : DisputeRecord ℤ
newer = record dispute { id = "d2"; opened_at = dispute.opened_at + 5 }

abbrev two : Db ℤ
two = record stored {
  disputes = put "d2" (some newer) (put "d1" (some dispute) (λ id. none));
  dispute_ids = "d1" ∷ "d2" ∷ [];
}

abbrev one_by_one : ListQuery
one_by_one = record {
  state = none;
  reason = none;
  after = none;
  limit = 1;
  overdue = false;
  now = 0;
}

two_run : follow 3 caller 90 two one_by_one ≡ some (map (described 90 two) (newer ∷ dispute ∷ []))
unfolding follow list_disputes page_tx items_tx
two_run = refl
