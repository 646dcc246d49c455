-- ===== src/Application/Listing/Pages.antt =====
-- Following the pages of ListDisputes (application/service.go) from the first to the last.
use thesis_dispute_engine.Prelude.{ℕ, zero, suc, Option, none, some, List, ◌++◌, map}
use thesis_dispute_engine.Result.{Result, ok, err}
use thesis_dispute_engine.Application.Records.{DisputeRecord}
use thesis_dispute_engine.Application.Store.{Db, Caller}
use thesis_dispute_engine.Application.Listing.{
  Cursor, ListQuery, DisputeSummary, Page, list_disputes,
}
use thesis_dispute_engine.Application.Listing.Wanted.{Wanted}
use thesis_dispute_engine.Application.Listing.Described.{described}

abbrev appended : {A : Type 0} → List A → Option (List A) → Option (List A)
appended xs none = none
appended xs (some ys) = some (xs ++ ys)

module _ {N : Type 0} where
  -- A client that asks for the page after the cursor for as long as there is one.
  abbrev rest_of :
      (ListQuery → Option (List (DisputeSummary N)))
      → ListQuery
      → List (DisputeSummary N)
      → Option Cursor
      → Option (List (DisputeSummary N))
  rest_of again q items none = some items
  rest_of again q items (some cur) = appended items (again (record q { after = some cur }))

  abbrev with_page :
      (ListQuery → Option (List (DisputeSummary N)))
      → ListQuery
      → Result (Page N)
      → Option (List (DisputeSummary N))
  with_page again q (err e) = none
  with_page again q (ok p) = rest_of again q p.items p.next

  unfoldable pub follow : ℕ → Caller N → ℕ → Db N → ListQuery → Option (List (DisputeSummary N))
  follow zero c now db q = none
  follow (suc fuel) c now db q = with_page (follow fuel c now db) q (list_disputes c now q db).0

  -- A page, once its rows are cut.
  abbrev page_of : Db N → ℕ → List (DisputeRecord N) → Option Cursor → Result (Page N)
  page_of db now shown next = ok (record { items = map (described now db) shown; next = next })
