-- ===== src/Application/Listing.antt =====
-- Lists of disputes: ListDisputes of application/service.go, with ListDisputes, NextDeadlines and
-- LatestRisk of apptest/memstore.go and the query of ports.go. A limit below zero is written 0, which
-- takes the same branch. The positions of two disputes differ, so that sort.Slice has one answer.
pub mod Order
pub mod Rows
pub mod Described
pub mod Items
pub mod Wanted
pub mod Pages
use thesis_dispute_engine.Prelude.{
  ℕ, zero, suc, ◌+◌, ◌-◌, String, Bool, true, false, not, ◌&&◌, ◌||◌, Option, none, some, List, [],
  ◌∷◌, map, length, take, get_elem?, str_eq, ltb, ◌==◌, if◌then◌else◌,
}
use thesis_dispute_engine.Prelude.Texts.{text_lt}
use thesis_dispute_engine.Result.{Result}
use thesis_dispute_engine.Domain.Vocabulary.{State, Regime, Reason}
use thesis_dispute_engine.Domain.Lifecycle.Names.{state_name}
use thesis_dispute_engine.Domain.Deadline.{Deadline, is_open}
use thesis_dispute_engine.Domain.Risk.{Assessment}
use thesis_dispute_engine.Domain.QuestionSets.{reason_eq}
use thesis_dispute_engine.Application.Records.{DisputeRecord, RiskRecord}
use thesis_dispute_engine.Application.Store.{
  Db, Caller, Tx, pure, gets, put, visible, with_tx, ◌>>=◌,
}
use thesis_dispute_engine.Application.Hold.{latest}
use thesis_dispute_engine.Application.ViewRecords.{DeadlineView}
use thesis_dispute_engine.Application.Views.{deadline_view}

pub record Cursor : Type 0 where
  pub opened_at : ℕ
  pub id : String

pub record ListQuery : Type 0 where
  pub state : Option State
  pub reason : Option Reason
  pub after : Option Cursor
  pub limit : ℕ
  pub overdue : Bool
  pub now : ℕ

pub record DisputeSummary (N : Type 0) : Type 0 where
  pub id : String
  pub regime : Regime
  pub reason : Reason
  pub state : State
  pub transaction_id : String
  pub disputed_amount : N
  pub currency : String
  pub opened_at : ℕ
  pub updated_at : ℕ
  pub next_deadline : Option DeadlineView
  pub risk : Option Assessment

pub record Page (N : Type 0) : Type 0 where
  pub items : List (DisputeSummary N)
  pub next : Option Cursor

abbrev pub other_state : Option State → State → Bool
other_state none s = false
other_state (some t) s = not (str_eq (state_name s) (state_name t))

abbrev pub other_reason : Option Reason → Reason → Bool
other_reason none r = false
other_reason (some t) r = not (reason_eq r t)

unfoldable pub is_overdue : List Deadline → ℕ → Bool
is_overdue [] now = false
is_overdue (d ∷ ds) now = is_open d && ltb d.due_at now || is_overdue ds now

-- At the cursor or above it.
abbrev is_above : {N : Type 0} → Option Cursor → DisputeRecord N → Bool
is_above none d = false
is_above (some c) d =
    ltb c.opened_at d.opened_at || d.opened_at == c.opened_at && not (text_lt d.id c.id)

-- The smaller of two clocks, the one that is there first on equal terms.
abbrev pub sooner : Option Deadline → Deadline → Option Deadline
sooner none d = some d
sooner (some cur) d = if ltb d.due_at cur.due_at then some d else some cur

-- The inner loop of NextDeadlines.
unfoldable pub first_open : Option Deadline → List Deadline → Option Deadline
first_open cur [] = cur
first_open cur (d ∷ ds) = first_open (if is_open d then sooner cur d else cur) ds

abbrev pub or_latest : Option Assessment → Option RiskRecord → Option Assessment
or_latest out none = out
or_latest out (some r) = some r.assessment

abbrev pub page_limit : ℕ → ℕ
page_limit n = if n == 0 || ltb 100 n then 25 else n

abbrev pub clock_view : ℕ → Option Deadline → Option DeadlineView
clock_view now none = none
clock_view now (some d) = some (deadline_view now d)

module _ {N : Type 0} where
  -- What the first condition of the store's loop asks, apart from the cursor.
  abbrev pub is_asked : Caller N → ListQuery → Db N → DisputeRecord N → Bool
  is_asked c q db d =
      str_eq d.tenant_id c.tenant
      && (visible c d
          && (not (other_state q.state d.state)
              && (not (other_reason q.reason d.reason)
                  && not (q.overdue && not (is_overdue (db.deadlines d.id) q.now)))))

  abbrev pub kept_row :
      Caller N
      → ListQuery
      → Db N
      → Option (DisputeRecord N)
      → List (DisputeRecord N)
      → List (DisputeRecord N)
  kept_row c q db none rest = rest
  kept_row c q db (some d) rest =
      if is_asked c q db d && not (is_above q.after d) then d ∷ rest else rest

  -- The loop of the store's ListDisputes, over the keys of the map.
  unfoldable pub collect : Caller N → ListQuery → Db N → List String → List (DisputeRecord N)
  unfolding is_overdue
  collect c q db [] = []
  collect c q db (id ∷ ids) = kept_row c q db (db.disputes id) (collect c q db ids)

  -- The order of the list: newest first, then by descending identifier.
  abbrev pub comes_before : DisputeRecord N → DisputeRecord N → Bool
  comes_before a b =
      if a.opened_at == b.opened_at then text_lt b.id a.id else ltb b.opened_at a.opened_at

  unfoldable pub insert_row : DisputeRecord N → List (DisputeRecord N) → List (DisputeRecord N)
  insert_row d [] = d ∷ []
  insert_row d (e ∷ es) =
      let rest = e ∷ insert_row d es in if comes_before e d then rest else d ∷ e ∷ es

  unfoldable pub sort_rows : List (DisputeRecord N) → List (DisputeRecord N)
  unfolding insert_row
  sort_rows [] = []
  sort_rows (d ∷ ds) = insert_row d (sort_rows ds)

  abbrev pub rows : Caller N → ListQuery → Db N → List (DisputeRecord N)
  rows c q db = sort_rows (collect c q db db.dispute_ids)

  -- ListDisputes of the store.
  abbrev pub list_rows : Caller N → ListQuery → Tx N (List (DisputeRecord N))
  list_rows c q = gets (λ db. take q.limit (rows c q db))

  abbrev pub is_of_tenant : Caller N → Option (DisputeRecord N) → Bool
  is_of_tenant c none = false
  is_of_tenant c (some d) = str_eq d.tenant_id c.tenant

  -- The outer loop of NextDeadlines and LatestRisk: one entry for each identifier of the tenant's.
  unfoldable pub over_ids :
      {A : Type 0}
      → Caller N
      → Db N
      → (String → Option A → Option A)
      → List String
      → (String → Option A)
      → String
      → Option A
  over_ids c db entry [] out = out
  over_ids c db entry (id ∷ ids) out =
      over_ids c db entry ids
        (if is_of_tenant c (db.disputes id) then put id (entry id (out id)) out else out)

  abbrev pub next_deadlines : Caller N → List String → Tx N (String → Option Deadline)
  next_deadlines c ids =
      gets (λ db. over_ids c db (λ id cur. first_open cur (db.deadlines id)) ids (λ id. none))

  abbrev pub latest_risk : Caller N → List String → Tx N (String → Option Assessment)
  latest_risk c ids =
      gets (λ db. over_ids c db (λ id cur. or_latest cur (latest (db.risk id))) ids (λ id. none))

  abbrev pub cursor_of : DisputeRecord N → Cursor
  cursor_of d = record { opened_at = d.opened_at; id = d.id }

  abbrev pub cursor_at : Option (DisputeRecord N) → Option Cursor
  cursor_at none = none
  cursor_at (some d) = some (cursor_of d)

  abbrev pub summary : ℕ → Option Deadline → Option Assessment → DisputeRecord N → DisputeSummary N
  summary now clock risk r = record {
    id = r.id;
    regime = r.regime;
    reason = r.reason;
    state = r.state;
    transaction_id = r.transaction_id;
    disputed_amount = r.disputed_amount;
    currency = r.currency;
    opened_at = r.opened_at;
    updated_at = r.updated_at;
    next_deadline = clock_view now clock;
    risk = risk;
  }

  -- The items of a page, with what is looked up for them.
  unfoldable pub items_tx : Caller N → ℕ → List (DisputeRecord N) → Tx N (List (DisputeSummary N))
  unfolding first_open over_ids
  items_tx c now recs = do
    let ids = map (λ (r : DisputeRecord N). r.id) recs
    next ← next_deadlines c ids
    risk ← latest_risk c ids
    pure (map (λ (r : DisputeRecord N). summary now (next r.id) (risk r.id) r) recs)

  abbrev pub shown_of : ℕ → List (DisputeRecord N) → List (DisputeRecord N)
  shown_of limit recs = if ltb limit (length recs) then take limit recs else recs

  abbrev pub next_of : ℕ → List (DisputeRecord N) → Option Cursor
  next_of limit recs =
      if ltb limit (length recs) then cursor_at (get_elem? recs (limit - 1)) else none

  -- The body of the transaction, for a page of `limit`.
  unfoldable pub page_tx : Caller N → ℕ → ListQuery → ℕ → Tx N (Page N)
  unfolding collect sort_rows
  page_tx c now q limit = do
    recs ← list_rows c (record q { limit = limit + 1; now = now })
    items ← items_tx c now (shown_of limit recs)
    pure (record { items = items; next = next_of limit recs })

  unfoldable pub list_disputes : Caller N → ℕ → ListQuery → Db N → Result (Page N) × Db N
  unfolding with_tx page_tx
  list_disputes c now q = with_tx (page_tx c now q (page_limit q.limit))
