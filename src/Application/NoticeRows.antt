-- ===== src/Application/NoticeRows.antt =====
-- The rows of accounts, tenants and notices (application/ports.go, apptest/memstore.go).
use thesis_dispute_engine.Prelude.{
  ℕ, suc, String, Option, none, some, List, [], ◌∷◌, ◌++◌, str_eq, ◌==◌, if◌then◌else◌,
}
use thesis_dispute_engine.Application.Records.{AccountRecord, NoticeRecord}
use thesis_dispute_engine.Application.Store.{Db, Caller, Tx, gets, modify, ◌>>=◌, ◌>>◌, get_dispute}
use thesis_dispute_engine.Application.Rows.{or_not_found}

abbrev name_or_default : Option String → String
name_or_default none = "Test Bank"
name_or_default (some name) = name

module _ {N : Type 0} where
  unfoldable pub get_account : String → Tx N AccountRecord
  get_account id = do a ← gets (λ db. db.accounts id); or_not_found a

  unfoldable pub tenant_name : Caller N → Tx N String
  tenant_name c = gets (λ db. name_or_default (db.names c.tenant))

  -- The next identifier is taken.
  abbrev pub with_notice : Caller N → NoticeRecord → Db N → Db N
  with_notice c n db = record db {
    next_notice = suc db.next_notice;
    notices = db.notices ++ record n { id = suc db.next_notice; tenant_id = c.tenant } ∷ [];
  }

  unfoldable pub insert_notice : Caller N → NoticeRecord → Tx N ℕ
  insert_notice c n = do
    get_dispute c n.dispute_id
    modify (with_notice c n)
    gets (λ db. db.next_notice)

abbrev pub notices_of : List NoticeRecord → String → List NoticeRecord
notices_of [] id = []
notices_of (n ∷ ns) id =
    let rest = notices_of ns id in if str_eq n.dispute_id id then n ∷ rest else rest

abbrev pub notice_with : List NoticeRecord → ℕ → Option NoticeRecord
notice_with [] id = none
notice_with (n ∷ ns) id = if n.id == id then some n else notice_with ns id

module _ {N : Type 0} where
  unfoldable pub list_notices : Caller N → String → Tx N (List NoticeRecord)
  list_notices c id = do get_dispute c id; gets (λ db. notices_of db.notices id)

  unfoldable pub get_notice : Caller N → String → ℕ → Tx N NoticeRecord
  unfolding list_notices
  get_notice c dispute_id id = do ns ← list_notices c dispute_id; or_not_found (notice_with ns id)
