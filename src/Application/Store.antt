-- ===== src/Application/Store.antt =====
-- The store behind the use cases: a transaction of application/ports.go, as the in-memory store of
-- application/apptest/memstore.go carries it out. A map from identifiers is a function. A write
-- stays until the transaction fails, when WithTx restores the snapshot. The rows kept here are those
-- that the modelled use cases touch; the request has a tenant.
use thesis_dispute_engine.Prelude.{
  ℕ, ◌+◌, ◌≡◌, refl, ap, String, Bool, true, false, ◌&&◌, ◌||◌, Option, none, some, List, [], ◌∷◌,
  ◌++◌, str_eq, ◌==◌, eq_iff, if◌then◌else◌,
}
use thesis_dispute_engine.Result.{Result, ok, err, ok-injective}
use thesis_dispute_engine.Errs.{GoError, classified}
use thesis_dispute_engine.Domain.Vocabulary.{State}
use thesis_dispute_engine.Domain.Deadline.{Deadline}
use thesis_dispute_engine.Application.Records.{
  Principal, PrincipalKind, DisputeRecord, EventRecord, TransactionRecord, RiskRecord,
  StoredResponse, Questionnaire, LedgerEntry, AccountRecord, NoticeRecord, Attachment, Access,
  Membership, err_not_found, err_conflict,
}

pub record Db (N : Type 0) : Type 0 where
  pub transactions : String → Option (TransactionRecord N)
  pub disputes : String → Option (DisputeRecord N)
  pub events : String → List EventRecord
  pub idempotent : String → String → String → Option StoredResponse
  pub deadlines : String → List Deadline
  pub ledger : String → List (LedgerEntry N)
  pub questions : String → Option Questionnaire
  pub risk : String → List RiskRecord
  pub dispute_ids : List String
  pub accounts : String → Option AccountRecord
  pub names : String → Option String
  pub notices : List NoticeRecord
  pub next_notice : ℕ
  pub attachments : List Attachment

-- m[id] = v
abbrev pub put {ℓ} : {A : Type ℓ} → String → A → (String → A) → String → A
put id v m k = if str_eq k id then v else m k

pub put-same {ℓ} : {A : Type ℓ} (id : String) (v : A) (m : String → A) → put id v m id ≡ v
put-same id v m = rw ((eq_iff id id).1 refl) refl

pub put-other {ℓ} :
    {A : Type ℓ} (id : String) (v : A) (m : String → A) (k : String)
    → str_eq k id ≡ false
    → put id v m k ≡ m k
put-other id v m k h = rw h refl

-- The caller of the transaction: its tenant, its principal and what the tenant grants it.
pub record Caller (N : Type 0) : Type 0 where
  pub tenant : String
  pub principal : Principal
  pub access : Access N

abbrev pub Tx : Type 0 → Type 0 → Type 0
Tx N A = Db N → Result A × Db N

abbrev pub is_key : PrincipalKind → Bool
is_key PrincipalKind.key = true
is_key PrincipalKind.analyst = false

abbrev pub member_of : List Membership → String → Bool
member_of [] team = false
member_of (m ∷ ms) team = str_eq m.team team || member_of ms team

abbrev contains_key : List String → String → Bool
contains_key [] id = false
contains_key (k ∷ ks) id = str_eq k id || contains_key ks id

abbrev pub with_key : String → List String → List String
with_key id ids = if contains_key ids id then ids else ids ++ id ∷ []

abbrev pub has_seq : List EventRecord → ℕ → Bool
has_seq [] n = false
has_seq (e ∷ es) n = e.seq == n || has_seq es n

module _ {N : Type 0} where
  abbrev pub pure : {A : Type 0} → A → Tx N A
  pure a db = (ok a, db)

  abbrev pub fail : {A : Type 0} → GoError → Tx N A
  fail e db = (err e, db)

  -- A computation that touches no row.
  abbrev pub lift : {A : Type 0} → Result A → Tx N A
  lift r db = (r, db)

  abbrev pub gets : {A : Type 0} → (Db N → A) → Tx N A
  gets f db = (ok (f db), db)

  abbrev pub modify : (Db N → Db N) → Tx N (Unit {0})
  modify f db = (ok tt, f db)

  -- `if err != nil { return err }` after a call, and the rest.
  abbrev pub continue : {A B : Type 0} → (A → Tx N B) → Result A × Db N → Result B × Db N
  continue rest (ok a, db) = rest a db
  continue rest (err e, db) = (err e, db)

  infixl 5 ◌>>=◌ ◌>>◌
  abbrev pub ◌>>=◌ : {A B : Type 0} → Tx N A → (A → Tx N B) → Tx N B
  ◌>>=◌ call rest db = continue rest (call db)

  abbrev pub ◌>>◌ : {A B : Type 0} → Tx N A → Tx N B → Tx N B
  call >> rest = call >>= λ _. rest

  -- A call whose error the caller looks at.
  abbrev pub attempt : {A : Type 0} → Tx N A → Tx N (Result A)
  attempt call db = let (r, db') = call db in (ok r, db')

  -- A call that returns is followed by the rest.
  pub >>=-runs :
      {A B : Type 0} (call : Tx N A) (rest : A → Tx N B) {a : A} {db db' : Db N}
      → call db ≡ (ok a, db')
      → (call >>= rest) db ≡ rest a db'
  >>=-runs call rest h = ap (continue rest) h

  continue-returns :
      {A B : Type 0} (rest : A → Tx N B) (x : Result A × Db N) {b : B} {db'' : Db N}
      → continue rest x ≡ (ok b, db'')
      → (a : A) × (db' : Db N) × (x ≡ (ok a, db')) × (rest a db' ≡ (ok b, db''))
  continue-returns rest (ok a, db) h = (a, db, refl, h)
  continue-returns rest (err e, db) h = absurd (cc)

  -- A chain of calls that returned got past the first of them.
  pub >>=-returns :
      {A B : Type 0} (call : Tx N A) (rest : A → Tx N B) {b : B} {db db'' : Db N}
      → (call >>= rest) db ≡ (ok b, db'')
      → (a : A) × (db' : Db N) × (call db ≡ (ok a, db')) × (rest a db' ≡ (ok b, db''))
  >>=-returns call rest {b} {db} h = continue-returns rest (call db) h

  -- A chain that returned, begun by a computation that touches no row.
  pub lift-returns :
      {A B : Type 0} (r : Result A) (rest : A → Tx N B) {b : B} {db db' : Db N}
      → (lift r >>= rest) db ≡ (ok b, db')
      → (a : A) × (r ≡ ok a) × (rest a db ≡ (ok b, db'))
  lift-returns (ok a) rest h = (a, refl, h)
  lift-returns (err e) rest h = absurd (cc)

  -- The end of WithTx: the writes stay, or the snapshot is restored, of which the counter of notices
  -- is no part.
  abbrev pub committed : {A : Type 0} → Db N → Result A × Db N → Result A × Db N
  committed snap (ok a, db) = (ok a, db)
  committed snap (err e, db) = (err e, record snap { next_notice = db.next_notice })

  -- WithTx
  unfoldable pub with_tx : {A : Type 0} → Tx N A → Db N → Result A × Db N
  with_tx fn db = committed db (fn db)

  committed-eq-ok :
      {A : Type 0} (snap db' : Db N) (a : A) (x : Result A × Db N)
      → committed snap x ≡ (ok a, db')
      → x ≡ (ok a, db')
  committed-eq-ok snap db' a (ok b, db) h = h
  committed-eq-ok snap db' a (err e, db) h = absurd (cc)

  -- What a committed transaction did.
  pub with_tx-eq-ok :
      {A : Type 0} (fn : Tx N A) (a : A) (db db' : Db N)
      → with_tx fn db ≡ (ok a, db')
      → fn db ≡ (ok a, db')
  unfolding with_tx
  with_tx-eq-ok fn a db db' h = committed-eq-ok db db' a (fn db) h

  abbrev pub visible : Caller N → DisputeRecord N → Bool
  visible c r = is_key c.principal.kind || member_of c.access.members r.team

  abbrev pub found : Caller N → Option (DisputeRecord N) → Result (DisputeRecord N)
  found c none = err (classified err_not_found)
  found c (some r) =
      if str_eq r.tenant_id c.tenant && visible c r then ok r else err (classified err_not_found)

  pub found-eq-ok :
      (c : Caller N) (o : Option (DisputeRecord N)) (r : DisputeRecord N)
      → found c o ≡ ok r
      → (o ≡ some r) × (str_eq r.tenant_id c.tenant ≡ true)
  found-eq-ok c none r h = absurd (cc)
  found-eq-ok c (some x) r h = go (str_eq x.tenant_id c.tenant) (visible c x) refl h
    where
      go :
          (a b : Bool)
          → str_eq x.tenant_id c.tenant ≡ a
          → (if a && b then ok x else err (classified err_not_found)) ≡ ok r
          → (some x ≡ some r) × (str_eq r.tenant_id c.tenant ≡ true)
      go true true e k = (ap some (ok-injective k), rw (← ok-injective k) e)
      go true false e k = absurd (cc)
      go false b e k = absurd (cc)

  unfoldable pub get_dispute : Caller N → String → Tx N (DisputeRecord N)
  get_dispute c id db = (found c (db.disputes id), db)

  abbrev pub transaction_found :
      Caller N → Option (TransactionRecord N) → Result (TransactionRecord N)
  transaction_found c none = err (classified err_not_found)
  transaction_found c (some r) =
      if str_eq r.tenant_id c.tenant then ok r else err (classified err_not_found)

  unfoldable pub get_transaction : Caller N → String → Tx N (TransactionRecord N)
  get_transaction c id db = (transaction_found c (db.transactions id), db)

  abbrev set_disputes : (String → Option (DisputeRecord N)) → Db N → Db N
  set_disputes m db = record db { disputes = m }

  unfoldable pub insert_dispute : Caller N → DisputeRecord N → Tx N (Unit {0})
  insert_dispute c d = modify (λ db. record db {
    disputes = put d.id (some (record d { tenant_id = c.tenant })) db.disputes;
    dispute_ids = with_key d.id db.dispute_ids;
  })

  abbrev pub moved_to : DisputeRecord N → State → ℕ → ℕ → DisputeRecord N
  moved_to r state appeals at = record r {
    state = state;
    appeals = appeals;
    version = r.version + 1;
    updated_at = at;
  }

  abbrev update_found :
      Caller N → String → ℕ → State → ℕ → ℕ → Option (DisputeRecord N) → Tx N (Unit {0})
  update_found c id expected state appeals at none = fail (classified err_conflict)
  update_found c id expected state appeals at (some r) =
      if str_eq r.tenant_id c.tenant && r.version == expected
      then modify (λ db. set_disputes (put id (some (moved_to r state appeals at)) db.disputes) db)
      else fail (classified err_conflict)

  -- The compare-and-set on the version.
  unfoldable pub update_dispute_state : Caller N → String → ℕ → State → ℕ → ℕ → Tx N (Unit {0})
  update_dispute_state c id expected state appeals at db =
      update_found c id expected state appeals at (db.disputes id) db

  abbrev pub moved_team : DisputeRecord N → String → ℕ → DisputeRecord N
  moved_team r team at = record r { team = team; version = r.version + 1; updated_at = at }

  abbrev team_found :
      Caller N → String → ℕ → String → ℕ → Option (DisputeRecord N) → Tx N (Unit {0})
  team_found c id expected team at none = fail (classified err_conflict)
  team_found c id expected team at (some r) =
      if str_eq r.tenant_id c.tenant && r.version == expected
      then modify (λ db. set_disputes (put id (some (moved_team r team at)) db.disputes) db)
      else fail (classified err_conflict)

  unfoldable pub update_dispute_team : Caller N → String → ℕ → String → ℕ → Tx N (Unit {0})
  update_dispute_team c id expected team at db =
      team_found c id expected team at (db.disputes id) db

  abbrev set_events : (String → List EventRecord) → Db N → Db N
  set_events m db = record db { events = m }

  unfoldable pub append_event : String → EventRecord → Tx N (Unit {0})
  append_event id e db =
      if has_seq (db.events id) e.seq
      then (err (classified err_conflict), db)
      else (ok tt, set_events (put id (db.events id ++ e ∷ []) db.events) db)

  unfoldable pub list_events : String → Tx N (List EventRecord)
  list_events id = gets (λ db. db.events id)
