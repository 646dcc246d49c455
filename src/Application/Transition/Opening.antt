-- ===== src/Application/Transition/Opening.antt =====
-- What CreateDispute writes, and that it keeps the invariant of the store (application/service.go).
use thesis_dispute_engine.Prelude.{
  String, ◌≡◌, refl, ap, ◌∙◌, inl, inr, false, none, some, [], ◌∷◌, ◌++◌, Bool-cases,
}
use thesis_dispute_engine.Prelude.Decimal.{Decimals}
use thesis_dispute_engine.Result.{ok}
use thesis_dispute_engine.Domain.Vocabulary.{Regime, Reason, initiated}
use thesis_dispute_engine.Domain.Regime.{Rules, rules_for, regime_for}
use thesis_dispute_engine.Domain.Lifecycle.{new_dispute}
use thesis_dispute_engine.Domain.Lifecycle.Names.{state_name}
use thesis_dispute_engine.Domain.Deadline.{opening_deadlines}
use thesis_dispute_engine.Domain.QuestionSets.{parse_reason}
use thesis_dispute_engine.Domain.Ledger.History.{opened-IsBalanced}
use thesis_dispute_engine.Application.Records.{
  DisputeRecord, EventRecord, TransactionRecord, Decision,
}
use thesis_dispute_engine.Application.Store.{
  Db, Caller, Tx, put, put-same, with_key, transaction_found, get_transaction, insert_dispute,
  append_event, has_seq, lift, ◌>>=◌, ◌>>◌, lift-returns,
}
use thesis_dispute_engine.Application.Frame.{Aside, Keeps-returns, >>=-Keeps}
use thesis_dispute_engine.Application.Frame.Calls.{
  inserted-Keeps, notify-Keeps, assess-Keeps, view_with-Keeps,
}
use thesis_dispute_engine.Application.Clocks.{inserted}
use thesis_dispute_engine.Application.Notices.{notify}
use thesis_dispute_engine.Application.Assess.{assess}
use thesis_dispute_engine.Application.Reassign.{authorize}
use thesis_dispute_engine.Application.Routing.{route}
use thesis_dispute_engine.Application.Log.{replay, replay_from}
use thesis_dispute_engine.Application.Sound.{Tracked, Sound, Sound-Aside, Sound-write}
use thesis_dispute_engine.Application.ViewRecords.{DisputeView}
use thesis_dispute_engine.Application.Views.{view_with}
use thesis_dispute_engine.Application.Idempotent.{Codec}
use thesis_dispute_engine.Application.Idempotent.Runs.{idempotent-keeps}
use thesis_dispute_engine.Application.Transition.{
  Service, CreateDisputeInput, opened_record, opened_event, create_facts, create_tx, create_dispute,
}

module _ (dec : Decimals) where
  open dec use {Num}

  -- The record of a new dispute, in its tenant.
  abbrev pub entered :
      Caller Num
      → Service Num
      → String
      → Regime
      → Reason
      → TransactionRecord Num
      → DisputeRecord Num
  entered c svc id regime reason txn =
      record (opened_record dec svc id (route dec c.access txn.rail reason "" txn.amount) regime
        reason txn) { tenant_id = c.tenant }

  -- The store once the record is inserted and its opening logged.
  abbrev pub begun :
      Caller Num → CreateDisputeInput → Service Num → DisputeRecord Num → Reason → Db Num → Db Num
  begun c inp svc rec reason db = record db {
    disputes = put rec.id (some rec) db.disputes;
    dispute_ids = with_key rec.id db.dispute_ids;
    events = put rec.id (db.events rec.id ++ opened_event dec c svc inp reason ∷ []) db.events;
  }

  -- The dispute that stands under the identifier: of the caller's tenant and of the transaction, in
  -- the team that routing gives it.
  abbrev pub Stands :
      Caller Num → Service Num → Regime → Reason → TransactionRecord Num → String → Db Num → Type 0
  Stands c svc regime reason txn id db' =
      (rec : DisputeRecord Num) × (db'.disputes id ≡ some rec)
      × (rec.id ≡ id)
      × (rec.tenant_id ≡ c.tenant)
      × (rec.transaction_id ≡ txn.id)
      × (rec.account_id ≡ txn.account_id)
      × (rec.disputed_amount ≡ txn.amount)
      × (rec.currency ≡ txn.currency)
      × (rec.regime ≡ regime)
      × (rec.reason ≡ reason)
      × (rec.team ≡ route dec c.access txn.rail reason "" txn.amount)
      × (rec.state ≡ initiated)
      × (rec.appeals ≡ 0)
      × (rec.version ≡ 1)

  -- The entry at the end of its log, the caller's.
  abbrev pub Logs : Caller Num → String → Db Num → Db Num → Type 0
  Logs c id db db' =
      (e : EventRecord) × (db'.events id ≡ db.events id ++ e ∷ [])
      × (e.seq ≡ 1)
      × (e.to_state ≡ initiated)
      × (e.actor_id ≡ c.principal.id)

  begun-Stands :
      (c : Caller Num) (svc : Service Num) (inp : CreateDisputeInput) (id : String)
      (regime : Regime) (reason : Reason) (txn : TransactionRecord Num) (db db' : Db Num)
      → Aside (begun c inp svc (entered c svc id regime reason txn) reason db) db'
      → Stands c svc regime reason txn id db'
  begun-Stands c svc inp id regime reason txn db db' aside = (
    entered c svc id regime reason txn,
    ap (λ m. m id) aside.disputes
        ∙ put-same id (some (entered c svc id regime reason txn)) db.disputes,
    refl,
    refl,
    refl,
    refl,
    refl,
    refl,
    refl,
    refl,
    refl,
    refl,
    refl,
    refl,
  )

  begun-Logs :
      (c : Caller Num) (svc : Service Num) (inp : CreateDisputeInput) (id : String)
      (regime : Regime) (reason : Reason) (txn : TransactionRecord Num) (db db' : Db Num)
      → Aside (begun c inp svc (entered c svc id regime reason txn) reason db) db'
      → Logs c id db db'
  begun-Logs c svc inp id regime reason txn db db' aside = (
    opened_event dec c svc inp reason,
    ap (λ m. m id) aside.events
        ∙ put-same id (db.events id ++ opened_event dec c svc inp reason ∷ []) db.events,
    refl,
    refl,
    refl,
  )

  -- What an opening did: the transaction is one of the tenant, a regime governs it, the policies
  -- allowed the creation in the team that it routes to, the record stands under a new identifier and
  -- its log begins.
  pub record Opened (c : Caller Num) (svc : Service Num) (inp : CreateDisputeInput)
      (db db' : Db Num) : Type 0 where
    pub txn : TransactionRecord Num
    pub regime : Regime
    pub reason : Reason
    pub id : String
    pub decision : Decision
    pub rules : Rules
    pub read : transaction_found c (db.transactions inp.transaction_id) ≡ ok txn
    pub governed : regime_for txn.rail txn.account_currency ≡ ok regime
    pub reasoned : parse_reason inp.reason ≡ ok reason
    pub named : svc.new_id ≡ ok id
    pub allowed :
        authorize c svc.policy "create"
          (create_facts dec (route dec c.access txn.rail reason "" txn.amount))
        ≡ ok decision
    pub known : rules_for regime ≡ ok rules
    pub unlogged : has_seq (db.events id) 1 ≡ false
    pub stands : Stands c svc regime reason txn id db'
    pub logged : Logs c id db db'
    pub begins : Aside (begun c inp svc (entered c svc id regime reason txn) reason db) db'

  begin-Opened :
      (c : Caller Num) (svc : Service Num) (inp : CreateDisputeInput) (rec : DisputeRecord Num)
      (reason : Reason) (rest : Tx Num (DisputeView Num)) (view : DisputeView Num) (db db' : Db Num)
      → (insert_dispute c rec >> (append_event rec.id (opened_event dec c svc inp reason) >> rest))
          db
        ≡ (ok view, db')
      → (has_seq (db.events rec.id) 1 ≡ false)
        × (rest (begun c inp svc (record rec { tenant_id = c.tenant }) reason db) ≡ (ok view, db'))
  unfolding insert_dispute append_event
  begin-Opened c svc inp rec reason rest view db db' h =
      elim (Bool-cases (has_seq (db.events rec.id) 1)) [
        | inl yes_ ↦ absurd (let z = rw yes_ at h in cc)
        | inr no_ ↦ (no_, rw no_ at h)
      ]

  follow-Aside :
      (c : Caller Num) (svc : Service Num) (rec : DisputeRecord Num) (regime : Regime)
      (txn : TransactionRecord Num) (view : DisputeView Num) (db db' : Db Num)
      → (lift (rules_for regime) >>= λ r.
            inserted c rec.id (opening_deadlines r svc.policy.now svc.calendar)
            >> (notify dec c svc.writer rec initiated 1 svc.policy.now
                >> (assess dec c svc.times rec txn 1 svc.policy.now
                    >> view_with dec c svc.policy svc.view_now rec none)))
          db
        ≡ (ok view, db')
      → (r : Rules) × (rules_for regime ≡ ok r) × Aside db db'
  follow-Aside c svc rec regime txn view db db' h =
      let (r, known, h1) = lift-returns (rules_for regime) _ h in
      (
        r,
        known,
        Keeps-returns
            (>>=-Keeps (inserted-Keeps c rec.id (opening_deadlines r svc.policy.now svc.calendar))
              (λ _. >>=-Keeps (notify-Keeps dec c svc.writer rec initiated 1 svc.policy.now) (λ _.
                >>=-Keeps (assess-Keeps dec c svc.times rec txn 1 svc.policy.now)
                  (λ _. view_with-Keeps dec c svc.policy svc.view_now rec none))))
            h1,
      )

  pub create_tx-Opened :
      (c : Caller Num) (svc : Service Num) (inp : CreateDisputeInput) (view : DisputeView Num)
      (db db' : Db Num)
      → create_tx dec c svc inp db ≡ (ok view, db')
      → Opened c svc inp db db'
  unfolding create_tx get_transaction
  create_tx-Opened c svc inp view db db' h =
      let (txn, read, h1) =
        lift-returns (transaction_found c (db.transactions inp.transaction_id)) _ h in
      let (regime, governed, h2) = lift-returns (regime_for txn.rail txn.account_currency) _ h1 in
      let (reason, reasoned, h3) = lift-returns (parse_reason inp.reason) _ h2 in
      let (id, named, h4) = lift-returns svc.new_id _ h3 in
      let (decision, allowed, h5) =
        lift-returns
          (authorize c svc.policy "create"
            (create_facts dec (route dec c.access txn.rail reason "" txn.amount)))
          _ h4 in
      let rec =
        opened_record dec svc id (route dec c.access txn.rail reason "" txn.amount) regime reason
          txn in
      let (unlogged, h6) = begin-Opened c svc inp rec reason _ view db db' h5 in
      let (r, known, aside) = follow-Aside c svc rec regime txn view _ db' h6 in
      record {
        txn = txn;
        regime = regime;
        reason = reason;
        id = id;
        decision = decision;
        rules = r;
        read = read;
        governed = governed;
        reasoned = reasoned;
        named = named;
        allowed = allowed;
        known = known;
        unlogged = unlogged;
        stands = begun-Stands c svc inp id regime reason txn db db' aside;
        logged = begun-Logs c svc inp id regime reason txn db db' aside;
        begins = aside;
      }

  Opened-Tracked :
      (c : Caller Num) (svc : Service Num) (inp : CreateDisputeInput) (txn : TransactionRecord Num)
      (id : String) (regime : Regime) (reason : Reason) (rules : Rules)
      → rules_for regime ≡ ok rules
      → Tracked dec id
          (entered c svc id regime reason txn)
          (opened_event dec c svc inp reason ∷ [])
          []
  unfolding replay replay_from new_dispute state_name
  Opened-Tracked c svc inp txn id regime reason rules known = record {
    keyed = refl;
    replayed = rw known refl;
    numbered = (refl, refl);
    rules = rules;
    balanced = opened-IsBalanced dec rules txn.amount txn.currency regime known;
  }

  create_tx-Sound :
      (c : Caller Num) (svc : Service Num) (inp : CreateDisputeInput) (view : DisputeView Num)
      (db db' : Db Num)
      → Sound dec db
      → ((id : String) → svc.new_id ≡ ok id → db.disputes id ≡ none)
      → create_tx dec c svc inp db ≡ (ok view, db')
      → Sound dec db'
  create_tx-Sound c svc inp view db db' sound fresh h =
      let o = create_tx-Opened c svc inp view db db' h in
      let (no_log, no_ledger) = rw (fresh o.id o.named) at (sound o.id) in
      let rec = entered c svc o.id o.regime o.reason o.txn in
      Sound-Aside dec (begun c inp svc rec o.reason db) db' o.begins (
        Sound-write dec db (begun c inp svc rec o.reason db) o.id rec
          (db.events o.id ++ opened_event dec c svc inp o.reason ∷ []) sound refl refl (λ k _. refl)
          (rw (no_log, no_ledger)
            (Opened-Tracked c svc inp o.txn o.id o.regime o.reason o.rules o.known)))

  -- CreateDispute keeps the invariant, however it ends, if the identifiers that are drawn for new
  -- disputes are not in use.
  pub create_dispute-Sound :
      (c : Caller Num) (svc : Service Num) (codec : Codec (DisputeView Num))
      (inp : CreateDisputeInput) (db : Db Num)
      → Sound dec db
      → ((id : String) → svc.new_id ≡ ok id → db.disputes id ≡ none)
      → Sound dec (create_dispute dec c svc codec inp db).1
  unfolding create_dispute
  create_dispute-Sound c svc codec inp db h fresh =
      idempotent-keeps codec (Sound dec) (Sound-Aside dec) c "dispute.create" inp.idempotency
        (create_tx dec c svc inp) db
        (λ view db' ran. create_tx-Sound c svc inp view db db' h fresh ran) h
