-- ===== src/Application/Reassign/Laws.antt =====
-- What moving a dispute to another team writes (application/routing.go).
use thesis_dispute_engine.Prelude.{
  ◌+◌, String, ◌≡◌, refl, ap, sym, ◌∙◌, ◌⊎◌, inl, inr, true, false, not, if◌then◌else◌, some, [],
  ◌∷◌, ◌++◌, str_eq, Bool-cases, ◌==◌, ==_iff, eq_iff,
}
use thesis_dispute_engine.Result.{Result, ok, err}
use thesis_dispute_engine.Errs.{classified}
use thesis_dispute_engine.Domain.QuestionSets.{contains_text}
use thesis_dispute_engine.Application.Records.{
  DisputeRecord, DisputeFacts, Decision, TransactionRecord, EventRecord,
}
use thesis_dispute_engine.Application.Store.{
  Db, Caller, Tx, put, put-same, found, found-eq-ok, transaction_found, get_dispute,
  get_transaction, list_events, append_event, has_seq, update_dispute_team, moved_team, fail, pure,
  continue, ◌>>=◌, lift-returns, with_tx-eq-ok,
}
use thesis_dispute_engine.Application.Reassign.{
  Policy, facts, authorize, reassigned_event, move_team, reassign_tx, reassign, opener_from,
  err_unknown_team,
}

module _ {N : Type 0} where
  -- Each dispute stands under its own identifier.
  abbrev pub KeyedById : Db N → Type 0
  KeyedById db = (id : String) (r : DisputeRecord N) → db.disputes id ≡ some r → r.id ≡ id

  -- The move was logged under the version that it makes, and made.
  pub record Moved (c : Caller N) (policy : Policy N) (rec : DisputeRecord N) (team : String)
      (db db' : Db N) : Type 0 where
    pub payload : String
    pub logged :
        db'.events
        ≡ put rec.id (db.events rec.id ++ reassigned_event c policy rec payload ∷ []) db.events
    pub unlogged : has_seq (db.events rec.id) (rec.version + 1) ≡ false
    pub updated : db'.disputes ≡ put rec.id (some (moved_team rec team policy.now)) db.disputes
    pub ledger : db'.ledger ≡ db.ledger
    pub now_held :
        (r : DisputeRecord N) × (db'.disputes rec.id ≡ some r)
        × (r.team ≡ team)
        × (r.version ≡ rec.version + 1)
        × (r.state ≡ rec.state)
        × (r.appeals ≡ rec.appeals)
        × (r.updated_at ≡ policy.now)
    pub last_entry :
        (e : EventRecord) × (db'.events rec.id ≡ db.events rec.id ++ e ∷ [])
        × (e.seq ≡ rec.version + 1)
        × (e.from_state ≡ rec.state)
        × (e.to_state ≡ rec.state)
        × (e.actor_id ≡ c.principal.id)
        × (e.payload ≡ payload)

  move_team-Moved :
      (c : Caller N) (policy : Policy N) (rec : DisputeRecord N) (team : String) (dec : Decision)
      (db db' : Db N)
      → db.disputes rec.id ≡ some rec
      → str_eq rec.tenant_id c.tenant ≡ true
      → move_team c policy rec team dec db ≡ (ok tt, db')
      → Moved c policy rec team db db'
  unfolding move_team append_event update_dispute_team
  move_team-Moved c policy rec team dec db db' held tenant h =
      let (payload, p, k) = lift-returns (policy.move_payload rec.team team dec.policies) _ h in
      let same : (rec.version == rec.version) ≡ true = (==_iff rec.version rec.version).1 refl in
      elim (Bool-cases (has_seq (db.events rec.id) (rec.version + 1))) [
        | inl yes_ ↦ absurd (let z = rw yes_ at k in cc)
        | inr no_ ↦ rw (← ap (λ x. x.1) (rw (no_, held, tenant, same) at k)) (record {
          payload = payload;
          logged = refl;
          unlogged = no_;
          updated = refl;
          ledger = refl;
          now_held = (
            _,
            put-same rec.id (some (moved_team rec team policy.now)) db.disputes,
            refl,
            refl,
            refl,
            refl,
            refl,
          );
          last_entry = (
            _,
            put-same rec.id (db.events rec.id ++ reassigned_event c policy rec payload ∷ [])
                db.events,
            refl,
            refl,
            refl,
            refl,
            refl,
          );
        })
      ]

  -- What the policies are told of a dispute is what the store has of it.
  pub record IsAbout (c : Caller N) (db : Db N) (rec : DisputeRecord N) (f : DisputeFacts N)
      : Type 0 where
    pub id : f.id ≡ rec.id
    pub team : f.team ≡ rec.team
    pub amount : f.amount ≡ rec.disputed_amount
    pub currency : f.currency ≡ rec.currency
    pub state : f.state ≡ rec.state
    pub rail :
        (txn : TransactionRecord N) × (transaction_found c (db.transactions rec.transaction_id)
          ≡ ok txn)
        × (f.rail ≡ txn.rail)
    pub opener : f.investigation_opened_by ≡ opener_from "" (db.events rec.id)

  pub facts-returns :
      {B : Type 0} (c : Caller N) (rec : DisputeRecord N) (rest : DisputeFacts N → Tx N B) {b : B}
      {db db' : Db N}
      → (facts c rec >>= rest) db ≡ (ok b, db')
      → (f : DisputeFacts N) × IsAbout c db rec f × (rest f db ≡ (ok b, db'))
  unfolding facts list_events get_transaction
  facts-returns c rec rest {b} {db} {db'} h =
      go (transaction_found c (db.transactions rec.transaction_id)) refl h
    where
      fact : TransactionRecord N → DisputeFacts N
      fact txn = record {
        id = rec.id;
        team = rec.team;
        amount = rec.disputed_amount;
        currency = rec.currency;
        rail = txn.rail;
        state = rec.state;
        investigation_opened_by = opener_from "" (db.events rec.id);
      }

      go :
          (x : Result (TransactionRecord N))
          → transaction_found c (db.transactions rec.transaction_id) ≡ x
          → continue rest (continue (λ txn db. (ok (fact txn), db)) (x, db)) ≡ (ok b, db')
          → (f : DisputeFacts N) × IsAbout c db rec f × (rest f db ≡ (ok b, db'))
      go (ok txn) e k = (
        fact txn,
        record {
          id = refl;
          team = refl;
          amount = refl;
          currency = refl;
          state = refl;
          rail = (txn, e, refl);
          opener = refl;
        },
        k,
      )
      go (err e) _ k = absurd (cc)

  chosen :
      (c : Caller N) (policy : Policy N) (rec : DisputeRecord N) (team : String) (dec : Decision)
      (db db' : Db N)
      → db.disputes rec.id ≡ some rec
      → str_eq rec.tenant_id c.tenant ≡ true
      → (if not (contains_text c.access.teams team)
            then fail (classified err_unknown_team)
            else if str_eq team rec.team
            then pure tt
            else move_team c policy rec team dec)
          db
        ≡ (ok tt, db')
      → (contains_text c.access.teams team ≡ true)
        × (((team ≡ rec.team) × (db' ≡ db)) ⊎ Moved c policy rec team db db')
  chosen c policy rec team dec db db' held tenant h =
      elim (Bool-cases (contains_text c.access.teams team)) [
        | inr no_ ↦ absurd (let z = rw no_ at h in cc)
        | inl known ↦ elim (Bool-cases (str_eq team rec.team)) [
          | inl e ↦
              (known, inl ((eq_iff team rec.team).0 e, sym (ap (λ x. x.1) (rw (known, e) at h))))
          | inr n ↦ (
            known,
            inr (move_team-Moved c policy rec team dec db db' held tenant (rw (known, n) at h)),
          )
        ]
      ]

  -- Whenever a reassignment succeeds, in a store that keeps each dispute under its identifier, the
  -- dispute is one of the caller's tenant, the policies allowed the move on what the store has of the
  -- dispute, and the tenant has the target team. Either that team has the dispute already and
  -- nothing is written, or the move is logged at the end of its log under the version that it makes,
  -- which no entry had, and the dispute has the team and that version, while no other dispute, no
  -- other log and no ledger changes.
  pub reassign-Moved :
      (c : Caller N) (policy : Policy N) (id : String) (team : String) (db db' : Db N)
      → KeyedById db
      → reassign c policy id team db ≡ (ok tt, db')
      → (rec : DisputeRecord N) × (f : DisputeFacts N) × (dec : Decision) × (db.disputes id
          ≡ some rec)
        × (rec.tenant_id ≡ c.tenant)
        × IsAbout c db rec f
        × (authorize c policy "reassign" f ≡ ok dec)
        × (contains_text c.access.teams team ≡ true)
        × (((team ≡ rec.team) × (db' ≡ db)) ⊎ Moved c policy rec team db db')
  unfolding reassign reassign_tx get_dispute
  reassign-Moved c policy id team db db' keyed h =
      let run = with_tx-eq-ok (reassign_tx c policy id team) tt db db' h in
      let (rec, read, h1) = lift-returns (found c (db.disputes id)) _ run in
      let (held, tenant) = found-eq-ok c (db.disputes id) rec read in
      let (f, about, h2) = facts-returns c rec _ h1 in
      let (dec, allowed, h3) = lift-returns (authorize c policy "reassign" f) _ h2 in
      let held' : db.disputes rec.id ≡ some rec = ap db.disputes (keyed id rec held) ∙ held in
      let (known, rest) = chosen c policy rec team dec db db' held' tenant h3 in
      (rec, f, dec, held, (eq_iff rec.tenant_id c.tenant).0 tenant, about, allowed, known, rest)
