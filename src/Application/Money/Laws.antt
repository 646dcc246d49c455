-- ===== src/Application/Money/Laws.antt =====
-- What posting writes (application/service.go).
use thesis_dispute_engine.Prelude.{
  ℕ, String, ◌≡◌, refl, ap, sym, ◌∙◌, inl, inr, Bool, true, false, not, Option, none, some, List,
  [], ◌∷◌, ◌++◌, arith, All, Bool-cases, Option-cases, eq_iff, str_eq, if◌then◌else◌, ◌≢◌, ◌⊎◌, ◌↔◌,
}
use thesis_dispute_engine.Prelude.Decimal.{Decimals}
use thesis_dispute_engine.Result.{Result, ok, err, ok-injective}
use thesis_dispute_engine.Errs.{classified, with_detail}
use thesis_dispute_engine.Domain.Vocabulary.{State, SuspenseSettlement, Account, customer}
use thesis_dispute_engine.Domain.Regime.{Rules, rules_for}
use thesis_dispute_engine.Domain.Ledger.{Posting, postings, parse_settlement}
use thesis_dispute_engine.Application.Records.{
  DisputeRecord, CoreInstruction, CoreReceipt, LedgerEntry, err_core_declined,
}
use thesis_dispute_engine.Application.Store.{
  Db, Caller, Tx, put, put-same, put-other, found, get_dispute, continue, ◌>>=◌, lift-returns,
}
use thesis_dispute_engine.Application.Rows.{
  list_ledger, append_ledger, append_entries, has_reference, set_ledger,
}
use thesis_dispute_engine.Application.Money.{
  EventFacts, Env, Adapter, is_customer, moves_customer, postings_of, instruct_core, core_outcome,
  route_post, entry, entry_of, entries, joined, with_receipt, instruction_of, or_malformed,
  liability_of, input_of, append_movements, post,
}

core_outcome-answered :
    (answer : Result CoreReceipt) (r : CoreReceipt)
    → core_outcome answer ≡ ok r
    → (r.approved ≡ true) × (answer ≡ ok r)
core_outcome-answered (err e) r h = absurd (cc)
core_outcome-answered (ok receipt) r h = go receipt.approved refl h
  where
    go :
        (b : Bool)
        → receipt.approved ≡ b
        → (if not b then err (classified (with_detail err_core_declined "%s (%s)")) else ok receipt)
          ≡ ok r
        → (r.approved ≡ true) × (ok receipt ≡ ok r)
    go true e k =
        let same = ok-injective k in (ap (λ (x : CoreReceipt). x.approved) (sym same) ∙ e, k)
    go false e k = absurd (cc)

pub append_assoc : {A : Type 0} (xs ys zs : List A) → (xs ++ ys) ++ zs ≡ xs ++ (ys ++ zs)
append_assoc [] ys zs = refl
append_assoc (x ∷ xs) ys zs = ap (λ t. x ∷ t) (append_assoc xs ys zs)

pub append-nil : {A : Type 0} (xs : List A) → xs ++ [] ≡ xs
append-nil [] = refl
append-nil (x ∷ xs) = ap (λ t. x ∷ t) (append-nil xs)

or_malformed-some :
    (o : Option EventFacts) (facts : EventFacts) → or_malformed o ≡ ok facts → o ≡ some facts
or_malformed-some none facts h = absurd (cc)
or_malformed-some (some x) facts h = ap some (ok-injective h)

is_customer_iff : (a : Account) → (is_customer a ≡ true) ↔ (a ≡ customer)
is_customer_iff a = ground arith

module _ {N : Type 0} where
  -- The instruction is to move what the entry says, on the account and for the dispute of the record.
  pub record Instructs (rec : DisputeRecord N) (e : LedgerEntry N) (ins : CoreInstruction N)
      : Type 0 where
    pub reference : ins.reference ≡ e.reference
    pub dispute_id : ins.dispute_id ≡ rec.id
    pub account_id : ins.account_id ≡ rec.account_id
    pub transaction_id : ins.transaction_id ≡ rec.transaction_id
    pub kind : ins.kind ≡ e.posting.kind
    pub credit_account : (ins.credit_account ≡ true) ↔ (e.posting.credit ≡ customer)
    pub amount : ins.amount ≡ e.posting.amount
    pub currency : ins.currency ≡ e.posting.currency

  -- The answer is that of the tenant's core to the instruction, or the tenant has no core.
  abbrev pub AnswersFor : Env N → DisputeRecord N → LedgerEntry N → CoreReceipt → Type 0
  AnswersFor env rec e r =
      ((env.tenant_core.kind ≡ "") × (r.response_text ≡ "booked without a core"))
      ⊎ ((env.tenant_core.kind ≢ "")
          × (adapter : Adapter N) × (ins : CoreInstruction N) × (env.adapters env.tenant_core.kind
              ≡ some adapter)
          × (adapter env.tenant_core ins ≡ ok r)
          × Instructs rec e ins)

  -- A movement on the customer's account has the receipt of a core that carried it out.
  abbrev pub CarriedOut : Env N → DisputeRecord N → LedgerEntry N → Type 0
  CarriedOut env rec e =
      (p : (e.posting.debit ≡ customer) ⊎ (e.posting.credit ≡ customer))
      → (r : CoreReceipt) × (e.core ≡ some r) × (r.approved ≡ true) × AnswersFor env rec e r

  moves_customer_iff :
      (p : Posting N) → (p.debit ≡ customer) ⊎ (p.credit ≡ customer) → moves_customer p ≡ true
  moves_customer_iff p h = ground arith

  adapter_post-Answers :
      (env : Env N) (rec : DisputeRecord N) (e : LedgerEntry N) (r : CoreReceipt)
      → route_post env (instruction_of rec e) ≡ ok r
      → AnswersFor env rec e r
  unfolding route_post
  adapter_post-Answers env rec e r h = elim (Bool-cases (str_eq env.tenant_core.kind "")) [
    | inl none_ ↦ inl (
      (eq_iff env.tenant_core.kind "").0 none_,
      ap (λ (x : CoreReceipt). x.response_text) (sym (ok-injective (rw none_ at h))),
    )
    | inr some_ ↦ elim (Option-cases (env.adapters env.tenant_core.kind)) [
      | inl missing ↦ absurd (let k = rw (some_, missing) at h in cc)
      | inr (adapter, there) ↦ inr (
        ground (arith, eq_iff env.tenant_core.kind ""),
        adapter,
        instruction_of rec e,
        there,
        rw (some_, there) at h,
        record {
          reference = refl;
          dispute_id = refl;
          account_id = refl;
          transaction_id = refl;
          kind = refl;
          credit_account = is_customer_iff e.posting.credit;
          amount = refl;
          currency = refl;
        },
      )
    ]
  ]

  entry-CarriedOut :
      (env : Env N) (rec : DisputeRecord N) (seq : ℕ) (p : Posting N) (e : LedgerEntry N)
      → entry env rec seq p ≡ ok e
      → (e.posting ≡ p) × CarriedOut env rec e
  unfolding entry instruct_core
  entry-CarriedOut env rec seq p e h =
      carried (moves_customer p) refl (instruct_core env rec (entry_of env rec seq p none))
        (core_outcome-answered (route_post env (instruction_of rec (entry_of env rec seq p none))))
        h
    where
      carried :
          (b : Bool)
          → moves_customer p ≡ b
          → (x : Result CoreReceipt)
          → ((r : CoreReceipt)
              → x ≡ ok r
              → (r.approved ≡ true)
                × (route_post env (instruction_of rec (entry_of env rec seq p none)) ≡ ok r))
          → (if b then with_receipt env rec seq p x else ok (entry_of env rec seq p none)) ≡ ok e
          → (e.posting ≡ p) × CarriedOut env rec e
      carried true m (ok r) f k = rw (← ok-injective k) (
        refl,
        λ _. (
          r,
          refl,
          (f r refl).0,
          adapter_post-Answers env rec (entry_of env rec seq p (some r)) r (f r refl).1,
        ),
      )
      carried true m (err x) f k = absurd (cc)
      carried false m x f k =
          rw (← ok-injective k) (refl, λ n. absurd (let z = sym m ∙ moves_customer_iff p n in cc))

  entries-CarriedOut :
      (env : Env N) (rec : DisputeRecord N) (seq : ℕ) (ps : List (Posting N))
      (es : List (LedgerEntry N))
      → entries env rec seq ps ≡ ok es
      → (postings_of es ≡ ps) × All (CarriedOut env rec) es
  unfolding entries
  entries-CarriedOut env rec seq [] es h = rw (← ok-injective h) (refl, tt)
  entries-CarriedOut env rec seq (p ∷ ps) es h =
      both (entry env rec seq p) (entries env rec seq ps) (entry-CarriedOut env rec seq p)
        (entries-CarriedOut env rec seq ps) h
    where
      both :
          (x : Result (LedgerEntry N)) (xs : Result (List (LedgerEntry N)))
          → ((e : LedgerEntry N) → x ≡ ok e → (e.posting ≡ p) × CarriedOut env rec e)
          → ((es : List (LedgerEntry N))
              → xs ≡ ok es
              → (postings_of es ≡ ps) × All (CarriedOut env rec) es)
          → joined x xs ≡ ok es
          → (postings_of es ≡ p ∷ ps) × All (CarriedOut env rec) es
      both (err e) xs f g k = absurd (cc)
      both (ok e) (err e') f g k = absurd (cc)
      both (ok e) (ok es') f g k =
          let (a, b) = f e refl in
          let (a', b') = g es' refl in rw (← ok-injective k) (rw (a, a') refl, (b, b'))

  -- Entries are added at the end of the dispute's ledger, in order, and nothing else is written.
  pub record Appended (id : String) (es : List (LedgerEntry N)) (db db' : Db N) : Type 0 where
    pub written : db'.ledger id ≡ db.ledger id ++ es
    pub elsewhere : (k : String) → str_eq k id ≡ false → db'.ledger k ≡ db.ledger k
    pub disputes : db'.disputes ≡ db.disputes
    pub events : db'.events ≡ db.events

  append_entries-Appended :
      (id : String) (es : List (LedgerEntry N)) (db db' : Db N)
      → append_entries id es db ≡ (ok tt, db')
      → Appended id es db db'
  unfolding append_entries
  append_entries-Appended id [] db db' h = rw (← ap (λ x. x.1) h) (record {
    written = sym (append-nil (db.ledger id));
    elsewhere = λ k _. refl;
    disputes = refl;
    events = refl;
  })
  append_entries-Appended id (e ∷ es) db db' h =
      elim (Bool-cases (has_reference (db.ledger id) e.reference)) [
        | inl yes_ ↦ absurd (let k = rw yes_ at h in cc)
        | inr no_ ↦
            let v = db.ledger id ++ e ∷ [] in
            let rest =
              append_entries-Appended id es (set_ledger (put id v db.ledger) db) db'
                (rw no_ at h) in
            record {
              written =
                  rest.written
                  ∙ ap (λ xs. xs ++ es) (put-same id v db.ledger)
                  ∙ append_assoc (db.ledger id) (e ∷ []) es;
              elsewhere = λ k other. rest.elsewhere k other ∙ put-other id v db.ledger k other;
              disputes = rest.disputes;
              events = rest.events;
            }
      ]

  append_ledger-Appended :
      (c : Caller N) (id : String) (es : List (LedgerEntry N)) (db db' : Db N)
      → append_ledger c id es db ≡ (ok tt, db')
      → Appended id es db db'
  unfolding append_ledger get_dispute
  append_ledger-Appended c id es db db' h =
      let (r, f, k) = lift-returns (found c (db.disputes id)) (λ _. append_entries id es) h in
      append_entries-Appended id es db db' k

  list_ledger-returns :
      {B : Type 0} (c : Caller N) (id : String) (rest : List (LedgerEntry N) → Tx N B) {b : B}
      {db db' : Db N}
      → (list_ledger c id >>= rest) db ≡ (ok b, db')
      → rest (db.ledger id) db ≡ (ok b, db')
  unfolding list_ledger get_dispute
  list_ledger-returns c id rest {b} {db} {db'} h = go (found c (db.disputes id)) h
    where
      go :
          (x : Result (DisputeRecord N))
          → continue rest (continue (λ _ db. (ok (db.ledger id), db)) (x, db)) ≡ (ok b, db')
          → rest (db.ledger id) db ≡ (ok b, db')
      go (ok r) h = h
      go (err e) h = absurd (cc)

  -- The entries that a run of `post` adds.
  pub record Posted (env : Env N) (rec : DisputeRecord N) (ps : List (Posting N)) (db db' : Db N)
      : Type 0 where
    pub added : List (LedgerEntry N)
    pub movements : postings_of added ≡ ps
    pub carried_out : All (CarriedOut env rec) added
    pub appended : Appended rec.id added db db'

module _ (dec : Decimals) where
  open dec use {Num}

  append_movements-Posted :
      (c : Caller Num) (env : Env Num) (rec : DisputeRecord Num) (seq : ℕ) (ps : List (Posting Num))
      (db db' : Db Num)
      → append_movements dec c env rec seq ps db ≡ (ok tt, db')
      → Posted env rec ps db db'
  append_movements-Posted c env rec seq [] db db' h = rw (← ap (λ x. x.1) h) (record {
    added = [];
    movements = refl;
    carried_out = tt;
    appended = record {
      written = sym (append-nil (db.ledger rec.id));
      elsewhere = λ k _. refl;
      disputes = refl;
      events = refl;
    };
  })
  append_movements-Posted c env rec seq (p ∷ ps) db db' h =
      let (es, made, k) =
        lift-returns (entries env rec seq (p ∷ ps)) (λ es. append_ledger c rec.id es) h in
      let (a, b) = entries-CarriedOut env rec seq (p ∷ ps) es made in
      record {
        added = es;
        movements = a;
        carried_out = b;
        appended = append_ledger-Appended c rec.id es db db' k;
      }

  -- Whenever posting succeeds, what it adds to the end of the dispute's ledger is just the movements
  -- of the entered state, computed from the suspense balance so far and from the liability and the
  -- settlement that the payload gives and the regime accepts; each movement on the customer's account
  -- carries an approved receipt, which is the answer of the tenant's core to an instruction to move
  -- just that amount, that way, on the dispute's account and under that reference, or says that the
  -- tenant has no core; and no dispute, no log and no other dispute's ledger changes.
  pub post-Posted :
      (c : Caller Num) (env : Env Num) (rec : DisputeRecord Num) (entered : State) (seq : ℕ)
      (payload : String) (db db' : Db Num)
      → post dec c env rec entered seq payload db ≡ (ok tt, db')
      → (r : Rules) × (facts : EventFacts) × (liability : Num) × (settlement : SuspenseSettlement)
        × (rules_for rec.regime ≡ ok r)
        × (env.unmarshal payload ≡ some facts)
        × (liability_of dec r rec.disputed_amount facts.liability ≡ ok liability)
        × (parse_settlement r facts.settlement ≡ ok settlement)
        × Posted env rec
            (postings dec r (input_of dec rec entered liability settlement (db.ledger rec.id)))
            db
            db'
  unfolding post
  post-Posted c env rec entered seq payload db db' h =
      let (r, known, h1) = lift-returns (rules_for rec.regime) _ h in
      let (facts, f, h2) = lift-returns (or_malformed (env.unmarshal payload)) _ h1 in
      let (liability, l, h3) =
        lift-returns (liability_of dec r rec.disputed_amount facts.liability) _ h2 in
      let (settlement, s, h4) = lift-returns (parse_settlement r facts.settlement) _ h3 in
      let k = list_ledger-returns c rec.id _ h4 in
      (
        r,
        facts,
        liability,
        settlement,
        known,
        or_malformed-some (env.unmarshal payload) facts f,
        l,
        s,
        append_movements-Posted c env rec seq
            (postings dec r (input_of dec rec entered liability settlement (db.ledger rec.id))) db
            db' k,
      )
