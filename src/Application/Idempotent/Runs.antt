-- ===== src/Application/Idempotent/Runs.antt =====
-- What a write behind a key does (application/service.go): it is replayed, or it runs.
use thesis_dispute_engine.Prelude.{
  String, ◌≡◌, ◌≢◌, refl, ap, sym, arith, eq_iff, ◌⊎◌, inl, inr, true, false, not, str_eq,
  Bool-cases, Option-cases,
}
use thesis_dispute_engine.Result.{Result, ok, err, ok-injective}
use thesis_dispute_engine.Errs.{is}
use thesis_dispute_engine.Application.Records.{StoredResponse}
use thesis_dispute_engine.Application.Store.{
  Db, Caller, Tx, with_tx, committed, ◌>>=◌, >>=-returns, attempt, lift,
}
use thesis_dispute_engine.Application.Rows.{get_idempotent, put_idempotent}
use thesis_dispute_engine.Application.Frame.{
  Aside, Keeps, Keeps-returns, pure-Keeps, lift-Keeps, modify-Keeps, >>=-Keeps, if-Keeps,
}
use thesis_dispute_engine.Application.Idempotent.{
  Codec, Idempotency, Answer, store_scope, replay, first_time, keyed, idempotent, old_lookup,
  store_view, decoded,
}
use thesis_dispute_engine.Application.Idempotent.Laws.{Stored}

module _ {N View : Type 0} where
  -- The write ran, and its response was kept beside what it wrote.
  abbrev pub Ran : Tx N View → Db N → Answer View → Db N → Type 0
  Ran fn db a db' = (db1 : Db N) × (a.replayed ≡ false) × (fn db ≡ (ok a.view, db1)) × Aside db1 db'

  -- The answer was one that was kept, and nothing was written.
  abbrev pub Replayed : Db N → Answer View → Db N → Type 0
  Replayed db a db' = (a.replayed ≡ true) × (db' ≡ db)

module _ {N View : Type 0} (codec : Codec View) where
  -- The view that is answered is what the response decodes to that the caller's key holds, and that
  -- response is one to a body with the hash of this one.
  abbrev pub FromKept : Caller N → String → Idempotency → Db N → Answer View → Db N → Type 0
  FromKept c scope idem db a db' =
      Replayed db a db' × (idem.key ≢ "") × Stored codec c scope idem a.view db

  -- How a request ends: answered from what was kept, answered after it ran, or refused with its
  -- writes undone, all but the counter of notices.
  abbrev pub Ends :
      Caller N → String → Idempotency → Tx N View → Db N → Result (Answer View) × Db N → Type 0
  Ends c scope idem fn db (ok a, db') = FromKept c scope idem db a db' ⊎ Ran fn db a db'
  Ends c scope idem fn db (err e, db') = db' ≡ record db { next_notice = db'.next_notice }

  put_idempotent-Keeps :
      (c : Caller N) (scope key : String) (r : StoredResponse)
      → Keeps (put_idempotent c scope key r)
  unfolding put_idempotent
  put_idempotent-Keeps c scope key r =
      modify-Keeps (λ db. record { disputes = refl; events = refl; ledger = refl })

  store_view-Keeps :
      (c : Caller N) (scope : String) (idem : Idempotency) (hash : String) (v : View)
      → Keeps (store_view codec c scope idem hash v)
  unfolding store_view
  store_view-Keeps c scope idem hash v =
      if-Keeps (not (str_eq idem.key ""))
        (>>=-Keeps lift-Keeps
          (λ body. put_idempotent-Keeps c (store_scope c.principal scope) idem.key _))
        pure-Keeps

  first_time-Ran :
      (c : Caller N) (scope : String) (idem : Idempotency) (hash : String) (fn : Tx N View)
      (db db' : Db N) (a : Answer View)
      → first_time codec c scope idem hash fn db ≡ (ok a, db')
      → Ran fn db a db'
  unfolding first_time
  first_time-Ran c scope idem hash fn db db' a h =
      let (v, db1, ran, h1) = >>=-returns fn _ h in
      let (u, db2, stored, h2) = >>=-returns (store_view codec c scope idem hash v) _ h1 in
      let same : record { view = v; replayed = false } ≡ a = ok-injective (ap (λ x. x.0) h2) in
      rw (← same, ← ap (λ x. x.1) h2)
        (db1, refl, ran, Keeps-returns (store_view-Keeps c scope idem hash v) stored)

  decoded-Replayed :
      (x : Result View) (db db' : Db N) (a : Answer View)
      → lift (decoded x) db ≡ (ok a, db')
      → Replayed db a db' × (x ≡ ok a.view)
  decoded-Replayed (ok v) db db' a h =
      let same : record { view = v; replayed = true } ≡ a = ok-injective (ap (λ x. x.0) h) in
      rw (← same) ((refl, sym (ap (λ x. x.1) h)), refl)
  decoded-Replayed (err e) db db' a h = absurd (cc)

  replay-Replayed :
      (hash : String) (stored : StoredResponse) (db db' : Db N) (a : Answer View)
      → replay codec hash stored db ≡ (ok a, db')
      → (stored.request_hash ≡ hash) × Replayed db a db' × (codec.unmarshal stored.body ≡ ok a.view)
  unfolding replay
  replay-Replayed hash stored db db' a h = elim (Bool-cases (str_eq stored.request_hash hash)) [
    | inl e ↦
        let (kept, view) = decoded-Replayed (codec.unmarshal stored.body) db db' a (rw e at h) in
        ((eq_iff stored.request_hash hash).0 e, kept, view)
    | inr e ↦ absurd (let k = rw e at h in cc)
  ]

  old_lookup-Ran :
      (c : Caller N) (scope : String) (idem : Idempotency) (hash : String) (fn : Tx N View)
      (db db' : Db N) (a : Answer View)
      → (attempt (get_idempotent c scope idem.key) >>= λ r.
            old_lookup codec r (first_time codec c scope idem hash fn))
          db
        ≡ (ok a, db')
      → Ran fn db a db'
  unfolding get_idempotent is
  old_lookup-Ran c scope idem hash fn db db' a h =
      elim (Option-cases (db.idempotent c.tenant scope idem.key)) [
        | inl e ↦ first_time-Ran c scope idem hash fn db db' a (rw e at h)
        | inr (old, e) ↦ absurd (let no_ = rw e at h in cc)
      ]

  keyed-Ran :
      (c : Caller N) (scope : String) (idem : Idempotency) (fn : Tx N View) (db db' : Db N)
      (a : Answer View)
      → keyed codec c scope idem fn db ≡ (ok a, db')
      → FromKept c scope idem db a db' ⊎ Ran fn db a db'
  unfolding keyed get_idempotent is
  keyed-Ran c scope idem fn db db' a h = elim (Bool-cases (str_eq idem.key "")) [
    | inl k ↦ inr (first_time-Ran c scope idem "" fn db db' a (rw k at h))
    | inr k ↦
        elim (Option-cases (db.idempotent c.tenant (store_scope c.principal scope) idem.key)) [
          | inr (stored, e) ↦
              let (same, kept, view) =
                replay-Replayed (codec.sum256 idem.request_body) stored db db' a (rw (k, e) at h) in
              inl (
                kept,
                ground (arith, eq_iff idem.key ""),
                record { response = stored; held = e; hash = same; body = view },
              )
          | inl e ↦ elim (Bool-cases (str_eq (store_scope c.principal scope) scope)) [
            | inl f ↦ inr (
                first_time-Ran c scope idem (codec.sum256 idem.request_body) fn db db' a
                  (rw (k, e, f) at h))
            | inr f ↦ inr (
                old_lookup-Ran c scope idem (codec.sum256 idem.request_body) fn db db' a
                  (rw (k, e, f) at h))
          ]
        ]
  ]

  pub idempotent-Ends :
      (c : Caller N) (scope : String) (idem : Idempotency) (fn : Tx N View) (db : Db N)
      → Ends c scope idem fn db (idempotent codec c scope idem fn db)
  unfolding idempotent with_tx
  idempotent-Ends c scope idem fn db = go (keyed codec c scope idem fn db) refl
    where
      go :
          (x : Result (Answer View) × Db N)
          → keyed codec c scope idem fn db ≡ x
          → Ends c scope idem fn db (committed db x)
      go (err e, db1) k = refl
      go (ok a, db1) k = keyed-Ran c scope idem fn db db1 a k

  -- A property that a failed transaction keeps, and the write keeps, is kept by the request.
  pub idempotent-keeps :
      (P : Db N → Type 0)
      → ((db db' : Db N) → Aside db db' → P db → P db')
      → (c : Caller N) (scope : String) (idem : Idempotency) (fn : Tx N View) (db : Db N)
      → ((v : View) (db' : Db N) → fn db ≡ (ok v, db') → P db')
      → P db
      → P (idempotent codec c scope idem fn db).1
  idempotent-keeps P aside c scope idem fn db runs h =
      go (idempotent codec c scope idem fn db) (idempotent-Ends c scope idem fn db)
    where
      go : (x : Result (Answer View) × Db N) → Ends c scope idem fn db x → P x.1
      go (err e, db1) k = rw k (
          aside db (record db { next_notice = db1.next_notice })
            (record { disputes = refl; events = refl; ledger = refl }) h)
      go (ok a, db1) (inl ((_, same), _, _)) = rw same h
      go (ok a, db1) (inr (db2, _, ran, kept)) = aside db2 db1 kept (runs a.view db2 ran)
