-- ===== src/Application/Idempotent/Laws.antt =====
-- What a repeated request is answered (application/service.go).
use thesis_dispute_engine.Prelude.{
  String, ◌≡◌, refl, ap, ◌≢◌, inl, inr, Bool, true, false, not, some, str_eq, arith, eq_iff,
  Bool-cases, Option-cases, if◌then◌else◌,
}
use thesis_dispute_engine.Result.{Result, ok, err, ok-injective}
use thesis_dispute_engine.Errs.{classified, is}
use thesis_dispute_engine.Application.Records.{StoredResponse, err_idempotency_reuse}
use thesis_dispute_engine.Application.Store.{
  Db, Caller, Tx, with_tx, with_tx-eq-ok, put-same, ◌>>=◌, ◌>>◌, put, continue, attempt, lift, fail,
  pure,
}
use thesis_dispute_engine.Application.Rows.{get_idempotent, put_idempotent}
use thesis_dispute_engine.Application.Idempotent.{
  Codec, Idempotency, Answer, store_scope, replay, first_time, keyed, idempotent, old_lookup,
  store_view, response_to, decoded,
}

-- What was encoded can be decoded.
abbrev pub RoundTrips : {View : Type 0} → Codec View → Type 0
RoundTrips {View} codec =
    (v : View) (body : String) → codec.marshal v ≡ ok body → codec.unmarshal body ≡ ok v

module _ {N View : Type 0} (codec : Codec View) where
  -- The key holds the response to this request.
  pub record Stored (c : Caller N) (scope : String) (idem : Idempotency) (view : View) (db : Db N)
      : Type 0 where
    pub response : StoredResponse
    pub held : db.idempotent c.tenant (store_scope c.principal scope) idem.key ≡ some response
    pub hash : response.request_hash ≡ codec.sum256 idem.request_body
    pub body : codec.unmarshal response.body ≡ ok view

  Stored-replays :
      (c : Caller N) (scope : String) (idem : Idempotency) (view : View) (fn : Tx N View)
      (db : Db N)
      → idem.key ≢ ""
      → Stored c scope idem view db
      → idempotent codec c scope idem fn db ≡ (ok (record { view = view; replayed = true }), db)
  unfolding idempotent keyed replay get_idempotent with_tx
  Stored-replays c scope idem view fn db key s =
      let k : str_eq idem.key "" ≡ false = ground (arith, eq_iff idem.key "") in
      let h : str_eq s.response.request_hash (codec.sum256 idem.request_body) ≡ true =
        (eq_iff s.response.request_hash (codec.sum256 idem.request_body)).1 s.hash in
      rw (k, s.held, h, s.body) refl

  Stored-refuses :
      (c : Caller N) (scope : String) (idem : Idempotency) (view : View) (fn : Tx N View)
      (db : Db N) (body : String)
      → idem.key ≢ ""
      → codec.sum256 body ≢ codec.sum256 idem.request_body
      → Stored c scope idem view db
      → idempotent codec c scope (record { key = idem.key; request_body = body }) fn db
        ≡ (err (classified err_idempotency_reuse), db)
  unfolding idempotent keyed replay get_idempotent with_tx
  Stored-refuses c scope idem view fn db body key other s =
      let k : str_eq idem.key "" ≡ false = ground (arith, eq_iff idem.key "") in
      let e = s.hash in
      let h : str_eq s.response.request_hash (codec.sum256 body) ≡ false =
        ground (arith, eq_iff s.response.request_hash (codec.sum256 body)) in
      rw (k, s.held, h) refl

  put_idempotent-Stored :
      (c : Caller N) (scope : String) (idem : Idempotency) (v : View) (body : String)
      (db db' : Db N)
      → codec.unmarshal body ≡ ok v
      → put_idempotent c
          (store_scope c.principal scope)
          idem.key
          (response_to (codec.sum256 idem.request_body) body)
          db
        ≡ (ok tt, db')
      → Stored c scope idem v db'
  unfolding put_idempotent
  put_idempotent-Stored c scope idem v body db db' law h =
      let mine = db.idempotent c.tenant in
      let scope' = store_scope c.principal scope in
      let row = some (response_to (codec.sum256 idem.request_body) body) in
      rw (← ap (λ x. x.1) h) (record {
        response = response_to (codec.sum256 idem.request_body) body;
        held =
            rw
              (
                put-same c.tenant (put scope' (put idem.key row (mine scope')) mine) db.idempotent,
                put-same scope' (put idem.key row (mine scope')) mine,
                put-same idem.key row (mine scope'),
              )
              refl;
        hash = refl;
        body = law;
      })

  marshal-Stored :
      (c : Caller N) (scope : String) (idem : Idempotency) (v : View) (db db' : Db N)
      → RoundTrips codec
      → (x : Result String) → codec.marshal v ≡ x
      → continue
          (λ body.
            put_idempotent c
              (store_scope c.principal scope)
              idem.key
              (response_to (codec.sum256 idem.request_body) body))
          (x, db)
        ≡ (ok tt, db')
      → Stored c scope idem v db'
  marshal-Stored c scope idem v db db' law (ok body) m h =
      put_idempotent-Stored c scope idem v body db db' (law v body m) h
  marshal-Stored c scope idem v db db' law (err e) m h = absurd (cc)

  store_view-Stored :
      (c : Caller N) (scope : String) (idem : Idempotency) (v : View) (db db' : Db N)
      → RoundTrips codec
      → str_eq idem.key "" ≡ false
      → store_view codec c scope idem (codec.sum256 idem.request_body) v db ≡ (ok tt, db')
      → Stored c scope idem v db'
  unfolding store_view
  store_view-Stored c scope idem v db db' law k h =
      marshal-Stored c scope idem v db db' law (codec.marshal v) refl (rw k at h)

  finished-Stored :
      (c : Caller N) (scope : String) (idem : Idempotency) (v : View) (db db' : Db N)
      (a : Answer View)
      → RoundTrips codec
      → str_eq idem.key "" ≡ false
      → (x : Result (Unit {0}) × Db N)
      → store_view codec c scope idem (codec.sum256 idem.request_body) v db ≡ x
      → continue (λ _. pure (record { view = v; replayed = false })) x ≡ (ok a, db')
      → Stored c scope idem a.view db'
  finished-Stored c scope idem v db db' a law k (ok u, db2) runs h =
      let same : v ≡ a.view = ap (λ (y : Answer View). y.view) (ok-injective (ap (λ x. x.0) h)) in
      let s = store_view-Stored c scope idem v db db2 law k runs in rw (← same, ← ap (λ x. x.1) h) s
  finished-Stored c scope idem v db db' a law k (err e, db2) runs h = absurd (cc)

  first_time-Stored :
      (c : Caller N) (scope : String) (idem : Idempotency) (db db' : Db N) (a : Answer View)
      → RoundTrips codec
      → str_eq idem.key "" ≡ false
      → (x : Result View × Db N)
      → continue
          (λ view.
            store_view codec c scope idem (codec.sum256 idem.request_body) view
            >> pure (record { view = view; replayed = false }))
          x
        ≡ (ok a, db')
      → Stored c scope idem a.view db'
  first_time-Stored c scope idem db db' a law k (ok v, db1) h =
      finished-Stored c scope idem v db1 db' a law k
        (store_view codec c scope idem (codec.sum256 idem.request_body) v db1) refl h
  first_time-Stored c scope idem db db' a law k (err e, db1) h = absurd (cc)

  first_time-eq-ok :
      (c : Caller N) (scope : String) (idem : Idempotency) (fn : Tx N View) (db db' : Db N)
      (a : Answer View)
      → RoundTrips codec
      → str_eq idem.key "" ≡ false
      → first_time codec c scope idem (codec.sum256 idem.request_body) fn db ≡ (ok a, db')
      → Stored c scope idem a.view db'
  unfolding first_time
  first_time-eq-ok c scope idem fn db db' a law k h =
      first_time-Stored c scope idem db db' a law k (fn db) h

  decoded-Stored :
      (c : Caller N) (scope : String) (idem : Idempotency) (db db' : Db N) (a : Answer View)
      (stored : StoredResponse)
      → db.idempotent c.tenant (store_scope c.principal scope) idem.key ≡ some stored
      → (b : Bool) → str_eq stored.request_hash (codec.sum256 idem.request_body) ≡ b
      → (x : Result View) → codec.unmarshal stored.body ≡ x
      → (if not b then fail (classified err_idempotency_reuse) else lift (decoded x)) db
        ≡ (ok a, db')
      → Stored c scope idem a.view db'
  decoded-Stored c scope idem db db' a stored held true same (ok v) body h =
      let view : v ≡ a.view = ap (λ (y : Answer View). y.view) (ok-injective (ap (λ x. x.0) h)) in
      rw (← view, ← ap (λ x. x.1) h)
        (record {
          response = stored;
          held = held;
          hash = (eq_iff stored.request_hash (codec.sum256 idem.request_body)).0 same;
          body = body;
        })
  decoded-Stored c scope idem db db' a stored held true same (err e) body h = absurd (cc)
  decoded-Stored c scope idem db db' a stored held false same x body h = absurd (cc)

  replay-Stored :
      (c : Caller N) (scope : String) (idem : Idempotency) (db db' : Db N) (a : Answer View)
      (stored : StoredResponse)
      → db.idempotent c.tenant (store_scope c.principal scope) idem.key ≡ some stored
      → replay codec (codec.sum256 idem.request_body) stored db ≡ (ok a, db')
      → Stored c scope idem a.view db'
  unfolding replay
  replay-Stored c scope idem db db' a stored held h =
      decoded-Stored c scope idem db db' a stored held
        (str_eq stored.request_hash (codec.sum256 idem.request_body)) refl
        (codec.unmarshal stored.body) refl h

  old_lookup-Stored :
      (c : Caller N) (scope : String) (idem : Idempotency) (fn : Tx N View) (db db' : Db N)
      (a : Answer View)
      → RoundTrips codec
      → str_eq idem.key "" ≡ false
      → (attempt (get_idempotent c scope idem.key) >>= λ r.
            old_lookup codec r (first_time codec c scope idem (codec.sum256 idem.request_body) fn))
          db
        ≡ (ok a, db')
      → Stored c scope idem a.view db'
  unfolding get_idempotent is
  old_lookup-Stored c scope idem fn db db' a law k h =
      elim (Option-cases (db.idempotent c.tenant scope idem.key)) [
        | inl e ↦ first_time-eq-ok c scope idem fn db db' a law k (rw e at h)
        | inr (old, e) ↦ absurd (let no_ = rw e at h in cc)
      ]

  keyed-Stored :
      (c : Caller N) (scope : String) (idem : Idempotency) (fn : Tx N View) (db db' : Db N)
      (a : Answer View)
      → RoundTrips codec
      → str_eq idem.key "" ≡ false
      → keyed codec c scope idem fn db ≡ (ok a, db')
      → Stored c scope idem a.view db'
  unfolding keyed get_idempotent is
  keyed-Stored c scope idem fn db db' a law k h =
      elim (Option-cases (db.idempotent c.tenant (store_scope c.principal scope) idem.key)) [
        | inr (stored, e) ↦ replay-Stored c scope idem db db' a stored e (rw (k, e) at h)
        | inl e ↦ elim (Bool-cases (str_eq (store_scope c.principal scope) scope)) [
          | inl f ↦ first_time-eq-ok c scope idem fn db db' a law k (rw (k, e, f) at h)
          | inr f ↦ old_lookup-Stored c scope idem fn db db' a law k (rw (k, e, f) at h)
        ]
      ]

  -- After a request with a key was answered, the same request of the same caller is answered with
  -- the same view, marked as replayed, whatever it would now do, and nothing is written; and any
  -- other request under that key, its body hashing to something else, is refused and writes nothing.
  pub idempotent_replays :
      (c : Caller N) (scope : String) (idem : Idempotency) (fn fn' : Tx N View) (db db' : Db N)
      (a : Answer View)
      → RoundTrips codec
      → idem.key ≢ ""
      → idempotent codec c scope idem fn db ≡ (ok a, db')
      → (idempotent codec c scope idem fn' db'
          ≡ (ok (record { view = a.view; replayed = true }), db'))
        × ((body : String)
            → codec.sum256 body ≢ codec.sum256 idem.request_body
            → idempotent codec c scope (record { key = idem.key; request_body = body }) fn' db'
              ≡ (err (classified err_idempotency_reuse), db'))
  unfolding idempotent
  idempotent_replays c scope idem fn fn' db db' a law key h =
      let k : str_eq idem.key "" ≡ false = ground (arith, eq_iff idem.key "") in
      let s =
        keyed-Stored c scope idem fn db db' a law k
          (with_tx-eq-ok (keyed codec c scope idem fn) a db db' h) in
      (
        Stored-replays c scope idem a.view fn' db' key s,
        λ body other. Stored-refuses c scope idem a.view fn' db' body key other s,
      )
