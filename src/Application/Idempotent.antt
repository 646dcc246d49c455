-- ===== src/Application/Idempotent.antt =====
-- `idempotent` of application/service.go: a repeated key is answered from the stored response. The
-- hash is of crypto/sha256 and the two codecs are of encoding/json: parameters.
pub mod Laws
pub mod Runs
use thesis_dispute_engine.Prelude.{
  String, Bool, true, false, not, Option, none, some, str_eq, if◌then◌else◌,
}
use Prim.Native.String.{◌++◌ as str_append}
use thesis_dispute_engine.Result.{Result, ok, err}
use thesis_dispute_engine.Errs.{GoError, classified, wrap, is}
use thesis_dispute_engine.Application.Records.{
  Principal, PrincipalKind, StoredResponse, err_idempotency_reuse, err_not_found,
}
use thesis_dispute_engine.Application.Store.{
  Db, Caller, Tx, pure, fail, lift, ◌>>=◌, ◌>>◌, with_tx, attempt,
}
use thesis_dispute_engine.Application.Rows.{get_idempotent, put_idempotent}

-- A view is encoded as it is answered. What was encoded can be decoded.
pub record Codec (View : Type 0) : Type 0 where
  pub sum256 : String → String
  pub marshal : View → Result String
  pub unmarshal : String → Result View

pub record Idempotency : Type 0 where
  pub key : String
  pub request_body : String

pub record Answer (View : Type 0) : Type 0 where
  pub view : View
  pub replayed : Bool

abbrev pub kind_text : PrincipalKind → String
kind_text PrincipalKind.analyst = "analyst"
kind_text PrincipalKind.key = "key"

-- A key is its caller's own.
unfoldable pub store_scope : Principal → String → String
store_scope p scope =
    str_append scope (str_append "@" (str_append (kind_text p.kind) (str_append ":" p.id)))

abbrev pub decoded : {View : Type 0} → Result View → Result (Answer View)
decoded (ok view) = ok (record { view = view; replayed = true })
decoded (err e) = err (wrap e "application: decode stored response: %w")

abbrev pub response_to : String → String → StoredResponse
response_to hash body = record { request_hash = hash; status_code = 0; body = body }

module _ {N View : Type 0} (codec : Codec View) where
  -- What a stored response answers.
  unfoldable pub replay : String → StoredResponse → Tx N (Answer View)
  replay hash stored =
      if not (str_eq stored.request_hash hash)
      then fail (classified err_idempotency_reuse)
      else lift (decoded (codec.unmarshal stored.body))

  unfoldable pub store_view : Caller N → String → Idempotency → String → View → Tx N (Unit {0})
  store_view c scope idem hash view =
      if not (str_eq idem.key "")
      then (lift (codec.marshal view) >>= λ body.
          put_idempotent c (store_scope c.principal scope) idem.key (response_to hash body))
      else pure tt

  -- The write, and its response under the key.
  unfoldable pub first_time :
      Caller N → String → Idempotency → String → Tx N View → Tx N (Answer View)
  unfolding store_view
  first_time c scope idem hash fn = fn >>= λ view.
      store_view c scope idem hash view >> pure (record { view = view; replayed = false })

  -- `errors.Is(err, ErrNotFound)` lets the request go on; any other error ends it.
  abbrev pub unless_not_found : GoError → Tx N (Answer View) → Tx N (Answer View)
  unless_not_found e go = if not (is e err_not_found) then fail e else go

  -- The lookup of a key that was stored before keys belonged to their caller.
  abbrev pub old_lookup : Result StoredResponse → Tx N (Answer View) → Tx N (Answer View)
  old_lookup (ok stored) go = fail (classified err_idempotency_reuse)
  old_lookup (err e) go = unless_not_found e go

  abbrev pub lookup :
      Caller N
      → String
      → Idempotency
      → String
      → Tx N (Answer View)
      → Result StoredResponse
      → Tx N (Answer View)
  lookup c scope idem hash go (ok stored) = replay hash stored
  lookup c scope idem hash go (err e) = unless_not_found e (
      if not (str_eq (store_scope c.principal scope) scope)
      then (attempt (get_idempotent c scope idem.key) >>= λ r. old_lookup r go)
      else go)

  unfoldable pub keyed : Caller N → String → Idempotency → Tx N View → Tx N (Answer View)
  keyed c scope idem fn =
      if not (str_eq idem.key "")
      then (let hash = codec.sum256 idem.request_body in
          attempt (get_idempotent c (store_scope c.principal scope) idem.key)
          >>= lookup c scope idem hash (first_time c scope idem hash fn))
      else first_time c scope idem "" fn

  unfoldable pub idempotent :
      Caller N → String → Idempotency → Tx N View → Db N → Result (Answer View) × Db N
  unfolding keyed
  idempotent c scope idem fn = with_tx (keyed c scope idem fn)
