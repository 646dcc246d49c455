-- ===== src/Errs.antt =====
-- backend/internal/platform/errs/errs.go: classified errors. An error chain is a value: a classified
-- *Error, one that Wrap put a context around, or an error of another package. A message is kept as
-- its format string; the arguments that are printed into it are not modelled, and neither is the
-- registry of the codes that New fills.
pub mod Laws
use thesis_dispute_engine.Prelude.{
  String, Bool, true, false, ◌&&◌, Option, none, some, List, [], ◌++◌, str_eq,
}
use Prim.Native.String.{◌++◌ as str_append}

pub data Kind : Type 0 where
  internal invalid not_found conflict unprocessable unauthorized forbidden unavailable : Kind
  rate_limited : Kind

abbrev pub Code : Type 0
Code = String

pub record FieldError : Type 0 where
  pub field : String
  pub message : String

pub record Error : Type 0 where
  pub kind : Kind
  pub code : Code
  pub msg : String
  pub fields : List FieldError

-- A Go error: `classified e` is an *Error, `wrapped c e` what Wrap returns, `opaque` any other.
pub data GoError : Type 0 where
  classified : Error → GoError
  wrapped : String → GoError → GoError
  opaque : String → GoError

abbrev pub internal_code : Code
internal_code = "internal"

abbrev pub new : Kind → Code → String → Error
new kind code msg = record { kind = kind; code = code; msg = msg; fields = [] }

abbrev pub wrap : GoError → String → GoError
wrap e context = wrapped context e

abbrev pub with_fields : Error → List FieldError → Error
with_fields e fields = record { kind = e.kind; code = e.code; msg = e.msg; fields = fields }

-- The detail is a format string, which Sprintf fills in.
abbrev pub with_detail : Error → String → Error
with_detail e detail = record {
  kind = e.kind;
  code = e.code;
  msg = str_append e.msg (str_append ": " detail);
  fields = e.fields;
}

abbrev pub kind_eq : Kind → Kind → Bool
kind_eq internal internal = true
kind_eq invalid invalid = true
kind_eq not_found not_found = true
kind_eq conflict conflict = true
kind_eq unprocessable unprocessable = true
kind_eq unauthorized unauthorized = true
kind_eq forbidden forbidden = true
kind_eq unavailable unavailable = true
kind_eq rate_limited rate_limited = true
kind_eq _ _ = false

-- (*Error).Is against a sentinel
abbrev pub error_is : Error → Error → Bool
error_is e t = str_eq t.code e.code && kind_eq t.kind e.kind

-- errors.Is(err, sentinel): the chain is walked from the outside
unfoldable pub is : GoError → Error → Bool
is (classified e) t = error_is e t
is (wrapped _ e) t = is e t
is (opaque _) t = false

-- errors.As(err, &e): the outermost classified error
unfoldable pub as_error : GoError → Option Error
as_error (classified e) = some e
as_error (wrapped _ e) = as_error e
as_error (opaque _) = none

unfoldable pub kind_of : GoError → Kind
unfolding as_error
kind_of err = elim (as_error err) [ some e ↦ e.kind | none ↦ internal ]

unfoldable pub code_of : GoError → Code
unfolding as_error
code_of err = elim (as_error err) [ some e ↦ e.code | none ↦ internal_code ]

unfoldable pub fields_of : GoError → List FieldError
unfolding as_error
fields_of err = elim (as_error err) [ some e ↦ e.fields | none ↦ [] ]

unfoldable pub user_message : GoError → String
unfolding as_error
user_message err = elim (as_error err) [ some e ↦ e.msg | none ↦ "" ]

abbrev retryable_kind : Kind → Code → Bool
retryable_kind unavailable _ = true
retryable_kind rate_limited _ = true
retryable_kind conflict c = str_eq c "concurrent-update"
retryable_kind _ _ = false

unfoldable pub retryable : GoError → Bool
unfolding kind_of code_of
retryable err = retryable_kind (kind_of err) (code_of err)
