-- ===== src/Application/Attachments.antt =====
-- application/attachments.go: the files of a dispute, with the calls of apptest/memstore.go. The map
-- of files is a list without repeated identifiers. The purge runs on a timer and is left out but for
-- what it deletes.
pub mod Laws
use Prim.Native.String.{len, ◌++◌ as str_append}
use thesis_dispute_engine.Prelude.{
  ℕ, ◌+◌, String, Bool, true, false, not, ◌&&◌, ◌||◌, Option, none, some, List, [], ◌∷◌, ◌++◌,
  length, str_eq, ltb, ◌==◌, if◌then◌else◌,
}
use thesis_dispute_engine.Prelude.Decimal.{Decimals}
use thesis_dispute_engine.Result.{Result, ok, err}
use thesis_dispute_engine.Errs.{Error, unprocessable, classified, new, with_detail}
use thesis_dispute_engine.Domain.QuestionSets.{contains_text}
use thesis_dispute_engine.Application.Records.{Attachment, err_not_found}
use thesis_dispute_engine.Application.Store.{
  Db, Caller, Tx, pure, fail, gets, modify, ◌>>=◌, ◌>>◌, get_dispute, with_tx,
}
use thesis_dispute_engine.Application.Rows.{or_not_found}
use thesis_dispute_engine.Application.Reassign.{Policy}
use thesis_dispute_engine.Application.Resend.{authorize_dispute}
use thesis_dispute_engine.Application.Views.{insert_by_upload, is_notice}

abbrev pub max_attachment_bytes : ℕ
max_attachment_bytes = 5242880

abbrev pub max_attachments : ℕ
max_attachments = 3

abbrev pub allowed_attachment_types : List String
allowed_attachment_types = "application/pdf" ∷ "image/png" ∷ "image/jpeg" ∷ []

abbrev pub err_attachment_refused : Error
err_attachment_refused = new unprocessable "attachment-refused" "the file cannot be attached"

abbrev pub err_attachment_unknown : Error
err_attachment_unknown =
    new unprocessable "attachment-unknown" "an attachment is not a draft of this dispute"

pub record UploadInput : Type 0 where
  pub dispute_id : String
  pub filename : String
  pub content_type : String
  pub content : String
  pub actor : String

abbrev pub is_draft : Option ℕ → Bool
is_draft none = true
is_draft (some _) = false

-- m[a.ID] = a
abbrev pub put_file : Attachment → List Attachment → List Attachment
put_file a [] = a ∷ []
put_file a (b ∷ bs) = let rest = put_file a bs in if str_eq b.id a.id then a ∷ bs else b ∷ rest

abbrev pub file_with : List Attachment → String → Option Attachment
file_with [] id = none
file_with (a ∷ more) id = let rest = file_with more id in if str_eq a.id id then some a else rest

-- The body of the loop of ClaimAttachments for one file: how many were claimed, and the files.
abbrev pub claim_one : String → ℕ → String → List Attachment → ℕ × List Attachment
claim_one dispute_id notice_id id [] = (0, [])
claim_one dispute_id notice_id id (a ∷ more) =
    let (n, rest) = claim_one dispute_id notice_id id more in
    if str_eq a.id id
    then if is_draft a.notice_id && str_eq a.dispute_id dispute_id
      then (1, record a { notice_id = some notice_id } ∷ more)
      else (0, a ∷ more)
    else (n, a ∷ rest)

abbrev pub claim_each : String → ℕ → List String → List Attachment → ℕ × List Attachment
claim_each dispute_id notice_id [] files = (0, files)
claim_each dispute_id notice_id (id ∷ ids) files =
    let (n, after) = claim_one dispute_id notice_id id files in
    let (k, done) = claim_each dispute_id notice_id ids after in (n + k, done)

-- ListAttachmentMeta for one notice, of which claimAttachments keeps those that are the notice's.
abbrev pub claimed_of : String → ℕ → List Attachment → List Attachment
claimed_of dispute_id notice_id [] = []
claimed_of dispute_id notice_id (a ∷ more) =
    let rest = claimed_of dispute_id notice_id more in
    if str_eq a.dispute_id dispute_id && is_notice notice_id a.notice_id
    then insert_by_upload (record a { content = "" }) rest
    else rest

-- The older of the drafts are deleted.
abbrev pub purge_drafts : ℕ → List Attachment → List Attachment
purge_drafts before [] = []
purge_drafts before (a ∷ more) =
    let rest = purge_drafts before more in
    if is_draft a.notice_id && ltb a.uploaded_at before then rest else a ∷ rest

abbrev enclosure_lines : List Attachment → String
enclosure_lines [] = ""
enclosure_lines (a ∷ more) = str_append "\n- " (str_append a.filename (enclosure_lines more))

pub enclosures : List Attachment → String
enclosures [] = ""
enclosures (a ∷ more) = str_append "Enclosures:" (enclosure_lines (a ∷ more))

-- The first switch of Upload: what is wrong with the file.
abbrev pub refused_file : UploadInput → Option String
refused_file inp =
    if len inp.content == 0
    then some "the file is empty"
    else if ltb max_attachment_bytes (len inp.content)
    then some "the file is larger than %d MB"
    else if not (contains_text allowed_attachment_types inp.content_type)
    then some "%s is not a PDF, PNG or JPEG"
    else if str_eq inp.filename "" || ltb 200 (len inp.filename)
    then some "the file needs a name of at most 200 characters"
    else none

abbrev pub uploaded : UploadInput → String → ℕ → Attachment
uploaded inp id now = record {
  id = id;
  dispute_id = inp.dispute_id;
  notice_id = none;
  filename = inp.filename;
  content_type = inp.content_type;
  size = len inp.content;
  content = inp.content;
  uploaded_by = inp.actor;
  uploaded_at = now;
}

abbrev in_dispute : String → Option Attachment → Option Attachment
in_dispute dispute_id none = none
in_dispute dispute_id (some a) = if str_eq a.dispute_id dispute_id then some a else none

module _ {N : Type 0} where
  abbrev pub with_files : List Attachment → Db N → Db N
  with_files files db = record db { attachments = files }

  unfoldable pub insert_attachment : Caller N → String → Attachment → Tx N (Unit {0})
  insert_attachment c dispute_id a =
      get_dispute c dispute_id
      >> modify
          (λ db. with_files (put_file (record a { dispute_id = dispute_id }) db.attachments) db)

  unfoldable pub claim_rows : String → ℕ → List String → Tx N ℕ
  claim_rows dispute_id notice_id ids db =
      let (n, files) = claim_each dispute_id notice_id ids db.attachments in
      (ok n, with_files files db)

  abbrev pub all_claimed : String → ℕ → List String → ℕ → Tx N (List Attachment)
  all_claimed dispute_id notice_id ids n =
      if not (n == length ids)
      then fail (classified err_attachment_unknown)
      else gets (λ db. claimed_of dispute_id notice_id db.attachments)

  unfoldable pub claim_attachments : String → ℕ → List String → Tx N (List Attachment)
  unfolding claim_rows
  claim_attachments dispute_id notice_id [] = pure []
  claim_attachments dispute_id notice_id (id ∷ ids) =
      if ltb max_attachments (length (id ∷ ids))
      then fail (classified (with_detail err_attachment_refused "at most %d attachments per email"))
      else claim_rows dispute_id notice_id (id ∷ ids)
        >>= all_claimed dispute_id notice_id (id ∷ ids)

  unfoldable pub get_attachment : String → String → Tx N Attachment
  get_attachment dispute_id id = do
    o ← gets (λ db. in_dispute dispute_id (file_with db.attachments id))
    or_not_found o

module _ (dec : Decimals) where
  open dec use {Num}

  abbrev pub upload_checked :
      Caller Num → Policy Num → UploadInput → Attachment → Option String → Tx Num Attachment
  upload_checked c policy inp a (some why) =
      fail (classified (with_detail err_attachment_refused why))
  upload_checked c policy inp a none = do
    authorize_dispute dec c policy "upload-attachment" inp.dispute_id
    insert_attachment c inp.dispute_id a
    pure (record a { content = "" })

  -- `id` is the new identifier.
  unfoldable pub upload :
      Caller Num → Policy Num → UploadInput → String → Db Num → Result Attachment × Db Num
  unfolding authorize_dispute insert_attachment
  upload c policy inp id =
      with_tx (upload_checked c policy inp (uploaded inp id policy.now) (refused_file inp))
