-- ===== src/Tests/Attachments.antt =====
-- A run of claimAttachments (application/attachments.go): one of two drafts is taken.
use thesis_dispute_engine.Prelude.{ℕ, String, ◌≡◌, refl, Option, none, some, [], ◌∷◌}
use thesis_dispute_engine.Prelude.Int.{ℤ}
use thesis_dispute_engine.Result.{ok}
use thesis_dispute_engine.Application.Records.{Attachment}
use thesis_dispute_engine.Application.Store.{Db}
use thesis_dispute_engine.Application.Attachments.{claim_rows, claim_attachments}
use thesis_dispute_engine.Application.Attachments.Laws.{Taken, claim_attachments-Taken}
use thesis_dispute_engine.Tests.Transition.{empty_store}

abbrev file_of : String → Option ℕ → Attachment
file_of id notice_id = record {
  id = id;
  dispute_id = "d1";
  notice_id = notice_id;
  filename = "receipt.pdf";
  content_type = "application/pdf";
  size = 3;
  content = "pdf";
  uploaded_by = "ana";
  uploaded_at = 5;
}

abbrev drafts : Db ℤ
drafts = record empty_store { attachments = file_of "f1" none ∷ file_of "f2" none ∷ [] }

abbrev taken : Db ℤ
taken = record empty_store { attachments = file_of "f1" none ∷ file_of "f2" (some 4) ∷ [] }

claim_run :
    claim_attachments "d1" 4 ("f2" ∷ []) drafts
    ≡ (ok (record (file_of "f2" (some 4)) { content = "" } ∷ []), taken)
unfolding claim_attachments claim_rows
claim_run = refl

claim_attachments-Taken_example : Taken "d1" 4 ("f2" ∷ []) drafts taken
claim_attachments-Taken_example =
    claim_attachments-Taken "d1" 4 ("f2" ∷ []) drafts taken
      (record (file_of "f2" (some 4)) { content = "" } ∷ []) claim_run
