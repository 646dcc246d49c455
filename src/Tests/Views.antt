-- ===== src/Tests/Views.antt =====
-- Runs of notify and permitted (application/service.go, authorize.go), in whole cents.
use thesis_dispute_engine.Prelude.{none, [], ◌≡◌, refl}
use thesis_dispute_engine.Prelude.Int.{ℤ, pos, cents}
use thesis_dispute_engine.Result.{ok}
use thesis_dispute_engine.Domain.Vocabulary.{Rail, investigating, provisional_credit_issued}
use thesis_dispute_engine.Domain.Regime.{Rules, rules_for}
use thesis_dispute_engine.Domain.Notice.{notices_for, channels_for}
use thesis_dispute_engine.Application.Records.{DisputeFacts}
use thesis_dispute_engine.Application.Store.{Db}
use thesis_dispute_engine.Application.Notices.{notify}
use thesis_dispute_engine.Application.Notices.Laws.{Adds, IsOwedTo, notify-Adds}
use thesis_dispute_engine.Application.Reassign.{facts}
use thesis_dispute_engine.Application.NoticeRows.{list_notices}
use thesis_dispute_engine.Application.Rows.{list_risk}
use thesis_dispute_engine.Application.Store.{list_events}
use thesis_dispute_engine.Application.ViewRecords.{DisputeView}
use thesis_dispute_engine.Application.Views.{
  dispute_view, view_with, permitted_from, attachment_meta,
}
use thesis_dispute_engine.Application.Views.Laws.{Offers, view_with-Offers}
use thesis_dispute_engine.Application.NoticeRows.{tenant_name}
use thesis_dispute_engine.Application.NoticeRows.{get_account}
use thesis_dispute_engine.Application.Store.{get_transaction}
use thesis_dispute_engine.Application.Rows.{list_deadlines}
use thesis_dispute_engine.Application.Store.{get_dispute}
use thesis_dispute_engine.Application.Rows.{list_ledger}
use thesis_dispute_engine.Application.Rows.{get_questionnaire}
use thesis_dispute_engine.Errs.{is}
use thesis_dispute_engine.Tests.Application.{caller, dispute, stored}
use thesis_dispute_engine.Tests.Reassign.{policy}
use thesis_dispute_engine.Tests.Transition.{empty_store, service}

abbrev pub holding : Db ℤ
holding = record empty_store { disputes = stored.disputes }

abbrev notified : Db ℤ
notified = (notify cents caller service.writer dispute provisional_credit_issued 3 90 holding).1

notify_run :
    notify cents caller service.writer dispute provisional_credit_issued 3 90 holding
    ≡ (ok tt, notified)
unfolding notify rules_for notices_for tenant_name get_account get_transaction list_deadlines
    get_dispute list_ledger get_questionnaire is channels_for
notify_run = refl

notify-Adds_example :
    (r : Rules) × (rules_for dispute.regime ≡ ok r)
    × Adds
        (IsOwedTo cents holding dispute 3 90
          (channels_for r)
          (notices_for r provisional_credit_issued))
        holding
        notified
notify-Adds_example =
    notify-Adds cents caller service.writer dispute provisional_credit_issued 3 90 holding notified
      notify_run

abbrev about : DisputeFacts ℤ
about = record {
  id = "d1";
  team = "cards";
  amount = pos 12000;
  currency = "USD";
  rail = Rail.card;
  state = investigating;
  investigation_opened_by = "";
}

abbrev shown : DisputeView ℤ
shown =
    dispute_view cents caller policy 90 dispute about (holding.events "d1") (holding.deadlines "d1")
      (holding.ledger "d1") [] [] (holding.risk "d1") none

view_run : view_with cents caller policy 90 dispute none holding ≡ (ok shown, holding)
unfolding view_with permitted_from attachment_meta facts get_transaction list_events list_deadlines
    get_dispute list_ledger list_notices list_risk get_questionnaire is
view_run = refl

view_with-Offers_example : Offers cents caller policy dispute holding shown
view_with-Offers_example =
    view_with-Offers cents caller policy 90 dispute shown holding holding view_run
