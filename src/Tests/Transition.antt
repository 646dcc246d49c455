-- ===== src/Tests/Transition.antt =====
-- Runs of CreateDispute, ApplyEvent and Reassign (application/service.go, routing.go), in whole cents.
use thesis_dispute_engine.Prelude.{◌≡◌, refl, Bool, true, false, none, some, []}
use thesis_dispute_engine.Prelude.Int.{ℤ, pos, cents}
use thesis_dispute_engine.Result.{Result, ok, err}
use thesis_dispute_engine.Errs.{opaque}
use thesis_dispute_engine.Domain.Vocabulary.{Event, Regime, closed, unauthorised}
use thesis_dispute_engine.Application.Store.{Db, put}
use thesis_dispute_engine.Application.Idempotent.{Codec}
use thesis_dispute_engine.Application.ViewRecords.{DisputeView}
use thesis_dispute_engine.Application.Sound.{Sound}
use thesis_dispute_engine.Application.Histories.{
  IsEmpty, IsFresh, creates, applies, Reached, start, later, Reached-replays, Reached-cleared,
}
use thesis_dispute_engine.Application.Reassign.{reassign}
use thesis_dispute_engine.Application.Reassign.Keeps.{reassign-Sound}
use thesis_dispute_engine.Application.Transition.{
  Service, CreateDisputeInput, ApplyEventInput, create_dispute, apply_event,
}
use thesis_dispute_engine.Application.Transition.Keeps.{apply_event-Sound}
use thesis_dispute_engine.Application.Transition.Opening.{create_dispute-Sound}
use thesis_dispute_engine.Application.Transition.Outcomes.{
  Applies, apply_event-Applies, Opens, create_dispute-Opens, Refines, apply_event-Refines,
}
use thesis_dispute_engine.Application.Idempotent.{idempotent}
use thesis_dispute_engine.Application.Store.{with_tx}
use thesis_dispute_engine.Application.Rows.{get_idempotent}
use thesis_dispute_engine.Application.Idempotent.{first_time}
use thesis_dispute_engine.Application.Store.{get_transaction}
use thesis_dispute_engine.Domain.Regime.{regime_for}
use thesis_dispute_engine.Domain.QuestionSets.{parse_reason}
use thesis_dispute_engine.Application.Reassign.{authorize}
use thesis_dispute_engine.Application.Store.{insert_dispute}
use thesis_dispute_engine.Application.Store.{append_event}
use thesis_dispute_engine.Domain.Regime.{rules_for}
use thesis_dispute_engine.Domain.Deadline.{opening_deadlines}
use thesis_dispute_engine.Domain.Deadline.{counts}
use thesis_dispute_engine.Application.Rows.{insert_deadlines}
use thesis_dispute_engine.Application.Store.{get_dispute}
use thesis_dispute_engine.Application.Notices.{notify}
use thesis_dispute_engine.Domain.Notice.{notices_for}
use thesis_dispute_engine.Application.NoticeRows.{tenant_name}
use thesis_dispute_engine.Application.NoticeRows.{get_account}
use thesis_dispute_engine.Application.Rows.{list_deadlines}
use thesis_dispute_engine.Application.Rows.{list_ledger}
use thesis_dispute_engine.Application.Rows.{get_questionnaire}
use thesis_dispute_engine.Errs.{is}
use thesis_dispute_engine.Domain.Notice.{channels_for}
use thesis_dispute_engine.Application.Rows.{settle_deadline}
use thesis_dispute_engine.Application.Assess.{assess}
use thesis_dispute_engine.Application.Assess.{account_history}
use thesis_dispute_engine.Application.Rows.{insert_risk}
use thesis_dispute_engine.Application.Views.{view_with}
use thesis_dispute_engine.Application.Store.{list_events}
use thesis_dispute_engine.Application.Reassign.{facts}
use thesis_dispute_engine.Application.NoticeRows.{list_notices}
use thesis_dispute_engine.Application.Rows.{list_risk}
use thesis_dispute_engine.Application.Idempotent.{store_scope}
use thesis_dispute_engine.Domain.Lifecycle.{apply}
use thesis_dispute_engine.Domain.Lifecycle.{next}
use thesis_dispute_engine.Application.Store.{update_dispute_state}
use thesis_dispute_engine.Application.Assess.{questionnaire}
use thesis_dispute_engine.Application.Clocks.{settle_deadlines}
use thesis_dispute_engine.Domain.Deadline.{is_open}
use thesis_dispute_engine.Domain.Deadline.{settle}
use thesis_dispute_engine.Application.Money.{post}
use thesis_dispute_engine.Domain.Ledger.{parse_settlement}
use thesis_dispute_engine.Domain.Ledger.{postings}
use thesis_dispute_engine.Application.Rows.{put_idempotent}
use thesis_dispute_engine.Application.Records.{DisputeRecord, lifecycle}
use thesis_dispute_engine.Application.Log.{replay, Numbered}
use thesis_dispute_engine.Application.Money.{postings_of}
use thesis_dispute_engine.Domain.Ledger.{suspense_balance}
use thesis_dispute_engine.Application.Routing.{route}
use thesis_dispute_engine.Tests.Application.{caller, stored, no_holidays}
use thesis_dispute_engine.Tests.Reassign.{policy, with_transaction}

abbrev pub empty_store : Db ℤ
empty_store = record stored {
  transactions = with_transaction.transactions;
  disputes = λ _. none;
  deadlines = λ _. [];
  dispute_ids = [];
  accounts =
      put "a1"
        (some (record {
          id = "a1";
          holder = "Ada";
          currency = "USD";
          email = "ada@example.com";
          postal_address = "1 Test Street";
          opened_at = 0;
        }))
        (λ _. none);
}

abbrev pub service : Service ℤ
service = record {
  policy = policy;
  view_now = 91;
  calendar = no_holidays;
  tenant_core = record { kind = ""; settings = "" };
  adapters = λ _. none;
  unmarshal =
      λ _. some (record { liability = none; settlement = ""; answers = none; risk_override = "" });
  reference = λ id seq kind. id;
  trim_space = λ s. s;
  times = record { whole_days = λ n. n; year_before = λ t. 0 };
  writer = record {
    compose = λ kind f. record {
      bank = f.bank;
      subject = "notice";
      greeting = "";
      paragraphs = [];
      closing = "";
      basis = "";
    };
    marshal = λ d. ok d.subject;
  };
  json = record { decode = λ s. ok []; encode = λ m. ok "{}"; texts = λ l. "" };
  new_id = ok "d1";
  suggested = λ p kept. ok "{}";
}

abbrev pub view_codec : Codec (DisputeView ℤ)
view_codec = record { sum256 = λ s. s; marshal = λ v. ok v.id; unmarshal = λ s. err (opaque s) }

abbrev pub opening_input : CreateDisputeInput
opening_input = record {
  transaction_id = "t1";
  reason = "";
  idempotency = record { key = ""; request_body = "" };
  suggestion = none;
}

abbrev pub opens_investigation : ApplyEventInput
opens_investigation = record {
  dispute_id = "d1";
  event = Event.open_investigation;
  payload = "";
  idempotency = record { key = "k"; request_body = "{}" };
}

abbrev succeeded : {A : Type 0} → Result A → Bool
succeeded (ok a) = true
succeeded (err e) = false

abbrev pub after_opening : Db ℤ
after_opening = (create_dispute cents caller service view_codec opening_input empty_store).1

abbrev pub after_event : Db ℤ
after_event = (apply_event cents caller service view_codec opens_investigation after_opening).1

empty_store-IsEmpty : IsEmpty cents empty_store
empty_store-IsEmpty id = (refl, refl, refl)

empty_store-Sound : Sound cents empty_store
empty_store-Sound id = (refl, refl)

service-IsFresh : IsFresh cents service empty_store
service-IsFresh id h = refl

create_dispute-Opens_example :
    Opens cents caller service view_codec opening_input empty_store
      (create_dispute cents caller service view_codec opening_input empty_store)
create_dispute-Opens_example =
    create_dispute-Opens cents caller service view_codec opening_input empty_store

create_dispute-Sound_example : Sound cents after_opening
create_dispute-Sound_example =
    create_dispute-Sound cents caller service view_codec opening_input empty_store empty_store-Sound
      service-IsFresh

after_opening-Sound : Sound cents after_opening
after_opening-Sound =
    create_dispute-Sound cents caller service view_codec opening_input empty_store empty_store-Sound
      service-IsFresh

apply_event-Applies_example :
    Applies cents caller service view_codec opens_investigation after_opening
      (apply_event cents caller service view_codec opens_investigation after_opening)
apply_event-Applies_example =
    apply_event-Applies cents caller service view_codec opens_investigation after_opening
      after_opening-Sound

apply_event-Refines_example :
    Refines cents opens_investigation after_opening
      (apply_event cents caller service view_codec opens_investigation after_opening)
apply_event-Refines_example =
    apply_event-Refines cents caller service view_codec opens_investigation after_opening
      after_opening-Sound

apply_event-Sound_example : Sound cents after_event
apply_event-Sound_example =
    apply_event-Sound cents caller service view_codec opens_investigation after_opening
      after_opening-Sound

reassign-Sound_example : Sound cents (reassign caller policy "d1" "general" after_opening).1
reassign-Sound_example =
    reassign-Sound cents caller policy "d1" "general" after_opening after_opening-Sound

event_taken :
    succeeded (apply_event cents caller service view_codec opens_investigation after_opening).0
    ≡ true
unfolding apply_event create_dispute idempotent with_tx get_idempotent first_time get_transaction
    regime_for parse_reason authorize insert_dispute append_event rules_for opening_deadlines counts
    insert_deadlines get_dispute notify notices_for tenant_name get_account list_deadlines
    list_ledger get_questionnaire is channels_for settle_deadline assess account_history insert_risk
    view_with list_events facts list_notices list_risk store_scope apply next update_dispute_state
    questionnaire settle_deadlines is_open settle post parse_settlement postings put_idempotent
event_taken = refl

abbrev closes_it : ApplyEventInput
closes_it = record {
  dispute_id = "d1";
  event = Event.close;
  payload = "{}";
  idempotency = record { key = ""; request_body = "" };
}

abbrev after_close : Db ℤ
after_close = (apply_event cents caller service view_codec closes_it after_event).1

abbrev closed_record : DisputeRecord ℤ
closed_record = record {
  id = "d1";
  tenant_id = "bank";
  team = "general";
  regime = Regime.us_reg_e;
  state = closed;
  appeals = 0;
  version = 3;
  transaction_id = "t1";
  account_id = "a1";
  disputed_amount = pos 12000;
  currency = "USD";
  opened_at = 90;
  updated_at = 90;
  reason = unauthorised;
}

closed_held : after_close.disputes "d1" ≡ some closed_record
unfolding apply_event create_dispute idempotent with_tx get_idempotent first_time get_transaction
    regime_for parse_reason authorize insert_dispute append_event rules_for opening_deadlines counts
    insert_deadlines get_dispute notify notices_for tenant_name get_account list_deadlines
    list_ledger get_questionnaire is channels_for settle_deadline assess account_history insert_risk
    view_with list_events facts list_notices list_risk store_scope apply next update_dispute_state
    questionnaire settle_deadlines is_open settle post parse_settlement postings put_idempotent
    suspense_balance route
closed_held = refl

after_close-Reached : Reached cents after_close
after_close-Reached =
    later after_event after_close
      (later after_opening after_event
        (later empty_store after_opening (start empty_store empty_store-IsEmpty)
          (creates caller service view_codec opening_input empty_store service-IsFresh))
        (applies caller service view_codec opens_investigation after_opening))
      (applies caller service view_codec closes_it after_event)

Reached-replays_example :
    (replay Regime.us_reg_e (after_close.events "d1") ≡ ok (lifecycle closed_record))
    × Numbered 0 (after_close.events "d1") 3
Reached-replays_example =
    Reached-replays cents after_close "d1" closed_record after_close-Reached closed_held

Reached-cleared_example : suspense_balance cents (postings_of (after_close.ledger "d1")) ≡ pos 0
Reached-cleared_example =
    Reached-cleared cents after_close "d1" closed_record after_close-Reached closed_held refl
