-- ===== src/Tests/Lifecycle.antt =====
-- Runs of the regimes, the errors and the lifecycle (platform/errs, domain/regime.go, rail.go,
-- state.go).
use thesis_dispute_engine.Prelude.{◌≤◌, ◌≡◌, refl, ◌↔◌, List, [], ◌∷◌, arith}
use thesis_dispute_engine.Result.{ok}
use thesis_dispute_engine.Errs.{
  GoError, Error, error_is, retryable, Kind, wrap, classified, with_fields, with_detail, is,
  kind_of, code_of, new,
}
use thesis_dispute_engine.Errs.Laws.{as_is, in_context, with_more, in_detail, classification_kept}
use thesis_dispute_engine.Domain.Vocabulary.{
  Regime, initiated, chargeback_lost, closed, Event, open_investigation, issue_refund,
  file_chargeback, acknowledge_chargeback, lose_chargeback, reverse_provisional_credit, close,
  appeal,
}
use thesis_dispute_engine.Domain.Regime.{Rules, reg_e_rules, rules_for}
use thesis_dispute_engine.Domain.Lifecycle.{
  Dispute, new_dispute, next, apply, err_appeals_exhausted,
}
use thesis_dispute_engine.Domain.Lifecycle.Spec.{Step, apply_iff}
use thesis_dispute_engine.Domain.Lifecycle.Bounds.{apply_all, history_bounded}
use thesis_dispute_engine.Domain.Lifecycle.Reach.{IsValid, history-IsValid, IsValid-closable}

abbrev opened : Dispute
opened = record { regime = Regime.us_reg_e; state = initiated; appeals = 0 }

abbrev lost : Dispute
lost = record { regime = Regime.us_reg_e; state = chargeback_lost; appeals = 0 }

abbrev done : Dispute
done = record { regime = Regime.us_reg_e; state = closed; appeals = 0 }

-- A chargeback that was lost, with the provisional credit taken back.
abbrev lost_events : List Event
lost_events =
    open_investigation ∷ issue_refund ∷ file_chargeback ∷ acknowledge_chargeback ∷ lose_chargeback
    ∷ reverse_provisional_credit ∷ close ∷ []

lost-IsValid : IsValid reg_e_rules lost
unfolding rules_for
lost-IsValid = record { known = refl; enabled = refl; appeals_capped = omega arith }

abbrev dressed : GoError
dressed = wrap (classified (with_fields (with_detail err_appeals_exhausted "x") [])) "y"

classification_kept_example :
    (kind_of dressed ≡ Kind.conflict)
    × (code_of dressed ≡ "appeals-exhausted")
    × (retryable dressed ≡ retryable (classified err_appeals_exhausted))
    × ((sentinel : Error) → is dressed sentinel ≡ error_is err_appeals_exhausted sentinel)
classification_kept_example = classification_kept err_appeals_exhausted dressed (
    in_context (classified (with_fields (with_detail err_appeals_exhausted "x") [])) "y" (
      with_more (with_detail err_appeals_exhausted "x") []
        (in_detail err_appeals_exhausted "x" as_is)))

abbrev stale : GoError
stale = classified (new Kind.conflict "concurrent-update" "the dispute changed")

apply_iff_example : (apply done appeal ≡ ok opened) ↔ Step reg_e_rules done appeal opened
unfolding rules_for
apply_iff_example = apply_iff reg_e_rules done opened appeal refl

history_bounded_example : 7 ≤ 20
unfolding new_dispute rules_for apply_all apply next
history_bounded_example = history_bounded Regime.us_reg_e opened done lost_events refl refl

history-IsValid_example : (r : Rules) × (rules_for Regime.us_reg_e ≡ ok r) × IsValid r done
unfolding new_dispute rules_for apply_all apply next
history-IsValid_example = history-IsValid Regime.us_reg_e opened done lost_events refl refl

IsValid-closable_example : (es : List Event) × (apply_all lost es ≡ ok done)
IsValid-closable_example = IsValid-closable reg_e_rules lost lost-IsValid
