-- ===== src/Application/Views/Laws.antt =====
-- Which events a view offers (application/service.go, authorize.go).
use thesis_dispute_engine.Prelude.{
  ◌≡◌, ◌↔◌, inl, inr, true, none, ap, sym, String, ℕ, List, [], ◌∷◌, arith, In, Bool-cases,
}
use thesis_dispute_engine.Prelude.Decimal.{Decimals}
use thesis_dispute_engine.Result.{Result, ok}
use thesis_dispute_engine.Domain.Vocabulary.{Event}
use thesis_dispute_engine.Domain.Lifecycle.{Dispute, apply, allowed}
use thesis_dispute_engine.Domain.Lifecycle.Allowed.{allowed_iff}
use thesis_dispute_engine.Application.Records.{
  DisputeRecord, DisputeFacts, EventRecord, event_action, lifecycle,
}
use thesis_dispute_engine.Application.Store.{
  Db, Caller, lift, gets, attempt, list_events, >>=-returns,
}
use thesis_dispute_engine.Application.Rows.{
  list_deadlines, list_ledger, list_risk, get_questionnaire,
}
use thesis_dispute_engine.Application.NoticeRows.{list_notices}
use thesis_dispute_engine.Application.Frame.Yields.{pure-Yields, >>=-Yields, Yields-returns}
use thesis_dispute_engine.Application.Reassign.{Policy}
use thesis_dispute_engine.Application.Reassign.Laws.{IsAbout, facts-returns}
use thesis_dispute_engine.Application.ViewRecords.{DisputeView}
use thesis_dispute_engine.Application.Views.{
  permitted_from, is_allowed, attachment_meta, questionnaire_view, dispute_view, view_with,
}
use mathlib.Core.Path.{subst}

module _ (dec : Decimals) where
  open dec use {Num}

  -- The policies allow the caller the event.
  abbrev pub Permits : Caller Num → Policy Num → DisputeFacts Num → Event → Type 0
  Permits c policy f e =
      is_allowed (policy.decide c.tenant c.principal c.access (event_action e) f) ≡ true

  permitted_from_iff :
      (c : Caller Num) (policy : Policy Num) (f : DisputeFacts Num) (e : Event) (es : List Event)
      → In e (permitted_from dec c policy f es) ↔ (In e es × Permits c policy f e)
  unfolding permitted_from
  permitted_from_iff c policy f e [] = (λ h. absurd h, λ h. h.0)
  permitted_from_iff c policy f e (x ∷ es) =
      elim (Bool-cases
        (is_allowed (policy.decide c.tenant c.principal c.access (event_action x) f))) [
          | inl yes_ ↦ rw yes_ (ground (arith, permitted_from_iff c policy f e es))
          | inr no_ ↦ rw no_ (ground (arith, permitted_from_iff c policy f e es))
        ]

  permitted_iff :
      (c : Caller Num) (policy : Policy Num) (f : DisputeFacts Num) (d : Dispute) (e : Event)
      → In e (permitted_from dec c policy f (allowed d))
        ↔ (((d' : Dispute) × (apply d e ≡ ok d')) × Permits c policy f e)
  permitted_iff c policy f d e =
      let (a, b) = permitted_from_iff c policy f e (allowed d) in
      let (s, t) = allowed_iff d e in (λ h. (s (a h).0, (a h).1), λ h. b (t h.0, h.1))

  -- The events of the view are those that the lifecycle accepts and that the policies allow the
  -- caller on what the store has of the dispute.
  abbrev pub Offers :
      Caller Num → Policy Num → DisputeRecord Num → Db Num → DisputeView Num → Type 0
  Offers c policy rec db v =
      (f : DisputeFacts Num) × IsAbout c db rec f
      × ((e : Event)
          → In e v.allowed_events
            ↔ (((d' : Dispute) × (apply (lifecycle rec) e ≡ ok d')) × Permits c policy f e))

  list_events-returns :
      (id : String) (events : List EventRecord) (db db' : Db Num)
      → list_events id db ≡ (ok events, db')
      → db' ≡ db
  unfolding list_events
  list_events-returns id events db db' h =
      sym (ap (λ (x : Result (List EventRecord) × Db Num). x.1) h)

  -- The view of a dispute offers the caller exactly the events that the lifecycle would accept in the
  -- dispute's state and that the policies allow the caller, asked about the dispute with the team, the
  -- amount, the currency, the state, the rail and the opener that the store has of it.
  pub view_with-Offers :
      (c : Caller Num) (policy : Policy Num) (now : ℕ) (rec : DisputeRecord Num)
      (v : DisputeView Num) (db db' : Db Num)
      → view_with dec c policy now rec none db ≡ (ok v, db')
      → Offers c policy rec db v
  unfolding view_with
  view_with-Offers c policy now rec v db db' h =
      let (events, db1, listed, h1) = >>=-returns (list_events rec.id) _ h in
      let (f, about, h2) = facts-returns c rec _ h1 in
      (
        f,
        subst (λ d. IsAbout c d rec f) (list_events-returns rec.id events db db1 listed) about,
        λ e.
            Yields-returns
              {P = λ (x : DisputeView Num).
                In e x.allowed_events
                ↔ (((d' : Dispute) × (apply (lifecycle rec) e ≡ ok d')) × Permits c policy f e)}
              (>>=-Yields (list_deadlines c rec.id) (λ deadlines.
                >>=-Yields (list_ledger c rec.id) (λ ledger.
                  >>=-Yields (list_notices c rec.id) (λ notices.
                    >>=-Yields
                      (gets (λ (db : Db Num). attachment_meta rec.id notices db.attachments))
                      (λ files. >>=-Yields (list_risk c rec.id) (λ risk.
                        >>=-Yields (attempt (get_questionnaire c rec.id)) (λ q.
                          >>=-Yields (lift (questionnaire_view q)) (λ asked.
                            pure-Yields
                              {a = dispute_view dec c policy now rec f events deadlines ledger
                                notices files risk asked}
                              (permitted_iff c policy f (lifecycle rec) e)))))))))
              h2,
      )
