-- ===== src/Infrastructure/MockCore/Repeats.antt =====
-- An instruction that is given to the simulated core again
-- (infrastructure/mockcore/mockcore.go).
use thesis_dispute_engine.Prelude.{
  ◌-◌, String, ◌≡◌, refl, sym, ap, ◌∙◌, inl, inr, Bool, true, false, ◌&&◌, Option, none, some, List,
  [], ◌∷◌, str_eq, eq_iff, ltb, Bool-cases, Option-cases, if◌then◌else◌,
}
use thesis_dispute_engine.Prelude.Decimal.{Decimals}
use mathlib.Core.Path.{subst}
use thesis_dispute_engine.Result.{Result, ok, err, ok-injective}
use thesis_dispute_engine.Application.Records.{CoreReceipt}
use thesis_dispute_engine.Application.Store.{put, put-same, put-other}
use thesis_dispute_engine.Infrastructure.MockCore.{
  Settings, Message, Core, Formats, Call, settings_of, request, exchange, duplicate_of,
  response_code_of, first_receipt, remembered, answer_call, unless_down, unless_late, with_settings,
  core_post, run,
}

remembered-keeps :
    (new rrn : String) (rcpt r : CoreReceipt) (c : Core)
    → c.seen new ≡ none
    → c.seen rrn ≡ some r
    → (remembered new rcpt c).seen rrn ≡ some r
remembered-keeps new rrn rcpt r c absent h =
    elim rcpt.approved
      as (λ a.
        (if a then record c { seen = put new (some rcpt) c.seen } else c).seen rrn ≡ some r) [
          | true ↦ put-other new (some rcpt) c.seen rrn apart ∙ h
          | false ↦ h
        ]
  where
    apart : str_eq rrn new ≡ false
    apart = elim (Bool-cases (str_eq rrn new)) [
      | inl same ↦ absurd (
          let z = sym h ∙ ap c.seen ((eq_iff rrn new).0 same) ∙ absent in
          let y : some r ≡ none = z in cc)
      | inr other ↦ other
    ]

-- The receipt that the core holds for an approved one.
pub record Holds (c : Core) (rrn : String) (r : CoreReceipt) : Type 0 where
  pub first : CoreReceipt
  pub held : c.seen rrn ≡ some first
  pub approved : first.approved ≡ true
  pub auth_code : first.auth_code ≡ r.auth_code
  pub processed_at : first.processed_at ≡ r.processed_at

first-Holds :
    (req : Message) (rcpt : CoreReceipt) (c : Core)
    → rcpt.approved ≡ true
    → Holds (exchange req rcpt (remembered req.rrn rcpt c)) req.rrn rcpt
first-Holds req rcpt c h = record {
  first = rcpt;
  held =
      ap (λ a. (if a then record c { seen = put req.rrn (some rcpt) c.seen } else c).seen req.rrn) h
      ∙ put-same req.rrn (some rcpt) c.seen;
  approved = h;
  auth_code = refl;
  processed_at = refl;
}

module _ (dec : Decimals) where
  open dec use {Num}

  answer_call-keeps :
      (f : Formats Num) (call : Call Num) (s : Settings Num) (req : Message) (c : Core)
      (rrn : String) (r : CoreReceipt)
      → c.seen rrn ≡ some r
      → (answer_call dec f call s req (c.seen req.rrn) c).1.seen rrn ≡ some r
  answer_call-keeps f call s req c rrn r h = elim (Option-cases (c.seen req.rrn)) [
    | inl new ↦ rw new (
        remembered-keeps req.rrn rrn
          (first_receipt dec f call req (response_code_of dec s call.ins)) r c new h)
    | inr (first, old) ↦ rw old h
  ]

  post-keeps :
      (f : Formats Num) (call : Call Num) (s : Result (Settings Num)) (c : Core) (rrn : String)
      (r : CoreReceipt)
      → c.seen rrn ≡ some r
      → (with_settings dec f call s c).1.seen rrn ≡ some r
  unfolding request
  post-keeps f call (err e) c rrn r h = h
  post-keeps f call (ok s) c rrn r h =
      let (req, c') = request f call.ins c in
      elim (ltb 0 s.latency_ms && call.cancelled)
        as (λ late. (unless_late dec f call s late (request f call.ins c)).1.seen rrn ≡ some r) [
          | true ↦ h
          | false ↦
              elim s.outage
                as (λ down.
                  (unless_down dec f call s down (request f call.ins c)).1.seen rrn ≡ some r) [
                    | true ↦ h
                    | false ↦ answer_call-keeps f call s req c' rrn r h
                  ]
        ]

  run-keeps :
      (f : Formats Num) (calls : List (Call Num)) (c : Core) (rrn : String) (r : CoreReceipt)
      → c.seen rrn ≡ some r
      → (run dec f calls c).seen rrn ≡ some r
  unfolding run
  run-keeps f [] c rrn r h = h
  run-keeps f (call ∷ calls) c rrn r h =
      run-keeps f calls (core_post dec f call c).1 rrn r
        (post-keeps f call (settings_of f call.cfg.settings) c rrn r h)

  answer_call-Holds :
      (f : Formats Num) (call : Call Num) (s : Settings Num) (req : Message)
      (o : Option CoreReceipt) (c c' : Core) (r : CoreReceipt)
      → c.seen req.rrn ≡ o
      → answer_call dec f call s req o c ≡ (ok r, c')
      → r.approved ≡ true
      → Holds c' req.rrn r
  answer_call-Holds f call s req none c c' r seen h yes_ =
      let rcpt = first_receipt dec f call req (response_code_of dec s call.ins) in
      let same : rcpt ≡ r = ok-injective (ap (λ x. x.0) h) in
      subst (λ d. Holds d req.rrn r) (ap (λ x. x.1) h)
        (subst (Holds (exchange req rcpt (remembered req.rrn rcpt c)) req.rrn) same
          (first-Holds req rcpt c (ap (λ (x : CoreReceipt). x.approved) same ∙ yes_)))
  answer_call-Holds f call s req (some g) c c' r seen h yes_ =
      let dup = duplicate_of g (call.answered - call.started) in
      let same : dup ≡ r = ok-injective (ap (λ x. x.0) h) in
      subst (λ d. Holds d req.rrn r) (ap (λ x. x.1) h)
        (record {
          first = g;
          held = seen;
          approved = ap (λ (x : CoreReceipt). x.approved) same ∙ yes_;
          auth_code = ap (λ (x : CoreReceipt). x.auth_code) same;
          processed_at = ap (λ (x : CoreReceipt). x.processed_at) same;
        })

  post-Holds :
      (f : Formats Num) (call : Call Num) (o : Result (Settings Num)) (c c' : Core)
      (r : CoreReceipt)
      → with_settings dec f call o c ≡ (ok r, c')
      → r.approved ≡ true
      → Holds c' (f.retrieval_reference call.ins.reference) r
  unfolding request
  post-Holds f call (err e) c c' r h yes_ = absurd (cc)
  post-Holds f call (ok s) c c' r h yes_ = waited (ltb 0 s.latency_ms && call.cancelled) h
    where
      answered_up :
          (down : Bool)
          → unless_down dec f call s down (request f call.ins c) ≡ (ok r, c')
          → Holds c' (f.retrieval_reference call.ins.reference) r
      answered_up true k = absurd (cc)
      answered_up false k =
          let (req, d) = request f call.ins c in
          answer_call-Holds f call s req (d.seen req.rrn) d c' r refl k yes_

      waited :
          (late : Bool)
          → unless_late dec f call s late (request f call.ins c) ≡ (ok r, c')
          → Holds c' (f.retrieval_reference call.ins.reference) r
      waited true k = absurd (cc)
      waited false k = answered_up s.outage k

  -- The settings can be read, the core is up and the wait is not cut short.
  pub record Answers (f : Formats Num) (call : Call Num) : Type 0 where
    pub settings : Settings Num
    pub read : settings_of f call.cfg.settings ≡ ok settings
    pub waited : (ltb 0 settings.latency_ms && call.cancelled) ≡ false
    pub up : settings.outage ≡ false

  repeated :
      (f : Formats Num) (call : Call Num) (c : Core) (rrn : String) (first : CoreReceipt)
      → f.retrieval_reference call.ins.reference ≡ rrn
      → c.seen rrn ≡ some first
      → (a : Answers f call)
      → core_post dec f call c
        ≡ answer_call dec f call a.settings
            (request f call.ins c).0
            (some first)
            (request f call.ins c).1
  unfolding core_post
  repeated f call c rrn first e held a =
      ap (λ o. with_settings dec f call o c) a.read
      ∙ ap (λ late. unless_late dec f call a.settings late (request f call.ins c)) a.waited
      ∙ ap (λ down. unless_down dec f call a.settings down (request f call.ins c)) a.up
      ∙ ap
          (λ o.
            answer_call dec f call a.settings (request f call.ins c).0 o (request f call.ins c).1)
          (ap c.seen e ∙ held)

  -- Once the core has approved an instruction, whatever calls come in between, an instruction of the
  -- same reference that is answered is approved as a duplicate, with the authorisation and the time of
  -- the first, and moves no money: what the core remembers is as it was.
  pub core_post-repeats :
      (f : Formats Num) (first again : Call Num) (calls : List (Call Num)) (c c' : Core)
      (r : CoreReceipt)
      → core_post dec f first c ≡ (ok r, c')
      → r.approved ≡ true
      → again.ins.reference ≡ first.ins.reference
      → Answers f again
      → (r' : CoreReceipt) × ((core_post dec f again (run dec f calls c')).0 ≡ ok r')
        × (r'.approved ≡ true)
        × (r'.duplicate ≡ true)
        × (r'.response_code ≡ "94")
        × (r'.auth_code ≡ r.auth_code)
        × (r'.processed_at ≡ r.processed_at)
        × ((core_post dec f again (run dec f calls c')).1.seen ≡ (run dec f calls c').seen)
  unfolding core_post
  core_post-repeats f first again calls c c' r h yes_ same a =
      let d = run dec f calls c' in
      let rrn = f.retrieval_reference first.ins.reference in
      let g = post-Holds f first (settings_of f first.cfg.settings) c c' r h yes_ in
      let e =
        repeated f again d rrn g.first (ap f.retrieval_reference same)
          (run-keeps f calls c' rrn g.first g.held) a in
      (
        duplicate_of g.first (again.answered - again.started),
        ap (λ x. x.0) e,
        g.approved,
        refl,
        refl,
        g.auth_code,
        g.processed_at,
        ap (λ x. x.1.seen) e,
      )
