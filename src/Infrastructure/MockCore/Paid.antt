-- ===== src/Infrastructure/MockCore/Paid.antt =====
-- Money moves once for each instruction that the simulated core is given
-- (infrastructure/mockcore/mockcore.go).
use thesis_dispute_engine.Prelude.{
  ◌-◌, String, ◌≡◌, refl, sym, ap, ◌∙◌, ◌↔◌, ◌⊎◌, inl, inr, Bool, true, false, ◌&&◌, none, some,
  List, [], ◌∷◌, ◌++◌, str_eq, eq_iff, ltb, In, In-append, Distinct, Distinct-append, Bool-cases,
  Option-cases, if◌then◌else◌,
}
use thesis_dispute_engine.Prelude.Decimal.{Decimals}
use mathlib.Core.Path.{subst}
use thesis_dispute_engine.Result.{Result, ok, err}
use thesis_dispute_engine.Application.Records.{CoreReceipt}
use thesis_dispute_engine.Application.Store.{put, put-other}
use thesis_dispute_engine.Infrastructure.MockCore.{
  Settings, Message, Exchange, Core, Formats, Call, new_core, settings_of, request, exchanged,
  exchange, duplicate_of, response_code_of, first_receipt, remembered, answer_call, unless_down,
  unless_late, with_settings, core_post, run,
}

-- The references of the exchanges that moved money.
unfoldable pub paid : List Exchange → List String
paid [] = []
paid (e ∷ es) =
    let rest = paid es in
    if str_eq e.response.response_code "00" then e.response.rrn ∷ rest else rest

paid-append_moved :
    (es : List Exchange) (e : Exchange)
    → str_eq e.response.response_code "00" ≡ true
    → paid (es ++ e ∷ []) ≡ paid es ++ e.response.rrn ∷ []
unfolding paid
paid-append_moved [] e h = rw h refl
paid-append_moved (x ∷ es) e h = elim (Bool-cases (str_eq x.response.response_code "00")) [
  | inl y ↦ rw y (ap (λ l. x.response.rrn ∷ l) (paid-append_moved es e h))
  | inr n ↦ rw n (paid-append_moved es e h)
]

paid-append_other :
    (es : List Exchange) (e : Exchange)
    → str_eq e.response.response_code "00" ≡ false
    → paid (es ++ e ∷ []) ≡ paid es
unfolding paid
paid-append_other [] e h = rw h refl
paid-append_other (x ∷ es) e h = elim (Bool-cases (str_eq x.response.response_code "00")) [
  | inl y ↦ rw y (ap (λ l. x.response.rrn ∷ l) (paid-append_other es e h))
  | inr n ↦ rw n (paid-append_other es e h)
]

-- What moved money moved it once, and is what the core remembers.
pub record Booked (c : Core) : Type 0 where
  pub once : Distinct (paid c.log)
  pub known : (rrn : String) → In rrn (paid c.log) → (r : CoreReceipt) × (c.seen rrn ≡ some r)
  pub moved : (rrn : String) (r : CoreReceipt) → c.seen rrn ≡ some r → In rrn (paid c.log)

new_core-Booked : Booked new_core
unfolding paid
new_core-Booked = record { once = tt; known = λ rrn m. absurd m; moved = λ rrn r e. absurd (cc) }

exchange-other :
    (req : Message) (rcpt : CoreReceipt) (c : Core)
    → str_eq rcpt.response_code "00" ≡ false
    → Booked c
    → Booked (exchange req rcpt c)
exchange-other req rcpt c h b =
    let same = paid-append_other c.log (exchanged req rcpt) h in
    record {
      once = rw same b.once;
      known = λ rrn m. b.known rrn (rw same at m);
      moved = λ rrn r e. rw same (b.moved rrn r e);
    }

-- The receipt of a new reference is remembered, and its exchange moves money.
exchange-moved :
    (req : Message) (rcpt : CoreReceipt) (c : Core)
    → str_eq rcpt.response_code "00" ≡ true
    → c.seen req.rrn ≡ none
    → Booked c
    → Booked (exchange req rcpt (record c { seen = put req.rrn (some rcpt) c.seen }))
exchange-moved req rcpt c h new b =
    let more = paid-append_moved c.log (exchanged req rcpt) h in
    record {
      once = rw more (
          Distinct-append (paid c.log) req.rrn b.once
            (λ m. let (r, e) = b.known req.rrn m in absurd (some-ne-none (sym e ∙ new))));
      known = λ rrn m. known_at rrn (Bool-cases (str_eq rrn req.rrn)) (rw more at m);
      moved = λ rrn r e. rw more (moved_at rrn r (Bool-cases (str_eq rrn req.rrn)) e);
    }
  where
    some-ne-none : {r : CoreReceipt} → some r ≡ none → ⊥
    some-ne-none e = absurd (cc)

    known_at :
        (rrn : String)
        → (str_eq rrn req.rrn ≡ true) ⊎ (str_eq rrn req.rrn ≡ false)
        → In rrn (paid c.log ++ req.rrn ∷ [])
        → (r : CoreReceipt) × (put req.rrn (some rcpt) c.seen rrn ≡ some r)
    known_at rrn (inl at) m = (rcpt, rw at refl)
    known_at rrn (inr away) m = elim ((In-append rrn (paid c.log) (req.rrn ∷ [])).0 m) [
      | inl k ↦ rw (put-other req.rrn (some rcpt) c.seen rrn away) (b.known rrn k)
      | inr (inl e) ↦ absurd (let z = sym ((eq_iff rrn req.rrn).1 e) ∙ away in cc)
      | inr (inr k) ↦ absurd k
    ]

    moved_at :
        (rrn : String) (r : CoreReceipt)
        → (str_eq rrn req.rrn ≡ true) ⊎ (str_eq rrn req.rrn ≡ false)
        → put req.rrn (some rcpt) c.seen rrn ≡ some r
        → In rrn (paid c.log ++ req.rrn ∷ [])
    moved_at rrn r (inl at) e =
        (In-append rrn (paid c.log) (req.rrn ∷ [])).1 (inr (inl ((eq_iff rrn req.rrn).0 at)))
    moved_at rrn r (inr away) e =
        (In-append rrn (paid c.log) (req.rrn ∷ [])).1
          (inl (b.moved rrn r (sym (put-other req.rrn (some rcpt) c.seen rrn away) ∙ e)))

-- A receipt that says what its code says.
receipt-Booked :
    (req : Message) (rcpt : CoreReceipt) (c : Core)
    → rcpt.approved ≡ str_eq rcpt.response_code "00"
    → c.seen req.rrn ≡ none
    → Booked c
    → Booked (exchange req rcpt (remembered req.rrn rcpt c))
receipt-Booked req rcpt c says new b = elim (Bool-cases rcpt.approved) [
  | inl y ↦ subst Kept (sym y) (exchange-moved req rcpt c (sym says ∙ y) new b)
  | inr n ↦ subst Kept (sym n) (exchange-other req rcpt c (sym says ∙ n) b)
]
  where
    Kept : Bool → Type 0
    Kept a =
        Booked
          (exchange req rcpt (if a then record c { seen = put req.rrn (some rcpt) c.seen } else c))

module _ (dec : Decimals) where
  open dec use {Num}

  answer_call-Booked :
      (f : Formats Num) (call : Call Num) (s : Settings Num) (req : Message) (c : Core)
      → Booked c
      → Booked (answer_call dec f call s req (c.seen req.rrn) c).1
  answer_call-Booked f call s req c b = elim (Option-cases (c.seen req.rrn)) [
    | inl new ↦
        let rcpt = first_receipt dec f call req (response_code_of dec s call.ins) in
        rw new (receipt-Booked req rcpt c refl new b)
    | inr (first, old) ↦
        rw old (exchange-other req (duplicate_of first (call.answered - call.started)) c refl b)
  ]

  with_settings-Booked :
      (f : Formats Num) (call : Call Num) (s : Result (Settings Num)) (c : Core)
      → Booked c
      → Booked (with_settings dec f call s c).1
  unfolding request
  with_settings-Booked f call (err e) c b = b
  with_settings-Booked f call (ok s) c b =
      let (req, c') = request f call.ins c in
      let b' : Booked c' = record { once = b.once; known = b.known; moved = b.moved } in
      elim (ltb 0 s.latency_ms && call.cancelled)
        as (λ late. Booked (unless_late dec f call s late (request f call.ins c)).1) [
          | true ↦ b'
          | false ↦
              elim s.outage
                as (λ down. Booked (unless_down dec f call s down (request f call.ins c)).1) [
                  | true ↦ b'
                  | false ↦ answer_call-Booked f call s req c' b'
                ]
        ]

  run-Booked :
      (f : Formats Num) (calls : List (Call Num)) (c : Core) → Booked c → Booked (run dec f calls c)
  unfolding run
  run-Booked f [] c b = b
  run-Booked f (call ∷ calls) c b =
      run-Booked f calls (core_post dec f call c).1
        (with_settings-Booked f call (settings_of f call.cfg.settings) c b)

  -- Whatever calls come to a new core, no two of the exchanges that moved money have one retrieval
  -- reference, and those that moved money are just those that the core remembers.
  pub run-PaysOnce :
      (f : Formats Num) (calls : List (Call Num))
      → Distinct (paid (run dec f calls new_core).log)
        × ((rrn : String)
            → In rrn (paid (run dec f calls new_core).log)
              ↔ ((r : CoreReceipt) × ((run dec f calls new_core).seen rrn ≡ some r)))
  run-PaysOnce f calls =
      let b = run-Booked f calls new_core new_core-Booked in
      (b.once, λ rrn. (b.known rrn, λ (r, e). b.moved rrn r e))
