-- ===== src/Application/Outbox/Laws.antt =====
-- What a pass of the dispatcher does to the outbox (application/mail.go).
use thesis_dispute_engine.Prelude.{
  ℕ, ◌+◌, ◌-◌, ◌≤◌, String, ◌≡◌, refl, sym, ◌∙◌, ◌≢◌, ◌↔◌, inl, inr, true, false, ◌&&◌, List, [],
  ◌∷◌, length, ltb, ◌==◌, ==_iff, arith, All, Bool-cases,
}
use thesis_dispute_engine.Application.Records.{NoticeRecord}
use thesis_dispute_engine.Application.Store.{Db}
use thesis_dispute_engine.Application.Outbox.{
  Mailer, is_waiting, claimed, after_claim, outbox_backlog, finished, finish_notice, failure_of,
  deliver, deliver_each, pass,
}

-- Two outboxes hold the same notices in the same places, and what did not wait is as it was.
abbrev pub Kept : List NoticeRecord → List NoticeRecord → Type 0
Kept [] [] = Unit
Kept (n ∷ ns) (m ∷ ms) =
    ((m.id ≡ n.id)
      × (m.document ≡ n.document)
      × (m.recipient ≡ n.recipient)
      × (is_waiting n ≡ false → m ≡ n))
    × Kept ns ms
Kept _ _ = ⊥

-- No other notice has the identifier.
abbrev pub Unused : ℕ → List NoticeRecord → Type 0
Unused id = All (λ n. n.id ≢ id)

abbrev pub Distinct : List NoticeRecord → Type 0
Distinct [] = Unit
Distinct (n ∷ ns) = Unused n.id ns × Distinct ns

-- Whatever has the identifier waits.
abbrev Attempted : ℕ → List NoticeRecord → Type 0
Attempted id = All (λ n. n.id ≡ id → is_waiting n ≡ true)

pub claimed-Unused :
    (left id : ℕ) (ns : List NoticeRecord) → Unused id ns → All (λ m. m.id ≢ id) (claimed left ns)
unfolding claimed
claimed-Unused left id [] h = tt
claimed-Unused left id (n ∷ ns) h = elim (Bool-cases (is_waiting n && ltb 0 left)) [
  | inl yes_ ↦ rw yes_ (h.0, claimed-Unused (left - 1) id ns h.1)
  | inr no_ ↦ rw no_ (claimed-Unused left id ns h.1)
]

Unused-Attempted : (id : ℕ) (ns : List NoticeRecord) → Unused id ns → Attempted id ns
Unused-Attempted id [] h = tt
Unused-Attempted id (n ∷ ns) h = (λ e. absurd (h.0 e), Unused-Attempted id ns h.1)

-- A notice in front of the outbox whose identifier was not claimed.
widen :
    (n : NoticeRecord) (ns ms : List NoticeRecord)
    → All (λ m. m.id ≢ n.id) ms
    → All (λ m. Attempted m.id ns) ms
    → All (λ m. Attempted m.id (n ∷ ns)) ms
widen n ns [] h k = tt
widen n ns (m ∷ ms) h k = ((λ e. absurd (h.0 (sym e)), k.0), widen n ns ms h.1 k.1)

claimed-Attempted :
    (left : ℕ) (ns : List NoticeRecord)
    → Distinct ns
    → All (λ m. Attempted m.id ns) (claimed left ns)
unfolding claimed
claimed-Attempted left [] d = tt
claimed-Attempted left (n ∷ ns) d = elim (Bool-cases (is_waiting n && ltb 0 left)) [
  | inl yes_ ↦
      let waits : is_waiting n ≡ true = ground arith in
      rw yes_ (
        (λ e. waits, Unused-Attempted n.id ns d.0),
        widen n ns (claimed (left - 1) ns) (claimed-Unused (left - 1) n.id ns d.0)
            (claimed-Attempted (left - 1) ns d.1),
      )
  | inr no_ ↦ rw no_ (
      widen n ns (claimed left ns) (claimed-Unused left n.id ns d.0)
        (claimed-Attempted left ns d.1))
]

after_claim-Kept : (left : ℕ) (ns : List NoticeRecord) → Kept ns (after_claim left ns)
unfolding after_claim
after_claim-Kept left [] = tt
after_claim-Kept left (n ∷ ns) = elim (Bool-cases (is_waiting n && ltb 0 left)) [
  | inl yes_ ↦
      let waits : is_waiting n ≡ true = ground arith in
      rw yes_ (
        (refl, refl, refl, λ e. absurd (let z = sym waits ∙ e in cc)),
        after_claim-Kept (left - 1) ns,
      )
  | inr no_ ↦ rw no_ ((refl, refl, refl, λ e. refl), after_claim-Kept left ns)
]

pub finished-fields :
    (id : ℕ) (failure : String) (now : ℕ) (m : NoticeRecord)
    → ((finished id failure now m).id ≡ m.id)
      × ((finished id failure now m).document ≡ m.document)
      × ((finished id failure now m).recipient ≡ m.recipient)
finished-fields id failure now m = ground arith

finish_notice-Kept :
    (id : ℕ) (failure : String) (now : ℕ) (ns ms : List NoticeRecord)
    → Attempted id ns
    → Kept ns ms
    → Kept ns (finish_notice id failure now ms)
unfolding finish_notice
finish_notice-Kept id failure now [] [] a k = tt
finish_notice-Kept id failure now (n ∷ ns) (m ∷ ms) a k =
    let (i, d, r) = finished-fields id failure now m in
    let (i', d', r', same) = k.0 in
    (
      (i ∙ i', d ∙ d', r ∙ r', λ e. left_alone e (same e)),
      finish_notice-Kept id failure now ns ms a.1 k.1,
    )
  where
    left_alone : is_waiting n ≡ false → m ≡ n → finished id failure now m ≡ n
    left_alone e same = elim (Bool-cases (n.id == id)) [
      | inl hit ↦ absurd (let z = sym (a.0 ((==_iff n.id id).0 hit)) ∙ e in cc)
      | inr miss ↦ rw (same, miss) refl
    ]
finish_notice-Kept id failure now [] (m ∷ ms) a k = absurd k
finish_notice-Kept id failure now (n ∷ ns) [] a k = absurd k

module _ {N : Type 0} where
  deliver_each-Kept :
      (m : Mailer) (ns batch : List NoticeRecord) (db : Db N)
      → All (λ b. Attempted b.id ns) batch
      → Kept ns db.notices
      → Kept ns (deliver_each m batch db).notices
  unfolding deliver_each deliver
  deliver_each-Kept m ns [] db a k = k
  deliver_each-Kept m ns (b ∷ bs) db a k =
      deliver_each-Kept m ns bs (deliver m b db) a.1
        (finish_notice-Kept b.id (failure_of m db.attachments b) m.now ns db.notices a.0 k)

length-claimed-le : (left : ℕ) (ns : List NoticeRecord) → length (claimed left ns) ≤ left
unfolding claimed
length-claimed-le left [] = omega arith
length-claimed-le left (n ∷ ns) = elim (Bool-cases (is_waiting n && ltb 0 left)) [
  | inl yes_ ↦
      let more : 1 ≤ left = ground arith in rw yes_ (omega (arith, length-claimed-le (left - 1) ns))
  | inr no_ ↦ rw no_ (length-claimed-le left ns)
]

-- A claim that may take some takes none just when none waits.
length-claimed_iff :
    (left : ℕ) (ns : List NoticeRecord)
    → (length (claimed (left + 1) ns) ≡ 0) ↔ (outbox_backlog ns ≡ 0)
unfolding claimed outbox_backlog
length-claimed_iff left [] = (λ h. refl, λ h. refl)
length-claimed_iff left (n ∷ ns) = elim (Bool-cases (is_waiting n)) [
  | inl waits ↦
      let some_ : ltb 0 (left + 1) ≡ true = ground arith in
      rw (waits, some_) (λ h. omega arith, λ h. omega arith)
  | inr idle ↦ rw idle (length-claimed_iff left ns)
]

-- In an outbox of distinct notices, whatever the mailer does, a pass of the dispatcher loses and
-- reorders none of them and keeps what each says and to whom; it leaves every letter and every email
-- that is marked as sent as it is; it attempts at most 20 notices, and none just when no email waits.
pub pass-Kept :
    {N : Type 0} (m : Mailer) (db : Db N)
    → Distinct db.notices
    → Kept db.notices (pass m db).1.notices
      × ((pass m db).0 ≤ 20)
      × (((pass m db).0 ≡ 0) ↔ (outbox_backlog db.notices ≡ 0))
unfolding pass
pass-Kept m db d = (
  deliver_each-Kept m db.notices (claimed 20 db.notices)
      (record db { notices = after_claim 20 db.notices }) (claimed-Attempted 20 db.notices d)
      (after_claim-Kept 20 db.notices),
  length-claimed-le 20 db.notices,
  length-claimed_iff 19 db.notices,
)
