-- ===== src/Application/Resend/Chain.antt =====
-- The chain of an email that was sent more than once (application/compose.go).
use thesis_dispute_engine.Prelude.{
  ℕ, suc, String, ◌≡◌, refl, sym, ap, ◌∙◌, inl, inr, none, some, List, [], ◌∷◌, ◌++◌, In, In-append,
  str_eq, eq_iff, ◌==◌, Bool-cases, Option-cases, some_inj,
}
use mathlib.Core.Path.{subst}
use thesis_dispute_engine.Prelude.Decimal.{Decimals}
use thesis_dispute_engine.Result.{ok}
use thesis_dispute_engine.Application.Records.{NoticeRecord, AccountRecord}
use thesis_dispute_engine.Application.Store.{Db, Caller}
use thesis_dispute_engine.Application.NoticeRows.{notice_with, notices_of}
use thesis_dispute_engine.Application.Reassign.{Policy}
use thesis_dispute_engine.Application.ViewRecords.{DisputeView}
use thesis_dispute_engine.Application.Views.{source_of}
use thesis_dispute_engine.Application.Resend.{ResendInput, resent, resend}
use thesis_dispute_engine.Application.Resend.Laws.{resend-Queued}

notices_of-In :
    (ns : List NoticeRecord) (id : String) (n : NoticeRecord)
    → In n (notices_of ns id)
    → In n ns × (n.dispute_id ≡ id)
notices_of-In [] id n h = absurd h
notices_of-In (m ∷ ns) id n h = elim (Bool-cases (str_eq m.dispute_id id)) [
  | inl same ↦ elim (rw same at h) [
    | inl e ↦ (inl e, ap (λ x. x.dispute_id) e ∙ (eq_iff m.dispute_id id).0 same)
    | inr k ↦ let (mem, of) = notices_of-In ns id n k in (inr mem, of)
  ]
  | inr other ↦ let (mem, of) = notices_of-In ns id n (rw other at h) in (inr mem, of)
]

notice_with-In :
    (ns : List NoticeRecord) (id : ℕ) (n : NoticeRecord) → notice_with ns id ≡ some n → In n ns
notice_with-In [] id n h = absurd (cc)
notice_with-In (m ∷ ns) id n h = elim (Bool-cases (m.id == id)) [
  | inl same ↦ inl (sym (some_inj (rw same at h)))
  | inr other ↦ inr (notice_with-In ns id n (rw other at h))
]

-- The second says again what the first said, in the same dispute.
pub record Repeats (first again : NoticeRecord) : Type 0 where
  pub dispute_id : again.dispute_id ≡ first.dispute_id
  pub seq : again.seq ≡ first.seq
  pub kind : again.kind ≡ first.kind
  pub subject : again.subject ≡ first.subject
  pub document : again.document ≡ first.document

-- A notice that points at another points at one that points at none, and has its words.
abbrev pub IsRooted : List NoticeRecord → Type 0
IsRooted ns =
    (n : NoticeRecord) (r : ℕ)
    → In n ns
    → n.resend_of ≡ some r
    → (root : NoticeRecord) × In root ns × (root.id ≡ r) × (root.resend_of ≡ none) × Repeats root n

-- The root of what is sent again.
root_of :
    (ns : List NoticeRecord) (orig : NoticeRecord)
    → IsRooted ns
    → In orig ns
    → (root : NoticeRecord) × In root ns
      × (root.id ≡ source_of orig orig.resend_of)
      × (root.resend_of ≡ none)
      × Repeats root orig
root_of ns orig rooted mem = elim (Option-cases orig.resend_of) [
  | inl first ↦ (
    orig,
    mem,
    ap (source_of orig) (sym first),
    first,
    record { dispute_id = refl; seq = refl; kind = refl; subject = refl; document = refl },
  )
  | inr (r, again) ↦
      let (root, inside, is, end, words) = rooted orig r mem again in
      (root, inside, is ∙ ap (source_of orig) (sym again), end, words)
]

Repeats-resent :
    (root orig again : NoticeRecord)
    → Repeats root orig
    → again.dispute_id ≡ orig.dispute_id
    → again.seq ≡ orig.seq
    → again.kind ≡ orig.kind
    → again.subject ≡ orig.subject
    → again.document ≡ orig.document
    → Repeats root again
Repeats-resent root orig again w d s k j b = record {
  dispute_id = d ∙ w.dispute_id;
  seq = s ∙ w.seq;
  kind = k ∙ w.kind;
  subject = j ∙ w.subject;
  document = b ∙ w.document;
}

Rooted-resent :
    (ns : List NoticeRecord) (inp : ResendInput) (now : ℕ) (orig : NoticeRecord)
    (account : AccountRecord) (id tenant : String) (k : ℕ)
    → IsRooted ns
    → In orig ns
    → orig.dispute_id ≡ id
    → IsRooted (ns ++ record (resent inp now orig account id) { id = k; tenant_id = tenant } ∷ [])
Rooted-resent ns inp now orig account id tenant k rooted mem of n r there points =
    elim ((In-append n ns _).0 there) [
      | inl old ↦
          let (root, inside, is, end, words) = rooted n r old points in
          (root, (In-append root ns _).1 (inl inside), is, end, words)
      | inr (inl e) ↦
          let (root, inside, is, end, words) = root_of ns orig rooted mem in
          (
            root,
            (In-append root ns _).1 (inl inside),
            is ∙ some_inj (sym (ap (λ x. x.resend_of) e) ∙ points),
            end,
            Repeats-resent root orig n words (ap (λ x. x.dispute_id) e ∙ sym of) (ap (λ x. x.seq) e)
                (ap (λ x. x.kind) e) (ap (λ x. x.subject) e) (ap (λ x. x.document) e),
          )
      | inr (inr none_) ↦ absurd none_
    ]

module _ (dec : Decimals) where
  open dec use {Num}

  -- A notice of the outbox that points at another points at one that points at none and that has the
  -- same dispute, event number, kind, subject and document. When that holds of a store, it holds of
  -- the store that a resend which returned leaves.
  pub resend-IsRooted :
      (c : Caller Num) (policy : Policy Num) (view_now : ℕ) (inp : ResendInput) (db db' : Db Num)
      (v : DisputeView Num)
      → IsRooted db.notices
      → resend dec c policy view_now inp db ≡ (ok v, db')
      → IsRooted db'.notices
  resend-IsRooted c policy view_now inp db db' v rooted h =
      let q = resend-Queued dec c policy view_now inp db db' v h in
      let (mem, of) =
        notices_of-In db.notices q.rec.id q.orig
          (notice_with-In (notices_of db.notices q.rec.id) inp.notice_id q.orig q.kept) in
      subst (λ (d : Db Num). IsRooted d.notices) (sym q.added)
        (Rooted-resent db.notices inp policy.now q.orig q.account q.rec.id c.tenant
          (suc db.next_notice) rooted mem of)
