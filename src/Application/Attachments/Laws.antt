-- ===== src/Application/Attachments/Laws.antt =====
-- Which files an email takes (application/attachments.go).
use thesis_dispute_engine.Prelude.{
  both, ℕ, ◌≤◌, String, ◌≡◌, refl, sym, ap, ◌∙◌, ◌⊎◌, inl, inr, true, ◌&&◌, Option, none, some,
  List, [], ◌∷◌, length, str_eq, eq_iff, ◌==◌, ==_iff, ltb, Bool-cases, In, All, arith,
}
use mathlib.Core.Path.{subst}
use thesis_dispute_engine.Result.{ok}
use thesis_dispute_engine.Application.Records.{Attachment}
use thesis_dispute_engine.Application.Store.{Db, ◌>>=◌}
use thesis_dispute_engine.Application.Attachments.{
  is_draft, max_attachments, claim_one, claim_each, with_files, claim_rows, all_claimed,
  claim_attachments,
}

-- The file is as it was, or it was a draft of the dispute that was asked for and is now the notice's.
abbrev pub IsClaim : String → ℕ → List String → Attachment → Attachment → Type 0
IsClaim dispute_id notice_id ids a b =
    (b ≡ a)
    ⊎ ((a.notice_id ≡ none)
        × (a.dispute_id ≡ dispute_id)
        × In a.id ids
        × (b ≡ record a { notice_id = some notice_id }))

-- So are the files, one by one.
abbrev pub Claims : String → ℕ → List String → List Attachment → List Attachment → Type 0
Claims dispute_id notice_id ids [] [] = Unit
Claims dispute_id notice_id ids [] (b ∷ bs) = ⊥
Claims dispute_id notice_id ids (a ∷ as_) [] = ⊥
Claims dispute_id notice_id ids (a ∷ as_) (b ∷ bs) =
    IsClaim dispute_id notice_id ids a b × Claims dispute_id notice_id ids as_ bs

is_draft-none : (o : Option ℕ) → is_draft o ≡ true → o ≡ none
is_draft-none none h = refl
is_draft-none (some n) h = absurd (cc)

module _ (dispute_id : String) (notice_id : ℕ) where
  Claims-refl : (ids : List String) (fs : List Attachment) → Claims dispute_id notice_id ids fs fs
  Claims-refl ids [] = tt
  Claims-refl ids (f ∷ fs) = (inl refl, Claims-refl ids fs)

  claim_one-Claims :
      (id : String) (ids : List String) (fs : List Attachment)
      → Claims dispute_id notice_id (id ∷ ids) fs (claim_one dispute_id notice_id id fs).1
  claim_one-Claims id ids [] = tt
  claim_one-Claims id ids (f ∷ fs) = elim (Bool-cases (str_eq f.id id)) [
    | inl same ↦ elim (Bool-cases (is_draft f.notice_id && str_eq f.dispute_id dispute_id)) [
      | inl draft ↦
          let (none_, of) = both (is_draft f.notice_id) (str_eq f.dispute_id dispute_id) draft in
          rw (same, draft)
            (
              inr (
                is_draft-none f.notice_id none_,
                (eq_iff f.dispute_id dispute_id).0 of,
                inl ((eq_iff f.id id).0 same),
                refl,
              ),
              Claims-refl (id ∷ ids) fs,
            )
      | inr taken ↦ rw (same, taken) (Claims-refl (id ∷ ids) (f ∷ fs))
    ]
    | inr other ↦ rw other (inl refl, claim_one-Claims id ids fs)
  ]

  IsClaim-trans :
      (id : String) (ids : List String) (a b c : Attachment)
      → IsClaim dispute_id notice_id (id ∷ ids) a b
      → IsClaim dispute_id notice_id ids b c
      → IsClaim dispute_id notice_id (id ∷ ids) a c
  IsClaim-trans id ids a b c (inl e) (inl k) = inl (k ∙ e)
  IsClaim-trans id ids a b c (inl e) (inr (free, of, asked, is)) = inr (
    ap (λ (x : Attachment). x.notice_id) (sym e) ∙ free,
    ap (λ (x : Attachment). x.dispute_id) (sym e) ∙ of,
    inr (subst (λ (x : Attachment). In x.id ids) e asked),
    is ∙ ap (λ (x : Attachment). record x { notice_id = some notice_id }) e,
  )
  IsClaim-trans id ids a b c (inr (free, of, asked, is)) (inl k) = inr (free, of, asked, k ∙ is)
  IsClaim-trans id ids a b c (inr (free, of, asked, is)) (inr (again, _, _, _)) =
      let taken : b.notice_id ≡ some notice_id = ap (λ (x : Attachment). x.notice_id) is in
      absurd (cc)

  Claims-trans :
      (id : String) (ids : List String) (as_ bs cs : List Attachment)
      → Claims dispute_id notice_id (id ∷ ids) as_ bs
      → Claims dispute_id notice_id ids bs cs
      → Claims dispute_id notice_id (id ∷ ids) as_ cs
  Claims-trans id ids [] [] [] h k = tt
  Claims-trans id ids [] [] (c ∷ cs) h k = absurd k
  Claims-trans id ids [] (b ∷ bs) cs h k = absurd h
  Claims-trans id ids (a ∷ as_) [] cs h k = absurd h
  Claims-trans id ids (a ∷ as_) (b ∷ bs) [] h k = absurd k
  Claims-trans id ids (a ∷ as_) (b ∷ bs) (c ∷ cs) h k =
      (IsClaim-trans id ids a b c h.0 k.0, Claims-trans id ids as_ bs cs h.1 k.1)

  claim_each-Claims :
      (ids : List String) (fs : List Attachment)
      → Claims dispute_id notice_id ids fs (claim_each dispute_id notice_id ids fs).1
  claim_each-Claims [] fs = Claims-refl [] fs
  claim_each-Claims (id ∷ ids) fs =
      let after = (claim_one dispute_id notice_id id fs).1 in
      Claims-trans id ids fs after (claim_each dispute_id notice_id ids after).1
        (claim_one-Claims id ids fs) (claim_each-Claims ids after)

  -- The notice has a file with the identifier.
  abbrev pub Has : List Attachment → String → Type 0
  Has fs id = (f : Attachment) × In f fs × (f.id ≡ id) × (f.notice_id ≡ some notice_id)

  Claims-Has :
      (ids : List String) (as_ bs : List Attachment) (id : String)
      → Claims dispute_id notice_id ids as_ bs
      → Has as_ id
      → Has bs id
  Claims-Has ids [] bs id h (f, inside, is, mine) = absurd inside
  Claims-Has ids (a ∷ as_) [] id h has = absurd h
  Claims-Has ids (a ∷ as_) (b ∷ bs) id h (f, inside, is, mine) = elim inside [
    | inl e ↦ elim h.0 [
      | inl k ↦ (
        b,
        inl refl,
        ap (λ (x : Attachment). x.id) (k ∙ sym e) ∙ is,
        ap (λ (x : Attachment). x.notice_id) (k ∙ sym e) ∙ mine,
      )
      | inr claimed ↦
          let free : a.notice_id ≡ none = claimed.0 in
          let taken : a.notice_id ≡ some notice_id =
            ap (λ (x : Attachment). x.notice_id) (sym e) ∙ mine in
          absurd (cc)
    ]
    | inr there ↦
        let (g, at, is_, mine_) = Claims-Has ids as_ bs id h.1 (f, there, is, mine) in
        (g, inr at, is_, mine_)
  ]

  claim_one_le : (id : String) (fs : List Attachment) → (claim_one dispute_id notice_id id fs).0 ≤ 1
  claim_one_le id [] = omega arith
  claim_one_le id (f ∷ fs) = ground (arith, claim_one_le id fs)

  claim_one-Has :
      (id : String) (fs : List Attachment)
      → (claim_one dispute_id notice_id id fs).0 ≡ 1
      → Has (claim_one dispute_id notice_id id fs).1 id
  claim_one-Has id [] h = absurd (omega arith)
  claim_one-Has id (f ∷ fs) h = elim (Bool-cases (str_eq f.id id)) [
    | inl same ↦ elim (Bool-cases (is_draft f.notice_id && str_eq f.dispute_id dispute_id)) [
      | inl draft ↦
          rw (same, draft)
            (record f { notice_id = some notice_id }, inl refl, (eq_iff f.id id).0 same, refl)
      | inr taken ↦ let k = rw (same, taken) at h in absurd (omega arith)
    ]
    | inr other ↦
        let (g, at, is, mine) = claim_one-Has id fs (rw other at h) in
        rw other (g, inr at, is, mine)
  ]

  claim_each_le :
      (ids : List String) (fs : List Attachment)
      → (claim_each dispute_id notice_id ids fs).0 ≤ length ids
  claim_each_le [] fs = omega arith
  claim_each_le (id ∷ ids) fs =
      omega (arith, claim_one_le id fs, claim_each_le ids (claim_one dispute_id notice_id id fs).1)

  claim_each-Has :
      (ids : List String) (fs : List Attachment)
      → (claim_each dispute_id notice_id ids fs).0 ≡ length ids
      → All (Has (claim_each dispute_id notice_id ids fs).1) ids
  claim_each-Has [] fs h = tt
  claim_each-Has (id ∷ ids) fs h =
      let after = (claim_one dispute_id notice_id id fs).1 in
      let at_most = claim_one_le id fs in
      let others = claim_each_le ids after in
      (
        Claims-Has ids after (claim_each dispute_id notice_id ids after).1 id
            (claim_each-Claims ids after) (claim_one-Has id fs (omega arith)),
        claim_each-Has ids after (omega arith),
      )

pub record Taken {N : Type 0} (dispute_id : String) (notice_id : ℕ) (ids : List String)
    (db db' : Db N) : Type 0 where
  pub few : length ids ≤ 3
  pub one_by_one : Claims dispute_id notice_id ids db.attachments db'.attachments
  pub all : All (Has dispute_id notice_id db'.attachments) ids
  pub nothing_else : db' ≡ with_files db'.attachments db

rows-Taken :
    {N : Type 0} (dispute_id : String) (notice_id : ℕ) (ids : List String) (db db' : Db N)
    (files : List Attachment)
    → length ids ≤ 3
    → (claim_rows dispute_id notice_id ids >>= all_claimed dispute_id notice_id ids) db
      ≡ (ok files, db')
    → Taken dispute_id notice_id ids db db'
unfolding claim_rows
rows-Taken dispute_id notice_id ids db db' files few h =
    let after = (claim_each dispute_id notice_id ids db.attachments).1 in
    elim (Bool-cases ((claim_each dispute_id notice_id ids db.attachments).0 == length ids)) [
      | inl whole ↦
          let k = rw whole at h in
          subst (Taken dispute_id notice_id ids db) (ap (λ x. x.1) k) (record {
            few = few;
            one_by_one = claim_each-Claims dispute_id notice_id ids db.attachments;
            all = claim_each-Has dispute_id notice_id ids db.attachments ((==_iff _ _).0 whole);
            nothing_else = refl;
          })
      | inr part ↦ let k = rw part at h in absurd (cc)
    ]

-- When the files of an email are claimed, at most three were asked for, and the notice has a file with
-- each identifier that was asked for. Each file is as it was, or it was a draft of the dispute that no
-- notice had and that was asked for, and only its notice is different. The rest of the store is as
-- before.
pub claim_attachments-Taken :
    {N : Type 0} (dispute_id : String) (notice_id : ℕ) (ids : List String) (db db' : Db N)
    (files : List Attachment)
    → claim_attachments dispute_id notice_id ids db ≡ (ok files, db')
    → Taken dispute_id notice_id ids db db'
unfolding claim_attachments
claim_attachments-Taken dispute_id notice_id [] db db' files h =
    subst (Taken dispute_id notice_id [] db) (ap (λ x. x.1) h) (record {
      few = omega arith;
      one_by_one = Claims-refl dispute_id notice_id [] db.attachments;
      all = tt;
      nothing_else = refl;
    })
claim_attachments-Taken dispute_id notice_id (id ∷ ids) db db' files h =
    elim (Bool-cases (ltb max_attachments (length (id ∷ ids)))) [
      | inl many ↦ let k = rw many at h in absurd (cc)
      | inr few ↦
          rows-Taken dispute_id notice_id (id ∷ ids) db db' files (ground arith) (rw few at h)
    ]
