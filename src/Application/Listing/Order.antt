-- ===== src/Application/Listing/Order.antt =====
-- The order in which disputes are listed, and lists that follow it (apptest/memstore.go).
use thesis_dispute_engine.Prelude.{
  ◌≡◌, refl, sym, ap, ◌∙◌, ◌↔◌, ◌⊎◌, inl, inr, true, false, List, [], ◌∷◌, arith, In, All,
  Bool-cases, ◌≢◌, String,
}
use thesis_dispute_engine.Prelude.Texts.{text_lt_irrefl, text_lt_trans, text_lt_total}
use thesis_dispute_engine.Application.Records.{DisputeRecord}
use thesis_dispute_engine.Application.Listing.{comes_before, insert_row, sort_rows}

pub All-of_In : {A : Type 0} (P : A → Type 0) (xs : List A) → ((x : A) → In x xs → P x) → All P xs
All-of_In P [] h = tt
All-of_In P (x ∷ xs) h = (h x (inl refl), All-of_In P xs (λ y m. h y (inr m)))

pub All-In : {A : Type 0} (P : A → Type 0) (x : A) (xs : List A) → All P xs → In x xs → P x
All-In P x [] h m = absurd m
All-In P x (y ∷ ys) h (inl e) = rw e h.0
All-In P x (y ∷ ys) h (inr m) = All-In P x ys h.1 m

module _ {N : Type 0} where
  abbrev pub Precedes : DisputeRecord N → DisputeRecord N → Type 0
  Precedes a b = comes_before a b ≡ true

  pub comes_before_irrefl : (a : DisputeRecord N) → comes_before a a ≡ false
  comes_before_irrefl a = ground (arith, text_lt_irrefl a.id)

  pub comes_before_trans : (a b c : DisputeRecord N) → Precedes a b → Precedes b c → Precedes a c
  comes_before_trans a b c h k = ground (arith, text_lt_trans c.id b.id a.id)

  pub comes_before_total :
      (a b : DisputeRecord N) → a.id ≢ b.id → comes_before a b ≡ false → Precedes b a
  comes_before_total a b h k = ground (arith, text_lt_total a.id b.id)

  -- Each comes before all that follow it.
  abbrev pub Ordered : List (DisputeRecord N) → Type 0
  Ordered [] = Unit
  Ordered (r ∷ rs) = All (Precedes r) rs × Ordered rs

  abbrev NoneOf : String → List (DisputeRecord N) → Type 0
  NoneOf id = All (λ (r : DisputeRecord N). r.id ≢ id)

  insert_row-In :
      (d r : DisputeRecord N) (es : List (DisputeRecord N))
      → In r (insert_row d es) ↔ ((r ≡ d) ⊎ In r es)
  unfolding insert_row
  insert_row-In d r [] = (λ h. h, λ h. h)
  insert_row-In d r (e ∷ es) = elim (Bool-cases (comes_before e d)) [
    | inl later ↦ rw later (ground (arith, insert_row-In d r es))
    | inr here ↦ rw here (λ h. h, λ h. h)
  ]

  pub sort_rows-In :
      (r : DisputeRecord N) (ds : List (DisputeRecord N)) → In r (sort_rows ds) ↔ In r ds
  unfolding sort_rows
  sort_rows-In r [] = (λ h. h, λ h. h)
  sort_rows-In r (d ∷ ds) =
      let (to, from) = insert_row-In d r (sort_rows ds) in
      let (to', from') = sort_rows-In r ds in
      (
        λ m. elim (to m) [ inl e ↦ inl e | inr k ↦ inr (to' k) ],
        λ m. elim m [ inl e ↦ from (inl e) | inr k ↦ from (inr (from' k)) ],
      )

  insert_row-Ordered :
      (d : DisputeRecord N) (es : List (DisputeRecord N))
      → NoneOf d.id es
      → Ordered es
      → Ordered (insert_row d es)
  unfolding insert_row
  insert_row-Ordered d [] n o = (tt, tt)
  insert_row-Ordered d (e ∷ es) n o = elim (Bool-cases (comes_before e d)) [
    | inl later ↦ rw later (
      All-of_In (Precedes e) (insert_row d es) (λ r m. elim ((insert_row-In d r es).0 m) [
        | inl same ↦ rw same later
        | inr k ↦ All-In (Precedes e) r es o.0 k
      ]),
      insert_row-Ordered d es n.1 o.1,
    )
    | inr here ↦
        let first = comes_before_total e d n.0 here in
        rw here (
          (
            first,
            All-of_In (Precedes d) es
                (λ r m. comes_before_trans d e r first (All-In (Precedes e) r es o.0 m)),
          ),
          o,
        )
  ]

  -- No two have one identifier.
  abbrev pub Apart : List (DisputeRecord N) → Type 0
  Apart [] = Unit
  Apart (d ∷ ds) = NoneOf d.id ds × Apart ds

  pub sort_rows-Ordered : (ds : List (DisputeRecord N)) → Apart ds → Ordered (sort_rows ds)
  unfolding sort_rows
  sort_rows-Ordered [] a = tt
  sort_rows-Ordered (d ∷ ds) a =
      insert_row-Ordered d (sort_rows ds)
        (All-of_In (λ (r : DisputeRecord N). r.id ≢ d.id) (sort_rows ds)
          (λ r m. All-In (λ (r : DisputeRecord N). r.id ≢ d.id) r ds a.0 ((sort_rows-In r ds).0 m)))
        (sort_rows-Ordered ds a.1)

  pub never_twice :
      (r : DisputeRecord N) (rs : List (DisputeRecord N)) → All (Precedes r) rs → In r rs → ⊥
  never_twice r rs h m =
      let z = sym (comes_before_irrefl r) ∙ All-In (Precedes r) r rs h m in
      absurd (let y : false ≡ true = z in cc)

  -- The tail of an ordered list has what another ordered list with its head has beyond the head.
  tail_of :
      (r s t : DisputeRecord N) (rs ss : List (DisputeRecord N))
      → All (Precedes r) rs
      → r ≡ s
      → (In t (r ∷ rs) → In t (s ∷ ss))
      → In t rs
      → In t ss
  tail_of r s t rs ss h e into m = elim (into (inr m)) [
    | inl same ↦ absurd (never_twice r rs h (let z : t ≡ r = same ∙ sym e in rw z at m))
    | inr k ↦ k
  ]

  heads_meet :
      (r s : DisputeRecord N) (rs ss : List (DisputeRecord N))
      → All (Precedes r) rs
      → All (Precedes s) ss
      → In r (s ∷ ss)
      → In s (r ∷ rs)
      → r ≡ s
  heads_meet r s rs ss h k (inl e) n = e
  heads_meet r s rs ss h k (inr m) (inl e) = sym e
  heads_meet r s rs ss h k (inr m) (inr n) =
      let round =
        comes_before_trans r s r (All-In (Precedes r) s rs h n) (All-In (Precedes s) r ss k m) in
      absurd (let y : false ≡ true = sym (comes_before_irrefl r) ∙ round in cc)

  -- Only one order of the same disputes follows it.
  pub Ordered-unique :
      (rs ss : List (DisputeRecord N))
      → Ordered rs
      → Ordered ss
      → ((r : DisputeRecord N) → In r rs ↔ In r ss)
      → rs ≡ ss
  Ordered-unique [] [] o p same = refl
  Ordered-unique [] (s ∷ ss) o p same = absurd ((same s).1 (inl refl))
  Ordered-unique (r ∷ rs) [] o p same = absurd ((same r).0 (inl refl))
  Ordered-unique (r ∷ rs) (s ∷ ss) o p same =
      let e = heads_meet r s rs ss o.0 p.0 ((same r).0 (inl refl)) ((same s).1 (inl refl)) in
      ap (λ x. x ∷ rs) e
      ∙ ap (λ xs. s ∷ xs)
          (Ordered-unique rs ss o.1 p.1 (λ t.
            (tail_of r s t rs ss o.0 e (same t).0, tail_of s r t ss rs p.0 (sym e) (same t).1)))
