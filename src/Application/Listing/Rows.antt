-- ===== src/Application/Listing/Rows.antt =====
-- Which disputes the store lists, and what it lists after a cursor (apptest/memstore.go).
use thesis_dispute_engine.Prelude.{
  String, ◌≡◌, refl, sym, ap, ◌∙◌, ◌≢◌, ◌↔◌, ◌⊎◌, inl, inr, Bool, true, false, not, ◌&&◌, Option,
  none, some, List, [], ◌∷◌, ◌++◌, arith, In, All, Distinct, Bool-cases, In-append,
}
use thesis_dispute_engine.Prelude.Texts.{text_lt_trans}
use thesis_dispute_engine.Application.Records.{DisputeRecord}
use thesis_dispute_engine.Application.Store.{Db, Caller}
use thesis_dispute_engine.Application.Reassign.Laws.{KeyedById}
use thesis_dispute_engine.Application.Listing.{
  Cursor, ListQuery, is_asked, is_above, kept_row, collect, rows, cursor_of,
}
use thesis_dispute_engine.Application.Listing.Order.{
  All-In, All-of_In, Precedes, Ordered, Apart, comes_before_irrefl, comes_before_trans,
  sort_rows-In, sort_rows-Ordered, Ordered-unique,
}

both : (a b : Bool) → ((a && not b) ≡ true) ↔ ((a ≡ true) × (b ≡ false))
both a b = ground arith

module _ {N : Type 0} where
  -- A dispute of the store that the caller may see and the query asks for.
  pub record Matches (c : Caller N) (q : ListQuery) (db : Db N) (d : DisputeRecord N) : Type 0 where
    pub listed : In d.id db.dispute_ids
    pub held : db.disputes d.id ≡ some d
    pub asked : is_asked c q db d ≡ true

  -- The cursor leaves it in.
  abbrev pub Below : ListQuery → DisputeRecord N → Type 0
  Below q d = is_above q.after d ≡ false

  below_cursor : (l d : DisputeRecord N) → (is_above (some (cursor_of l)) d ≡ false) ↔ Precedes l d
  below_cursor l d = ground arith

  below_trans :
      (after : Option Cursor) (l d : DisputeRecord N)
      → is_above after l ≡ false
      → Precedes l d
      → is_above after d ≡ false
  below_trans none l d h k = refl
  below_trans (some c) l d h k = ground (arith, text_lt_trans d.id l.id c.id)

  pub record Kept (c : Caller N) (q : ListQuery) (db : Db N) (ids : List String)
      (d : DisputeRecord N) : Type 0 where
    pub listed : In d.id ids
    pub held : db.disputes d.id ≡ some d
    pub asked : is_asked c q db d ≡ true
    pub below : Below q d

  kept_row-cases :
      (c : Caller N) (q : ListQuery) (db : Db N) (o : Option (DisputeRecord N))
      (rest : List (DisputeRecord N)) (d : DisputeRecord N)
      → In d (kept_row c q db o rest)
      → ((o ≡ some d) × (is_asked c q db d ≡ true) × Below q d) ⊎ In d rest
  kept_row-cases c q db none rest d m = inr m
  kept_row-cases c q db (some e) rest d m =
      elim (Bool-cases (is_asked c q db e && not (is_above q.after e))) [
        | inl yes_ ↦ elim (let z : In d (e ∷ rest) = rw yes_ at m in z) [
          | inl same ↦
              let (asked, below) = (both _ _).0 yes_ in
              inl (rw same refl, rw same asked, rw same below)
          | inr k ↦ inr k
        ]
        | inr no_ ↦ inr (rw no_ at m)
      ]

  kept_row-hit :
      (c : Caller N) (q : ListQuery) (db : Db N) (o : Option (DisputeRecord N))
      (rest : List (DisputeRecord N)) (d : DisputeRecord N)
      → o ≡ some d
      → is_asked c q db d ≡ true
      → Below q d
      → In d (kept_row c q db o rest)
  kept_row-hit c q db o rest d e asked below = rw e (rw ((both _ _).1 (asked, below)) (inl refl))

  kept_row-rest :
      (c : Caller N) (q : ListQuery) (db : Db N) (o : Option (DisputeRecord N))
      (rest : List (DisputeRecord N)) (d : DisputeRecord N)
      → In d rest
      → In d (kept_row c q db o rest)
  kept_row-rest c q db none rest d m = m
  kept_row-rest c q db (some e) rest d m =
      elim (Bool-cases (is_asked c q db e && not (is_above q.after e))) [
        | inl yes_ ↦ rw yes_ (inr m)
        | inr no_ ↦ rw no_ m
      ]

  collect-Kept :
      (c : Caller N) (q : ListQuery) (db : Db N) (ids : List String) (d : DisputeRecord N)
      → KeyedById db
      → In d (collect c q db ids)
      → Kept c q db ids d
  unfolding collect
  collect-Kept c q db [] d k m = absurd m
  collect-Kept c q db (id ∷ ids) d k m =
      elim (kept_row-cases c q db (db.disputes id) (collect c q db ids) d m) [
        | inl (held, asked, below) ↦
            let e = k id d held in
            record { listed = inl e; held = ap db.disputes e ∙ held; asked = asked; below = below }
        | inr n ↦
            let r = collect-Kept c q db ids d k n in
            record { listed = inr r.listed; held = r.held; asked = r.asked; below = r.below }
      ]

  collect-In :
      (c : Caller N) (q : ListQuery) (db : Db N) (ids : List String) (d : DisputeRecord N)
      → In d.id ids
      → db.disputes d.id ≡ some d
      → is_asked c q db d ≡ true
      → Below q d
      → In d (collect c q db ids)
  unfolding collect
  collect-In c q db [] d m held asked below = absurd m
  collect-In c q db (id ∷ ids) d (inl e) held asked below =
      kept_row-hit c q db (db.disputes id) (collect c q db ids) d (ap db.disputes (sym e) ∙ held)
        asked below
  collect-In c q db (id ∷ ids) d (inr m) held asked below =
      kept_row-rest c q db (db.disputes id) (collect c q db ids) d
        (collect-In c q db ids d m held asked below)

  kept_row-Apart :
      (c : Caller N) (q : ListQuery) (db : Db N) (o : Option (DisputeRecord N))
      (rest : List (DisputeRecord N))
      → ((e : DisputeRecord N) → o ≡ some e → All (λ (r : DisputeRecord N). r.id ≢ e.id) rest)
      → Apart rest
      → Apart (kept_row c q db o rest)
  kept_row-Apart c q db none rest h a = a
  kept_row-Apart c q db (some e) rest h a =
      elim (Bool-cases (is_asked c q db e && not (is_above q.after e))) [
        | inl yes_ ↦ rw yes_ (h e refl, a)
        | inr no_ ↦ rw no_ a
      ]

  collect-Apart :
      (c : Caller N) (q : ListQuery) (db : Db N) (ids : List String)
      → KeyedById db
      → Distinct ids
      → Apart (collect c q db ids)
  unfolding collect
  collect-Apart c q db [] k d = tt
  collect-Apart c q db (id ∷ ids) k d =
      kept_row-Apart c q db (db.disputes id) (collect c q db ids)
        (λ e held.
          All-of_In (λ (r : DisputeRecord N). r.id ≢ e.id) (collect c q db ids)
            (λ r m same.
              let there = (collect-Kept c q db ids r k m).listed in
              let z : r.id ≡ id = same ∙ k id e held in d.0 (rw z at there)))
        (collect-Apart c q db ids k d.1)

  -- The store's list, whatever the cursor, is what matches below it, in order.
  pub rows-In :
      (c : Caller N) (q : ListQuery) (db : Db N) (d : DisputeRecord N)
      → KeyedById db
      → In d (rows c q db) ↔ (Matches c q db d × Below q d)
  rows-In c q db d k = (
    λ m.
        let r =
          collect-Kept c q db db.dispute_ids d k
            ((sort_rows-In d (collect c q db db.dispute_ids)).0 m) in
        (record { listed = r.listed; held = r.held; asked = r.asked }, r.below),
    λ (m, below).
        (sort_rows-In d (collect c q db db.dispute_ids)).1
          (collect-In c q db db.dispute_ids d m.listed m.held m.asked below),
  )

  pub rows-Ordered :
      (c : Caller N) (q : ListQuery) (db : Db N)
      → KeyedById db
      → Distinct db.dispute_ids
      → Ordered (rows c q db)
  rows-Ordered c q db k d =
      sort_rows-Ordered (collect c q db db.dispute_ids) (collect-Apart c q db db.dispute_ids k d)

  -- An ordered list, parted at one of its members.
  Ordered-parts :
      (pre : List (DisputeRecord N)) (l : DisputeRecord N) (post : List (DisputeRecord N))
      → Ordered (pre ++ l ∷ post)
      → All (λ p. Precedes p l) pre × All (Precedes l) post × Ordered post
  Ordered-parts [] l post o = (tt, o.0, o.1)
  Ordered-parts (p ∷ pre) l post o =
      let (before, after, rest) = Ordered-parts pre l post o.1 in
      (
        (
          All-In (Precedes p) l (pre ++ l ∷ post) o.0
              ((In-append l pre (l ∷ post)).1 (inr (inl refl))),
          before,
        ),
        after,
        rest,
      )

  beyond :
      (pre : List (DisputeRecord N)) (l : DisputeRecord N) (post : List (DisputeRecord N))
      (r : DisputeRecord N)
      → Ordered (pre ++ l ∷ post)
      → Precedes l r
      → In r (pre ++ l ∷ post)
      → In r post
  beyond pre l post r o b m =
      let (before, after, rest) = Ordered-parts pre l post o in
      elim ((In-append r pre (l ∷ post)).0 m) [
        | inl early ↦
            let h = comes_before_trans r l r (All-In (λ p. Precedes p l) r pre before early) b in
            absurd (let y : false ≡ true = sym (comes_before_irrefl r) ∙ h in cc)
        | inr (inl e) ↦
            let h : Precedes l l = rw e at b in
            absurd (let y : false ≡ true = sym (comes_before_irrefl l) ∙ h in cc)
        | inr (inr late) ↦ late
      ]

  -- Below the position of one of its members, the list goes on as before.
  pub rows-after :
      (c : Caller N) (q : ListQuery) (db : Db N) (pre : List (DisputeRecord N))
      (l : DisputeRecord N) (post : List (DisputeRecord N))
      → KeyedById db
      → Distinct db.dispute_ids
      → rows c q db ≡ pre ++ l ∷ post
      → rows c (record q { after = some (cursor_of l) }) db ≡ post
  rows-after c q db pre l post k d e =
      let q' = record q { after = some (cursor_of l) } in
      let o : Ordered (pre ++ l ∷ post) = rw e at (rows-Ordered c q db k d) in
      let (before, after, rest) = Ordered-parts pre l post o in
      let back = λ (r : DisputeRecord N).
        λ (m : In r (pre ++ l ∷ post)). (rows-In c q db r k).0 (rw (← e) at m) in
      let mine = back l ((In-append l pre (l ∷ post)).1 (inr (inl refl))) in
      Ordered-unique (rows c q' db) post (rows-Ordered c q' db k d) rest (λ r. (
        λ m.
            let (found, low) = (rows-In c q' db r k).0 m in
            let b = (below_cursor l r).0 low in
            let old : Matches c q db r = record {
              listed = found.listed;
              held = found.held;
              asked = found.asked;
            } in
            beyond pre l post r o b
              (rw e at ((rows-In c q db r k).1 (old, below_trans q.after l r mine.1 b))),
        λ m.
            let (old, low) = back r ((In-append r pre (l ∷ post)).1 (inr (inr m))) in
            let found : Matches c q' db r = record {
              listed = old.listed;
              held = old.held;
              asked = old.asked;
            } in
            (rows-In c q' db r k).1
              (found, (below_cursor l r).1 (All-In (Precedes l) r post after m)),
      ))
