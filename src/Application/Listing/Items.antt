-- ===== src/Application/Listing/Items.antt =====
-- The items of one page: where the list is cut, and what is looked up for each dispute
-- (application/service.go, apptest/memstore.go).
use thesis_dispute_engine.Prelude.{
  ℕ, zero, suc, ◌≤◌, ◌<◌, String, ◌≡◌, refl, sym, ap, ◌∙◌, ◌≢◌, inl, inr, true, false, Option, none,
  some, List, [], ◌∷◌, ◌++◌, map, arith, In, Distinct, Bool-cases, some_inj, length, take, str_eq,
  get_elem?, eq_iff,
}
use thesis_dispute_engine.Result.{ok}
use thesis_dispute_engine.Domain.Deadline.{Deadline}
use thesis_dispute_engine.Domain.Risk.{Assessment}
use thesis_dispute_engine.Application.Records.{DisputeRecord}
use thesis_dispute_engine.Application.Store.{Db, Caller, put, put-same, put-other}
use thesis_dispute_engine.Application.Hold.{latest}
use thesis_dispute_engine.Application.Listing.{
  over_ids, is_of_tenant, first_open, or_latest, summary, items_tx,
}
use thesis_dispute_engine.Application.Listing.Described.{described}
use thesis_dispute_engine.Application.Listing.Order.{
  All-In, All-of_In, Precedes, Ordered, never_twice,
}

pub take_all : {A : Type 0} (n : ℕ) (xs : List A) → length xs ≤ n → take n xs ≡ xs
take_all zero [] h = refl
take_all zero (x ∷ xs) h = absurd (omega arith)
take_all (suc n) [] h = refl
take_all (suc n) (x ∷ xs) h = ap (λ ys. x ∷ ys) (take_all n xs (omega arith))

pub In-take : {A : Type 0} (n : ℕ) (x : A) (xs : List A) → In x (take n xs) → In x xs
In-take zero x xs m = absurd m
In-take (suc n) x [] m = m
In-take (suc n) x (y ∷ ys) (inl e) = inl e
In-take (suc n) x (y ∷ ys) (inr m) = inr (In-take n x ys m)

In-map :
    {A B : Type 0} (f : A → B) (y : B) (xs : List A)
    → In y (map f xs)
    → (x : A) × In x xs × (y ≡ f x)
In-map f y [] m = absurd m
In-map f y (x ∷ xs) (inl e) = (x, inl refl, e)
In-map f y (x ∷ xs) (inr m) = let (z, n, e) = In-map f y xs m in (z, inr n, e)

In-of_map : {A B : Type 0} (f : A → B) (x : A) (xs : List A) → In x xs → In (f x) (map f xs)
In-of_map f x [] m = m
In-of_map f x (y ∷ ys) (inl e) = inl (ap f e)
In-of_map f x (y ∷ ys) (inr m) = inr (In-of_map f x ys m)

map-of_In :
    {A B : Type 0} (f g : A → B) (xs : List A)
    → ((x : A) → In x xs → f x ≡ g x)
    → map f xs ≡ map g xs
map-of_In f g [] h = refl
map-of_In f g (x ∷ xs) h =
    ap (λ y. y ∷ map f xs) (h x (inl refl))
    ∙ ap (λ ys. g x ∷ ys) (map-of_In f g xs (λ y m. h y (inr m)))

-- A longer list, cut after its first `suc j`.
pub record Cut {A : Type 0} (j : ℕ) (xs : List A) : Type 0 where
  pub before : List A
  pub last_ : A
  pub rest : List A
  pub parts : xs ≡ before ++ last_ ∷ rest
  pub shown : take (suc j) (take (suc (suc j)) xs) ≡ before ++ last_ ∷ []
  pub cursor : get_elem? (take (suc (suc j)) xs) j ≡ some last_
  pub longer : suc j < length (take (suc (suc j)) xs)

pub cut : {A : Type 0} (j : ℕ) (xs : List A) → suc j < length xs → Cut j xs
cut j [] h = absurd (omega arith)
cut j (x ∷ []) h = absurd (omega arith)
cut zero (x ∷ y ∷ ys) h = record {
  before = [];
  last_ = x;
  rest = y ∷ ys;
  parts = refl;
  shown = refl;
  cursor = refl;
  longer = omega arith;
}
cut (suc j) (x ∷ y ∷ ys) h =
    let c = cut j (y ∷ ys) (omega arith) in
    record {
      before = x ∷ c.before;
      last_ = c.last_;
      rest = c.rest;
      parts = ap (λ zs. x ∷ zs) c.parts;
      shown = ap (λ zs. x ∷ zs) c.shown;
      cursor = c.cursor;
      longer = omega (arith, c.longer);
    }

differs : (s t : String) → s ≢ t → str_eq s t ≡ false
differs s t h = elim (Bool-cases (str_eq s t)) [
  | inl same ↦ absurd (h ((eq_iff s t).0 same))
  | inr other ↦ other
]

module _ {N : Type 0} where
  pub Ordered-take : (n : ℕ) (xs : List (DisputeRecord N)) → Ordered xs → Ordered (take n xs)
  Ordered-take zero xs o = tt
  Ordered-take (suc n) [] o = tt
  Ordered-take (suc n) (x ∷ xs) o = (
    All-of_In (Precedes x) (take n xs) (λ r m. All-In (Precedes x) r xs o.0 (In-take n r xs m)),
    Ordered-take n xs o.1,
  )

  -- What the store keeps under the identifier of a dispute that the tenant has.
  abbrev pub Seen : Caller N → Db N → DisputeRecord N → Type 0
  Seen c db r = (db.disputes r.id ≡ some r) × (is_of_tenant c (db.disputes r.id) ≡ true)

  over_ids-other :
      {A : Type 0} (c : Caller N) (db : Db N) (entry : String → Option A → Option A)
      (ids : List String) (out : String → Option A) (id : String)
      → (In id ids → ⊥)
      → over_ids c db entry ids out id ≡ out id
  unfolding over_ids
  over_ids-other c db entry [] out id h = refl
  over_ids-other c db entry (k ∷ ids) out id h =
      over_ids-other c db entry ids _ id (λ m. h (inr m))
      ∙ elim (Bool-cases (is_of_tenant c (db.disputes k))) [
        | inl mine ↦ rw mine (put-other k (entry k (out k)) out id (differs id k (λ e. h (inl e))))
        | inr other ↦ rw other refl
      ]

  over_ids-In :
      {A : Type 0} (c : Caller N) (db : Db N) (entry : String → Option A → Option A)
      (ids : List String) (out : String → Option A) (id : String)
      → Distinct ids
      → In id ids
      → is_of_tenant c (db.disputes id) ≡ true
      → over_ids c db entry ids out id ≡ entry id (out id)
  unfolding over_ids
  over_ids-In c db entry [] out id d m h = absurd m
  over_ids-In c db entry (k ∷ ids) out id d (inl e) h =
      let at : is_of_tenant c (db.disputes k) ≡ true = rw e at h in
      rw e (
        rw at (
          over_ids-other c db entry ids (put k (entry k (out k)) out) k d.0
          ∙ put-same k (entry k (out k)) out))
  over_ids-In c db entry (k ∷ ids) out id d (inr m) h =
      over_ids-In c db entry ids _ id d.1 m h
      ∙ ap (entry id) (elim (Bool-cases (is_of_tenant c (db.disputes k))) [
        | inl mine ↦ rw mine (
            put-other k (entry k (out k)) out id
              (differs id k (λ e. d.0 (let z : In id ids = m in rw e at z))))
        | inr other ↦ rw other refl
      ])

  ids-Distinct :
      (c : Caller N) (db : Db N) (xs : List (DisputeRecord N))
      → Ordered xs
      → ((r : DisputeRecord N) → In r xs → Seen c db r)
      → Distinct (map (λ (r : DisputeRecord N). r.id) xs)
  ids-Distinct c db [] o seen = tt
  ids-Distinct c db (x ∷ xs) o seen = (
    λ m.
        let (r, n, same) = In-map (λ (r : DisputeRecord N). r.id) x.id xs m in
        let e : x ≡ r =
          some_inj (sym (seen x (inl refl)).0 ∙ ap db.disputes same ∙ (seen r (inr n)).0) in
        never_twice x xs o.0 (rw e n),
    ids-Distinct c db xs o.1 (λ r m. seen r (inr m)),
  )

  summary-eq :
      (now : ℕ) (r : DisputeRecord N) {k k' : Option Deadline} {a a' : Option Assessment}
      → k ≡ k'
      → a ≡ a'
      → summary now k a r ≡ summary now k' a' r
  summary-eq now r e f = rw (e, f) refl

  pub items-described :
      (c : Caller N) (now : ℕ) (db : Db N) (xs : List (DisputeRecord N))
      → Ordered xs
      → ((r : DisputeRecord N) → In r xs → Seen c db r)
      → items_tx c now xs db ≡ (ok (map (described now db) xs), db)
  unfolding items_tx
  items-described c now db xs o seen =
      let ids = map (λ (r : DisputeRecord N). r.id) xs in
      let d = ids-Distinct c db xs o seen in
      ap (λ items. (ok items, db))
        (map-of_In _ _ xs (λ r m.
          let here = In-of_map (λ (r : DisputeRecord N). r.id) r xs m in
          let mine = (seen r m).1 in
          summary-eq now r
            (over_ids-In c db (λ id cur. first_open cur (db.deadlines id)) ids (λ id. none) r.id d
              here mine)
            (over_ids-In c db (λ id cur. or_latest cur (latest (db.risk id))) ids (λ id. none) r.id
              d here mine)))
