-- ===== src/Application/Routing.antt =====
-- application/routing.go: the team of a new dispute.
use thesis_dispute_engine.Prelude.{
  String, ◌≡◌, refl, ◌⊎◌, inl, inr, ◌↔◌, Bool, true, false, not, Option, none, some, List, [], ◌∷◌,
  str_eq, arith, eq_iff, if◌then◌else◌,
}
use thesis_dispute_engine.Prelude.Decimal.{Decimals}
use thesis_dispute_engine.Domain.Vocabulary.{Rail, Reason}
use thesis_dispute_engine.Domain.QuestionSets.{reason_eq}
use thesis_dispute_engine.Domain.QuestionSets.Reasons.{reason_eq_iff}
use thesis_dispute_engine.Application.Records.{RoutingRule, Access}

abbrev pub rail_eq : Rail → Rail → Bool
rail_eq Rail.card Rail.card = true
rail_eq Rail.credit_card Rail.credit_card = true
rail_eq Rail.sepa_dd Rail.sepa_dd = true
rail_eq (Rail.other s) (Rail.other t) = str_eq s t
rail_eq _ _ = false

-- A field that is set and differs.
abbrev pub differs : {A : Type 0} → (A → A → Bool) → Option A → A → Bool
differs eq none a = false
differs eq (some b) a = not (eq b a)

module _ (dec : Decimals) where
  open dec use {Num, less_than}

  abbrev pub below : Option Num → Num → Bool
  below none amount = false
  below (some least) amount = less_than amount least

  unfoldable pub route_from :
      List (RoutingRule Num) → String → Rail → Reason → String → Num → String
  route_from [] default_team rail reason tier amount = default_team
  route_from (r ∷ rs) default_team rail reason tier amount =
      let next = route_from rs default_team rail reason tier amount in
      if differs rail_eq r.rail rail
      then next
      else if differs reason_eq r.reason reason
      then next
      else if differs str_eq r.risk_tier tier
      then next
      else if below r.min_amount amount
      then next
      else r.team

  unfoldable pub route : Access Num → Rail → Reason → String → Num → String
  unfolding route_from
  route a rail reason tier amount = route_from a.routing a.default_team rail reason tier amount

  -- The field is not set, or is set to the value.
  abbrev pub Fits : {A : Type 0} → Option A → A → Type 0
  Fits none a = Unit
  Fits (some b) a = b ≡ a

  abbrev pub Reaches : Option Num → Num → Type 0
  Reaches none amount = Unit
  Reaches (some least) amount = less_than amount least ≡ false

  abbrev pub Matches : Rail → Reason → String → Num → RoutingRule Num → Type 0
  Matches rail reason tier amount r =
      Fits r.rail rail × Fits r.reason reason × Fits r.risk_tier tier × Reaches r.min_amount amount

  -- The rule that decides: the first that matches, if one does.
  abbrev pub Decides :
      List (RoutingRule Num) → Rail → Reason → String → Num → String → String → Type 0
  Decides [] rail reason tier amount default_team team = team ≡ default_team
  Decides (r ∷ rs) rail reason tier amount default_team team =
      (Matches rail reason tier amount r × (team ≡ r.team))
      ⊎ ((Matches rail reason tier amount r → ⊥)
          × Decides rs rail reason tier amount default_team team)

  rail_eq_iff : (a b : Rail) → (rail_eq a b ≡ true) ↔ (a ≡ b)
  rail_eq_iff (Rail.other s) (Rail.other t) = ground (arith, eq_iff s t)
  rail_eq_iff a b = ground arith

  differs-Fits :
      {A : Type 0} (eq : A → A → Bool)
      → ((a b : A) → (eq a b ≡ true) ↔ (a ≡ b))
      → (o : Option A) (a : A) → (differs eq o a ≡ false) ↔ Fits o a
  differs-Fits eq laws none a = (λ h. tt, λ h. refl)
  differs-Fits eq laws (some b) a = ground (arith, laws b a)

  below-Reaches : (o : Option Num) (amount : Num) → (below o amount ≡ false) ↔ Reaches o amount
  below-Reaches none amount = (λ h. tt, λ h. refl)
  below-Reaches (some least) amount = (λ h. h, λ h. h)

  -- The four guards of the loop's body, of which each goes on to the rest.
  pick :
      (a b c d : Bool) (here rest : String) (D : String → Type 0) (M : Type 0)
      → (((a ≡ false) × (b ≡ false) × (c ≡ false) × (d ≡ false)) ↔ M)
      → D rest
      → let team =
          if a then rest else if b then rest else if c then rest else if d then rest else here in
        (M × (team ≡ here)) ⊎ ((M → ⊥) × D team)
  pick true b c d here rest D M m r = inr (λ x. let e = (m.1 x).0 in cc, r)
  pick false true c d here rest D M m r = inr (λ x. let e = (m.1 x).1 in cc, r)
  pick false false true d here rest D M m r = inr (λ x. let e = (m.1 x).2 in cc, r)
  pick false false false true here rest D M m r = inr (λ x. let e = (m.1 x).3 in cc, r)
  pick false false false false here rest D M m r = inl (m.0 (refl, refl, refl, refl), refl)

  route_from-Decides :
      (rs : List (RoutingRule Num)) (d : String) (rail : Rail) (reason : Reason) (tier : String)
      (amount : Num)
      → Decides rs rail reason tier amount d (route_from rs d rail reason tier amount)
  unfolding route_from
  route_from-Decides [] d rail reason tier amount = refl
  route_from-Decides (r ∷ rs) d rail reason tier amount =
      let f = differs-Fits rail_eq rail_eq_iff r.rail rail in
      let g = differs-Fits reason_eq reason_eq_iff r.reason reason in
      let h = differs-Fits str_eq eq_iff r.risk_tier tier in
      let k = below-Reaches r.min_amount amount in
      pick (differs rail_eq r.rail rail) (differs reason_eq r.reason reason)
        (differs str_eq r.risk_tier tier) (below r.min_amount amount) r.team
        (route_from rs d rail reason tier amount)
        (λ team. Decides rs rail reason tier amount d team) (Matches rail reason tier amount r)
        (λ x. (f.0 x.0, g.0 x.1, h.0 x.2, k.0 x.3), λ x. (f.1 x.0, g.1 x.1, h.1 x.2, k.1 x.3))
        (route_from-Decides rs d rail reason tier amount)

  -- A new dispute goes to the team of the first rule whose set fields all match it, and to the
  -- default team if none does.
  pub route-Decides :
      (a : Access Num) (rail : Rail) (reason : Reason) (tier : String) (amount : Num)
      → Decides a.routing rail reason tier amount a.default_team (route a rail reason tier amount)
  unfolding route
  route-Decides a rail reason tier amount =
      route_from-Decides a.routing a.default_team rail reason tier amount
