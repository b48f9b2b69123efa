-- ===== src/Plans/Pricing.antt =====
-- shared/plans/pricing.go and `Listed`: what a plan costs. The package's variables are a record;
-- an instant is a number of seconds since the epoch, and `days` is not negative.
use mathlib.Core.Path.{subst₂}
use torrin.Jobs.Rows.{All}
use torrin.Prelude.{
  ℕ, ◌≡◌, inl, inr, Bool, false, ◌&&◌, Option, none, some, List, [], ◌∷◌, map, if◌then◌else◌, ltb,
  leb, ◌==◌, Bool-cases, arith,
}
use torrin.Prelude.Text.{Text, bytes, same, same_iff}
use torrin.Prelude.Select.{any_of}
use torrin.Prelude.Dict.{get}
use torrin.Plans.Catalog.{Plan, all}

pub record Settings : Type 0 where
  pub lifetime_enabled : Bool
  pub black_friday_active : Bool
  pub day_plans_enabled : Bool

abbrev pub black_friday_monthly : List (Text × ℕ)
black_friday_monthly = (bytes "starter", 224) ∷ (bytes "standard", 449) ∷ (bytes "pro", 899) ∷ []

abbrev pub black_friday_yearly : List (Text × ℕ)
black_friday_yearly = (bytes "starter", 2149) ∷ (bytes "standard", 4299) ∷ (bytes "pro", 8599) ∷ []

abbrev pub black_friday_lifetime : List (Text × ℕ)
black_friday_lifetime =
    (bytes "starter", 5900) ∷ (bytes "standard", 10900) ∷ (bytes "pro", 21500) ∷ []

-- 2026-08-22, 0:00 UTC
abbrev pub lifetime_bump_date : ℕ
lifetime_bump_date = 1_787_356_800

abbrev pub pre_bump_lifetime : List (Text × ℕ)
pre_bump_lifetime = (bytes "starter", 5382) ∷ (bytes "standard", 10782) ∷ (bytes "pro", 21582) ∷ []

abbrev pub find_plan : Text → Option Plan
find_plan id = get id all

-- A lookup in a map of whole numbers.
unfoldable pub day_price : ℕ → List (ℕ × ℕ) → Option ℕ
day_price days [] = none
day_price days ((d, p) ∷ l) = if d == days then some p else day_price days l

-- The discounted price while the sale is on, or the price of the plan.
abbrev sale_price : Settings → List (Text × ℕ) → Text → ℕ → Option ℕ
sale_price s sale id regular =
    if s.black_friday_active
    then elim (get id sale) [ some p ↦ some p | none ↦ some regular ]
    else some regular

unfoldable pub price_cents : Settings → Text → Text → ℕ → Option ℕ
unfolding get same day_price
price_cents s id period days = elim (find_plan id) [
  | none ↦ none
  | some plan ↦
      if same period (bytes "lifetime")
      then sale_price s black_friday_lifetime id plan.lifetime_price
      else if same period (bytes "yearly")
      then sale_price s black_friday_yearly id plan.yearly_price
      else if same period (bytes "days")
      then day_price days plan.day_prices
      else sale_price s black_friday_monthly id plan.monthly_price
]

unfoldable pub price_cents_at : Settings → Text → Text → ℕ → ℕ → Option ℕ
unfolding get same price_cents
price_cents_at s id period days when =
    if same period (bytes "lifetime") && ltb when lifetime_bump_date
    then elim (get id pre_bump_lifetime) [ some p ↦ some p | none ↦ price_cents s id period days ]
    else price_cents s id period days

unfoldable pub validate_price : Text → Text → ℕ → Bool
unfolding get same
validate_price id period price = elim (find_plan id) [
  | none ↦ false
  | some plan ↦
      if same period (bytes "lifetime")
      then leb plan.lifetime_price price
      else if same period (bytes "yearly")
      then leb plan.yearly_price price
      else if same period (bytes "days")
      then any_of (λ d. leb d.1 price) plan.day_prices
      else leb plan.monthly_price price
]

-- The assignments of the sale and of the switches to one plan of the list.
abbrev list_monthly : Settings → Text → Plan → Plan
list_monthly s id p = elim (get id black_friday_monthly) [
  | none ↦ p
  | some bf ↦
      if s.black_friday_active && ltb 0 p.monthly_price
      then record p { monthly_full_price = p.monthly_price; monthly_price = bf }
      else p
]

abbrev list_yearly : Settings → Text → Plan → Plan
list_yearly s id p = elim (get id black_friday_yearly) [
  | none ↦ p
  | some bf ↦
      if s.black_friday_active && ltb 0 p.yearly_price
      then record p { yearly_full_price = p.yearly_price; yearly_price = bf }
      else p
]

abbrev list_lifetime : Settings → Text → Plan → Plan
list_lifetime s id p = elim (get id black_friday_lifetime) [
  | none ↦ p
  | some bf ↦
      if s.black_friday_active && ltb 0 p.lifetime_price
      then record p { lifetime_full_price = p.lifetime_price; lifetime_price = bf }
      else p
]

unfoldable pub listed_plan : Settings → Text → Plan → Plan
unfolding get same
listed_plan s id p =
    let days = if s.day_plans_enabled then p else record p { day_prices = [] } in
    let sale = list_lifetime s id (list_yearly s id (list_monthly s id days)) in
    if s.lifetime_enabled then sale else record sale { lifetime_price = 0; lifetime_full_price = 0 }

-- The map that `Listed` builds: its values under the plans' ids.
unfoldable pub listed : Settings → List (Text × Plan)
unfolding listed_plan
listed s = map (λ e. (e.0, listed_plan s e.0 e.1)) all

-- A statement on the entries of a map holds of what a lookup finds.
pub get-All :
    {V : Type 0} (P : Text → V → Type 0) (id : Text) (v : V) (m : List (Text × V))
    → All (λ e. P e.0 e.1) m
    → get id m ≡ some v
    → P id v
unfolding get
get-All P id v [] a h = absurd (ground arith)
get-All P id v ((j, u) ∷ m) a h = elim (Bool-cases (same j id)) [
  | inl here ↦
      let e : j ≡ id = (same_iff j id).0 here in
      let f : u ≡ v = ground (arith, h, here) in subst₂ P e f a.0
  | inr other ↦ get-All P id v m a.1 (ground (arith, h, other))
]
