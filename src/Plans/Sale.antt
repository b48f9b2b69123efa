-- ===== src/Plans/Sale.antt =====
-- What is shown, what is asked for, and what is accepted.
use torrin.Prelude.{
  ℕ, ◌≡◌, ◌≢◌, ◌⊎◌, inl, inr, refl, ap, ◌∙◌, Bool, true, false, some, if◌then◌else◌, Bool-cases,
  Option-cases, arith,
}
use torrin.Prelude.Text.{Text, bytes, same, same_iff}
use torrin.Prelude.Select.{any_of}
use torrin.Prelude.Dict.{get}
use torrin.Jobs.Rows.{All}
use torrin.Plans.Catalog.{Plan, all}
use torrin.Plans.Pricing.{
  Settings, get-All, find_plan, day_price, price_cents, validate_price, listed_plan, listed,
}

-- The sale asks for the prices that are shown.
abbrev Asked : Settings → ℕ → Text → Plan → Type 0
Asked s days id q =
    (price_cents s id (bytes "monthly") days ≡ some q.monthly_price)
    × (price_cents s id (bytes "yearly") days ≡ some q.yearly_price)
    × ((c : ℕ) × (price_cents s id (bytes "lifetime") days ≡ some c)
        × (q.lifetime_price ≡ (if s.lifetime_enabled then c else 0)))

either :
    (sale : Bool) (x y : ℕ) (on : Bool) (z : ℕ)
    → z ≡ (if on then (if sale then x else y) else 0)
    → (c : ℕ) × ((if sale then some x else some y) ≡ some c) × (z ≡ (if on then c else 0))
either true x y on z h = (x, refl, h)
either false x y on z h = (y, refl, h)

entry-Asked : (s : Settings) (days : ℕ) → All (λ e. Asked s days e.0 e.1) (listed s)
unfolding price_cents listed listed_plan get same
entry-Asked s days = (
  (
    ground arith,
    ground arith,
    either s.black_friday_active 0 0 s.lifetime_enabled _ (ground arith),
  ),
  (
    (
      ground arith,
      ground arith,
      either s.black_friday_active 5900 8900 s.lifetime_enabled _ (ground arith),
    ),
    (
      (
        ground arith,
        ground arith,
        either s.black_friday_active 10900 16900 s.lifetime_enabled _ (ground arith),
      ),
      (
        (
          ground arith,
          ground arith,
          either s.black_friday_active 21500 32900 s.lifetime_enabled _ (ground arith),
        ),
        tt,
      ),
    ),
  ),
)

-- Under every setting of the sale and of the switches, `PriceCents` asks for the monthly and the
-- yearly price that `Listed` shows of a plan; and the lifetime price that it shows is the one
-- `PriceCents` asks for while lifetime plans are on, and 0 while they are off.
pub price-listed :
    (s : Settings) (days : ℕ) (id : Text) (q : Plan)
    → get id (listed s) ≡ some q
    → (price_cents s id (bytes "monthly") days ≡ some q.monthly_price)
      × (price_cents s id (bytes "yearly") days ≡ some q.yearly_price)
      × ((c : ℕ) × (price_cents s id (bytes "lifetime") days ≡ some c)
          × (q.lifetime_price ≡ (if s.lifetime_enabled then c else 0)))
price-listed s days id q h = get-All (Asked s days) id q (listed s) (entry-Asked s days) h

-- The price of a plan on a setting, for every period and number of days.
abbrev Accepted : Settings → Text → ℕ → Text → Plan → Type 0
Accepted s period days id p =
    (c : ℕ) → price_cents s id period days ≡ some c → validate_price id period c ≡ true

entry-Accepted :
    (s : Settings) (period : Text) (days : ℕ)
    → s.black_friday_active ≡ false
    → All (λ e. Accepted s period days e.0 e.1) all
unfolding price_cents validate_price day_price any_of get same
entry-Accepted s period days off = (
  λ c h. ground (arith, h, off),
  (
    λ c h. ground (arith, h, off),
    (λ c h. ground (arith, h, off), (λ c h. ground (arith, h, off), tt)),
  ),
)

-- A plan that is sold: it has a price in the sale.
abbrev Refused : Settings → Text → ℕ → Text → Plan → Type 0
Refused s period days id p =
    id ≢ bytes "free"
    → (c : ℕ) → price_cents s id period days ≡ some c
    → validate_price id period c ≡ same period (bytes "days")

one_period :
    (period p q : Text) → same p q ≡ false → (same period p ≡ false) ⊎ (same period q ≡ false)
one_period period p q n = elim (Bool-cases (same period p)) [
  | inr other ↦ inl other
  | inl here ↦ inr (ap (λ t. same t q) ((same_iff period p).0 here) ∙ n)
]

entry-Refused :
    (s : Settings) (period : Text) (days : ℕ)
    → s.black_friday_active ≡ true
    → All (λ e. Refused s period days e.0 e.1) all
unfolding price_cents validate_price day_price any_of get same
entry-Refused s period days on =
    let a = one_period period (bytes "lifetime") (bytes "days") refl in
    let b = one_period period (bytes "yearly") (bytes "days") refl in
    (
      λ n c h. absurd (n refl),
      (
        λ n c h. ground (arith, h, on, a, b),
        (λ n c h. ground (arith, h, on, a, b), (λ n c h. ground (arith, h, on, a, b), tt)),
      ),
    )

plan_known :
    (s : Settings) (id period : Text) (days c : ℕ)
    → price_cents s id period days ≡ some c
    → (p : Plan) × (find_plan id ≡ some p)
unfolding price_cents
plan_known s id period days c h = elim (Option-cases (find_plan id)) [
  | inl unknown ↦ absurd (ground (arith, h, unknown))
  | inr known ↦ known
]

-- While no Black Friday sale is on, `ValidatePrice` accepts every price that `PriceCents` asks for.
pub regular_price_accepted :
    (s : Settings) (id period : Text) (days c : ℕ)
    → s.black_friday_active ≡ false
    → price_cents s id period days ≡ some c
    → validate_price id period c ≡ true
regular_price_accepted s id period days c off h =
    let (p, known) = plan_known s id period days c h in
    get-All (Accepted s period days) id p all (entry-Accepted s period days off) known c h

-- While the Black Friday sale is on, `ValidatePrice` accepts of the prices that `PriceCents` asks
-- for a plan other than the free one only those for days: it refuses those by the month, by the
-- year and for life.
pub sale_price_refused :
    (s : Settings) (id period : Text) (days c : ℕ)
    → s.black_friday_active ≡ true
    → id ≢ bytes "free"
    → price_cents s id period days ≡ some c
    → validate_price id period c ≡ same period (bytes "days")
sale_price_refused s id period days c on n h =
    let (p, known) = plan_known s id period days c h in
    get-All (Refused s period days) id p all (entry-Refused s period days on) known n c h
