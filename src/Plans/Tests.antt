-- ===== src/Plans/Tests.antt =====
-- Prices of the plans, and the theorems at them.
use torrin.Prelude.{◌≡◌, refl, true, false, some}
use torrin.Prelude.Text.{bytes, same}
use torrin.Plans.Catalog.{Plan, pro}
use torrin.Plans.Pricing.{Settings, price_cents, price_cents_at, validate_price, listed_plan}
use torrin.Plans.Sale.{sale_price_refused}

abbrev on_sale : Settings
on_sale = record { lifetime_enabled = true; black_friday_active = true; day_plans_enabled = false }

before_the_bump :
    price_cents_at on_sale (bytes "standard") (bytes "lifetime") 0 1_786_924_800 ≡ some 10782
unfolding price_cents_at
before_the_bump = refl

abbrev pro_on_sale : Plan
pro_on_sale = listed_plan on_sale (bytes "pro") pro

abbrev off_sale : Settings
off_sale = record on_sale { black_friday_active = false }

-- The shop's webhook refuses a month of the plan at the price of the sale.
sale_price_refused_example :
    validate_price (bytes "pro") (bytes "monthly") 899 ≡ same (bytes "monthly") (bytes "days")
unfolding price_cents
sale_price_refused_example =
    sale_price_refused on_sale (bytes "pro") (bytes "monthly") 0 899 refl (λ e. cc) refl
