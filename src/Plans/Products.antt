-- ===== src/Plans/Products.antt =====
-- shared/plans/plans.go: the products of the shop, and who may bring a key.
use torrin.Prelude.{
  ℕ, ◌<◌, ◌≡◌, refl, Bool, true, false, ◌&&◌, not, Option, some, [], if◌then◌else◌, ltb, arith,
}
use torrin.Prelude.Text.{Text, bytes, same, has_suffix}
use torrin.Prelude.Dict.{get}
use torrin.Jobs.Rows.{All}
use torrin.Plans.Catalog.{Plan, by_gumroad_product}
use torrin.Plans.Pricing.{Settings, get-All, price_cents, find_plan, day_price}

unfoldable pub days_from_product : Text → ℕ
days_from_product permalink =
    if has_suffix permalink (bytes "7d")
    then 7
    else if has_suffix permalink (bytes "15d")
    then 15
    else 0

unfoldable pub recurrence_from_product : Text → Text
unfolding days_from_product
recurrence_from_product permalink =
    if ltb 0 (days_from_product permalink)
    then bytes "days"
    else if has_suffix permalink (bytes "lifetime")
    then bytes "lifetime"
    else if has_suffix permalink (bytes "yearly")
    then bytes "yearly"
    else bytes "monthly"

-- `Get`
unfoldable pub get_plan : Text → Option Plan
unfolding get same
get_plan id = find_plan id

unfoldable pub can_byok : Text → Bool
can_byok plan_id = not (same plan_id []) && not (same plan_id (bytes "free"))

unfoldable pub indexer_policy : Plan → Bool → Bool × Bool
unfolding can_byok
indexer_policy plan on = (can_byok plan.id, plan.system_usenet && on)

-- What a sale of a product sells.
abbrev Sold : Settings → Text → Text → Type 0
Sold s product id =
    (c : ℕ) × (price_cents s id (recurrence_from_product product) (days_from_product product)
      ≡ some c)
    × (0 < c)
    × (can_byok id ≡ true)

either :
    (b : Bool) (x y : ℕ)
    → 0 < x
    → 0 < y
    → (c : ℕ) × ((if b then some x else some y) ≡ some c) × (0 < c) × (true ≡ true)
either true x y h k = (x, refl, h, refl)
either false x y h k = (y, refl, k, refl)

entry-Sold : (s : Settings) → All (λ e. Sold s e.0 e.1) by_gumroad_product
unfolding price_cents recurrence_from_product days_from_product day_price has_suffix can_byok get
    same
entry-Sold s = (
  (149, refl, omega arith, refl),
  (
    (249, refl, omega arith, refl),
    (
      (299, refl, omega arith, refl),
      (
        (499, refl, omega arith, refl),
        (
          (599, refl, omega arith, refl),
          (
            (999, refl, omega arith, refl),
            (
              either s.black_friday_active 224 299 (omega arith) (omega arith),
              (
                either s.black_friday_active 449 599 (omega arith) (omega arith),
                (
                  either s.black_friday_active 899 1199 (omega arith) (omega arith),
                  (
                    either s.black_friday_active 2149 2870 (omega arith) (omega arith),
                    (
                      either s.black_friday_active 4299 5750 (omega arith) (omega arith),
                      (
                        either s.black_friday_active 8599 11500 (omega arith) (omega arith),
                        (
                          either s.black_friday_active 5900 8900 (omega arith) (omega arith),
                          (
                            either s.black_friday_active 10900 16900 (omega arith) (omega arith),
                            (
                              either s.black_friday_active 21500 32900 (omega arith) (omega arith),
                              tt,
                            ),
                          ),
                        ),
                      ),
                    ),
                  ),
                ),
              ),
            ),
          ),
        ),
      ),
    ),
  ),
)

-- Every product of the shop sells a paid plan: under its recurrence and its days `PriceCents` asks
-- for a price above 0, under every setting.
pub product-price :
    (s : Settings) (product id : Text)
    → get product by_gumroad_product ≡ some id
    → (c : ℕ) × (price_cents s id (recurrence_from_product product) (days_from_product product)
        ≡ some c)
      × (0 < c)
      × (can_byok id ≡ true)
product-price s product id h = get-All (Sold s) product id by_gumroad_product (entry-Sold s) h
