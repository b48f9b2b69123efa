-- ===== src/Wallet/Replay.antt =====
-- A purchase from the wallet: money and plan go together, and once.
use mathlib.Core.Path.{subst}
use torrin.Prelude.{
  ◌≡◌, ◌⊎◌, inl, inr, refl, ap, sym, ◌∙◌, Bool, true, false, not, if◌then◌else◌, ok, Bool-cases,
  arith,
}
use torrin.Prelude.Int.{ℤ, pos, ◌+ℤ◌, ◌-ℤ◌, ◌≤ℤ◌, ltb_ℤ, +ℤ_parts, -ℤ_parts}
use torrin.Prelude.Text.{Text, same, same_self}
use torrin.Prelude.Select.{any_of}
use torrin.Wallet.Ledger.{
  Bank, Fails, wallet_balance, open_wallet, has_ref, post, wallet_buy_plan, Purchase, set_plan,
}
use torrin.Wallet.Balance.{balance-open, balance-post}

-- What a purchase that returns no error leaves: the money and the plan as they were, or the price
-- taken, the plan set and the reference posted, as `applied` says.
abbrev pub Charged : Text → ℤ → Text → Purchase → Bank → Bank → Bool → Type 0
Charged user cents ref p b v applied =
    ((applied ≡ false)
      × (v.users ≡ b.users)
      × (v.ledger ≡ b.ledger)
      × ((u : Text) → wallet_balance u v ≡ wallet_balance u b))
    ⊎ ((applied ≡ true)
        × (v.users ≡ set_plan user p b.users)
        × (has_ref ref v.ledger ≡ true)
        × (pos 0 ≤ℤ wallet_balance user v)
        × ((u : Text)
            → wallet_balance u v ≡ (
                if same user u
                then wallet_balance user b +ℤ (pos 0 -ℤ cents)
                else wallet_balance u b)))

ref_posted :
    (user : Text) (d : ℤ) (reason ref : Text) (b : Bank)
    → has_ref ref (post user d reason ref b).ledger ≡ true
unfolding post has_ref any_of
ref_posted user d reason ref b = ground (arith, same_self ref)

-- The banks of the three results.
abbrev Outcome : Text → ℤ → Text → Text → Purchase → Bank → Bank → Bool → Bool → Type 0
Outcome user cents reason ref p b v paid applied =
    ((v ≡ b) × (paid ≡ false) × (applied ≡ false))
    ⊎ (((v ≡ open_wallet user b) × (paid ≡ true) × (applied ≡ false))
        ⊎ ((ltb_ℤ (wallet_balance user b -ℤ cents) (pos 0) ≡ false)
            × (paid ≡ true)
            × (applied ≡ true)
            × (v ≡ record (post user (pos 0 -ℤ cents) reason ref b) {
              users = set_plan user p (post user (pos 0 -ℤ cents) reason ref b).users;
            })))

buy-Outcome :
    (fails : Fails) (user : Text) (cents : ℤ) (reason ref : Text) (p : Purchase) (b v : Bank)
    (paid applied : Bool)
    → wallet_buy_plan fails user cents reason ref p b ≡ ok (v, paid, applied)
    → Outcome user cents reason ref p b v paid applied
unfolding wallet_buy_plan
buy-Outcome fails user cents reason ref p b v paid applied h = ground (arith, h)

Outcome-Charged :
    (user : Text) (cents : ℤ) (reason ref : Text) (p : Purchase) (b v : Bank) (paid applied : Bool)
    → Outcome user cents reason ref p b v paid applied
    → Charged user cents ref p b v applied
unfolding open_wallet post wallet_balance
Outcome-Charged user cents reason ref p b v paid applied (inl o) =
    inl (o.2, ap (λ x. x.users) o.0, ap (λ x. x.ledger) o.0, λ u. ap (wallet_balance u) o.0)
Outcome-Charged user cents reason ref p b v paid applied (inr (inl o)) = inl (
  o.2,
  ap (λ x. x.users) o.0,
  ap (λ x. x.ledger) o.0,
  λ u. ap (wallet_balance u) o.0 ∙ balance-open u user b,
)
Outcome-Charged user cents reason ref p b v paid applied (inr (inr o)) =
    let d : ℤ = pos 0 -ℤ cents in
    let all : (u : Text)
        → wallet_balance u v
          ≡ (if same user u then wallet_balance user b +ℤ d else wallet_balance u b) =
      λ u. ap (wallet_balance u) o.3 ∙ balance-post u user d reason ref b in
    let own : wallet_balance user v ≡ wallet_balance user b +ℤ d =
      all user ∙ rw (same_self user) refl in
    inr (
      o.2,
      ap (λ x. x.users) o.3,
      ap (λ x. has_ref ref x.ledger) o.3 ∙ ref_posted user d reason ref b,
      subst (λ z. pos 0 ≤ℤ z) (sym own)
          (ground (
            arith,
            o.0,
            +ℤ_parts (wallet_balance user b) d,
            -ℤ_parts (pos 0) cents,
            -ℤ_parts (wallet_balance user b) cents,
          )),
      all,
    )

-- Whichever statements fail: a purchase that returns no error has either changed no balance, no
-- entry of the ledger and no account, and reports that it was not applied; or it has taken
-- the price from the buyer's wallet alone, which is not overdrawn, has set the plan and posted the
-- reference, and reports that it was applied.
pub buy_plan-Charged :
    (fails : Fails) (user : Text) (cents : ℤ) (reason ref : Text) (p : Purchase) (b v : Bank)
    (paid applied : Bool)
    → wallet_buy_plan fails user cents reason ref p b ≡ ok (v, paid, applied)
    → Charged user cents ref p b v applied
buy_plan-Charged fails user cents reason ref p b v paid applied h =
    Outcome-Charged user cents reason ref p b v paid applied
      (buy-Outcome fails user cents reason ref p b v paid applied h)

-- No statement fails.
abbrev pub sound : Fails
sound _ = false

-- A purchase that was applied, sent again with its reference and no failing statement, charges
-- nothing and sets no plan. It reports the purchase as paid only if the wallet still holds
-- the price after the first.
pub buy_plan_twice :
    (fails : Fails) (user : Text) (cents : ℤ) (reason ref : Text) (p : Purchase) (b v : Bank)
    (paid : Bool)
    → wallet_buy_plan fails user cents reason ref p b ≡ ok (v, paid, true)
    → (w : Bank) × (wallet_buy_plan sound user cents reason ref p v
        ≡ ok (w, not (ltb_ℤ (wallet_balance user v -ℤ cents) (pos 0)), false))
      × (w.users ≡ v.users)
      × (w.ledger ≡ v.ledger)
      × ((u : Text) → wallet_balance u w ≡ wallet_balance u v)
unfolding wallet_buy_plan open_wallet
buy_plan_twice fails user cents reason ref p b v paid h =
    elim (buy_plan-Charged fails user cents reason ref p b v paid true h) [
      | inl c ↦ absurd (ground (arith, c.0))
      | inr c ↦ elim (Bool-cases (ltb_ℤ (wallet_balance user v -ℤ cents) (pos 0))) [
        | inl low ↦ (v, ground (arith, low), refl, refl, λ u. refl)
        | inr enough ↦ (
          open_wallet user v,
          ground (arith, enough, c.2),
          refl,
          refl,
          λ u. balance-open u user v,
        )
      ]
    ]
