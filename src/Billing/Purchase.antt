-- ===== src/Billing/Purchase.antt =====
-- A plan that is bought from the wallet: `BuyPlanFromWallet` and `RenewWalletPlans` of
-- shared/billing/common.go, `WalletRecurringDue` of shared/auth/wallet.go and `CreditReferral` of
-- shared/auth/billing.go.
use torrin.Prelude.{
  ℕ, ◌+◌, Bool, true, false, not, ◌&&◌, ◌||◌, none, some, List, [], ◌∷◌, ◌++◌, Result, ok, err,
  if◌then◌else◌, ltb, ◌==◌, length,
}
use torrin.Prelude.Int.{pos}
use torrin.Prelude.Select.{keep}
use torrin.Prelude.Text.{Text, bytes, same, has_prefix}
use torrin.Plans.Pricing.{Settings, price_cents}
use torrin.Wallet.Ledger.{Account, Bank, Stmt, Fails, Purchase, wallet_buy_plan}
use torrin.Billing.Expiry.{day, plan_expiry, apply_referral_reward}

-- The wallets and accounts, who referred whom, and the referees whose payment was seen.
pub record Store : Type 0 where
  pub bank : Bank
  pub referred_by : Text → Text
  pub paid : List Text

-- What a purchase meets: the settings of the prices, the time, a fresh identifier, and which
-- statements fail.
pub record Env : Type 0 where
  pub settings : Settings
  pub now : ℕ
  pub uuid : Text
  pub fails : Fails
  pub referrer_fails : Bool
  pub mark_fails : Bool
  pub reward_fails : Bool

-- The errors of the three statements are not looked at; without its row the referrer is nobody.
unfoldable pub credit_referral : Env → Text → Store → Store
unfolding apply_referral_reward
credit_referral env referee s =
    let referrer = if env.referrer_fails then [] else s.referred_by referee in
    if length referrer == 0 then s else record s {
      bank = record s.bank {
        users =
            if env.reward_fails
            then s.bank.users
            else apply_referral_reward env.now referrer s.bank.users;
      };
      paid = if env.mark_fails then s.paid else referee ∷ s.paid;
    }

abbrev pub purchase_ref : Text → Text → Text
purchase_ref uuid key =
    if ltb 0 (length key) then bytes "wallet:buy:" ++ key else bytes "wallet:" ++ uuid

abbrev pub purchase_of : Env → Account → Text → Text → Bool → Text → Purchase
purchase_of env user plan_id period recurring key = record {
  plan_id = plan_id;
  sub_id =
      if recurring && not (same period (bytes "lifetime")) then bytes "wallet:" ++ user.id else [];
  license = purchase_ref env.uuid key;
  recurrence = period;
  expires_at = plan_expiry env.now user period (pos 0);
}

-- What follows on the transaction.
unfoldable pub after_purchase :
    Env → Text → Text → Store → Result Stmt (Bank × Bool × Bool) → Store × Result Stmt Bool
unfolding credit_referral
after_purchase env user period s (err e) = (s, err e)
after_purchase env user period s (ok (b, paid, applied)) =
    let charged = record s { bank = b } in
    if not paid then (charged, ok false) else (
      if applied && (same period (bytes "monthly") || same period (bytes "yearly"))
          then credit_referral env user charged
          else charged,
      ok true,
    )

unfoldable pub buy_plan_from_wallet :
    Env → Account → Text → Text → Bool → Text → Store → Store × Result Stmt Bool
unfolding price_cents after_purchase wallet_buy_plan
buy_plan_from_wallet env user plan_id period recurring key s =
    elim (price_cents env.settings plan_id period 0) [
      | none ↦ (s, ok false)
      | some cents ↦
          if cents == 0
          then (s, ok false)
          else after_purchase env user.id period s (
              wallet_buy_plan env.fails user.id (pos cents)
                (bytes "plan:" ++ plan_id ++ bytes ":" ++ period) (purchase_ref env.uuid key)
                (purchase_of env user plan_id period recurring key) s.bank)
    ]

unfoldable pub is_due : ℕ → Account → Bool
unfolding has_prefix same
is_due now u =
    has_prefix u.subscription_id (bytes "wallet:")
    && not (same u.plan_id (bytes "free"))
    && not (same u.recurrence (bytes "lifetime"))
    && not (same u.recurrence [])
    && ltb u.expires_at (now + day)

unfoldable pub wallet_recurring_due : ℕ → Bank → List Account
unfolding is_due keep
wallet_recurring_due now b = keep (is_due now) b.users

-- The loop: each purchase goes on whatever the one before returned.
unfoldable pub renew_loop : (ℕ → Env) → ℕ → List Account → Store → Store
unfolding buy_plan_from_wallet
renew_loop envs k [] s = s
renew_loop envs k (u ∷ us) s =
    renew_loop envs (k + 1) us (buy_plan_from_wallet (envs k) u u.plan_id u.recurrence true [] s).0

-- A run, with the time of the listing, and whether the listing fails.
unfoldable pub renew_wallet_plans : (ℕ → Env) → ℕ → Bool → Store → Store
unfolding wallet_recurring_due renew_loop
renew_wallet_plans envs now list_fails s =
    if list_fails then s else renew_loop envs 0 (wallet_recurring_due now s.bank) s
