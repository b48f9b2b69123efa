-- ===== src/Billing/Tests.antt =====
-- Ann, who pays from her wallet, and whom Bob brought.
use torrin.Prelude.{
  ◌≤◌, ◌<◌, ◌-◌, ℕ, ◌+◌, ◌*◌, ◌≡◌, refl, inr, true, false, none, some, [], ◌∷◌, ok, if◌then◌else◌,
  min, max, arith,
}
use torrin.Prelude.Int.{pos, ◌+ℤ◌, ◌-ℤ◌}
use torrin.Prelude.Text.{Text, bytes, same, has_prefix}
use torrin.Prelude.Select.{any_of, keep}
use torrin.Prelude.Dict.{get, put}
use torrin.Plans.Pricing.{price_cents}
use torrin.Wallet.Ledger.{
  Account, wallet_balance, open_wallet, has_ref, post, wallet_buy_plan, set_plan,
}
use torrin.Wallet.Replay.{sound}
use torrin.Billing.Expiry.{
  day, ending, find_account, is_paused, crypto_expiry, plan_expiry, redeem_expiry, reward_expiry,
  apply_referral_reward, redeem_expiry-plan_expiry, find-reward,
}
use torrin.Billing.Purchase.{
  Store, Env, credit_referral, after_purchase, buy_plan_from_wallet, is_due, wallet_recurring_due,
  renew_loop, renew_wallet_plans,
}
use torrin.Billing.Repeated.{Unchanged, buy_plan_repeated}
use torrin.Billing.Pause.{Subscriber, pause_sub, resume_sub, days_left, resume_sub-pause_sub}
use torrin.Billing.Renewal.{entries, NotDue, renew_wallet_plans-NotDue}

program : Unit {0}
unfolding wallet_balance open_wallet has_ref post wallet_buy_plan set_plan get put any_of keep same
    has_prefix ◌+ℤ◌ ◌-ℤ◌ price_cents find_account is_paused crypto_expiry plan_expiry redeem_expiry
    reward_expiry apply_referral_reward credit_referral after_purchase buy_plan_from_wallet is_due
    wallet_recurring_due renew_loop renew_wallet_plans entries
program = tt

abbrev account : Text → Text → ℕ → Account
account id sub expires = record {
  id = id;
  plan_id = bytes "starter";
  subscription_id = sub;
  license_key = [];
  recurrence = bytes "monthly";
  expires_at = expires;
  paused_at = none;
  remaining_days = 0;
  pause_count = 0;
}

abbrev ann : Account
ann = account (bytes "ann") (bytes "wallet:ann") 1000

abbrev bob : Account
bob = account (bytes "bob") [] (300 * 86400)

abbrev store : Store
store = record {
  bank = record { wallets = (bytes "ann", pos 900) ∷ []; ledger = []; users = ann ∷ bob ∷ [] };
  referred_by = λ u. if same u (bytes "ann") then bytes "bob" else [];
  paid = [];
}

abbrev env : Env
env = record {
  settings = record {
    lifetime_enabled = true;
    black_friday_active = false;
    day_plans_enabled = false;
  };
  now = 2000;
  uuid = bytes "u1";
  fails = sound;
  referrer_fails = false;
  mark_fails = false;
  reward_fails = false;
}

redeem_expiry-plan_expiry_example :
    redeem_expiry 500 (bytes "days") (pos 3) ann ≡ plan_expiry 500 ann (bytes "days") (pos 3)
redeem_expiry-plan_expiry_example =
    redeem_expiry-plan_expiry 500 (bytes "days") (pos 3) ann (inr (3, omega arith, refl))

-- A reward takes ten months from Bob.
bob_cut :
    find_account (bytes "bob") (apply_referral_reward 0 (bytes "bob") (ann ∷ bob ∷ []))
    ≡ some (ending (30 * 86400) bob)
unfolding program
bob_cut = refl

find-reward_example :
    find_account (bytes "bob") (apply_referral_reward 0 (bytes "bob") (ann ∷ bob ∷ []))
    ≡ some (ending (min (max 0 (300 * 86400) + 7 * day) (0 + 30 * day)) bob)
unfolding program
find-reward_example = find-reward 0 (bytes "bob") (bytes "bob") (ann ∷ bob ∷ [])

abbrev bought : Store
bought =
    (buy_plan_from_wallet env ann (bytes "starter") (bytes "monthly") false (bytes "k1") store).0

first_paid :
    buy_plan_from_wallet env ann (bytes "starter") (bytes "monthly") false (bytes "k1") store
    ≡ (bought, ok true)
unfolding program
first_paid = refl

buy_plan_repeated_example :
    Unchanged bought
      (buy_plan_from_wallet env bob (bytes "pro") (bytes "yearly") true (bytes "k1") bought).0
buy_plan_repeated_example =
    buy_plan_repeated env env ann bob (bytes "starter") (bytes "pro") (bytes "monthly")
      (bytes "yearly") false true (bytes "k1") store bought (omega arith) first_paid

charged_once :
    entries (bytes "ann") (renew_wallet_plans (λ j. env) 2000 false store).bank.ledger ≡ 1
unfolding program
charged_once = refl

not_charged_before : entries (bytes "ann") [] ≡ 0
unfolding program
not_charged_before = refl

renew_wallet_plans-NotDue_example :
    NotDue
      (2000 + 5 * 86400)
      (find_account (bytes "ann") (renew_wallet_plans (λ j. env) 2000 false store).bank.users)
renew_wallet_plans-NotDue_example =
    renew_wallet_plans-NotDue (λ j. env) 2000 (2000 + 5 * 86400) false store (bytes "ann")
      (λ j. omega arith) (omega arith) (omega (arith, charged_once, not_charged_before))

-- Ann pauses with five days and an hour left, and resumes a year later.
abbrev subscriber : Subscriber
subscriber = record {
  account = record ann { expires_at = 5 * 86400 + 3600 };
  last_paused_at = none;
}

abbrev resting : Subscriber
resting = (pause_sub 0 false subscriber).0

pause_taken : pause_sub 0 false subscriber ≡ (resting, ok 6)
unfolding pause_sub days_left is_paused same
pause_taken = refl

not_paused : is_paused subscriber.account ≡ false
unfolding is_paused
not_paused = refl

resume_sub-pause_sub_example :
    (expires : ℕ) × ((resume_sub 31536000 false resting).1 ≡ ok expires)
    × (31536000 + (5 * 86400 + 3600 - 0) ≤ expires)
    × (expires < 31536000 + (5 * 86400 + 3600 - 0) + day)
resume_sub-pause_sub_example =
    resume_sub-pause_sub 0 31536000 6 false subscriber resting not_paused (omega arith) pause_taken
