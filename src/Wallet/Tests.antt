-- ===== src/Wallet/Tests.antt =====
-- A wallet that is filled and spent, and the theorems at it.
use torrin.Prelude.{◌≡◌, refl, true, false, not, none, List, [], ◌∷◌, ok}
use torrin.Prelude.Int.{pos, negsuc, ◌+ℤ◌, ◌-ℤ◌, ltb_ℤ}
use torrin.Prelude.Text.{Text, bytes, same}
use torrin.Prelude.Select.{any_of}
use torrin.Prelude.Dict.{get, put}
use torrin.Wallet.Ledger.{
  Account, Bank, Fails, Call, credit_call, debit_call, buy_call, wallet_balance, open_wallet,
  has_ref, post, credit, debit, move, wallet_buy_plan, Purchase, set_plan, call, calls,
}
use torrin.Wallet.Balance.{posted, DistinctRefs, fresh, ledger_balance}
use torrin.Wallet.Replay.{Charged, sound, buy_plan-Charged, buy_plan_twice}

program : Unit {0}
unfolding wallet_balance open_wallet has_ref post credit debit move wallet_buy_plan set_plan call
    calls get put any_of same ◌+ℤ◌ ◌-ℤ◌
program = tt

abbrev ann : Account
ann = record {
  id = bytes "ann";
  plan_id = bytes "free";
  subscription_id = [];
  license_key = [];
  recurrence = [];
  expires_at = 0;
  paused_at = none;
  remaining_days = 0;
  pause_count = 0;
}

abbrev starter_month : Purchase
starter_month = record {
  plan_id = bytes "starter";
  sub_id = [];
  license = bytes "r2";
  recurrence = bytes "monthly";
  expires_at = 30;
}

abbrev history : List (Fails × Call)
history =
    (sound, credit_call (bytes "ann") (pos 500) (bytes "topup") (bytes "r1"))
    ∷ (sound, debit_call (bytes "ann") (pos 900) (bytes "seeds") (bytes "r0"))
    ∷ (sound, buy_call (bytes "ann") (pos 299) (bytes "plan") (bytes "r2") starter_month)
    ∷ []

abbrev filled : Bank
filled = record (fresh (ann ∷ [])) { wallets = (bytes "ann", pos 500) ∷ [] }

abbrev spent : Bank
spent = record {
  wallets = (bytes "ann", pos 201) ∷ [];
  ledger =
      record {
        user = bytes "ann";
        delta = negsuc 298;
        reason = bytes "plan";
        ref = bytes "r2";
        balance = pos 201;
      }
      ∷ [];
  users =
      record ann {
        plan_id = bytes "starter";
        license_key = bytes "r2";
        recurrence = bytes "monthly";
        expires_at = 30;
      }
      ∷ [];
}

bought :
    wallet_buy_plan sound (bytes "ann") (pos 299) (bytes "plan") (bytes "r2") starter_month filled
    ≡ ok (spent, true, true)
unfolding program
bought = refl

-- The retry of a purchase that was paid reports it as not paid.
retry_unpaid :
    wallet_buy_plan sound (bytes "ann") (pos 299) (bytes "plan") (bytes "r2") starter_month spent
    ≡ ok (spent, false, false)
unfolding program
retry_unpaid = refl

ledger_balance_example :
    let b = calls history (fresh (ann ∷ [])) in
    ((u : Text) → wallet_balance u b ≡ posted u b.ledger) × DistinctRefs b.ledger
ledger_balance_example = ledger_balance (ann ∷ []) history

buy_plan-Charged_example :
    Charged (bytes "ann") (pos 299) (bytes "r2") starter_month filled spent true
buy_plan-Charged_example =
    buy_plan-Charged sound (bytes "ann") (pos 299) (bytes "plan") (bytes "r2") starter_month filled
      spent true true bought

buy_plan_twice_example :
    (w : Bank) × (wallet_buy_plan sound
        (bytes "ann")
        (pos 299)
        (bytes "plan")
        (bytes "r2")
        starter_month
        spent
      ≡ ok (w, not (ltb_ℤ (wallet_balance (bytes "ann") spent -ℤ pos 299) (pos 0)), false))
    × (w.users ≡ spent.users)
    × (w.ledger ≡ spent.ledger)
    × ((u : Text) → wallet_balance u w ≡ wallet_balance u spent)
buy_plan_twice_example =
    buy_plan_twice sound (bytes "ann") (pos 299) (bytes "plan") (bytes "r2") starter_month filled
      spent true bought
