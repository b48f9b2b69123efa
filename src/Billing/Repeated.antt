-- ===== src/Billing/Repeated.antt =====
-- A purchase that is sent again.
use torrin.Prelude.{
  ℕ, ◌<◌, ◌≡◌, refl, ap, sym, ◌∙◌, inl, inr, Bool, true, false, ◌||◌, some, [], ◌++◌, Result, ok,
  err, Result-cases, Bool-cases, Option-cases, if◌then◌else◌, ltb, ◌==◌, length, arith,
}
use mathlib.Core.Path.{subst}
use torrin.Prelude.Int.{ℤ, pos}
use torrin.Prelude.Text.{Text, bytes, same}
use torrin.Plans.Pricing.{price_cents}
use torrin.Wallet.Ledger.{
  Account, Bank, Stmt, Fails, Purchase, wallet_balance, has_ref, wallet_buy_plan,
}
use torrin.Wallet.Replay.{buy_plan-Charged}
use torrin.Billing.Purchase.{
  Store, Env, credit_referral, purchase_ref, purchase_of, after_purchase, buy_plan_from_wallet,
}

-- Accounts, ledger, balances and referrals are as they were.
abbrev pub Unchanged : Store → Store → Type 0
Unchanged s s' =
    (s'.bank.users ≡ s.bank.users)
    × (s'.bank.ledger ≡ s.bank.ledger)
    × ((u : Text) → wallet_balance u s'.bank ≡ wallet_balance u s.bank)
    × (s'.paid ≡ s.paid)

applied_new :
    (fails : Fails) (user : Text) (cents : ℤ) (reason ref : Text) (p : Purchase) (b v : Bank)
    (paid : Bool)
    → wallet_buy_plan fails user cents reason ref p b ≡ ok (v, paid, true)
    → has_ref ref b.ledger ≡ false
unfolding wallet_buy_plan
applied_new fails user cents reason ref p b v paid h = ground (arith, h)

paid_posted :
    (fails : Fails) (user : Text) (cents : ℤ) (reason ref : Text) (p : Purchase) (b v : Bank)
    → wallet_buy_plan fails user cents reason ref p b ≡ ok (v, true, false)
    → has_ref ref b.ledger ≡ true
unfolding wallet_buy_plan
paid_posted fails user cents reason ref p b v h = ground (arith, h)

-- A purchase whose reference is posted already changes nothing.
after_posted :
    (env : Env) (user : Text) (cents : ℤ) (reason ref period : Text) (p : Purchase) (s : Store)
    → has_ref ref s.bank.ledger ≡ true
    → Unchanged s
        (after_purchase env user period s
          (wallet_buy_plan env.fails user cents reason ref p s.bank)).0
unfolding after_purchase
after_posted env user cents reason ref period p s posted =
    elim (Result-cases (wallet_buy_plan env.fails user cents reason ref p s.bank)) [
      | inr (e, failed) ↦ rw (failed, after_purchase) (refl, refl, λ u. refl, refl)
      | inl ((b, paid, true), done) ↦
          let wrong = applied_new env.fails user cents reason ref p s.bank b paid done in
          absurd (ground (arith, posted, wrong))
      | inl ((b, true, false), done) ↦
          elim (buy_plan-Charged env.fails user cents reason ref p s.bank b true false done) [
            | inl c ↦ rw (done, after_purchase) (c.1, c.2, c.3, refl)
            | inr c ↦ absurd (ground (arith, c.0))
          ]
      | inl ((b, false, false), done) ↦
          elim (buy_plan-Charged env.fails user cents reason ref p s.bank b false false done) [
            | inl c ↦ rw (done, after_purchase) (c.1, c.2, c.3, refl)
            | inr c ↦ absurd (ground (arith, c.0))
          ]
    ]

buy_posted :
    (env : Env) (user : Account) (plan_id period : Text) (recurring : Bool) (key : Text) (s : Store)
    → has_ref (purchase_ref env.uuid key) s.bank.ledger ≡ true
    → Unchanged s (buy_plan_from_wallet env user plan_id period recurring key s).0
unfolding buy_plan_from_wallet
buy_posted env user plan_id period recurring key s posted =
    elim (Option-cases (price_cents env.settings plan_id period 0)) [
      | inl unknown ↦ rw (unknown, buy_plan_from_wallet) (refl, refl, λ u. refl, refl)
      | inr (cents, price) ↦ elim (Bool-cases (cents == 0)) [
        | inl free ↦ rw (price, free, buy_plan_from_wallet) (refl, refl, λ u. refl, refl)
        | inr costs ↦
            rw (price, costs, buy_plan_from_wallet)
              (after_posted env user.id (pos cents)
                (bytes "plan:" ++ plan_id ++ bytes ":" ++ period) (purchase_ref env.uuid key) period
                (purchase_of env user plan_id period recurring key) s posted)
      ]
    ]

pub credit_referral-ledger :
    (env : Env) (user : Text) (s : Store) → (credit_referral env user s).bank.ledger ≡ s.bank.ledger
unfolding credit_referral
credit_referral-ledger env user s =
    elim (Bool-cases (length (if env.referrer_fails then [] else s.referred_by user) == 0)) [
      | inl nobody ↦ rw (nobody, credit_referral) refl
      | inr there ↦ rw (there, credit_referral) refl
    ]

-- A purchase that was paid has its reference in the ledger.
abbrev Paid : Text → Store × Result Stmt Bool → Type 0
Paid ref (s, ok true) = has_ref ref s.bank.ledger ≡ true
Paid ref (s, ok false) = Unit
Paid ref (s, err e) = Unit

after_purchase-Paid :
    (env : Env) (user : Text) (cents : ℤ) (reason ref period : Text) (p : Purchase) (s : Store)
    → Paid ref (
        after_purchase env user period s (wallet_buy_plan env.fails user cents reason ref p s.bank))
unfolding after_purchase
after_purchase-Paid env user cents reason ref period p s =
    elim (Result-cases (wallet_buy_plan env.fails user cents reason ref p s.bank)) [
      | inr (e, failed) ↦ rw (failed, after_purchase) tt
      | inl ((b, false, applied), done) ↦ rw (done, after_purchase) tt
      | inl ((b, true, false), done) ↦
          elim (buy_plan-Charged env.fails user cents reason ref p s.bank b true false done) [
            | inl c ↦
                rw (done, after_purchase)
                  (ap (has_ref ref) c.2
                    ∙ paid_posted env.fails user cents reason ref p s.bank b done)
            | inr c ↦ absurd (ground (arith, c.0))
          ]
      | inl ((b, true, true), done) ↦
          elim (buy_plan-Charged env.fails user cents reason ref p s.bank b true true done) [
            | inl c ↦ absurd (ground (arith, c.0))
            | inr c ↦
                elim (Bool-cases (same period (bytes "monthly") || same period (bytes "yearly"))) [
                  | inl rewards ↦
                      rw (done, rewards, after_purchase)
                        (ap (has_ref ref) (credit_referral-ledger env user (record s { bank = b }))
                          ∙ c.2)
                  | inr quiet ↦ rw (done, quiet, after_purchase) c.2
                ]
          ]
    ]

pub buy_plan_priced :
    (env : Env) (user : Account) (plan_id period : Text) (recurring : Bool) (key : Text) (s : Store)
    (cents : ℕ)
    → price_cents env.settings plan_id period 0 ≡ some cents
    → (cents == 0) ≡ false
    → buy_plan_from_wallet env user plan_id period recurring key s
      ≡ after_purchase env user.id period s (
          wallet_buy_plan env.fails user.id
            (pos cents)
            (bytes "plan:" ++ plan_id ++ bytes ":" ++ period)
            (purchase_ref env.uuid key)
            (purchase_of env user plan_id period recurring key)
            s.bank)
unfolding buy_plan_from_wallet
buy_plan_priced env user plan_id period recurring key s cents price costs =
    rw (price, costs, buy_plan_from_wallet) refl

buy_plan-Paid :
    (env : Env) (user : Account) (plan_id period : Text) (recurring : Bool) (key : Text) (s : Store)
    → Paid
        (purchase_ref env.uuid key)
        (buy_plan_from_wallet env user plan_id period recurring key s)
unfolding buy_plan_from_wallet
buy_plan-Paid env user plan_id period recurring key s =
    elim (Option-cases (price_cents env.settings plan_id period 0)) [
      | inl unknown ↦ rw (unknown, buy_plan_from_wallet) tt
      | inr (cents, price) ↦ elim (Bool-cases (cents == 0)) [
        | inl free ↦ rw (price, free, buy_plan_from_wallet) tt
        | inr costs ↦
            subst (Paid (purchase_ref env.uuid key))
              (sym (buy_plan_priced env user plan_id period recurring key s cents price costs))
              (after_purchase-Paid env user.id (pos cents)
                (bytes "plan:" ++ plan_id ++ bytes ":" ++ period) (purchase_ref env.uuid key) period
                (purchase_of env user plan_id period recurring key) s)
      ]
    ]

-- Once a purchase with an idempotency key was paid, a purchase with the same key changes no account,
-- no balance, no entry of the ledger and no referral, whichever statements fail, and also if it
-- is of another plan or by another user.
pub buy_plan_repeated :
    (env env' : Env) (user user' : Account) (plan_id plan_id' period period' : Text)
    (recurring recurring' : Bool) (key : Text) (s s' : Store)
    → 0 < length key
    → buy_plan_from_wallet env user plan_id period recurring key s ≡ (s', ok true)
    → Unchanged s' (buy_plan_from_wallet env' user' plan_id' period' recurring' key s').0
buy_plan_repeated env env' user user' plan_id plan_id' period period' recurring recurring' key s s'
      given h =
    let keyed : ltb 0 (length key) ≡ true = ground (arith, given) in
    let posted : has_ref (purchase_ref env.uuid key) s'.bank.ledger ≡ true =
      subst (Paid (purchase_ref env.uuid key)) h
        (buy_plan-Paid env user plan_id period recurring key s) in
    buy_posted env' user' plan_id' period' recurring' key s' (rw keyed (rw keyed at posted))
