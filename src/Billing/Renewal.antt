-- ===== src/Billing/Renewal.antt =====
-- A run of the renewals, and the next.
use mathlib.Core.Path.{subst}
use torrin.Prelude.{
  ℕ, ◌+◌, ◌*◌, ◌≤◌, ◌<◌, ◌≡◌, refl, ap, sym, ◌∙◌, ◌⊎◌, inl, inr, Bool, true, false, ◌&&◌, ◌||◌,
  Option, none, some, List, [], ◌∷◌, ◌++◌, ok, Result-cases, Bool-cases, Option-cases, ltb, ◌==◌,
  length, All, arith,
}
use torrin.Prelude.Int.{ℤ, pos, ◌-ℤ◌}
use torrin.Prelude.Select.{keep}
use torrin.Prelude.Text.{Text, bytes, same, same_iff}
use torrin.Plans.Pricing.{price_cents}
use torrin.Wallet.Ledger.{
  Account, Bank, Fails, Purchase, LedgerEntry, post, set_plan, wallet_buy_plan,
}
use torrin.Billing.Expiry.{day, find_account, plan_expiry_week}
use torrin.Billing.Purchase.{
  Store, Env, credit_referral, purchase_ref, purchase_of, after_purchase, buy_plan_from_wallet,
  is_due, wallet_recurring_due, renew_loop, renew_wallet_plans,
}
use torrin.Billing.Repeated.{buy_plan_priced, credit_referral-ledger}
use torrin.Wallet.Replay.{buy_plan-Charged}
use torrin.Billing.Lasting.{LastsIn, Lasts, set_plan-Lasts, credit_referral-Lasts}

-- How many entries the ledger has of a user.
unfoldable pub entries : Text → List LedgerEntry → ℕ
unfolding keep
entries id l = length (keep (λ e. same e.user id) l)

applied_bank :
    (fails : Fails) (user : Text) (cents : ℤ) (reason ref : Text) (p : Purchase) (b v : Bank)
    (paid : Bool)
    → wallet_buy_plan fails user cents reason ref p b ≡ ok (v, paid, true)
    → v ≡ record (post user (pos 0 -ℤ cents) reason ref b) {
      users = set_plan user p (post user (pos 0 -ℤ cents) reason ref b).users;
    }
unfolding wallet_buy_plan
applied_bank fails user cents reason ref p b v paid h = ground (arith, h)

applied_users :
    (fails : Fails) (user : Text) (cents : ℤ) (reason ref : Text) (p : Purchase) (b v : Bank)
    (paid : Bool)
    → wallet_buy_plan fails user cents reason ref p b ≡ ok (v, paid, true)
    → v.users ≡ set_plan user p b.users
unfolding post
applied_users fails user cents reason ref p b v paid h =
    ap (λ x. x.users) (applied_bank fails user cents reason ref p b v paid h)

entries-post :
    (id user : Text) (d : ℤ) (reason ref : Text) (b : Bank)
    → same id user ≡ false
    → entries id (post user d reason ref b).ledger ≡ entries id b.ledger
unfolding entries post keep
entries-post id user d reason ref b other =
    let e : same user id ≡ false = ground (arith, other, same_iff user id, same_iff id user) in
    rw e refl

-- The run begins at `from`; an account that is charged ends a week behind it or later.
module _ (id : Text) (from : ℕ) where
  abbrev Long : Store → Type 0
  Long s = Lasts id (from + 7 * day) s.bank.users

  -- A step in which the user is not charged and the account is not cut, or the account lasts.
  abbrev Stepped : Store → Store → Type 0
  Stepped s t = ((entries id t.bank.ledger ≡ entries id s.bank.ledger) × (Long s → Long t)) ⊎ Long t

  credit_referral-Stepped :
      (env : Env) (user : Text) (s t : Store)
      → from ≤ env.now
      → Stepped s t
      → Stepped s (credit_referral env user t)
  credit_referral-Stepped env user s t later (inr long) =
      inr (credit_referral-Lasts id (from + 7 * day) env user t (omega (arith, later)) long)
  credit_referral-Stepped env user s t later (inl (same_entries, keeps)) = inl (
    ap (entries id) (credit_referral-ledger env user t) ∙ same_entries,
    λ l. credit_referral-Lasts id (from + 7 * day) env user t (omega (arith, later)) (keeps l),
  )

  charged-Stepped :
      (fails : Fails) (user : Text) (cents : ℤ) (reason ref : Text) (p : Purchase) (s : Store)
      (b : Bank) (paid applied : Bool)
      → from + 7 * day ≤ p.expires_at
      → wallet_buy_plan fails user cents reason ref p s.bank ≡ ok (b, paid, applied)
      → Stepped s (record s { bank = b })
  charged-Stepped fails user cents reason ref p s b paid false long h =
      elim (buy_plan-Charged fails user cents reason ref p s.bank b paid false h) [
        | inl c ↦ inl (ap (entries id) c.2, λ l. subst (Lasts id (from + 7 * day)) (sym c.1) l)
        | inr c ↦ absurd (ground (arith, c.0))
      ]
  charged-Stepped fails user cents reason ref p s b paid true long h =
      let e = applied_bank fails user cents reason ref p s.bank b paid h in
      let us : b.users ≡ set_plan user p s.bank.users =
        applied_users fails user cents reason ref p s.bank b paid h in
      elim (Bool-cases (same id user)) [
        | inl his ↦ inr (
            subst (Lasts id (from + 7 * day)) (sym us) (
              set_plan-Lasts id (from + 7 * day) user p s.bank.users (λ z. long)
                (λ z. absurd (ground (arith, his, z)))))
        | inr other ↦ inl (
          ap (λ x. entries id x.ledger) e
              ∙ entries-post id user (pos 0 -ℤ cents) reason ref s.bank other,
          λ l. subst (Lasts id (from + 7 * day)) (sym us) (
              set_plan-Lasts id (from + 7 * day) user p s.bank.users
                (λ z. absurd (ground (arith, other, z))) (λ z. l)),
        )
      ]

  after_purchase-Stepped :
      (env : Env) (user : Text) (cents : ℤ) (reason ref period : Text) (p : Purchase) (s : Store)
      → from ≤ env.now
      → from + 7 * day ≤ p.expires_at
      → Stepped s
          (after_purchase env user period s
            (wallet_buy_plan env.fails user cents reason ref p s.bank)).0
  unfolding after_purchase
  after_purchase-Stepped env user cents reason ref period p s later long =
      elim (Result-cases (wallet_buy_plan env.fails user cents reason ref p s.bank)) [
        | inr (e, failed) ↦ rw (failed, after_purchase) (inl (refl, λ l. l))
        | inl ((b, false, applied), done) ↦
            rw (done, after_purchase)
              (charged-Stepped env.fails user cents reason ref p s b false applied long done)
        | inl ((b, true, applied), done) ↦
            let c = charged-Stepped env.fails user cents reason ref p s b true applied long done in
            elim (Bool-cases
              (applied && (same period (bytes "monthly") || same period (bytes "yearly")))) [
                | inl rewards ↦
                    rw (done, rewards, after_purchase)
                      (credit_referral-Stepped env user s (record s { bank = b }) later c)
                | inr quiet ↦ rw (done, quiet, after_purchase) c
              ]
      ]

  buy-Stepped :
      (env : Env) (user : Account) (plan_id period : Text) (recurring : Bool) (key : Text)
      (s : Store)
      → from ≤ env.now
      → same period (bytes "lifetime") ≡ false
      → Stepped s (buy_plan_from_wallet env user plan_id period recurring key s).0
  unfolding buy_plan_from_wallet
  buy-Stepped env user plan_id period recurring key s later limited =
      elim (Option-cases (price_cents env.settings plan_id period 0)) [
        | inl unknown ↦ rw (unknown, buy_plan_from_wallet) (inl (refl, λ l. l))
        | inr (cents, price) ↦ elim (Bool-cases (cents == 0)) [
          | inl free ↦ rw (price, free, buy_plan_from_wallet) (inl (refl, λ l. l))
          | inr costs ↦
              subst (λ o. Stepped s o.0)
                (sym (buy_plan_priced env user plan_id period recurring key s cents price costs))
                (after_purchase-Stepped env user.id (pos cents)
                  (bytes "plan:" ++ plan_id ++ bytes ":" ++ period) (purchase_ref env.uuid key)
                  period (purchase_of env user plan_id period recurring key) s later
                  (omega (arith, later, plan_expiry_week env.now user period limited)))
        ]
      ]

  -- Who has more entries than at the start lasts.
  abbrev Kept : ℕ → Store → Type 0
  Kept n s = (entries id s.bank.ledger ≡ n) ⊎ Long s

  step-Kept : (n : ℕ) (s t : Store) → Kept n s → Stepped s t → Kept n t
  step-Kept n s t k (inr long) = inr long
  step-Kept n s t (inl e) (inl (same_entries, keeps)) = inl (same_entries ∙ e)
  step-Kept n s t (inr l) (inl (same_entries, keeps)) = inr (keeps l)

  abbrev Limited : List Account → Type 0
  Limited us = All (λ u. same u.recurrence (bytes "lifetime") ≡ false) us

  loop-Kept :
      (envs : ℕ → Env) (n k : ℕ) (us : List Account) (s : Store)
      → ((j : ℕ) → from ≤ (envs j).now)
      → Limited us
      → Kept n s
      → Kept n (renew_loop envs k us s)
  unfolding renew_loop
  loop-Kept envs n k [] s later limited kept = kept
  loop-Kept envs n k (u ∷ us) s later limited kept =
      let t = (buy_plan_from_wallet (envs k) u u.plan_id u.recurrence true [] s).0 in
      loop-Kept envs n (k + 1) us t later limited.1 (
        step-Kept n s t kept
          (buy-Stepped (envs k) u u.plan_id u.recurrence true [] s (later k) limited.0))

  due-Limited : (us : List Account) → Limited (keep (is_due from) us)
  unfolding keep is_due
  due-Limited [] = tt
  due-Limited (u ∷ us) = elim (Bool-cases (is_due from u)) [
    | inr not_due ↦ rw (not_due, keep) (due-Limited us)
    | inl due ↦ rw (due, keep) (ground (arith, due), due-Limited us)
  ]

abbrev pub NotDue : ℕ → Option Account → Type 0
NotDue t none = Unit
NotDue t (some a) = is_due t a ≡ false

lasts-NotDue :
    (id : Text) (from t : ℕ) (o : Option Account)
    → t ≤ from + 6 * day
    → LastsIn id (from + 7 * day) o
    → NotDue t o
unfolding is_due
lasts-NotDue id from t none soon long = tt
lasts-NotDue id from t (some a) soon long =
    let late : ltb a.expires_at (t + day) ≡ false = ground (arith, soon, long) in
    ground (arith, late)

run-Kept :
    (id : Text) (from : ℕ) (envs : ℕ → Env) (list_fails : Bool) (s : Store)
    → ((j : ℕ) → from ≤ (envs j).now)
    → Kept id from (entries id s.bank.ledger) (renew_wallet_plans envs from list_fails s)
unfolding renew_wallet_plans wallet_recurring_due
run-Kept id from envs true s later = inl refl
run-Kept id from envs false s later =
    loop-Kept id from envs (entries id s.bank.ledger) 0 (keep (is_due from) s.bank.users) s later
      (due-Limited id from s.bank.users) (inl refl)

-- Whoever a run of the renewals charges is not due again within six days of its start, whichever
-- statements fail and whatever rewards the purchases bring, so that the runs of these days do not
-- charge the user again.
pub renew_wallet_plans-NotDue :
    (envs : ℕ → Env) (from t : ℕ) (list_fails : Bool) (s : Store) (id : Text)
    → ((j : ℕ) → from ≤ (envs j).now)
    → t ≤ from + 6 * day
    → entries id s.bank.ledger < entries id (renew_wallet_plans envs from list_fails s).bank.ledger
    → NotDue t (find_account id (renew_wallet_plans envs from list_fails s).bank.users)
renew_wallet_plans-NotDue envs from t list_fails s id later soon charged =
    elim (run-Kept id from envs list_fails s later) [
      | inl e ↦ absurd (omega (arith, charged, e))
      | inr long ↦
          lasts-NotDue id from t
            (find_account id (renew_wallet_plans envs from list_fails s).bank.users) soon long
    ]
