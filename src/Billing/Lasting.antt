-- ===== src/Billing/Lasting.antt =====
-- An account that lasts until a time goes on doing so.
use mathlib.Core.Path.{subst}
use torrin.Prelude.{
  ℕ, ◌+◌, ◌*◌, ◌≤◌, ◌≡◌, refl, sym, inl, inr, true, false, Option, none, some, List, [], Bool-cases,
  Option-cases, if◌then◌else◌, ◌==◌, length, arith,
}
use torrin.Prelude.Text.{Text, same}
use torrin.Wallet.Ledger.{Account, Purchase, set_plan, with_plan}
use torrin.Billing.Expiry.{day, find_account, find-map, find-reward, apply_referral_reward}
use torrin.Billing.Purchase.{Store, Env, credit_referral}

module _ (id : Text) (end : ℕ) where
  -- The account does not end before that time.
  abbrev pub LastsIn : Option Account → Type 0
  LastsIn none = Unit
  LastsIn (some a) = end ≤ a.expires_at

  abbrev pub Lasts : List Account → Type 0
  Lasts us = LastsIn (find_account id us)

  pub set_plan-Lasts :
      (user : Text) (p : Purchase) (us : List Account)
      → (same id user ≡ true → end ≤ p.expires_at)
      → (same id user ≡ false → Lasts us)
      → Lasts (set_plan user p us)
  unfolding set_plan
  set_plan-Lasts user p us own others =
      let e = find-map (with_plan p) user id us (λ a. refl) in
      elim (Option-cases (find_account id us)) [
        | inl nobody ↦ subst LastsIn (sym (rw nobody at e)) tt
        | inr (a, found) ↦ elim (Bool-cases (same id user)) [
          | inl his ↦ subst LastsIn (sym (rw (found, his) at e)) (own his)
          | inr other ↦
              subst LastsIn (sym (rw (found, other) at e)) (subst LastsIn found (others other))
        ]
      ]

  reward-Lasts :
      (now : ℕ) (user : Text) (us : List Account)
      → end ≤ now + 7 * day
      → Lasts us
      → Lasts (apply_referral_reward now user us)
  reward-Lasts now user us soon lasts =
      let e = find-reward now user id us in
      elim (Option-cases (find_account id us)) [
        | inl nobody ↦ subst LastsIn (sym (rw nobody at e)) tt
        | inr (a, found) ↦
            let long : end ≤ a.expires_at = subst LastsIn found lasts in
            elim (Bool-cases (same id user)) [
              | inl his ↦ subst LastsIn (sym (rw (found, his) at e)) (ground (arith, soon, long))
              | inr other ↦ subst LastsIn (sym (rw (found, other) at e)) long
            ]
      ]

  pub credit_referral-Lasts :
      (env : Env) (user : Text) (s : Store)
      → end ≤ env.now + 7 * day
      → Lasts s.bank.users
      → Lasts (credit_referral env user s).bank.users
  unfolding credit_referral
  credit_referral-Lasts env user s soon lasts =
      let referrer : Text = if env.referrer_fails then [] else s.referred_by user in
      elim (Bool-cases (length referrer == 0)) [
        | inl nobody ↦ rw (nobody, credit_referral) lasts
        | inr there ↦ elim (Bool-cases env.reward_fails) [
          | inl lost ↦ rw (there, lost, credit_referral) lasts
          | inr fine ↦
              rw (there, fine, credit_referral)
                (reward-Lasts env.now referrer s.bank.users soon lasts)
        ]
      ]
