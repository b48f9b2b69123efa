-- ===== src/Billing/Expiry.antt =====
-- When a plan ends: `cryptoExpiry` of shared/billing/bitcart.go, `planExpiry` of
-- shared/billing/common.go, `redeemExpiry` of api/internal/handlers/reseller.go, and the reward for
-- a referral, `ApplyReferralReward` of shared/auth/billing.go. Times are seconds; the calls of
-- time.Now in a function give the same time.
use torrin.Prelude.{
  ℕ, ◌+◌, ◌-◌, ◌*◌, ◌≤◌, ◌<◌, ◌≡◌, refl, ◌∙◌, ◌⊎◌, inl, inr, min, max, Bool, true, false, not, ◌&&◌,
  Option, none, some, List, [], ◌∷◌, map, if◌then◌else◌, ltb, ◌==◌, Bool-cases, Option-cases, arith,
}
use torrin.Prelude.Int.{ℤ, pos, negsuc}
use torrin.Prelude.Text.{Text, bytes, same, same_iff}
use torrin.Wallet.Ledger.{Account}

abbrev pub day : ℕ
day = 86400

-- The last day of 2099.
abbrev pub lifetime_end : ℕ
lifetime_end = 4102358400

abbrev pub referral_days_per_payment : ℕ
referral_days_per_payment = 7

abbrev pub referral_max_days : ℕ
referral_max_days = 30

unfoldable pub is_paused : Account → Bool
is_paused user = elim user.paused_at [ none ↦ false | some t ↦ true ]

-- A number of days that is not positive counts as seven.
abbrev pub days_or_week : ℤ → ℕ
days_or_week (pos n) = if n == 0 then 7 else n
days_or_week (negsuc n) = 7

unfoldable pub crypto_expiry : ℕ → Text → ℤ → ℕ
crypto_expiry now period days =
    if same period (bytes "lifetime")
    then lifetime_end
    else if same period (bytes "yearly")
    then now + 365 * day
    else if same period (bytes "days")
    then now + days_or_week days * day
    else now + 35 * day

-- The days that are left of a plan that is paid for and runs.
unfoldable pub plan_expiry : ℕ → Account → Text → ℤ → ℕ
unfolding crypto_expiry is_paused same
plan_expiry now user period days =
    let end = crypto_expiry now period days in
    if ltb now user.expires_at
      && not (is_paused user)
      && not (same user.plan_id (bytes "free"))
      && not (same period (bytes "lifetime"))
    then end + (user.expires_at - now)
    else end

-- A number of days below zero ends the plan before now; the time does not fall below 0 here.
abbrev pub after_days : ℕ → ℤ → ℕ
after_days now (pos n) = now + n * day
after_days now (negsuc n) = now - (n + 1) * day

unfoldable pub redeem_expiry : ℕ → Text → ℤ → Account → ℕ
unfolding is_paused same
redeem_expiry now period days user =
    if same period (bytes "lifetime")
    then lifetime_end
    else (let end =
          if same period (bytes "yearly")
          then now + 365 * day
          else if same period (bytes "days")
          then after_days now days
          else now + 35 * day in
        if ltb now user.expires_at && not (is_paused user) && not (same user.plan_id (bytes "free"))
        then end + (user.expires_at - now)
        else end)

-- What the reward makes of an expiry.
unfoldable pub reward_expiry : ℕ → ℕ → ℕ
reward_expiry now expires =
    let current = if ltb now expires then expires else now in
    let new = current + referral_days_per_payment * day in
    let most = now + referral_max_days * day in if ltb most new then most else new

unfoldable pub find_account : Text → List Account → Option Account
unfolding same
find_account id [] = none
find_account id (a ∷ l) = let rest = find_account id l in if same a.id id then some a else rest

unfoldable pub apply_referral_reward : ℕ → Text → List Account → List Account
unfolding find_account reward_expiry same
apply_referral_reward now user l = elim (find_account user l) [
  | none ↦ l
  | some u ↦
      map
        (λ a.
          if same a.id user then record a { expires_at = reward_expiry now u.expires_at } else a)
        l
]

-- A code of a reseller gives the time that the same purchase gives, and so a code for a number of
-- days that is positive.
pub redeem_expiry-plan_expiry :
    (now : ℕ) (period : Text) (days : ℤ) (user : Account)
    → (same period (bytes "days") ≡ false) ⊎ ((n : ℕ) × (0 < n) × (days ≡ pos n))
    → redeem_expiry now period days user ≡ plan_expiry now user period days
unfolding redeem_expiry plan_expiry crypto_expiry
redeem_expiry-plan_expiry now period days user (inl other) = ground (arith, other)
redeem_expiry-plan_expiry now period days user (inr (n, some_days, e)) =
    let week : days_or_week (pos n) ≡ n = ground (arith, some_days) in rw e (ground (arith, week))

pub plan_expiry_week :
    (now : ℕ) (user : Account) (period : Text)
    → same period (bytes "lifetime") ≡ false
    → now + 7 * day ≤ plan_expiry now user period (pos 0)
unfolding plan_expiry crypto_expiry
plan_expiry_week now user period limited = ground (arith, limited)

pub reward_expiry_week :
    (now expires : ℕ) → now + 7 * day ≤ expires → now + 7 * day ≤ reward_expiry now expires
unfolding reward_expiry
reward_expiry_week now expires h = ground (arith, h)

reward_min :
    (now expires : ℕ) → reward_expiry now expires ≡ min (max now expires + 7 * day) (now + 30 * day)
unfolding reward_expiry
reward_min now expires = ground arith

-- The account with another end.
abbrev pub ending : ℕ → Account → Account
ending t a = record a { expires_at = t }

pub find-map :
    (g : Account → Account) (user id : Text) (l : List Account)
    → ((a : Account) → (g a).id ≡ a.id)
    → find_account id (map (λ a. if same a.id user then g a else a) l)
      ≡ elim (find_account id l) [ none ↦ none | some a ↦ some (if same id user then g a else a) ]
unfolding find_account
find-map g user id [] keeps = refl
find-map g user id (a ∷ l) keeps = elim (Bool-cases (same a.id id)) [
  | inl here ↦
      let e : a.id ≡ id = (same_iff a.id id).0 here in
      elim (Bool-cases (same a.id user)) [
        | inl his ↦
            let his' : same id user ≡ true = rw (← e) his in
            let kept : same (g a).id id ≡ true = rw (keeps a) here in
            rw (his, here, kept, his', find_account) refl
        | inr other ↦
            let other' : same id user ≡ false = rw (← e) other in
            rw (other, here, other', find_account) refl
      ]
  | inr not_here ↦ elim (Bool-cases (same a.id user)) [
    | inl his ↦
        let kept : same (g a).id id ≡ false = rw (keeps a) not_here in
        rw (his, not_here, kept, find_account) (find-map g user id l keeps)
    | inr other ↦ rw (other, not_here, find_account) (find-map g user id l keeps)
  ]
]

-- A reward changes no account but the referrer's, whose end it sets to a week behind the later of
-- the present and the old end, or to thirty days from now where that is earlier, also if the old
-- end was later still.
pub find-reward :
    (now : ℕ) (user id : Text) (l : List Account)
    → find_account id (apply_referral_reward now user l) ≡ elim (find_account id l) [
      | none ↦ none
      | some a ↦ some (
          if same id user
          then ending (min (max now a.expires_at + 7 * day) (now + 30 * day)) a
          else a)
    ]
unfolding apply_referral_reward
find-reward now user id l = elim (Option-cases (find_account user l)) [
  | inl absent ↦ elim (Bool-cases (same id user)) [
    | inl his ↦
        let e : id ≡ user = (same_iff id user).0 his in
        let nobody : find_account id l ≡ none = rw e absent in
        rw (absent, apply_referral_reward) (rw nobody refl)
    | inr other ↦ elim (Option-cases (find_account id l)) [
      | inl nobody ↦ rw (absent, apply_referral_reward) (rw nobody refl)
      | inr (a, found) ↦ rw (absent, apply_referral_reward) (rw (found, other) refl)
    ]
  ]
  | inr (u, there) ↦
      rw (there, apply_referral_reward)
        (find-map (ending (reward_expiry now u.expires_at)) user id l (λ a. refl)
          ∙ (elim (Bool-cases (same id user)) [
            | inl his ↦
                let e : id ≡ user = (same_iff id user).0 his in
                let found : find_account id l ≡ some u = rw e there in
                rw (found, his, reward_min now u.expires_at) refl
            | inr other ↦ elim (Option-cases (find_account id l)) [
              | inl nobody ↦ rw nobody refl
              | inr (a, found) ↦ rw (found, other) refl
            ]
          ]))
]
