-- ===== src/Billing/Pause.antt =====
-- `PauseSub` and `ResumeSub` of shared/auth/account.go, on the row of one user. The days that are
-- left are counted exactly, where the source counts them as a float; the audit log is left out.
use torrin.Prelude.{
  ℕ, ◌+◌, ◌-◌, ◌*◌, ◌/◌, ◌≤◌, ◌<◌, ◌≡◌, refl, Bool, true, false, not, ◌||◌, Option, none, some,
  Result, ok, err, if◌then◌else◌, ltb, leb, inl, inr, Bool-cases, arith,
}
use mathlib.Core.Path.{subst}
use torrin.Prelude.Text.{bytes, same}
use torrin.Wallet.Ledger.{Account}
use torrin.Billing.Expiry.{day, is_paused}

pub record Subscriber : Type 0 where
  pub account : Account
  pub last_paused_at : Option ℕ

pub data PauseError : Type 0 where
  cannot_pause pause_limit too_soon write_failed : PauseError

-- Whether a day has not passed since the last pause.
abbrev pub paused_today : ℕ → Option ℕ → Bool
paused_today now none = false
paused_today now (some t) = ltb (now - t) day

-- Days, the last one counted whole, and one at least.
unfoldable pub days_left : ℕ → ℕ → ℕ
days_left now expires =
    let remaining = (expires - now + (day - 1)) / day in if ltb remaining 1 then 1 else remaining

unfoldable pub pause_sub : ℕ → Bool → Subscriber → Subscriber × Result PauseError ℕ
unfolding is_paused days_left same
pause_sub now fails u =
    let a = u.account in
    if same a.plan_id (bytes "free") || same a.recurrence (bytes "lifetime")
    then (u, err cannot_pause)
    else if is_paused a
    then (u, ok a.remaining_days)
    else if leb 3 a.pause_count
    then (u, err pause_limit)
    else if paused_today now u.last_paused_at
    then (u, err too_soon)
    else if fails
    then (u, err write_failed)
    else (
      record {
        account = record a {
          paused_at = some now;
          remaining_days = days_left now a.expires_at;
          pause_count = a.pause_count + 1;
        };
        last_paused_at = some now;
      },
      ok (days_left now a.expires_at),
    )

-- The user and the new end.
unfoldable pub resume_sub : ℕ → Bool → Subscriber → Subscriber × Result PauseError ℕ
unfolding is_paused
resume_sub now fails u =
    let a = u.account in
    let expires = now + a.remaining_days * day in
    if not (is_paused a) then (u, ok a.expires_at) else if fails then (u, err write_failed) else (
      record u {
        account = record a { expires_at = expires; paused_at = none; remaining_days = 0 };
      },
      ok expires,
    )

days_left_enough :
    (now expires : ℕ)
    → now < expires
    → (expires - now ≤ days_left now expires * day)
      × (days_left now expires * day < expires - now + day)
unfolding days_left
days_left_enough now expires h = ground arith

-- A pause that is taken leaves the row so.
abbrev pub PausedAt : ℕ → Subscriber → Subscriber × Result PauseError ℕ → Type 0
PausedAt now u (v, err e) = v ≡ u
PausedAt now u (v, ok n) =
    (v.account.paused_at ≡ some now)
    × (v.account.remaining_days ≡ days_left now u.account.expires_at)

pause_sub-PausedAt :
    (now : ℕ) (fails : Bool) (u : Subscriber)
    → is_paused u.account ≡ false
    → PausedAt now u (pause_sub now fails u)
unfolding pause_sub
pause_sub-PausedAt now fails u running =
    let a = u.account in
    elim (Bool-cases (same a.plan_id (bytes "free") || same a.recurrence (bytes "lifetime"))) [
      | inl never ↦ rw (never, pause_sub) refl
      | inr may ↦ elim (Bool-cases (leb 3 a.pause_count)) [
        | inl often ↦ rw (may, running, often, pause_sub) refl
        | inr seldom ↦ elim (Bool-cases (paused_today now u.last_paused_at)) [
          | inl today ↦ rw (may, running, seldom, today, pause_sub) refl
          | inr earlier ↦ elim (Bool-cases fails) [
            | inl lost ↦ rw (may, running, seldom, earlier, lost, pause_sub) refl
            | inr fine ↦ rw (may, running, seldom, earlier, fine, pause_sub) (refl, refl)
          ]
        ]
      ]
    ]

resume_sub_lem :
    (now : ℕ) (u : Subscriber)
    → is_paused u.account ≡ true
    → (resume_sub now false u).1 ≡ ok (now + u.account.remaining_days * day)
unfolding resume_sub
resume_sub_lem now u paused = rw (paused, resume_sub) refl

-- A subscription that runs, paused and resumed later, has as much time left as before the pause or
-- more, and less than a day more.
pub resume_sub-pause_sub :
    (now later n : ℕ) (fails : Bool) (u v : Subscriber)
    → is_paused u.account ≡ false
    → now < u.account.expires_at
    → pause_sub now fails u ≡ (v, ok n)
    → (expires : ℕ) × ((resume_sub later false v).1 ≡ ok expires)
      × (later + (u.account.expires_at - now) ≤ expires)
      × (expires < later + (u.account.expires_at - now) + day)
unfolding is_paused
resume_sub-pause_sub now later n fails u v running left paused =
    let (at, days) = subst (PausedAt now u) paused (pause_sub-PausedAt now fails u running) in
    let is : is_paused v.account ≡ true = rw at refl in
    let (enough, not_more) = days_left_enough now u.account.expires_at left in
    (
      later + v.account.remaining_days * day,
      resume_sub_lem later v is,
      omega (arith, days, enough),
      omega (arith, days, not_more),
    )
