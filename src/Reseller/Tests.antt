-- ===== src/Reseller/Tests.antt =====
-- Two requests that redeem one code, and a partner who names the code of another.
use torrin.Prelude.{ℕ, List, ltb, ◌≤◌, ◌≡◌, refl, false, none, some, [], ◌∷◌, arith}
use torrin.Prelude.Int.{pos}
use torrin.Prelude.Select.{keep, any_of}
use torrin.Prelude.Bag.{count}
use torrin.Prelude.Dict.{get}
use torrin.Prelude.Family.{update}
use torrin.Prelude.Text.{Text, bytes, same, to_upper, trim_space}
use torrin.Wallet.Ledger.{Account}
use torrin.Reseller.Codes.{
  ResellerCode, SettleRequest, create_reseller_code, get_reseller_code, mark_reseller_code_redeemed,
  mark_reseller_code_settled, settle_codes, others, settle_codes-others,
}
use torrin.Reseller.Redeem.{
  System, init, claim, activate, checked, checks, claims, activates, mints, Reach, start, next,
  check_code,
}
use torrin.Reseller.Once.{granted_once}
use torrin.Reseller.Limiter.{allow, allow_all, new_attempt_limiter, recent_count, allow_all-allow}

program : Unit {0}
unfolding create_reseller_code get_reseller_code mark_reseller_code_redeemed same keep any_of count
    to_upper trim_space claim activate check_code get settle_codes mark_reseller_code_settled
program = tt

abbrev account : Text → Account
account id = record {
  id = id;
  plan_id = bytes "free";
  subscription_id = [];
  license_key = [];
  recurrence = [];
  expires_at = 0;
  paused_at = none;
  remaining_days = 0;
  pause_count = 0;
}

abbrev ann : Account
ann = account (bytes "ann")

abbrev bob : Account
bob = account (bytes "bob")

abbrev code : ResellerCode
code = record {
  code = bytes "TRN-1";
  plan_id = bytes "starter";
  period = bytes "monthly";
  days = pos 0;
  reseller = bytes "shop";
  redeemed_by = [];
  redeemed_at = none;
  settled_at = none;
  settlement_ref = [];
  retail_cents = 299;
}

abbrev minted : System
minted = record (init (ann ∷ bob ∷ [])) { codes = code ∷ [] }

abbrev ann_checked : System
ann_checked = record minted { pc = update minted.pc 0 (checked ann code) }

abbrev both_checked : System
both_checked = record ann_checked { pc = update ann_checked.pc 1 (checked bob code) }

abbrev ann_claimed : System
ann_claimed = claim 0 ann code 50 both_checked

abbrev bob_late : System
bob_late = claim 1 bob code 51 ann_claimed

abbrev finished : System
finished = activate 0 ann code 52 bob_late

race : Reach 2 (ann ∷ bob ∷ []) finished
unfolding program
race =
    next
      (next
        (next
          (next
            (next (next start (mints code (code ∷ []) refl))
              (checks 0 ann (bytes "trn-1 ") code (omega arith) refl refl))
            (checks 1 bob (bytes "TRN-1") code (omega arith) refl refl))
          (claims 0 ann code 50 (omega arith) refl (omega arith)))
        (claims 1 bob code 51 (omega arith) refl (omega arith)))
      (activates 0 ann code 52 (omega arith) refl)

one_winner : finished.granted ≡ bytes "TRN-1" ∷ []
unfolding program
one_winner = refl

granted_once_example : count (bytes "TRN-1") finished.granted ≤ 1
granted_once_example = granted_once 2 (ann ∷ bob ∷ []) finished (bytes "TRN-1") race

abbrev request : SettleRequest
request = record { reseller = bytes "shop"; code = bytes "TRN-1"; ref = bytes "june"; undo = false }

settle_codes-others_example :
    keep (others (bytes "kiosk")) (settle_codes (some (bytes "kiosk")) 60 request (code ∷ [])).0
    ≡ keep (others (bytes "kiosk")) (code ∷ [])
settle_codes-others_example =
    settle_codes-others (bytes "kiosk") 60 request (code ∷ []) (omega arith)

-- Three calls within a minute where two are allowed, and one a minute after the first.
abbrev attempts : List (ℕ × Text)
attempts = (100, bytes "a") ∷ (110, bytes "a") ∷ (115, bytes "b") ∷ (120, bytes "a") ∷ []

third_refused :
    (allow_all attempts (new_attempt_limiter 2 60) []).1
    ≡ (115, bytes "b") ∷ (110, bytes "a") ∷ (100, bytes "a") ∷ []
unfolding allow_all keep same
third_refused = refl

allow_all-allow_example :
    (allow 161 (bytes "a") (allow_all attempts (new_attempt_limiter 2 60) []).0).1
    ≡ ltb (recent_count 60 161 (bytes "a") (allow_all attempts (new_attempt_limiter 2 60) []).1) 2
allow_all-allow_example =
    allow_all-allow 2 60 attempts 161 (bytes "a")
      (omega arith, (omega arith, (omega arith, (omega arith, tt)))) (omega arith)
