-- ===== src/Reseller/Redeem.antt =====
-- `redeemCode` of api/internal/handlers/reseller.go, several requests at a time. The database runs
-- a statement at once; between two statements of a request others run. The limit on attempts and
-- the audit log are left out.
use torrin.Prelude.{ℕ, ◌<◌, ◌≡◌, Option, none, some, List, [], ◌∷◌, length, if◌then◌else◌, ◌==◌}
use torrin.Prelude.Family.{update}
use torrin.Prelude.Text.{Text, to_upper, trim_space}
use torrin.Plans.Pricing.{find_plan}
use torrin.Wallet.Ledger.{Account, Purchase, set_plan}
use torrin.Billing.Expiry.{redeem_expiry}
use torrin.Reseller.Codes.{
  ResellerCode, SettleRequest, create_reseller_code, get_reseller_code, mark_reseller_code_redeemed,
  settle_codes, is_unredeemed,
}

-- What a request is answered with before the code is claimed, or that it goes on.
pub data Check : Type 0 where
  code_required invalid_code already_used no_longer_valid : Check
  goes_on : ResellerCode → Check

unfoldable pub check_code : Text → List ResellerCode → Check
unfolding get_reseller_code trim_space to_upper
check_code text t =
    let code = to_upper (trim_space text) in
    if length code == 0 then code_required else (elim (get_reseller_code code t) [
      | none ↦ invalid_code
      | some c ↦
          if is_unredeemed c
          then (elim (find_plan c.plan_id) [ none ↦ no_longer_valid | some plan ↦ goes_on c ])
          else already_used
    ])

-- The plan that a code gives.
unfoldable pub plan_of_code : ℕ → ResellerCode → Account → Purchase
unfolding redeem_expiry
plan_of_code now c user = record {
  plan_id = c.plan_id;
  sub_id = [];
  license = [];
  recurrence = c.period;
  expires_at = redeem_expiry now c.period c.days user;
}

-- Where a request stands: before the check, before the code is marked, and before the plan is set.
pub data Pc : Type 0 where
  idle : Pc
  checked claimed : Account → ResellerCode → Pc

-- `granted` is the history of the codes that set a plan, the newest first.
pub record System : Type 0 where
  pub codes : List ResellerCode
  pub users : List Account
  pub granted : List Text
  pub pc : ℕ → Pc

abbrev pub init : List Account → System
init users = record { codes = []; users = users; granted = []; pc = λ i. idle }

-- The code that is claimed, where one row was marked.
unfoldable pub claim : ℕ → Account → ResellerCode → ℕ → System → System
unfolding mark_reseller_code_redeemed
claim i user c now s =
    let (codes, marked) = mark_reseller_code_redeemed c.code user.id now s.codes in
    record s { codes = codes; pc = update s.pc i (if marked then claimed user c else idle) }

unfoldable pub activate : ℕ → Account → ResellerCode → ℕ → System → System
unfolding set_plan plan_of_code
activate i user c now s = record s {
  users = set_plan user.id (plan_of_code now c user) s.users;
  granted = c.code ∷ s.granted;
  pc = update s.pc i idle;
}

-- One statement of one of `n` requests, or of another handler. The user who claims has an id.
pub data Step (n : ℕ) (s : System) : System → Type 0 where
  checks :
      (i : ℕ) (user : Account) (text : Text) (c : ResellerCode)
      → i < n
      → s.pc i ≡ idle
      → check_code text s.codes ≡ goes_on c
      → Step n s (record s { pc = update s.pc i (checked user c) })
  claims :
      (i : ℕ) (user : Account) (c : ResellerCode) (now : ℕ)
      → i < n
      → s.pc i ≡ checked user c
      → 0 < length user.id
      → Step n s (claim i user c now s)
  activates :
      (i : ℕ) (user : Account) (c : ResellerCode) (now : ℕ)
      → i < n
      → s.pc i ≡ claimed user c
      → Step n s (activate i user c now s)
  fails : (i : ℕ) → i < n → Step n s (record s { pc = update s.pc i idle })
  mints :
      (c : ResellerCode) (codes : List ResellerCode)
      → create_reseller_code c s.codes ≡ some codes
      → Step n s (record s { codes = codes })
  settles :
      (partner : Option Text) (now : ℕ) (req : SettleRequest)
      → Step n s (record s { codes = (settle_codes partner now req s.codes).0 })

pub data Reach (n : ℕ) (users : List Account) : System → Type 0 where
  start : Reach n users (init users)
  next : {s t : System} → Reach n users s → Step n s t → Reach n users t
