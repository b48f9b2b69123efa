-- ===== src/Wallet/Ledger.antt =====
-- The tables and the transactions. The upsert locks the wallet's row, so a transaction is one step.
-- `fails` says which statements fail; an error leaves the tables as they were. Cents stay within
-- int64, and `bal - cents` is written `bal + (0 - cents)` where a ledger row is posted.
use torrin.Prelude.{
  ℕ, Bool, true, false, ◌&&◌, Option, none, some, List, [], ◌∷◌, map, if◌then◌else◌, Result, ok,
  err, ◌>>◌,
}
use torrin.Prelude.Int.{ℤ, pos, ◌+ℤ◌, ◌-ℤ◌, ltb_ℤ}
use torrin.Prelude.Text.{Text, same}
use torrin.Prelude.Select.{any_of}
use torrin.Prelude.Dict.{get, put}

-- A row of wallet_ledger, the newest first in the table; its instant is left out.
pub record LedgerEntry : Type 0 where
  pub user : Text
  pub delta : ℤ
  pub reason : Text
  pub ref : Text
  pub balance : ℤ

-- What the purchase of a plan writes of a row of users.
pub record Account : Type 0 where
  pub id : Text
  pub plan_id : Text
  pub subscription_id : Text
  pub license_key : Text
  pub recurrence : Text
  pub expires_at : ℕ
  pub paused_at : Option ℕ
  pub remaining_days : ℕ
  pub pause_count : ℕ

pub record Bank : Type 0 where
  pub wallets : List (Text × ℤ)
  pub ledger : List LedgerEntry
  pub users : List Account

pub data Stmt : Type 0 where
  begin upsert insert_ledger update_wallet update_user commit : Stmt

abbrev pub Fails : Type 0
Fails = Stmt → Bool

abbrev pub run_stmt : Fails → Stmt → Result Stmt (Unit {0})
run_stmt fails s = if fails s then err s else ok tt

unfoldable pub wallet_balance : Text → Bank → ℤ
unfolding get
wallet_balance user b = elim (get user b.wallets) [ none ↦ pos 0 | some bal ↦ bal ]

-- INSERT … ON CONFLICT DO UPDATE of the balance to itself.
unfoldable pub open_wallet : Text → Bank → Bank
open_wallet user b = record b { wallets = put user (wallet_balance user b) b.wallets }

unfoldable pub has_ref : Text → List LedgerEntry → Bool
has_ref ref l = any_of (λ e. same e.ref ref) l

-- The new row of the ledger, and the new balance.
unfoldable pub post : Text → ℤ → Text → Text → Bank → Bank
post user delta reason ref b =
    let bal = wallet_balance user b +ℤ delta in
    record b {
      wallets = put user bal b.wallets;
      ledger =
          record { user = user; delta = delta; reason = reason; ref = ref; balance = bal }
          ∷ b.ledger;
    }

unfoldable pub move : Fails → Text → ℤ → Text → Text → Bool → Bank → Result Stmt (Bank × Bool)
move fails user delta reason ref guard b = do
  run_stmt fails begin
  run_stmt fails upsert
  if guard && ltb_ℤ (wallet_balance user b +ℤ delta) (pos 0) then ok (b, false) else (do
    run_stmt fails insert_ledger
    if has_ref ref b.ledger then (do run_stmt fails commit; ok (open_wallet user b, true)) else (do
      run_stmt fails update_wallet
      run_stmt fails commit
      ok (post user delta reason ref b, true)))

unfoldable pub credit : Fails → Text → ℤ → Text → Text → Bank → Result Stmt (Bank × Bool)
unfolding move
credit fails user cents reason ref b = move fails user cents reason ref false b

unfoldable pub debit : Fails → Text → ℤ → Text → Text → Bank → Result Stmt (Bank × Bool)
unfolding move
debit fails user cents reason ref b = move fails user (pos 0 -ℤ cents) reason ref true b

-- What a purchase buys.
pub record Purchase : Type 0 where
  pub plan_id : Text
  pub sub_id : Text
  pub license : Text
  pub recurrence : Text
  pub expires_at : ℕ

abbrev pub with_plan : Purchase → Account → Account
with_plan p a = record a {
  plan_id = p.plan_id;
  subscription_id = p.sub_id;
  license_key = p.license;
  recurrence = p.recurrence;
  expires_at = p.expires_at;
  paused_at = none;
  remaining_days = 0;
  pause_count = 0;
}

unfoldable pub set_plan : Text → Purchase → List Account → List Account
set_plan user p = map (λ a. if same a.id user then with_plan p a else a)

-- The bank, `ok` and `applied`; the entry of the audit log is left out.
unfoldable pub wallet_buy_plan :
    Fails → Text → ℤ → Text → Text → Purchase → Bank → Result Stmt (Bank × Bool × Bool)
wallet_buy_plan fails user cents reason ref p b = do
  run_stmt fails begin
  run_stmt fails upsert
  if ltb_ℤ (wallet_balance user b -ℤ cents) (pos 0) then ok (b, false, false) else (do
    run_stmt fails insert_ledger
    if has_ref ref b.ledger
        then (do run_stmt fails commit; ok (open_wallet user b, true, false))
        else (do
          run_stmt fails update_wallet
          run_stmt fails update_user
          run_stmt fails commit
          let v = post user (pos 0 -ℤ cents) reason ref b
          ok (record v { users = set_plan user p v.users }, true, true)))

-- A call of the package, and the bank after it.
pub data Call : Type 0 where
  credit_call debit_call : Text → ℤ → Text → Text → Call
  buy_call : Text → ℤ → Text → Text → Purchase → Call

abbrev pub kept_or : {A : Type 0} → (A → Bank) → Bank → Result Stmt A → Bank
kept_or f b (ok r) = f r
kept_or f b (err e) = b

unfoldable pub call : Fails → Call → Bank → Bank
unfolding credit debit wallet_buy_plan
call fails (credit_call u c reason ref) b = kept_or (λ r. r.0) b (credit fails u c reason ref b)
call fails (debit_call u c reason ref) b = kept_or (λ r. r.0) b (debit fails u c reason ref b)
call fails (buy_call u c reason ref p) b =
    kept_or (λ r. r.0) b (wallet_buy_plan fails u c reason ref p b)

unfoldable pub calls : List (Fails × Call) → Bank → Bank
unfolding call
calls [] b = b
calls ((fails, c) ∷ cs) b = calls cs (call fails c b)
