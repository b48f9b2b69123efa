-- ===== src/Wallet/Balance.antt =====
-- A balance is the sum of the user's ledger, and a reference is posted once.
use mathlib.Core.Path.{subst}
use torrin.Prelude.{
  ◌≡◌, ◌⊎◌, inl, inr, refl, ap, sym, ◌∙◌, Bool, true, false, not, ◌&&◌, List, [], ◌∷◌,
  if◌then◌else◌, Bool-cases, arith,
}
use torrin.Prelude.Int.{ℤ, pos, ◌+ℤ◌, ◌-ℤ◌, ◌≤ℤ◌, ltb_ℤ, +ℤ_parts, -ℤ_parts}
use torrin.Prelude.Text.{Text, same, same_iff}
use torrin.Prelude.Dict.{get, get-put}
use torrin.Jobs.Rows.{All}
use torrin.Wallet.Ledger.{
  LedgerEntry, Account, Bank, Fails, Call, credit_call, debit_call, buy_call, wallet_balance,
  open_wallet, has_ref, post, move, credit, debit, wallet_buy_plan, kept_or, call, calls, Purchase,
  set_plan,
}

-- The sum of a user's entries.
unfoldable pub posted : Text → List LedgerEntry → ℤ
posted user [] = pos 0
posted user (e ∷ l) = if same e.user user then posted user l +ℤ e.delta else posted user l

-- No reference stands twice.
abbrev pub DistinctRefs : List LedgerEntry → Type 0
DistinctRefs [] = Unit
DistinctRefs (e ∷ l) = (has_ref e.ref l ≡ false) × DistinctRefs l

pub record Sound (b : Bank) : Type 0 where
  pub sums : (u : Text) → wallet_balance u b ≡ posted u b.ledger
  pub refs : DistinctRefs b.ledger

pub balance-open :
    (u user : Text) (b : Bank) → wallet_balance u (open_wallet user b) ≡ wallet_balance u b
unfolding wallet_balance open_wallet
balance-open u user b =
    ground (arith, get-put u user (wallet_balance user b) b.wallets, same_iff user u)

pub balance-post :
    (u user : Text) (d : ℤ) (reason ref : Text) (b : Bank)
    → wallet_balance u (post user d reason ref b)
      ≡ (if same user u then wallet_balance user b +ℤ d else wallet_balance u b)
unfolding wallet_balance post
balance-post u user d reason ref b =
    ground (arith, get-put u user (wallet_balance user b +ℤ d) b.wallets)

open-Sound : (user : Text) (b : Bank) → Sound b → Sound (open_wallet user b)
unfolding open_wallet
open-Sound user b s = record { sums = λ u. balance-open u user b ∙ s.sums u; refs = s.refs }

post-Sound :
    (user : Text) (d : ℤ) (reason ref : Text) (b : Bank)
    → has_ref ref b.ledger ≡ false
    → Sound b
    → Sound (post user d reason ref b)
unfolding post posted
post-Sound user d reason ref b new s = record {
  sums = λ u. elim (Bool-cases (same user u)) [
    | inl here ↦
        balance-post u user d reason ref b
        ∙ rw here (
            ap (λ z. z +ℤ d) (s.sums user ∙ ap (λ z. posted z b.ledger) ((same_iff user u).0 here)))
    | inr other ↦ balance-post u user d reason ref b ∙ rw other (s.sums u)
  ];
  refs = (new, s.refs);
}

set_plan-Sound : (b : Bank) (us : List Account) → Sound b → Sound (record b { users = us })
unfolding wallet_balance
set_plan-Sound b us s = record { sums = s.sums; refs = s.refs }

-- The three banks that `move` can leave.
abbrev Moved : Text → ℤ → Text → Text → Bool → Bank → Bank → Type 0
Moved user d reason ref guard b v =
    (v ≡ b)
    ⊎ ((v ≡ open_wallet user b)
        ⊎ ((has_ref ref b.ledger ≡ false)
            × ((guard && ltb_ℤ (wallet_balance user b +ℤ d) (pos 0)) ≡ false)
            × (v ≡ post user d reason ref b)))

move-Moved :
    (fails : Fails) (user : Text) (d : ℤ) (reason ref : Text) (guard : Bool) (b : Bank)
    → Moved user d reason ref guard b (kept_or (λ r. r.0) b (move fails user d reason ref guard b))
unfolding move
move-Moved fails user d reason ref guard b = ground arith

-- The three banks that a purchase can leave.
abbrev Bought : Text → ℤ → Text → Text → Purchase → Bank → Bank → Type 0
Bought user cents reason ref p b v =
    (v ≡ b)
    ⊎ ((v ≡ open_wallet user b)
        ⊎ ((has_ref ref b.ledger ≡ false)
            × (ltb_ℤ (wallet_balance user b -ℤ cents) (pos 0) ≡ false)
            × (v ≡ record (post user (pos 0 -ℤ cents) reason ref b) {
              users = set_plan user p (post user (pos 0 -ℤ cents) reason ref b).users;
            })))

buy-Bought :
    (fails : Fails) (user : Text) (cents : ℤ) (reason ref : Text) (p : Purchase) (b : Bank)
    → Bought user cents reason ref p b
        (kept_or (λ r. r.0) b (wallet_buy_plan fails user cents reason ref p b))
unfolding wallet_buy_plan
buy-Bought fails user cents reason ref p b = ground arith

Moved-Sound :
    (user : Text) (d : ℤ) (reason ref : Text) (guard : Bool) (b v : Bank)
    → Moved user d reason ref guard b v
    → Sound b
    → Sound v
Moved-Sound user d reason ref guard b v (inl e) s = subst Sound (sym e) s
Moved-Sound user d reason ref guard b v (inr (inl e)) s = subst Sound (sym e) (open-Sound user b s)
Moved-Sound user d reason ref guard b v (inr (inr m)) s =
    subst Sound (sym m.2) (post-Sound user d reason ref b m.0 s)

Bought-Sound :
    (user : Text) (cents : ℤ) (reason ref : Text) (p : Purchase) (b v : Bank)
    → Bought user cents reason ref p b v
    → Sound b
    → Sound v
Bought-Sound user cents reason ref p b v (inl e) s = subst Sound (sym e) s
Bought-Sound user cents reason ref p b v (inr (inl e)) s = subst Sound (sym e) (open-Sound user b s)
Bought-Sound user cents reason ref p b v (inr (inr m)) s = subst Sound (sym m.2) (
    set_plan-Sound (post user (pos 0 -ℤ cents) reason ref b) _
      (post-Sound user (pos 0 -ℤ cents) reason ref b m.0 s))

call-Sound : (fails : Fails) (c : Call) (b : Bank) → Sound b → Sound (call fails c b)
unfolding call credit debit
call-Sound fails (credit_call u c reason ref) b s =
    Moved-Sound u c reason ref false b _ (move-Moved fails u c reason ref false b) s
call-Sound fails (debit_call u c reason ref) b s =
    Moved-Sound u (pos 0 -ℤ c) reason ref true b _
      (move-Moved fails u (pos 0 -ℤ c) reason ref true b) s
call-Sound fails (buy_call u c reason ref p) b s =
    Bought-Sound u c reason ref p b _ (buy-Bought fails u c reason ref p b) s

calls-Sound : (cs : List (Fails × Call)) (b : Bank) → Sound b → Sound (calls cs b)
unfolding calls
calls-Sound [] b s = s
calls-Sound ((fails, c) ∷ cs) b s = calls-Sound cs (call fails c b) (call-Sound fails c b s)

-- A database without wallets.
abbrev pub fresh : List Account → Bank
fresh us = record { wallets = []; ledger = []; users = us }

fresh-Sound : (us : List Account) → Sound (fresh us)
unfolding wallet_balance posted get
fresh-Sound us = record { sums = λ u. refl; refs = tt }

-- After every history of credits, debits and purchases, whichever of their statements fail, the
-- balance of each user is the sum of the user's entries in the ledger, and no reference stands
-- twice in it.
pub ledger_balance :
    (us : List Account) (cs : List (Fails × Call))
    → let b = calls cs (fresh us) in
      ((u : Text) → wallet_balance u b ≡ posted u b.ledger) × DistinctRefs b.ledger
ledger_balance us cs = let s = calls-Sound cs (fresh us) (fresh-Sound us) in (s.sums, s.refs)

-- Nobody is in debt.
abbrev pub Solvent : Bank → Type 0
Solvent b = (u : Text) → pos 0 ≤ℤ wallet_balance u b

-- Credits are not negative.
abbrev pub is_honest : Call → Bool
is_honest (credit_call u c reason ref) = not (ltb_ℤ c (pos 0))
is_honest (debit_call u c reason ref) = true
is_honest (buy_call u c reason ref p) = true

post-Solvent :
    (user : Text) (d : ℤ) (reason ref : Text) (b : Bank)
    → pos 0 ≤ℤ wallet_balance user b +ℤ d
    → Solvent b
    → Solvent (post user d reason ref b)
post-Solvent user d reason ref b h s u = elim (Bool-cases (same user u)) [
  | inl here ↦ subst (λ z. pos 0 ≤ℤ z) (sym (balance-post u user d reason ref b ∙ rw here refl)) h
  | inr other ↦
      subst (λ z. pos 0 ≤ℤ z) (sym (balance-post u user d reason ref b ∙ rw other refl)) (s u)
]

Moved-Solvent :
    (user : Text) (d : ℤ) (reason ref : Text) (guard : Bool) (b v : Bank)
    → (guard ≡ true) ⊎ (pos 0 ≤ℤ d)
    → Moved user d reason ref guard b v
    → Solvent b
    → Solvent v
Moved-Solvent user d reason ref guard b v g (inl e) s = subst Solvent (sym e) s
Moved-Solvent user d reason ref guard b v g (inr (inl e)) s =
    subst Solvent (sym e) (λ u. subst (λ z. pos 0 ≤ℤ z) (sym (balance-open u user b)) (s u))
Moved-Solvent user d reason ref guard b v g (inr (inr m)) s = subst Solvent (sym m.2) (
    post-Solvent user d reason ref b
      (elim g [
        | inl on ↦ ground (arith, m.1, on)
        | inr up ↦ omega (arith, up, s user, +ℤ_parts (wallet_balance user b) d)
      ])
      s)

Bought-Solvent :
    (user : Text) (cents : ℤ) (reason ref : Text) (p : Purchase) (b v : Bank)
    → Bought user cents reason ref p b v
    → Solvent b
    → Solvent v
unfolding wallet_balance
Bought-Solvent user cents reason ref p b v (inl e) s = subst Solvent (sym e) s
Bought-Solvent user cents reason ref p b v (inr (inl e)) s =
    subst Solvent (sym e) (λ u. subst (λ z. pos 0 ≤ℤ z) (sym (balance-open u user b)) (s u))
Bought-Solvent user cents reason ref p b v (inr (inr m)) s = subst Solvent (sym m.2) (
    post-Solvent user (pos 0 -ℤ cents) reason ref b
      (ground (
        arith,
        m.1,
        +ℤ_parts (wallet_balance user b) (pos 0 -ℤ cents),
        -ℤ_parts (pos 0) cents,
        -ℤ_parts (wallet_balance user b) cents,
      ))
      s)

call-Solvent :
    (fails : Fails) (c : Call) (b : Bank)
    → is_honest c ≡ true
    → Solvent b
    → Solvent (call fails c b)
unfolding call credit debit
call-Solvent fails (credit_call u c reason ref) b h s =
    Moved-Solvent u c reason ref false b _ (inr (ground arith))
      (move-Moved fails u c reason ref false b) s
call-Solvent fails (debit_call u c reason ref) b h s =
    Moved-Solvent u (pos 0 -ℤ c) reason ref true b _ (inl refl)
      (move-Moved fails u (pos 0 -ℤ c) reason ref true b) s
call-Solvent fails (buy_call u c reason ref p) b h s =
    Bought-Solvent u c reason ref p b _ (buy-Bought fails u c reason ref p b) s

calls-Solvent :
    (cs : List (Fails × Call)) (b : Bank)
    → All (λ c. is_honest c.1 ≡ true) cs
    → Solvent b
    → Solvent (calls cs b)
unfolding calls
calls-Solvent [] b h s = s
calls-Solvent ((fails, c) ∷ cs) b h s =
    calls-Solvent cs (call fails c b) h.1 (call-Solvent fails c b h.0 s)

fresh-Solvent : (us : List Account) → Solvent (fresh us)
unfolding wallet_balance get
fresh-Solvent us u = omega arith

-- After every history in which no credit is negative, whichever statements fail, no wallet is
-- overdrawn.
pub calls_solvent :
    (us : List Account) (cs : List (Fails × Call))
    → All (λ c. is_honest c.1 ≡ true) cs
    → (u : Text) → pos 0 ≤ℤ wallet_balance u (calls cs (fresh us))
calls_solvent us cs h = calls-Solvent cs (fresh us) h (fresh-Solvent us)
