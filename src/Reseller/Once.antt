-- ===== src/Reseller/Once.antt =====
-- A code gives its plan at most once.
use torrin.Prelude.{
  ℕ, ◌+◌, ◌≤◌, ◌<◌, ◌≡◌, refl, ap, sym, ◌∙◌, inl, inr, Bool, false, not, ◌&&◌, Option, none, some,
  List, [], ◌∷◌, length, if◌then◌else◌, ◌==◌, Bool-cases, arith,
}
use torrin.Prelude.Select.{keep, any_of}
use torrin.Prelude.Family.{sum_over, sum_over-update, sum_over_zero}
use torrin.Prelude.Bag.{count, count-cons}
use torrin.Prelude.Text.{Text, same, same_iff}
use torrin.Wallet.Ledger.{Account}
use torrin.Reseller.Codes.{
  ResellerCode, is_code, is_unredeemed, redeemable, affected, update_codes, create_reseller_code,
  mark_reseller_code_redeemed, settle_codes-cases,
}
use torrin.Reseller.Redeem.{
  Pc, idle, checked, claimed, System, claim, activate, Step, checks, claims, activates, fails,
  mints, settles, Reach, start, next,
}

unfoldable rows : Text → List ResellerCode → ℕ
rows x [] = 0
rows x (c ∷ t) = (if is_code x c then 1 else 0) + rows x t

unfoldable taken : Text → List ResellerCode → ℕ
taken x [] = 0
taken x (c ∷ t) = (if is_code x c && not (is_unredeemed c) then 1 else 0) + taken x t

taken-le-rows : (x : Text) (t : List ResellerCode) → taken x t ≤ rows x t
unfolding taken rows
taken-le-rows x [] = omega arith
taken-le-rows x (c ∷ t) = ground (arith, taken-le-rows x t)

rows-update :
    (x : Text) (p : ResellerCode → Bool) (f : ResellerCode → ResellerCode) (t : List ResellerCode)
    → ((c : ResellerCode) → (f c).code ≡ c.code)
    → rows x (update_codes p f t) ≡ rows x t
unfolding rows
rows-update x p f [] keeps = refl
rows-update x p f (c ∷ t) keeps = elim (Bool-cases (p c)) [
  | inl changed ↦ rw (changed, keeps c, rows-update x p f t keeps) refl
  | inr kept ↦ rw (kept, rows-update x p f t keeps) refl
]

taken-update :
    (x : Text) (p : ResellerCode → Bool) (f : ResellerCode → ResellerCode) (t : List ResellerCode)
    → ((c : ResellerCode) → (f c).code ≡ c.code)
    → ((c : ResellerCode) → (f c).redeemed_by ≡ c.redeemed_by)
    → taken x (update_codes p f t) ≡ taken x t
unfolding taken
taken-update x p f [] keeps same_user = refl
taken-update x p f (c ∷ t) keeps same_user = elim (Bool-cases (p c)) [
  | inl changed ↦ rw (changed, keeps c, same_user c, taken-update x p f t keeps same_user) refl
  | inr kept ↦ rw (kept, taken-update x p f t keeps same_user) refl
]

taken-mark :
    (x code user : Text) (now : ℕ) (t : List ResellerCode)
    → 0 < length user
    → taken x (mark_reseller_code_redeemed code user now t).0
      ≡ taken x t + (if same x code then affected (redeemable code) t else 0)
unfolding taken mark_reseller_code_redeemed keep
taken-mark x code user now [] named = ground arith
taken-mark x code user now (c ∷ t) named = ground (
  arith,
  taken-mark x code user now t,
  named,
  same_iff c.code code,
  same_iff c.code x,
  same_iff x code,
)

rows-mark :
    (x code user : Text) (now : ℕ) (t : List ResellerCode)
    → rows x (mark_reseller_code_redeemed code user now t).0 ≡ rows x t
unfolding mark_reseller_code_redeemed
rows-mark x code user now t = rows-update x (redeemable code) _ t (λ c. refl)

abbrev or_else : List ResellerCode → Option (List ResellerCode) → List ResellerCode
or_else t none = t
or_else t (some u) = u

no_row : (x : Text) (t : List ResellerCode) → any_of (is_code x) t ≡ false → rows x t ≡ 0
unfolding rows any_of
no_row x [] h = refl
no_row x (c ∷ t) h = ground (arith, no_row x t)

-- 1 for a request that has claimed the code and not set the plan yet.
abbrev holds : Text → Pc → ℕ
holds x idle = 0
holds x (checked user c) = 0
holds x (claimed user c) = if same c.code x then 1 else 0

-- No code has two rows, and what was claimed and granted of it is at most the row that is taken.
abbrev Sound : ℕ → System → Text → Type 0
Sound n s x =
    (rows x s.codes ≤ 1) × (sum_over (holds x) n s.pc + count x s.granted ≤ taken x s.codes)

claim-Sound :
    (n i : ℕ) (s : System) (user : Account) (c : ResellerCode) (now : ℕ) (x : Text)
    → i < n
    → s.pc i ≡ checked user c
    → 0 < length user.id
    → Sound n s x
    → Sound n (claim i user c now s) x
unfolding claim mark_reseller_code_redeemed
claim-Sound n i s user c now x lt at named (one_row, bound) =
    let t = (mark_reseller_code_redeemed c.code user.id now s.codes).0 in
    let r = rows-mark x c.code user.id now s.codes in
    let k = taken-mark x c.code user.id now s.codes named in
    let old : holds x (s.pc i) ≡ 0 = ap (holds x) at in
    elim (Bool-cases (affected (redeemable c.code) s.codes == 1)) [
      | inl marked ↦
          let w = sum_over-update (holds x) n s.pc i (claimed user c) lt in
          rw marked (
            omega (arith, r, one_row),
            ground (arith, w, old, k, bound, marked, same_iff c.code x, same_iff x c.code),
          )
      | inr unmarked ↦
          let w = sum_over-update (holds x) n s.pc i idle lt in
          rw unmarked (omega (arith, r, one_row), omega (arith, w, old, k, bound))
    ]

-- A new code has a row that nobody has taken.
minted :
    (c : ResellerCode) (t codes : List ResellerCode) (x : Text)
    → create_reseller_code c t ≡ some codes
    → (taken x codes ≡ taken x t)
      × (rows x codes ≡ rows x t + (if same c.code x then 1 else 0))
      × (rows c.code t ≡ 0)
unfolding create_reseller_code taken rows
minted c t codes x made = elim (Bool-cases (any_of (is_code c.code) t)) [
  | inl there ↦ let wrong : none ≡ some codes = rw there at made in absurd (ground (arith, wrong))
  | inr fresh ↦
      let e = ap (or_else t) (rw fresh at made) in
      (
        ground (arith, ap (taken x) (sym e)),
        ground (arith, ap (rows x) (sym e)),
        no_row c.code t fresh,
      )
]

step-Sound :
    (n : ℕ) (s t : System) → Step n s t → ((x : Text) → Sound n s x) → (x : Text) → Sound n t x
unfolding activate
step-Sound n s _ (checks i user text c lt at ok_code) inv x =
    let w = sum_over-update (holds x) n s.pc i (checked user c) lt in
    let old : holds x (s.pc i) ≡ 0 = ap (holds x) at in
    ((inv x).0, omega (arith, w, old, (inv x).1))
step-Sound n s _ (claims i user c now lt at named) inv x =
    claim-Sound n i s user c now x lt at named (inv x)
step-Sound n s _ (activates i user c now lt at) inv x =
    let w = sum_over-update (holds x) n s.pc i idle lt in
    let old : holds x (s.pc i) ≡ (if same c.code x then 1 else 0) = ap (holds x) at in
    ((inv x).0, ground (arith, w, old, (inv x).1, count-cons x c.code s.granted))
step-Sound n s _ (fails i lt) inv x =
    let w = sum_over-update (holds x) n s.pc i idle lt in ((inv x).0, omega (arith, w, (inv x).1))
step-Sound n s _ (mints c codes made) inv x =
    let (k, r, fresh) = minted c s.codes codes x made in
    (
      elim (Bool-cases (same c.code x)) [
        | inl his ↦
            let e : c.code ≡ x = (same_iff c.code x).0 his in
            let none_yet : rows x s.codes ≡ 0 = rw (← e) fresh in ground (arith, r, his, none_yet)
        | inr other ↦ ground (arith, r, other, (inv x).0)
      ],
      omega (arith, k, (inv x).1),
    )
step-Sound n s _ (settles partner now req) inv x =
    elim (settle_codes-cases partner now req s.codes) [
      | inl e ↦ (omega (arith, ap (rows x) e, (inv x).0), omega (arith, ap (taken x) e, (inv x).1))
      | inr (p, f, e, keeps, same_user) ↦
          let r = ap (rows x) e ∙ rows-update x p f s.codes keeps in
          let k = ap (taken x) e ∙ taken-update x p f s.codes keeps same_user in
          (omega (arith, r, (inv x).0), omega (arith, k, (inv x).1))
    ]

reach-Sound :
    (n : ℕ) (users : List Account) (s : System) → Reach n users s → (x : Text) → Sound n s x
unfolding rows taken count
reach-Sound n users _ start x =
    (omega arith, omega (arith, sum_over_zero (holds x) n (λ i. idle) (λ i lt. refl)))
reach-Sound n users _ (next {s} {t} r step) x = step-Sound n s t step (reach-Sound n users s r) x

-- However requests to redeem codes run into one another, fail between their statements, and
-- mix with the minting and settling of codes: no code sets a plan more than once.
pub granted_once :
    (n : ℕ) (users : List Account) (s : System) (code : Text)
    → Reach n users s
    → count code s.granted ≤ 1
granted_once n users s code r =
    let (one_row, bound) = reach-Sound n users s r code in
    omega (arith, one_row, bound, taken-le-rows code s.codes)
