-- ===== src/Reseller/Codes.antt =====
-- The table of codes and the statements on it, from shared/auth/reseller.go, and the handler
-- `settleCodes` of api/internal/handlers/reseller.go.
use torrin.Prelude.{
  ◌⊎◌, ℕ, ◌<◌, ◌≡◌, refl, Bool, true, false, not, ◌&&◌, ◌||◌, Option, none, some, List, [], ◌∷◌,
  map, inl, inr, if◌then◌else◌, ltb, ◌==◌, length, Bool-cases, arith,
}
use torrin.Prelude.Int.{ℤ}
use torrin.Prelude.Select.{keep, any_of}
use torrin.Prelude.Text.{Text, same, trim_space}

pub record ResellerCode : Type 0 where
  pub code : Text
  pub plan_id : Text
  pub period : Text
  pub days : ℤ
  pub reseller : Text
  pub redeemed_by : Text
  pub redeemed_at : Option ℕ
  pub settled_at : Option ℕ
  pub settlement_ref : Text
  pub retail_cents : ℕ

abbrev pub is_code : Text → ResellerCode → Bool
is_code code c = same c.code code

abbrev pub is_unredeemed : ResellerCode → Bool
is_unredeemed c = length c.redeemed_by == 0

abbrev pub is_unsettled : ResellerCode → Bool
is_unsettled c = elim c.settled_at [ none ↦ true | some t ↦ false ]

-- The code is the primary key.
unfoldable pub create_reseller_code : ResellerCode → List ResellerCode → Option (List ResellerCode)
unfolding any_of same
create_reseller_code c t =
    if any_of (is_code c.code) t
    then none
    else some (
        record c { redeemed_by = []; redeemed_at = none; settled_at = none; settlement_ref = [] }
        ∷ t)

unfoldable pub get_reseller_code : Text → List ResellerCode → Option ResellerCode
unfolding same
get_reseller_code code [] = none
get_reseller_code code (c ∷ t) =
    let rest = get_reseller_code code t in if is_code code c then some c else rest

abbrev pub update_codes :
    (ResellerCode → Bool) → (ResellerCode → ResellerCode) → List ResellerCode → List ResellerCode
update_codes p f = map (λ c. if p c then f c else c)

-- How many rows a statement changes.
abbrev pub affected : (ResellerCode → Bool) → List ResellerCode → ℕ
affected p t = length (keep p t)

abbrev pub redeemable : Text → ResellerCode → Bool
redeemable code c = is_code code c && is_unredeemed c

-- The table, and whether one row was changed.
unfoldable pub mark_reseller_code_redeemed :
    Text → Text → ℕ → List ResellerCode → List ResellerCode × Bool
unfolding same keep
mark_reseller_code_redeemed code user now t = (
  update_codes (redeemable code) (λ c. record c { redeemed_by = user; redeemed_at = some now }) t,
  affected (redeemable code) t == 1,
)

abbrev pub of_reseller : Text → ResellerCode → Bool
of_reseller reseller c = length reseller == 0 || same c.reseller reseller

abbrev pub settled : ℕ → Text → ResellerCode → ResellerCode
settled now ref c = record c { settled_at = some now; settlement_ref = ref }

abbrev pub unsettled : ResellerCode → ResellerCode
unsettled c = record c { settled_at = none; settlement_ref = [] }

unfoldable pub mark_reseller_codes_settled :
    ℕ → Text → Text → List ResellerCode → List ResellerCode × ℕ
unfolding same keep
mark_reseller_codes_settled now reseller ref t =
    let p : ResellerCode → Bool = λ c. same c.reseller reseller && is_unsettled c in
    (update_codes p (settled now ref) t, affected p t)

unfoldable pub unsettle_reseller_codes : Text → List ResellerCode → List ResellerCode × ℕ
unfolding same keep
unsettle_reseller_codes reseller t =
    let p : ResellerCode → Bool = λ c. same c.reseller reseller in
    (update_codes p unsettled t, affected p t)

unfoldable pub mark_reseller_code_settled :
    ℕ → Text → Text → Text → List ResellerCode → List ResellerCode × ℕ
unfolding same keep
mark_reseller_code_settled now reseller code ref t =
    let p : ResellerCode → Bool = λ c. is_code code c && is_unsettled c && of_reseller reseller c in
    (update_codes p (settled now ref) t, affected p t)

unfoldable pub unsettle_reseller_code : Text → Text → List ResellerCode → List ResellerCode × ℕ
unfolding same keep
unsettle_reseller_code reseller code t =
    let p : ResellerCode → Bool = λ c. is_code code c && of_reseller reseller c in
    (update_codes p unsettled t, affected p t)

pub record SettleRequest : Type 0 where
  pub reseller : Text
  pub code : Text
  pub ref : Text
  pub undo : Bool

abbrev pub updated : List ResellerCode × ℕ → List ResellerCode × Option ℕ
updated (t, n) = (t, some n)

-- How many rows were updated, or nothing where the request names neither a code nor a reseller. A
-- partner's key names the partner.
unfoldable pub settle_codes :
    Option Text → ℕ → SettleRequest → List ResellerCode → List ResellerCode × Option ℕ
unfolding mark_reseller_codes_settled unsettle_reseller_codes mark_reseller_code_settled
    unsettle_reseller_code trim_space
settle_codes partner now req t =
    let ref = trim_space req.ref in
    let code = trim_space req.code in
    let reseller : Text = elim partner [ none ↦ trim_space req.reseller | some id ↦ id ] in
    if ltb 0 (length code)
    then updated (
        if req.undo
        then unsettle_reseller_code reseller code t
        else mark_reseller_code_settled now reseller code ref t)
    else if ltb 0 (length reseller)
    then updated (
        if req.undo
        then unsettle_reseller_codes reseller t
        else mark_reseller_codes_settled now reseller ref t)
    else (t, none)

module _ (q : ResellerCode → Bool) where
  -- A statement that changes none of the rows that pass a test, and lets none in.
  keep-update :
      (p : ResellerCode → Bool) (f : ResellerCode → ResellerCode) (t : List ResellerCode)
      → ((c : ResellerCode) → p c ≡ true → q c ≡ false)
      → ((c : ResellerCode) → q (f c) ≡ q c)
      → keep q (update_codes p f t) ≡ keep q t
  unfolding keep
  keep-update p f [] apart same_test = refl
  keep-update p f (c ∷ t) apart same_test =
      ground (arith, keep-update p f t apart same_test, apart c, same_test c)

abbrev pub others : Text → ResellerCode → Bool
others partner c = not (same c.reseller partner)

-- A partner's request to settle, or to undo it, changes no code of another reseller, whatever
-- reseller or code it names.
pub settle_codes-others :
    (partner : Text) (now : ℕ) (req : SettleRequest) (t : List ResellerCode)
    → 0 < length partner
    → keep (others partner) (settle_codes (some partner) now req t).0 ≡ keep (others partner) t
unfolding settle_codes mark_reseller_codes_settled unsettle_reseller_codes
    mark_reseller_code_settled unsettle_reseller_code
settle_codes-others partner now req t named =
    elim (Bool-cases (ltb 0 (length (trim_space req.code)))) [
      | inl one ↦ elim (Bool-cases req.undo) [
        | inl back ↦
            rw (one, back, settle_codes)
              (keep-update (others partner)
                (λ c. is_code (trim_space req.code) c && of_reseller partner c) unsettled t
                (λ c h. ground (arith, h, named)) (λ c. refl))
        | inr on ↦
            rw (one, on, settle_codes)
              (keep-update (others partner)
                (λ c. is_code (trim_space req.code) c && is_unsettled c && of_reseller partner c)
                (settled now (trim_space req.ref)) t (λ c h. ground (arith, h, named)) (λ c. refl))
      ]
      | inr every ↦
          let n : ltb 0 (length partner) ≡ true = ground (arith, named) in
          elim (Bool-cases req.undo) [
            | inl back ↦
                rw (every, n, back, settle_codes)
                  (keep-update (others partner) (λ c. same c.reseller partner) unsettled t
                    (λ c h. ground (arith, h, named)) (λ c. refl))
            | inr on ↦
                rw (every, n, on, settle_codes)
                  (keep-update (others partner) (λ c. same c.reseller partner && is_unsettled c)
                    (settled now (trim_space req.ref)) t (λ c h. ground (arith, h, named))
                    (λ c. refl))
          ]
    ]

-- What a settlement does to the rows.
pub settle_codes-cases :
    (partner : Option Text) (now : ℕ) (req : SettleRequest) (t : List ResellerCode)
    → ((settle_codes partner now req t).0 ≡ t)
      ⊎ ((p : ResellerCode → Bool) × (f : ResellerCode → ResellerCode) × ((settle_codes partner now
              req t).0
            ≡ update_codes p f t)
          × ((c : ResellerCode) → (f c).code ≡ c.code)
          × ((c : ResellerCode) → (f c).redeemed_by ≡ c.redeemed_by))
unfolding settle_codes mark_reseller_codes_settled unsettle_reseller_codes
    mark_reseller_code_settled unsettle_reseller_code
settle_codes-cases partner now req t =
    let reseller : Text = elim partner [ none ↦ trim_space req.reseller | some id ↦ id ] in
    elim (Bool-cases (ltb 0 (length (trim_space req.code)))) [
      | inl one ↦ elim (Bool-cases req.undo) [
        | inl back ↦ inr (
          (λ c. is_code (trim_space req.code) c && of_reseller reseller c),
          unsettled,
          rw (one, back, settle_codes) refl,
          λ c. refl,
          λ c. refl,
        )
        | inr on ↦ inr (
          (λ c. is_code (trim_space req.code) c && is_unsettled c && of_reseller reseller c),
          settled now (trim_space req.ref),
          rw (one, on, settle_codes) refl,
          λ c. refl,
          λ c. refl,
        )
      ]
      | inr every ↦ elim (Bool-cases (ltb 0 (length reseller))) [
        | inr nobody ↦ inl (rw (every, nobody, settle_codes) refl)
        | inl named ↦ elim (Bool-cases req.undo) [
          | inl back ↦ inr (
            (λ c. same c.reseller reseller),
            unsettled,
            rw (every, named, back, settle_codes) refl,
            λ c. refl,
            λ c. refl,
          )
          | inr on ↦ inr (
            (λ c. same c.reseller reseller && is_unsettled c),
            settled now (trim_space req.ref),
            rw (every, named, on, settle_codes) refl,
            λ c. refl,
            λ c. refl,
          )
        ]
      ]
    ]
