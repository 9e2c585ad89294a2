-- ===== src/Autotune/Laws.antt =====
-- What the table promises.
use group_free_collectives.Base.{
  ℕ, ◌≤◌, ◌≡◌, refl, ap, ◌∙◌, arith, Bool, true, false, Option, none, some, List, [], ◌∷◌, ◌++◌,
  All, max, Outcome, ok, err, Exc, value_error, ok-injective, sym, subst, if◌then◌else◌,
}
use group_free_collectives.Base.Membership.{Elem, here, there}
use group_free_collectives.Autotune.{
  Collective, DataPath, Rule, Policy, path_accepted, table_init, is_fused, get_knob,
  max_channels_from, max_fused_num_channels, rule_matches, policy_for,
}

-- The rule matches the call, and the policy is its path and knobs.
abbrev pub Chosen : Rule → Policy → Collective → ℕ → ℕ → Type 0
Chosen r p c g n = (rule_matches r c g n ≡ true) × (r.path ≡ some p.path) × (p.knobs ≡ r.knobs)

-- The rule does not match the call, or names no path.
abbrev pub Passed : Collective → ℕ → ℕ → Rule → Type 0
Passed c g n r = (rule_matches r c g n ≡ true) → r.path ≡ none

module _ (c : Collective) (g n : ℕ) where
  abbrev pub FirstMatch : List Rule → Policy → Type 0
  FirstMatch rules p =
      (before : List Rule) × (r : Rule) × (after : List Rule) × (rules ≡ before ++ r ∷ after)
      × Chosen r p c g n
      × All (Passed c g n) before

  go_on :
      (r : Rule) (rules : List Rule) (p : Policy)
      → Passed c g n r
      → FirstMatch rules p
      → FirstMatch (r ∷ rules) p
  go_on r rules p h (before, r', after, e, chosen, passed) =
      (r ∷ before, r', after, ap (λ xs. r ∷ xs) e, chosen, (h, passed))

  step-first :
      (r : Rule) (rules : List Rule) (rest : Option Policy) (b : Bool) (path : Option DataPath)
      {p : Policy}
      → rule_matches r c g n ≡ b
      → r.path ≡ path
      → (rest ≡ some p → FirstMatch rules p)
      → (if b
          then elim path [ none ↦ rest | some q ↦ some (record { path = q; knobs = r.knobs }) ]
          else rest)
        ≡ some p
      → FirstMatch (r ∷ rules) p
  step-first r rules rest true none {p} m w later e = go_on r rules p (λ h. w) (later e)
  step-first r rules rest true (some q) {p} m w later e =
      let same : record { path = q; knobs = r.knobs } ≡ p = cc in
      (
        [],
        r,
        rules,
        refl,
        (
          m,
          w ∙ ap (λ x. some x.path) same,
          ap (λ x. x.knobs) (let back : p ≡ record { path = q; knobs = r.knobs } = cc in back),
        ),
        tt,
      )
  step-first r rules rest false path {p} m w later e = go_on r rules p (λ h. absurd (cc)) (later e)

  -- The policy of a call is that of the first rule that matches the call and names a path: it has
  -- that rule's path and knobs, and each rule before it does not match or names no path.
  pub policy_for-first :
      (rules : List Rule) (p : Policy) → policy_for rules c g n ≡ some p → FirstMatch rules p
  unfolding policy_for
  policy_for-first [] p e = absurd (cc)
  policy_for-first (r ∷ rules) p e =
      step-first r rules (policy_for rules c g n) _ _ refl refl (policy_for-first rules p) e

cons-known :
    (r : Rule) (rules : List Rule) (b : Bool) (rest : Outcome (List Rule)) (e : Exc)
    {kept : List Rule}
    → path_accepted r ≡ b
    → ((rs : List Rule) → rest ≡ ok rs → (rs ≡ rules) × All (λ r. path_accepted r ≡ true) rules)
    → (if b then elim rest [ ok rs ↦ ok (r ∷ rs) | err x ↦ err x ] else err e) ≡ ok kept
    → (kept ≡ r ∷ rules) × All (λ r. path_accepted r ≡ true) (r ∷ rules)
cons-known r rules true (ok rs) x p later e =
    let (same, known) = later rs refl in (sym (ok-injective e) ∙ ap (λ xs. r ∷ xs) same, (p, known))
cons-known r rules true (err y) x p later e = absurd (cc)
cons-known r rules false rest x p later e = absurd (cc)

-- A table that was accepted names only known paths, and is the list of rules it was given.
pub table_init-known :
    (rules kept : List Rule)
    → table_init rules ≡ ok kept
    → (kept ≡ rules) × All (λ r. path_accepted r ≡ true) rules
unfolding table_init
table_init-known [] kept e = (sym (ok-injective e), tt)
table_init-known (r ∷ rules) kept e =
    cons-known r rules (path_accepted r) (table_init rules) value_error refl
      (table_init-known rules) e

max_channels-ge : (mx : ℕ) (rules : List Rule) → mx ≤ max_channels_from mx rules
unfolding max_channels_from
max_channels-ge mx [] = omega arith
max_channels-ge mx (r ∷ rules) = ground (
  arith,
  max_channels-ge (max mx (get_knob r.knobs.fused_num_channels 0)) rules,
  max_channels-ge mx rules,
)

max_channels-bounds :
    (rules : List Rule) {r' : Rule}
    → Elem r' rules
    → (mx : ℕ) → is_fused r'.path ≡ true
    → get_knob r'.knobs.fused_num_channels 0 ≤ max_channels_from mx rules
unfolding max_channels_from
max_channels-bounds [] m mx f = elim m [ ]
max_channels-bounds (r ∷ rules) (here e) mx f =
    subst (λ (x : Rule). get_knob x.knobs.fused_num_channels 0 ≤ max_channels_from mx (r ∷ rules))
      (sym e)
      (rw (subst (λ x. is_fused x.path ≡ true) e f)
        (omega (arith, max_channels-ge (max mx (get_knob r.knobs.fused_num_channels 0)) rules)))
max_channels-bounds (r ∷ rules) (there m) mx f = max_channels-bounds rules m _ f

-- No fused rule asks for more channels than `max_fused_num_channels` reports.
pub max_fused_num_channels-bounds :
    (rules : List Rule) (r : Rule)
    → Elem r rules
    → is_fused r.path ≡ true
    → get_knob r.knobs.fused_num_channels 0 ≤ max_fused_num_channels rules
unfolding max_fused_num_channels
max_fused_num_channels-bounds rules r m f = max_channels-bounds rules m 0 f
