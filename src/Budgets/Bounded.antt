-- ===== src/Budgets/Bounded.antt =====
-- What a manifest that passes its budget can hold at most.
use illusiontion.Prelude.{
  ℕ, ◌*◌, ◌≤◌, String, ◌≡◌, refl, List, [], ◌∷◌, length, map, Result, ok, err, ◌>>◌, arith, All,
}
use illusiontion.Host.{Host}
use illusiontion.Budgets.{
  ResourceBudget, EvidenceItem, ManifestCase, enforce, sum, utf8_len, canonical_utf8_len,
  enforce_excerpts, enforce_cases, enforce_manifest_budget,
}

enforce-le : (message : String) (size limit : ℕ) → enforce message size limit ≡ ok tt → size ≤ limit
enforce-le message size limit h = ground arith

-- An excerpt within the budget.
abbrev pub Fits : ResourceBudget → EvidenceItem → Type 0
Fits b item = utf8_len item.excerpt ≤ b.max_single_evidence_excerpt_utf8_bytes

then_ok :
    (first second : Result (Unit {0}))
    → (first >> second) ≡ ok tt
    → (first ≡ ok tt) × (second ≡ ok tt)
then_ok (err e) second h = cc
then_ok (ok tt) second h = (refl, h)

excerpts-Fits :
    (label : String) (items : List EvidenceItem) (b : ResourceBudget)
    → enforce_excerpts label items b ≡ ok tt
    → All (Fits b) items
unfolding enforce_excerpts
excerpts-Fits label [] b h = tt
excerpts-Fits label (item ∷ items) b h =
    let parts = then_ok _ _ h in (enforce-le _ _ _ parts.0, excerpts-Fits label items b parts.1)

module _ ⦃host : Host⦄ where
  -- A case within the budget.
  pub record IsWithin (b : ResourceBudget) (c : ManifestCase) : Type 0 where
    pub bytes : canonical_utf8_len c.json ≤ b.max_case_utf8_bytes
    pub items : length c.evidence.items ≤ b.max_evidence_items_per_case
    pub evidence : canonical_utf8_len c.evidence.json ≤ b.max_evidence_bundle_utf8_bytes
    pub excerpts : All (Fits b) c.evidence.items

  cases-IsWithin :
      (cases : List ManifestCase) (b : ResourceBudget)
      → enforce_cases cases b ≡ ok tt
      → All (IsWithin b) cases
  unfolding enforce_cases
  cases-IsWithin [] b h = tt
  cases-IsWithin (c ∷ cases) b h =
      let parts = then_ok _ _ h in
      let later = then_ok _ _ parts.1 in
      let bundle = then_ok _ _ later.0 in
      let rest = then_ok _ _ bundle.1 in
      (
        record {
          bytes = enforce-le _ _ _ parts.0;
          items = enforce-le _ _ _ bundle.0;
          evidence = enforce-le _ _ _ rest.0;
          excerpts = excerpts-Fits _ c.evidence.items b rest.1;
        },
        cases-IsWithin cases b later.1,
      )

  total-le :
      (cases : List ManifestCase) (b : ResourceBudget)
      → All (IsWithin b) cases
      → sum (map (λ c. canonical_utf8_len c.json) cases) ≤ length cases * b.max_case_utf8_bytes
  unfolding sum
  total-le [] b h = omega arith
  total-le (c ∷ cases) b h = grind (arith, total-le cases b h.1, h.0.bytes)

  -- A manifest that passes its budget has at most the budgeted number of cases, each within its
  -- limits, and all of them together are no larger than the limit of a case for each budgeted
  -- case.
  pub enforce_manifest_budget-bounds :
      (cases : List ManifestCase) (b : ResourceBudget)
      → enforce_manifest_budget cases b ≡ ok tt
      → (length cases ≤ b.max_manifest_cases)
        × All (IsWithin b) cases
        × (sum (map (λ c. canonical_utf8_len c.json) cases)
            ≤ b.max_manifest_cases * b.max_case_utf8_bytes)
  unfolding enforce_manifest_budget
  enforce_manifest_budget-bounds cases b h =
      let message : String = "resource-budget-manifest-cases-exceeded" in
      let parts =
        then_ok (enforce message (length cases) b.max_manifest_cases) (enforce_cases cases b) h in
      let few = enforce-le message (length cases) b.max_manifest_cases parts.0 in
      let each = cases-IsWithin cases b parts.1 in
      (few, each, grind (arith, total-le cases b each, few))
