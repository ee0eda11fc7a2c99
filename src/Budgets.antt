-- ===== src/Budgets.antt =====
-- The resource budget of app/review_controller.py: `ExecutionResourceBudget` and the checks that
-- refuse what exceeds it. What pydantic dumps of a case or a bundle stands beside it as its JSON.
pub mod Bounded
use illusiontion.Prelude.{
  ℕ, zero, suc, ◌+◌, ◌*◌, ◌≤◌, String, len, Bool, true, false, ◌&&◌, List, [], ◌∷◌, ◌<>◌, show, leb,
  ltb, length, Result, ok, err, ◌>>=◌, ◌>>◌, raise_if, value_error,
}
use illusiontion.Json.{Json}
use illusiontion.Host.{Host, canonical_json}

-- The limits that are numbers; the two wall-clock limits are floats, and only the adapters read
-- them.
pub record ResourceBudget : Type 0 where
  pub max_manifest_cases : ℕ
  pub max_json_file_utf8_bytes : ℕ
  pub max_case_utf8_bytes : ℕ
  pub max_evidence_items_per_case : ℕ
  pub max_evidence_bundle_utf8_bytes : ℕ
  pub max_single_evidence_excerpt_utf8_bytes : ℕ
  pub max_candidate_output_utf8_bytes : ℕ
  pub max_reviewer_input_utf8_bytes : ℕ
  pub max_reviewer_output_utf8_bytes : ℕ
  pub max_review_artifacts_total : ℕ
  pub max_recovery_submissions : ℕ
  pub max_recovery_outcome_records : ℕ
  pub max_challenge_observations : ℕ
  pub max_audit_records : ℕ
  pub max_observation_provenances : ℕ
  pub max_transparency_extension_entries : ℕ

abbrev within : ℕ → ℕ → ℕ → Bool
within low high n = leb low n && leb n high

-- The bounds of the fields, which pydantic checks.
unfoldable pub is_valid_budget : ResourceBudget → Bool
is_valid_budget b =
    within 1 4096 b.max_manifest_cases
    && within 65536 67108864 b.max_json_file_utf8_bytes
    && within 65536 16777216 b.max_case_utf8_bytes
    && within 1 512 b.max_evidence_items_per_case
    && within 32768 16777216 b.max_evidence_bundle_utf8_bytes
    && within 1024 1048576 b.max_single_evidence_excerpt_utf8_bytes
    && within 4096 4194304 b.max_candidate_output_utf8_bytes
    && within 65536 16777216 b.max_reviewer_input_utf8_bytes
    && within 4096 4194304 b.max_reviewer_output_utf8_bytes
    && within 16 16384 b.max_review_artifacts_total
    && within 1 4096 b.max_recovery_submissions
    && within 1 100000 b.max_recovery_outcome_records
    && within 1 4096 b.max_challenge_observations
    && within 1 100000 b.max_audit_records
    && within 1 100000 b.max_observation_provenances
    && within 1 100000 b.max_transparency_extension_entries

-- `default_v046_resource_budget`
unfoldable pub default_v046_resource_budget : ResourceBudget
default_v046_resource_budget = record {
  max_manifest_cases = 128;
  max_json_file_utf8_bytes = 8388608;
  max_case_utf8_bytes = 2097152;
  max_evidence_items_per_case = 128;
  max_evidence_bundle_utf8_bytes = 1048576;
  max_single_evidence_excerpt_utf8_bytes = 131072;
  max_candidate_output_utf8_bytes = 262144;
  max_reviewer_input_utf8_bytes = 2097152;
  max_reviewer_output_utf8_bytes = 262144;
  max_review_artifacts_total = 2048;
  max_recovery_submissions = 128;
  max_recovery_outcome_records = 4096;
  max_challenge_observations = 2048;
  max_audit_records = 4096;
  max_observation_provenances = 4096;
  max_transparency_extension_entries = 2048;
}

pub record EvidenceItem : Type 0 where
  pub evidence_id : String
  pub excerpt : String

pub record EvidenceBundle : Type 0 where
  pub items : List EvidenceItem
  pub json : Json

pub record ManifestCase : Type 0 where
  pub case_id : String
  pub evidence : EvidenceBundle
  pub json : Json

-- The counts that a recovery submission is checked by.
pub record Submission : Type 0 where
  pub recovery_outcome_records : ℕ
  pub challenge_observations : ℕ
  pub audit_records : ℕ
  pub observation_provenances : ℕ
  pub extension_entries : List ℕ

abbrev over : String → ℕ → ℕ → String
over message size limit = message <> ":" <> show size <> ">" <> show limit

-- `if size > limit: raise ValueError(...)`
abbrev pub enforce : String → ℕ → ℕ → Result (Unit {0})
enforce message size limit = raise_if (ltb limit size) (value_error (over message size limit))

unfoldable pub sum : List ℕ → ℕ
sum [] = 0
sum (n ∷ ns) = n + sum ns

unfoldable pub utf8_len : String → ℕ
utf8_len value = len value

-- The size that the file system reports for a path.
unfoldable pub enforce_json_file_size : (size : ℕ) → ResourceBudget → Result (Unit {0})
enforce_json_file_size size b =
    enforce "resource-budget-json-file-exceeded" size b.max_json_file_utf8_bytes

unfoldable pub enforce_candidate_output_budget : String → ResourceBudget → Result (Unit {0})
enforce_candidate_output_budget raw b =
    enforce "resource-budget-candidate-output-exceeded" (utf8_len raw)
      b.max_candidate_output_utf8_bytes

unfoldable pub enforce_reviewer_input_budget :
    String → ResourceBudget → (reviewer : String) → Result (Unit {0})
enforce_reviewer_input_budget payload b reviewer =
    enforce ("resource-budget-reviewer-input-exceeded:" <> reviewer) (utf8_len payload)
      b.max_reviewer_input_utf8_bytes

unfoldable pub enforce_reviewer_output_budget :
    String → ResourceBudget → (reviewer : String) → Result (Unit {0})
enforce_reviewer_output_budget raw b reviewer =
    enforce ("resource-budget-reviewer-output-exceeded:" <> reviewer) (utf8_len raw)
      b.max_reviewer_output_utf8_bytes

-- By the numbers of findings, semantic frames and semantic obligations.
unfoldable pub enforce_review_bundle_budget :
    (findings frames obligations : ℕ) → ResourceBudget → Result (Unit {0})
enforce_review_bundle_budget findings frames obligations b =
    enforce "resource-budget-review-artifacts-exceeded" (findings + frames + obligations)
      b.max_review_artifacts_total

unfoldable pub enforce_excerpts :
    (label : String) → List EvidenceItem → ResourceBudget → Result (Unit {0})
enforce_excerpts label [] b = ok tt
enforce_excerpts label (item ∷ items) b = do
  enforce ("resource-budget-evidence-excerpt-exceeded:" <> label <> ":" <> item.evidence_id)
      (utf8_len item.excerpt) b.max_single_evidence_excerpt_utf8_bytes
  enforce_excerpts label items b

-- The checks on one submission of a recovery.
unfoldable pub enforce_submission :
    (case_id : String) → Submission → ResourceBudget → Result (Unit {0})
unfolding sum
enforce_submission id s b = do
  raise_if (ltb b.max_recovery_outcome_records s.recovery_outcome_records)
      (value_error ("resource-budget-recovery-outcomes-exceeded:" <> id))
  raise_if (ltb b.max_challenge_observations s.challenge_observations)
      (value_error ("resource-budget-challenge-observations-exceeded:" <> id))
  raise_if (ltb b.max_audit_records s.audit_records)
      (value_error ("resource-budget-audit-records-exceeded:" <> id))
  raise_if (ltb b.max_observation_provenances s.observation_provenances)
      (value_error ("resource-budget-observation-provenances-exceeded:" <> id))
  enforce ("resource-budget-transparency-extension-exceeded:" <> id) (sum s.extension_entries)
      b.max_transparency_extension_entries

unfoldable pub enforce_submissions : List (String × Submission) → ResourceBudget → Result (Unit {0})
unfolding enforce_submission
enforce_submissions [] b = ok tt
enforce_submissions ((id, s) ∷ rest) b = do enforce_submission id s b; enforce_submissions rest b

unfoldable pub enforce_recovery_submission_budget :
    List (String × Submission) → ResourceBudget → Result (Unit {0})
unfolding enforce_submissions
enforce_recovery_submission_budget submissions b = do
  enforce "resource-budget-recovery-submissions-exceeded" (length submissions)
      b.max_recovery_submissions
  enforce_submissions submissions b

module _ ⦃host : Host⦄ where
  unfoldable pub canonical_utf8_len : Json → ℕ
  unfolding utf8_len
  canonical_utf8_len value = utf8_len (canonical_json value)

  unfoldable pub enforce_evidence_bundle_budget :
      EvidenceBundle → ResourceBudget → (label : String) → Result (Unit {0})
  unfolding enforce_excerpts
  enforce_evidence_bundle_budget evidence b label = do
    enforce ("resource-budget-evidence-items-exceeded:" <> label) (length evidence.items)
        b.max_evidence_items_per_case
    enforce ("resource-budget-evidence-bytes-exceeded:" <> label) (canonical_utf8_len evidence.json)
        b.max_evidence_bundle_utf8_bytes
    enforce_excerpts label evidence.items b

  unfoldable pub enforce_cases : List ManifestCase → ResourceBudget → Result (Unit {0})
  unfolding enforce_evidence_bundle_budget
  enforce_cases [] b = ok tt
  enforce_cases (c ∷ cases) b = do
    enforce ("resource-budget-case-bytes-exceeded:" <> c.case_id) (canonical_utf8_len c.json)
        b.max_case_utf8_bytes
    enforce_evidence_bundle_budget c.evidence b ("case:" <> c.case_id)
    enforce_cases cases b

  unfoldable pub enforce_manifest_budget : List ManifestCase → ResourceBudget → Result (Unit {0})
  unfolding enforce_cases
  enforce_manifest_budget cases b = do
    enforce "resource-budget-manifest-cases-exceeded" (length cases) b.max_manifest_cases
    enforce_cases cases b

  unfoldable pub enforce_recovery_rerun_budget : EvidenceBundle → ResourceBudget → Result (Unit {0})
  unfolding enforce_evidence_bundle_budget
  enforce_recovery_rerun_budget evidence b = enforce_evidence_bundle_budget evidence b "recovery"
