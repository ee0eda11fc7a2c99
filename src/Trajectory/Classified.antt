-- ===== src/Trajectory/Classified.antt =====
-- The verifier's loop over the traces.
use illusiontion.Prelude.{
  List, [], ◌∷◌, ◌≡◌, ◌∙◌, ok, Result-cases, Option-cases, Bool-cases, inl, inr, some, All, arith,
  same, eq_iff,
}
use illusiontion.Recovery.Records.Claims.{class_text}
use illusiontion.Trajectory.Reviews.{
  ReviewBundle, Receipt, review_receipt, classify_observable_completion, findings_of,
  obligations_of,
}
use illusiontion.Trajectory.Chain.{CallTrace, class_errors}

-- The trace has a receipt and carries the class of its review.
abbrev pub IsClassified : ReviewBundle → CallTrace → Type 0
IsClassified review trace =
    (receipt : Receipt) × (review_receipt trace.reviewer review.receipts ≡ some receipt)
    × (trace.action_class
        ≡ class_text (
            classify_observable_completion receipt (findings_of trace.reviewer review)
              (obligations_of trace.reviewer review)))

pub class_errors-AreClassified :
    (review : ReviewBundle) (traces : List CallTrace)
    → class_errors review traces ≡ ok []
    → All (IsClassified review) traces
unfolding class_errors
class_errors-AreClassified review [] h = tt
class_errors-AreClassified review (trace ∷ traces) h =
    elim (Option-cases (review_receipt trace.reviewer review.receipts)) [
      | inl missing ↦ absurd (ground (arith, missing, h))
      | inr (receipt, found) ↦ elim (Result-cases (class_errors review traces)) [
        | inl (e, raised) ↦ absurd (ground (arith, found, raised, h))
        | inr (rest, errors) ↦
            let class = class_text (
              classify_observable_completion receipt (findings_of trace.reviewer review)
                (obligations_of trace.reviewer review)) in
            elim (Bool-cases (same trace.action_class class)) [
              | inr differs ↦ absurd (ground (arith, found, errors, differs, h))
              | inl agrees ↦ (
                (receipt, found, (eq_iff trace.action_class class).0 agrees),
                class_errors-AreClassified review traces
                    (errors ∙ ground (arith, found, errors, agrees, h)),
              )
            ]
      ]
    ]
