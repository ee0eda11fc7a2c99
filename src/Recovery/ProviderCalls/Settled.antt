-- ===== src/Recovery/ProviderCalls/Settled.antt =====
-- What a fetched row of `provider_calls` becomes when other calls rewrite the table.
use illusiontion.Prelude.{
  ℕ, String, ◌≡◌, refl, ◌∙◌, Bool, true, false, some, List, [], ◌∷◌, ◌++◌, update, Bool-cases,
  some_injective, inl, inr, if◌then◌else◌,
}
use illusiontion.Recovery.Database.{CallRow, CallState, in_flight, completed_call, uncertain}
use illusiontion.Recovery.ProviderCalls.{
  is_in_flight, is_completed, at_step, has_id, fetch, uncertain_row,
}

-- What later calls leave of a row.
pub record Later (r s : CallRow) : Type 0 where
  pub attempt_id : s.attempt_id ≡ r.attempt_id
  pub step_index : s.step_index ≡ r.step_index
  pub call_id : s.provider_call_id ≡ r.provider_call_id
  pub settled : is_in_flight r ≡ false → (s.state ≡ r.state) × (s.call_record ≡ r.call_record)

pub Later-refl : (r : CallRow) → Later r r
Later-refl r = record {
  attempt_id = refl;
  step_index = refl;
  call_id = refl;
  settled = λ e. (refl, refl);
}

same_state : (r s : CallRow) → s.state ≡ r.state → is_in_flight r ≡ false → is_in_flight s ≡ false
same_state r s e h = rw e h

pub Later-trans : (r s t : CallRow) → Later r s → Later s t → Later r t
Later-trans r s t a b = record {
  attempt_id = b.attempt_id ∙ a.attempt_id;
  step_index = b.step_index ∙ a.step_index;
  call_id = b.call_id ∙ a.call_id;
  settled = λ e.
      let (x, y) = a.settled e in let (z, w) = b.settled (same_state r s x e) in (z ∙ x, w ∙ y);
}

-- A test that reads the identity of a row only.
pub record ByIdentity (p : CallRow → Bool) : Type 0 where
  pub same_answer :
      (r s : CallRow)
      → s.attempt_id ≡ r.attempt_id
      → s.step_index ≡ r.step_index
      → s.provider_call_id ≡ r.provider_call_id
      → p s ≡ p r

pub at_step-ByIdentity : (a : String) (i : ℕ) → ByIdentity (at_step a i)
at_step-ByIdentity a i = record { same_answer = λ r s e f g. rw (e, f) refl }

pub has_id-ByIdentity : (id : String) → ByIdentity (has_id id)
has_id-ByIdentity id = record { same_answer = λ r s e f g. rw g refl }

pub fetch-append :
    (p : CallRow → Bool) (rows more : List CallRow) {r : CallRow}
    → fetch p rows ≡ some r
    → fetch p (rows ++ more) ≡ some r
unfolding fetch
fetch-append p [] more h = cc
fetch-append p (x ∷ xs) more h = elim (Bool-cases (p x)) [
  | inl hit ↦ rw hit (rw hit at h)
  | inr miss ↦ rw miss (fetch-append p xs more (rw miss at h))
]

-- An update that keeps identities rewrites the fetched row in its place.
fetch-update :
    (p q : CallRow → Bool) (f : CallRow → CallRow)
    → ((r : CallRow) → p (f r) ≡ p r)
    → (rows : List CallRow) {r : CallRow} → fetch p rows ≡ some r
    → fetch p (update q f rows) ≡ some (if q r then f r else r)
unfolding fetch
fetch-update p q f keep [] h = cc
fetch-update p q f keep (x ∷ xs) {r} h = elim (Bool-cases (p x)) [
  | inl hit ↦
      let is : x ≡ r = some_injective (rw hit at h) in
      elim (Bool-cases (q x)) [
        | inl taken ↦ rw (taken, ← is, taken, keep x, hit) refl
        | inr left ↦ rw (left, ← is, left, hit) refl
      ]
  | inr miss ↦ elim (Bool-cases (q x)) [
    | inl taken ↦ rw (taken, keep x, miss) (fetch-update p q f keep xs (rw miss at h))
    | inr left ↦ rw (left, miss) (fetch-update p q f keep xs (rw miss at h))
  ]
]

-- The fetched row after an update that takes each row it rewrites to a later one.
pub fetch-update-Later :
    (p q : CallRow → Bool) (f : CallRow → CallRow) (rows : List CallRow) {r : CallRow}
    → ByIdentity p
    → ((x : CallRow) → (f x).attempt_id ≡ x.attempt_id)
    → ((x : CallRow) → (f x).step_index ≡ x.step_index)
    → ((x : CallRow) → (f x).provider_call_id ≡ x.provider_call_id)
    → fetch p rows ≡ some r
    → (q r ≡ true → Later r (f r))
    → (s : CallRow) × (fetch p (update q f rows) ≡ some s) × Later r s
fetch-update-Later p q f rows {r} by a i c found later =
    let at = fetch-update p q f (λ x. by.same_answer x (f x) (a x) (i x) (c x)) rows found in
    elim (Bool-cases (q r)) [
      | inl taken ↦ (f r, rw taken at at, later taken)
      | inr left ↦ (r, rw left at at, Later-refl r)
    ]

settled_state :
    (st : CallState)
    → elim st [ in_flight ↦ true | completed_call ↦ false | uncertain ↦ false ] ≡ false
    → elim st [ in_flight ↦ false | completed_call ↦ true | uncertain ↦ false ] ≡ false
    → uncertain ≡ st
settled_state in_flight e f = cc
settled_state completed_call e f = cc
settled_state uncertain e f = refl

-- Marking a row that is not completed.
pub marked_Later :
    (detail : String) (r : CallRow) → is_completed r ≡ false → Later r (uncertain_row detail r)
marked_Later detail r open_row = record {
  attempt_id = refl;
  step_index = refl;
  call_id = refl;
  settled = λ e. (settled_state r.state e open_row, refl);
}
