-- ===== src/Recovery/ProviderCalls/Sound.antt =====
-- The invariant of `provider_calls`, kept by every method of every ledger that uses one key.
use illusiontion.Prelude.{
  String, ◌≡◌, refl, sym, ◌∙◌, Bool, true, false, ◌||◌, none, some, List, [], ◌∷◌, ◌++◌, arith, any,
  All, Bool-cases, inl, inr, eq_refl,
}
use illusiontion.Host.{Host, RuntimeKey, sha256_object, hmac_payload}
use illusiontion.Recovery.Records.Calls.{CallRecord, record_digest_payload, record_payload}
use illusiontion.Recovery.Database.{
  CallRow, CallState, in_flight, completed_call, uncertain, is_text,
}
use illusiontion.Recovery.ProviderCalls.{
  is_in_flight, is_completed, has_id, at_step, insert_call, provider_call_id,
}
use illusiontion.Recovery.ProviderCalls.Opened.{responds}
use illusiontion.Recovery.ProviderCalls.Rows.{Apart, AllApart, Apart-sym, All-snoc}

module _ ⦃host : Host⦄ (key : RuntimeKey) where
  -- The record is a signed account of the call in the row.
  pub record IsRecorded (row : CallRow) (rec : CallRecord) : Type 0 where
    pub attempt_id : rec.attempt_id ≡ row.attempt_id
    pub step_index : rec.step_index ≡ row.step_index
    pub reviewer : rec.reviewer ≡ row.reviewer
    pub permit : rec.atomic_permit_sha256 ≡ row.atomic_permit_sha256
    pub call_id : rec.provider_call_id ≡ row.provider_call_id
    pub invocation : rec.invocation_sha256 ≡ row.invocation_sha256
    pub provider : row.provider ≡ some rec.provider
    pub response : row.model_response_id ≡ some rec.model_response_id
    pub output : row.raw_output_sha256 ≡ some rec.raw_output_sha256
    pub digest : rec.call_sha256 ≡ sha256_object (record_digest_payload rec)
    pub signature : rec.runtime_signature ≡ hmac_payload (record_payload rec) key

  -- The call id is the one that the permit determines, and a record stands exactly in a completed row.
  pub record RowSound (row : CallRow) : Type 0 where
    pub identity :
        row.provider_call_id
        ≡ provider_call_id row.attempt_id row.step_index row.reviewer row.atomic_permit_sha256
    pub open_row : is_completed row ≡ false → row.call_record ≡ none
    pub closed_row :
        is_completed row ≡ true
        → (rec : CallRecord) × (row.call_record ≡ some rec) × IsRecorded row rec

  pub record IsSoundLedger (rows : List CallRow) : Type 0 where
    pub each : All RowSound rows
    pub apart : AllApart rows

pub false-ne-true : false ≡ true → ⊥
false-ne-true e = cc

pub answers_twice :
    (s : CallRow) (provider response : String)
    → is_completed s ≡ true
    → some provider ≡ s.provider
    → some response ≡ s.model_response_id
    → responds provider response s ≡ false
    → ⊥
answers_twice s provider response b e f free =
    let p : is_text s.provider provider ≡ true = rw (← e) (eq_refl provider) in
    let r : is_text s.model_response_id response ≡ true = rw (← f) (eq_refl response) in
    false-ne-true (sym free ∙ rw (b, p, r) refl)

pub waiting_open : (row : CallRow) → is_in_flight row ≡ true → is_completed row ≡ false
waiting_open row h = by_state row.state h
  where
    by_state :
        (st : CallState)
        → elim st [ in_flight ↦ true | completed_call ↦ false | uncertain ↦ false ] ≡ true
        → elim st [ in_flight ↦ false | completed_call ↦ true | uncertain ↦ false ] ≡ false
    by_state in_flight e = refl
    by_state completed_call e = cc
    by_state uncertain e = refl

pub any-All :
    (p : CallRow → Bool) (rows : List CallRow) → any p rows ≡ false → All (λ s. p s ≡ false) rows
any-All p [] h = tt
any-All p (r ∷ rs) h = elim (Bool-cases (p r)) [
  | inl hit ↦ absurd (ground (arith, h, hit))
  | inr miss ↦ (miss, any-All p rs (rw miss at h))
]

pub AllApart-snoc :
    (rows : List CallRow) (new : CallRow)
    → AllApart rows
    → All (Apart new) rows
    → AllApart (rows ++ new ∷ [])
AllApart-snoc [] new h a = (tt, tt)
AllApart-snoc (r ∷ rs) new h a =
    (All-snoc (Apart r) rs new h.0 (Apart-sym a.0), AllApart-snoc rs new h.1 a.1)

pub insert_call-eq-some :
    (new : CallRow) (rows : List CallRow) {after : List CallRow}
    → insert_call new rows ≡ some after
    → (after ≡ rows ++ new ∷ [])
      × (any
            (λ row. at_step new.attempt_id new.step_index row || has_id new.provider_call_id row)
            rows
          ≡ false)
unfolding insert_call
insert_call-eq-some new rows h =
    elim (Bool-cases (
      any (λ row. at_step new.attempt_id new.step_index row || has_id new.provider_call_id row)
        rows)) [
          | inl clash ↦ absurd (ground (arith, h, clash))
          | inr free ↦ (ground (arith, h, free), free)
        ]
