-- ===== src/Recovery/ProviderCalls/Rows.antt =====
-- The rows of `provider_calls`: no call id and no completed response stands twice, and an update
-- by call id rewrites one row.
use illusiontion.Prelude.{
  String, ◌≡◌, ◌≢◌, refl, sym, ap, ◌∙◌, Bool, true, false, some, List, [], ◌∷◌, ◌++◌, Bool-cases,
  inl, inr, eq_iff, All, update, filter, some_injective,
}
use illusiontion.Recovery.Database.{CallRow}
use illusiontion.Recovery.ProviderCalls.{is_completed, has_id, fetch}

-- Two rows with different call ids, and not both completed by one response of one provider.
pub record Apart (r s : CallRow) : Type 0 where
  pub ids : r.provider_call_id ≢ s.provider_call_id
  pub responses :
      is_completed r ≡ true
      → is_completed s ≡ true
      → r.provider ≡ s.provider
      → r.model_response_id ≡ s.model_response_id
      → ⊥

abbrev pub AllApart : List CallRow → Type 0
AllApart [] = Unit
AllApart (r ∷ rs) = All (Apart r) rs × AllApart rs

pub Apart-sym : {r s : CallRow} → Apart r s → Apart s r
Apart-sym h = record {
  ids = λ e. h.ids (sym e);
  responses = λ a b e f. h.responses b a (sym e) (sym f);
}

module _ (P : CallRow → Type 0) where
  pub All-fetch :
      (p : CallRow → Bool) (rows : List CallRow) {row : CallRow}
      → fetch p rows ≡ some row
      → All P rows
      → P row
  unfolding fetch
  All-fetch p [] e h = cc
  All-fetch p (r ∷ rs) {row} e h = elim (Bool-cases (p r)) [
    | inl hit ↦ let is : r ≡ row = some_injective (rw hit at e) in rw (← is) h.0
    | inr miss ↦ All-fetch p rs (rw miss at e) h.1
  ]

  pub All-map :
      (Q : CallRow → Type 0)
      → ((r : CallRow) → P r → Q r)
      → (rows : List CallRow) → All P rows
      → All Q rows
  All-map Q f [] h = tt
  All-map Q f (r ∷ rs) h = (f r h.0, All-map Q f rs h.1)

  pub All-filter : (p : CallRow → Bool) (rows : List CallRow) → All P rows → All P (filter p rows)
  All-filter p [] h = tt
  All-filter p (r ∷ rs) h = elim (Bool-cases (p r)) [
    | inl hit ↦ rw hit (h.0, All-filter p rs h.1)
    | inr miss ↦ rw miss (All-filter p rs h.1)
  ]

  pub All-snoc : (rows : List CallRow) (r : CallRow) → All P rows → P r → All P (rows ++ r ∷ [])
  All-snoc [] r h p = (p, tt)
  All-snoc (s ∷ ss) r h p = (h.0, All-snoc ss r h.1 p)

  pub All-update :
      (p : CallRow → Bool) (f : CallRow → CallRow)
      → ((r : CallRow) → p r ≡ true → P r → P (f r))
      → (rows : List CallRow) → All P rows
      → All P (update p f rows)
  All-update p f keep [] h = tt
  All-update p f keep (r ∷ rs) h = elim (Bool-cases (p r)) [
    | inl hit ↦ rw hit (keep r hit h.0, All-update p f keep rs h.1)
    | inr miss ↦ rw miss (h.0, All-update p f keep rs h.1)
  ]

pub fetch_found :
    (p : CallRow → Bool) (rows : List CallRow) {row : CallRow}
    → fetch p rows ≡ some row
    → p row ≡ true
unfolding fetch
fetch_found p [] e = cc
fetch_found p (r ∷ rs) {row} e = elim (Bool-cases (p r)) [
  | inl hit ↦ let is : r ≡ row = some_injective (rw hit at e) in rw (← is) hit
  | inr miss ↦ fetch_found p rs (rw miss at e)
]

-- The row with the id of a fetched row is that row.
pub same_row :
    (p q : CallRow → Bool) (rows : List CallRow) {r s : CallRow}
    → AllApart rows
    → fetch p rows ≡ some r
    → fetch q rows ≡ some s
    → r.provider_call_id ≡ s.provider_call_id
    → r ≡ s
unfolding fetch
same_row p q [] h e f same_id = cc
same_row p q (x ∷ xs) {r} {s} h e f same_id = elim (Bool-cases (p x)) [
  | inl hit ↦ elim (Bool-cases (q x)) [
    | inl hit2 ↦ sym (some_injective (rw hit at e)) ∙ some_injective (rw hit2 at f)
    | inr miss2 ↦
        let is : x ≡ r = some_injective (rw hit at e) in
        let apart = All-fetch (Apart x) q xs (rw miss2 at f) h.0 in
        absurd (apart.ids (ap (λ (c : CallRow). c.provider_call_id) is ∙ same_id))
  ]
  | inr miss ↦ elim (Bool-cases (q x)) [
    | inl hit2 ↦
        let is : x ≡ s = some_injective (rw hit2 at f) in
        let apart = All-fetch (Apart x) p xs (rw miss at e) h.0 in
        absurd (apart.ids (ap (λ (c : CallRow). c.provider_call_id) is ∙ sym same_id))
    | inr miss2 ↦ same_row p q xs h.1 (rw miss at e) (rw miss2 at f) same_id
  ]
]

-- An update by an id leaves rows with other ids as they are.
update-elsewhere :
    (id : String) (f : CallRow → CallRow) (rows : List CallRow)
    → All (λ s. id ≢ s.provider_call_id) rows
    → update (has_id id) f rows ≡ rows
update-elsewhere id f [] h = refl
update-elsewhere id f (r ∷ rs) h = elim (Bool-cases (has_id id r)) [
  | inl hit ↦ absurd (h.0 (sym ((eq_iff r.provider_call_id id).0 hit)))
  | inr miss ↦ rw (miss, update-elsewhere id f rs h.1) refl
]

pub All-update_one :
    (P : CallRow → Type 0) (id : String) (f : CallRow → CallRow) (rows : List CallRow)
    {row : CallRow}
    → AllApart rows
    → fetch (has_id id) rows ≡ some row
    → P (f row)
    → All P rows
    → All P (update (has_id id) f rows)
unfolding fetch
All-update_one P id f [] apart e new h = cc
All-update_one P id f (r ∷ rs) {row} apart e new h = elim (Bool-cases (has_id id r)) [
  | inl hit ↦
      let is : r ≡ row = some_injective (rw hit at e) in
      let others : All (λ s. id ≢ s.provider_call_id) rs =
        All-map (Apart r) (λ s. id ≢ s.provider_call_id)
          (λ s a g. a.ids ((eq_iff r.provider_call_id id).0 hit ∙ g)) rs apart.0 in
      let here : P (f r) = rw is new in rw (hit, update-elsewhere id f rs others) (here, h.1)
  | inr miss ↦ rw miss (h.0, All-update_one P id f rs apart.1 (rw miss at e) new h.1)
]

-- The rows stay apart if the new row is apart from the rows with other ids.
pub AllApart-update_one :
    (id : String) (f : CallRow → CallRow) (rows : List CallRow) {row : CallRow}
    → AllApart rows
    → fetch (has_id id) rows ≡ some row
    → All (λ s. s.provider_call_id ≢ id → Apart (f row) s) rows
    → AllApart (update (has_id id) f rows)
unfolding fetch
AllApart-update_one id f [] apart e new = cc
AllApart-update_one id f (r ∷ rs) {row} apart e new = elim (Bool-cases (has_id id r)) [
  | inl hit ↦
      let is : r ≡ row = some_injective (rw hit at e) in
      let at_id = (eq_iff r.provider_call_id id).0 hit in
      let others : All (λ s. id ≢ s.provider_call_id) rs =
        All-map (Apart r) (λ s. id ≢ s.provider_call_id) (λ s a g. a.ids (at_id ∙ g)) rs apart.0 in
      let news : All (Apart (f r)) rs = rw is (
        All-both (λ s. id ≢ s.provider_call_id) (λ s. s.provider_call_id ≢ id → Apart (f row) s)
          (Apart (f row)) (λ s a n. n (λ g. a (sym g))) rs others new.1) in
      rw (hit, update-elsewhere id f rs others) (news, apart.1)
  | inr miss ↦
      let other : r.provider_call_id ≢ id =
        λ g. true-ne-false (sym ((eq_iff r.provider_call_id id).1 g) ∙ miss) in
      rw miss (
        All-update_one (Apart r) id f rs apart.1 (rw miss at e) (Apart-sym (new.0 other)) apart.0,
        AllApart-update_one id f rs apart.1 (rw miss at e) new.1,
      )
]
  where
    true-ne-false : true ≡ false → ⊥
    true-ne-false g = cc

    All-both :
        (P Q R : CallRow → Type 0)
        → ((s : CallRow) → P s → Q s → R s)
        → (ss : List CallRow) → All P ss
        → All Q ss
        → All R ss
    All-both P Q R g [] a b = tt
    All-both P Q R g (s ∷ ss) a b = (g s a.0 b.0, All-both P Q R g ss a.1 b.1)
