-- ===== src/Dependencies/Graph/Marked.antt =====
-- What the walk keeps of the sets that it marks, and its loop over the upstream names.
use illusiontion.Prelude.{
  String, Bool, true, false, ◌||◌, Option, some, List, [], ◌∷◌, ◌≡◌, refl, sym, elem, Bool-cases,
  Option-cases, inl, inr, ◌⊎◌, arith, eq_iff, eq_refl, some_injective, same, subst,
}
use illusiontion.Prelude.Sets.{Subset, is_unique}
use illusiontion.Dependencies.Graph.{DependencyNode, Marks, node_ids, visit_each, upstream_of}

-- `u` is named upstream of `id`, and is a node.
abbrev pub Upstream : List DependencyNode → String → String → Type 0
Upstream nodes u id = (elem u (upstream_of nodes id) ≡ true) × (elem u (node_ids nodes) ≡ true)

-- The nodes that the output depends on.
pub data Feeds (nodes : List DependencyNode) (output : String) : String → Type 0 where
  itself : Feeds nodes output output
  upstream : {id u : String} → Feeds nodes output id → Upstream nodes u id → Feeds nodes output u

module _ (nodes : List DependencyNode) (output : String) where
  -- Each name stands before the names that it depends on.
  abbrev pub IsOrdered : List String → Type 0
  IsOrdered [] = Unit
  IsOrdered (id ∷ rest) = ((u : String) → Upstream nodes u id → elem u rest ≡ true) × IsOrdered rest

  pub record IsMarked (m : Marks) : Type 0 where
    pub unique : is_unique m.visited ≡ true
    pub known : Subset m.visited (node_ids nodes)
    pub feeds : (y : String) → elem y m.visited ≡ true → Feeds nodes output y
    pub ordered : (m.cycle ≡ true) ⊎ IsOrdered m.visited

  pub record Grows (m m' : Marks) : Type 0 where
    pub visited : Subset m.visited m'.visited
    pub cycle : m.cycle ≡ true → m'.cycle ≡ true

  pub Grows-refl : (m : Marks) → Grows m m
  Grows-refl m = record { visited = λ y h. h; cycle = λ h. h }

  Grows-trans : (a b c : Marks) → Grows a b → Grows b c → Grows a c
  Grows-trans a b c f g = record {
    visited = λ y h. g.visited y (f.visited y h);
    cycle = λ h. g.cycle (f.cycle h);
  }

  -- What a visit of `id` leaves.
  pub record Visit (id : String) (m m' : Marks) : Type 0 where
    pub marked : IsMarked m'
    pub grows : Grows m m'
    pub covered : (m'.cycle ≡ true) ⊎ (elem id m'.visited ≡ true)

  abbrev pub Visits : (String → Marks → Option Marks) → Type 0
  Visits visit_one =
      (u : String) (m m' : Marks)
      → Feeds nodes output u
      → elem u (node_ids nodes) ≡ true
      → IsMarked m
      → visit_one u m ≡ some m'
      → Visit u m m'

  pub record VisitEach (us : List String) (m m' : Marks) : Type 0 where
    pub marked : IsMarked m'
    pub grows : Grows m m'
    pub covered :
        (m'.cycle ≡ true)
        ⊎ ((u : String)
            → elem u us ≡ true
            → elem u (node_ids nodes) ≡ true
            → elem u m'.visited ≡ true)

  or_head : (a b : Bool) → a ≡ true → (a || b) ≡ true
  or_head a b h = rw h refl

  covered-cons :
      (u : String) (us : List String) (next m' : Marks)
      → (next.cycle ≡ true) ⊎ (elem u next.visited ≡ true)
      → Grows next m'
      → VisitEach us next m'
      → (m'.cycle ≡ true)
        ⊎ ((x : String)
            → elem x (u ∷ us) ≡ true
            → elem x (node_ids nodes) ≡ true
            → elem x m'.visited ≡ true)
  covered-cons u us next m' (inl looped) grows each = inl (grows.cycle looped)
  covered-cons u us next m' (inr there) grows each = elim each.covered [
    | inl looped ↦ inl looped
    | inr rest ↦ inr (λ x h k. elim (Bool-cases (same x u)) [
      | inl e ↦
          subst (λ y. elem y m'.visited ≡ true) (sym ((eq_iff x u).0 e)) (grows.visited u there)
      | inr e ↦ rest x (ground (arith, e, h)) k
    ])
  ]

  covered-skip :
      (u : String) (us : List String) (m m' : Marks)
      → elem u (node_ids nodes) ≡ false
      → VisitEach us m m'
      → (m'.cycle ≡ true)
        ⊎ ((x : String)
            → elem x (u ∷ us) ≡ true
            → elem x (node_ids nodes) ≡ true
            → elem x m'.visited ≡ true)
  covered-skip u us m m' unknown each = elim each.covered [
    | inl looped ↦ inl looped
    | inr rest ↦ inr (λ x h k. elim (Bool-cases (same x u)) [
      | inl e ↦ absurd (other x u ((eq_iff x u).0 e) k unknown)
      | inr e ↦ rest x (ground (arith, e, h)) k
    ])
  ]
    where
      other :
          (x u : String)
          → x ≡ u
          → elem x (node_ids nodes) ≡ true
          → elem u (node_ids nodes) ≡ false
          → ⊥
      other x u e k unknown = cc

  pub visit_each-VisitEach :
      (visit_one : String → Marks → Option Marks)
      → Visits visit_one
      → (us : List String) (m m' : Marks)
      → ((u : String) → elem u us ≡ true → elem u (node_ids nodes) ≡ true → Feeds nodes output u)
      → IsMarked m
      → visit_each nodes visit_one us m ≡ some m'
      → VisitEach us m m'
  unfolding visit_each
  visit_each-VisitEach visit_one visits [] m m' feeds marked e =
      subst (λ x. VisitEach [] m x) (some_injective e)
        (record { marked = marked; grows = Grows-refl m; covered = inr (λ u h k. cc) })
  visit_each-VisitEach visit_one visits (u ∷ us) m m' feeds marked e =
      elim (Bool-cases (elem u (node_ids nodes))) [
        | inr unknown ↦
            let each =
              visit_each-VisitEach visit_one visits us m m'
                (λ x h k. feeds x (or_tail (same x u) (elem x us) h) k) marked
                (ground (arith, unknown, e)) in
            record {
              marked = each.marked;
              grows = each.grows;
              covered = covered-skip u us m m' unknown each;
            }
        | inl known ↦ elim (Option-cases (visit_one u m)) [
          | inl out ↦ absurd (ground (arith, known, out, e))
          | inr (next, one) ↦
              let first =
                visits u m next (feeds u (or_head _ _ (eq_refl u)) known) known marked one in
              let each =
                visit_each-VisitEach visit_one visits us next m'
                  (λ x h k. feeds x (or_tail (same x u) (elem x us) h) k) first.marked
                  (ground (arith, known, one, e)) in
              record {
                marked = each.marked;
                grows = Grows-trans m next m' first.grows each.grows;
                covered = covered-cons u us next m' first.covered each.grows each;
              }
        ]
      ]
    where
      or_tail : (a b : Bool) → b ≡ true → (a || b) ≡ true
      or_tail true b h = refl
      or_tail false b h = h
