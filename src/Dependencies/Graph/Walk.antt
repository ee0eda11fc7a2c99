-- ===== src/Dependencies/Graph/Walk.antt =====
-- The walk of `visit` ends: the number of nodes is depth enough, and what it opens it closes.
use illusiontion.Prelude.{
  ℕ, zero, suc, ◌+◌, ◌≤◌, ◌<◌, String, true, false, Option, some, List, [], ◌∷◌, ◌≡◌, refl, ap,
  elem, length, Bool-cases, Option-cases, inl, inr, arith, eq_iff, ◌∙◌,
}
use illusiontion.Prelude.Sets.{
  set_of, Subset, is_unique, is_unique-set_of, elem-set_of, length-le_of_subset, remove_head,
}
use illusiontion.Dependencies.Graph.{
  DependencyNode, Marks, node_ids, visit, visit_each, walk, upstream_of, entered, left, unmarked,
}

module _ (nodes : List DependencyNode) where
  -- A visit that returns leaves `visiting` as it found it.
  abbrev Closes : (String → Marks → Option Marks) → Type 0
  Closes visit_one =
      (id : String) (m m' : Marks) → visit_one id m ≡ some m' → m'.visiting ≡ m.visiting

  visit_each-Closes :
      (visit_one : String → Marks → Option Marks)
      → Closes visit_one
      → (us : List String) (m m' : Marks) → visit_each nodes visit_one us m ≡ some m'
      → m'.visiting ≡ m.visiting
  unfolding visit_each
  visit_each-Closes visit_one closes [] m m' e = ground arith
  visit_each-Closes visit_one closes (u ∷ us) m m' e = elim (Bool-cases (elem u (node_ids nodes))) [
    | inl known ↦ elim (Option-cases (visit_one u m)) [
      | inl out ↦ ground (arith, known, out, e)
      | inr (next, one) ↦
          visit_each-Closes visit_one closes us next m' (ground (arith, known, one, e))
          ∙ closes u m next one
    ]
    | inr unknown ↦ visit_each-Closes visit_one closes us m m' (ground (arith, unknown, e))
  ]

  pub visit-Closes :
      (fuel : ℕ) (id : String) (m m' : Marks)
      → visit nodes fuel id m ≡ some m'
      → m'.visiting ≡ m.visiting
  unfolding visit
  visit-Closes zero id m m' e = cc
  visit-Closes (suc fuel) id m m' e = elim (Bool-cases (elem id m.visited)) [
    | inl visited ↦ ground (arith, visited, e)
    | inr fresh ↦ elim (Bool-cases (elem id m.visiting)) [
      | inl busy ↦ ground (arith, fresh, busy, e)
      | inr shut ↦
          elim (Option-cases
            (visit_each nodes (visit nodes fuel) (upstream_of nodes id) (entered id m))) [
              | inl out ↦ ground (arith, fresh, shut, out, e)
              | inr (after, each) ↦
                  let kept : after.visiting ≡ id ∷ m.visiting =
                    visit_each-Closes (visit nodes fuel) (visit-Closes fuel) (upstream_of nodes id)
                      (entered id m) after each in
                  ground (arith, fresh, shut, each, e, kept, remove_head id m.visiting shut)
            ]
    ]
  ]

  -- The names being visited are different names of nodes.
  abbrev IsStack : List String → Type 0
  IsStack visiting = (is_unique visiting ≡ true) × Subset visiting (node_ids nodes)

  length-set_of : (xs : List String) → length (set_of xs) ≤ length xs
  length-set_of [] = omega arith
  length-set_of (x ∷ xs) = ground (arith, length-set_of xs)

  length-node_ids : (ns : List DependencyNode) → length (node_ids ns) ≡ length ns
  length-node_ids [] = refl
  length-node_ids (n ∷ ns) = ap suc (length-node_ids ns)

  stack-le : (visiting : List String) → IsStack visiting → length visiting ≤ length nodes
  stack-le visiting h = omega (
    arith,
    length-le_of_subset visiting (set_of (node_ids nodes)) h.0 (is_unique-set_of (node_ids nodes))
        (λ y e. elem-set_of y (node_ids nodes) ∙ h.1 y e),
    length-set_of (node_ids nodes),
    length-node_ids nodes,
  )

  pub push-IsStack :
      (id : String) (visiting : List String)
      → IsStack visiting
      → elem id (node_ids nodes) ≡ true
      → elem id visiting ≡ false
      → IsStack (id ∷ visiting)
  push-IsStack id visiting h known shut =
      (ground (arith, shut, h.0), λ y e. ground (arith, e, eq_iff y id, known, h.1 y, moved y))
    where
      moved : (y : String) → y ≡ id → elem y (node_ids nodes) ≡ true
      moved y e = rw e known

  visit_each-returns :
      (visit_one : String → Marks → Option Marks)
      → Closes visit_one
      → (visiting : List String)
      → ((u : String) (m : Marks)
          → elem u (node_ids nodes) ≡ true
          → m.visiting ≡ visiting
          → (m' : Marks) × (visit_one u m ≡ some m'))
      → (us : List String) (m : Marks) → m.visiting ≡ visiting
      → (m' : Marks) × (visit_each nodes visit_one us m ≡ some m')
  unfolding visit_each
  visit_each-returns visit_one closes visiting returns [] m e = (m, refl)
  visit_each-returns visit_one closes visiting returns (u ∷ us) m e =
      elim (Bool-cases (elem u (node_ids nodes))) [
        | inr unknown ↦
            let (m', rest) = visit_each-returns visit_one closes visiting returns us m e in
            (m', ground (arith, unknown, rest))
        | inl known ↦
            let (next, one) = returns u m known e in
            let (m', rest) =
              visit_each-returns visit_one closes visiting returns us next
                (closes u m next one ∙ e) in
            (m', ground (arith, known, one, rest))
      ]

  pub visit_returns :
      (fuel : ℕ) (id : String) (m : Marks)
      → elem id (node_ids nodes) ≡ true
      → IsStack m.visiting
      → length nodes < length m.visiting + fuel
      → (m' : Marks) × (visit nodes fuel id m ≡ some m')
  unfolding visit
  visit_returns zero id m known stack enough =
      absurd (omega (arith, enough, stack-le m.visiting stack))
  visit_returns (suc fuel) id m known stack enough = elim (Bool-cases (elem id m.visited)) [
    | inl visited ↦ (m, ground (arith, visited))
    | inr fresh ↦ elim (Bool-cases (elem id m.visiting)) [
      | inl busy ↦ (record m { cycle = true }, ground (arith, fresh, busy))
      | inr shut ↦
          let pushed = push-IsStack id m.visiting stack known shut in
          let (after, each) =
            visit_each-returns (visit nodes fuel) (visit-Closes fuel) (id ∷ m.visiting)
              (λ u m1 known1 e.
                visit_returns fuel u m1 known1 (subst-stack (id ∷ m.visiting) m1.visiting e pushed)
                  (omega (arith, enough, ap length e)))
              (upstream_of nodes id) (entered id m) refl in
          (left id after, ground (arith, fresh, shut, each))
    ]
  ]
    where
      subst-stack : (xs ys : List String) → ys ≡ xs → IsStack xs → IsStack ys
      subst-stack xs ys e h = rw e h

-- The walk from an output that is a node ends: its recursion is at most one deeper than the number
-- of nodes, whatever cycles the graph has.
pub walk_returns :
    (nodes : List DependencyNode) (output : String)
    → elem output (node_ids nodes) ≡ true
    → (m : Marks) × (walk nodes output ≡ some m)
unfolding walk
walk_returns nodes output known =
    visit_returns nodes (suc (length nodes)) output unmarked known (refl, λ y e. cc) (omega arith)
