-- ===== src/Dependencies/Graph/Acyclic.antt =====
-- What the report of `graph_errors` says: an error-free graph is well founded and connected.
use mathlib.Core.WellFounded.{Acc}
use illusiontion.Prelude.{
  suc, String, Bool, true, false, ◌||◌, Option, none, some, List, [], ◌∷◌, ◌≡◌, refl, sym, ◌∙◌,
  elem, any, length, Bool-cases, Option-cases, inl, inr, arith, eq_iff, same, subst,
  failures-eq-nil, sorted_set-eq-nil, append-eq-nil, ==→eq,
}
use illusiontion.Prelude.Dicts.{find_by}
use illusiontion.Prelude.Sets.{
  Subset, set_of, is_unique-set_of, elem-set_of, elem_of_length, difference, difference-eq-nil,
}
use illusiontion.Dependencies.Graph.{
  DependencyNode, GraphPolicy, Marks, node_ids, walk, upstream_of, unmarked, graph_errors,
  walk_errors, is_origin, walk_checks, role_checks, unknown_upstream,
}
use illusiontion.Dependencies.Graph.Marked.{Upstream, Feeds, IsOrdered, IsMarked}
use illusiontion.Dependencies.Graph.Visits.{visit-Visit}

unknown_upstream-cons :
    (policy : GraphPolicy) (ids : List String) (n : DependencyNode) (ns : List DependencyNode)
    → unknown_upstream policy ids (n ∷ ns) ≡ []
    → (difference n.upstream_node_ids ids ≡ []) × (unknown_upstream policy ids ns ≡ [])
unfolding unknown_upstream
unknown_upstream-cons policy ids n ns e = ground arith

unknown_upstream-closed :
    (policy : GraphPolicy) (ids : List String) (ns : List DependencyNode)
    → unknown_upstream policy ids ns ≡ []
    → (id u : String) → elem u (upstream_of ns id) ≡ true
    → elem u ids ≡ true
unfolding unknown_upstream upstream_of
unknown_upstream-closed policy ids [] e id u h = cc
unknown_upstream-closed policy ids (n ∷ ns) e id u h =
    let (here, rest) = unknown_upstream-cons policy ids n ns e in
    elim (Option-cases (find_by (λ n. n.node_id) id ns)) [
      | inr (later, found) ↦
          unknown_upstream-closed policy ids ns rest id u (ground (arith, found, h))
      | inl missing ↦ difference-eq-nil n.upstream_node_ids ids here u (ground (arith, missing, h))
    ]

module _ (nodes : List DependencyNode) (output : String) where
  -- What follows an ordered list rests on finitely many dependencies.
  ordered-Acc :
      (visited : List String)
      → IsOrdered nodes output visited
      → Subset visited (node_ids nodes)
      → (y : String) → elem y visited ≡ true
      → Acc (Upstream nodes) y
  ordered-Acc [] ordered known y h = cc
  ordered-Acc (id ∷ rest) ordered known y h = elim (Bool-cases (same y id)) [
    | inl e ↦ subst (Acc (Upstream nodes)) (sym ((eq_iff y id).0 e)) (
        Acc.intro id (λ u below.
          ordered-Acc rest ordered.1 (λ z k. known z (or_tail (same z id) (elem z rest) k)) u
            (ordered.0 u below)))
    | inr e ↦
        ordered-Acc rest ordered.1 (λ z k. known z (or_tail (same z id) (elem z rest) k)) y
          (ground (arith, e, h))
  ]
    where
      or_tail : (a b : Bool) → b ≡ true → (a || b) ≡ true
      or_tail true b h = refl
      or_tail false b h = h

  unmarked-IsMarked : IsMarked nodes output unmarked
  unmarked-IsMarked = record {
    unique = refl;
    known = λ y h. cc;
    feeds = λ y h. cc;
    ordered = inr tt;
  }

  walk-IsMarked :
      (m : Marks)
      → elem output (node_ids nodes) ≡ true
      → walk nodes output ≡ some m
      → IsMarked nodes output m
  unfolding walk
  walk-IsMarked m known e =
      (visit-Visit nodes output (suc (length nodes)) output unmarked m Feeds.itself known
        unmarked-IsMarked e).marked

  walk-length :
      (m : Marks)
      → IsMarked nodes output m
      → length m.visited ≡ length (set_of (node_ids nodes))
      → Subset (node_ids nodes) m.visited
  walk-length m marked e y h =
      elem_of_length m.visited (set_of (node_ids nodes)) marked.unique
        (is_unique-set_of (node_ids nodes))
        (λ z k. elem-set_of z (node_ids nodes) ∙ marked.known z k) e y
        (elem-set_of y (node_ids nodes) ∙ h)

  -- An error-free walk marked every node, in an order of the dependencies.
  walk_errors-eq-nil :
      (policy : GraphPolicy) (r : Option Marks)
      → walk_errors policy nodes r ≡ []
      → (m : Marks) × (r ≡ some m)
        × (m.cycle ≡ false)
        × (length m.visited ≡ length (set_of (node_ids nodes)))
  unfolding walk_errors
  walk_errors-eq-nil policy none e = cc
  walk_errors-eq-nil policy (some m) e =
      let passed = failures-eq-nil (walk_checks policy nodes m) e in
      (m, refl, ground (arith, passed), ==→eq _ _ passed.1.0)

  -- What an error-free graph is: its output is a node, every name upstream is a node, every node
  -- feeds the output, and no chain of dependencies goes on for ever.
  pub record IsSoundGraph (policy : GraphPolicy) : Type 0 where
    pub has_output : elem output (node_ids nodes) ≡ true
    pub closed :
        (id u : String) → elem u (upstream_of nodes id) ≡ true → elem u (node_ids nodes) ≡ true
    pub connected : (id : String) → elem id (node_ids nodes) ≡ true → Feeds nodes output id
    pub founded : (id : String) → elem id (node_ids nodes) ≡ true → Acc (Upstream nodes) id
    pub has_origin : any (λ n. is_origin n.role) nodes ≡ true
    pub has_process : any (λ n. policy.is_process n.role) nodes ≡ true

  marked-founded :
      (m : Marks)
      → IsMarked nodes output m
      → m.cycle ≡ false
      → Subset (node_ids nodes) m.visited
      → (id : String) → elem id (node_ids nodes) ≡ true
      → Acc (Upstream nodes) id
  marked-founded m marked straight all_visited id h = elim marked.ordered [
    | inl looped ↦ absurd (ground (arith, looped, straight))
    | inr ordered ↦ ordered-Acc m.visited ordered marked.known id (all_visited id h)
  ]

  -- A graph on which `_graph_errors` reports nothing is sound: its output is a node, every name
  -- upstream of a node is a node, every node feeds the output, no chain of dependencies goes on for
  -- ever, so that there is no cycle, and among the nodes are an origin and a process.
  pub graph_errors-IsSoundGraph :
      (policy : GraphPolicy) → graph_errors policy output nodes ≡ [] → IsSoundGraph policy
  unfolding graph_errors
  graph_errors-IsSoundGraph policy e = elim (Bool-cases (elem output (node_ids nodes))) [
    | inr missing ↦ absurd (ground (arith, missing, e))
    | inl known ↦
        let reports = append-eq-nil _ _ (sorted_set-eq-nil _ (rw known at e)) in
        let later = append-eq-nil _ _ reports.1 in
        let (m, walked, straight, full) = walk_errors-eq-nil policy (walk nodes output) later.0 in
        let roles = failures-eq-nil (role_checks policy nodes) later.1 in
        let marked = walk-IsMarked m known walked in
        let all_visited = walk-length m marked full in
        record {
          has_output = known;
          closed = unknown_upstream-closed policy (node_ids nodes) nodes reports.0;
          connected = λ id h. marked.feeds id (all_visited id h);
          founded = marked-founded m marked straight all_visited;
          has_origin = roles.0;
          has_process = roles.1.0;
        }
  ]
