-- ===== src/Dependencies/Graph.antt =====
-- The dependency graph of a manifest: `DependencyNode` and `_graph_errors` of
-- app/dependency_registry.py, whose copy in app/registry_observation.py differs in its labels and
-- in the roles that count as a process.
pub mod Walk
pub mod Marked
pub mod Visits
pub mod Acyclic
use illusiontion.Prelude.{
  ℕ, zero, suc, String, Bool, true, false, not, ◌&&◌, ◌||◌, Option, none, some, List, [], ◌∷◌, ◌++◌,
  map, ◌<>◌, same, ◌==◌, elem, any, length, failures, sorted_set, if◌then◌else◌,
}
use illusiontion.Prelude.Dicts.{find_by}
use illusiontion.Prelude.Sets.{add, set_of, remove, difference}

pub data DependencyRole : Type 0 where
  origin transform calibration model instrument execution other : DependencyRole

pub record DependencyNode : Type 0 where
  pub node_id : String
  pub role : DependencyRole
  pub fingerprint_sha256 : String
  pub description : String
  pub upstream_node_ids : List String

abbrev pub node_ids : List DependencyNode → List String
node_ids nodes = map (λ n. n.node_id) nodes

-- The upstream names that the walk follows from a node.
unfoldable pub upstream_of : List DependencyNode → String → List String
upstream_of nodes id = elim (find_by (λ n. n.node_id) id nodes) [
  | none ↦ []
  | some node ↦ node.upstream_node_ids
]

-- The sets that `visit` keeps; `cycle` tells that it reported one.
pub record Marks : Type 0 where
  pub visiting : List String
  pub visited : List String
  pub cycle : Bool

abbrev entered : String → Marks → Marks
entered id m = record m { visiting = id ∷ m.visiting }

abbrev left : String → Marks → Marks
left id m = record m { visiting = remove id m.visiting; visited = add id m.visited }

-- The loop of `visit` over the upstream names, for the visit of one name.
unfoldable pub visit_each :
    List DependencyNode → (String → Marks → Option Marks) → List String → Marks → Option Marks
visit_each nodes visit_one [] m = some m
visit_each nodes visit_one (u ∷ us) m = elim (elem u (node_ids nodes)) [
  | false ↦ visit_each nodes visit_one us m
  | true ↦ elim (visit_one u m) [ none ↦ none | some next ↦ visit_each nodes visit_one us next ]
]

-- `visit`; the fuel bounds the depth of the recursion, and `none` means that it ran out.
unfoldable pub visit : List DependencyNode → ℕ → String → Marks → Option Marks
unfolding visit_each upstream_of
visit nodes zero id m = none
visit nodes (suc fuel) id m = elim (elem id m.visited) [
  | true ↦ some m
  | false ↦ elim (elem id m.visiting) [
    | true ↦ some (record m { cycle = true })
    | false ↦ elim (visit_each nodes (visit nodes fuel) (upstream_of nodes id) (entered id m)) [
      | none ↦ none
      | some after ↦ some (left id after)
    ]
  ]
]

abbrev pub unmarked : Marks
unmarked = record { visiting = []; visited = []; cycle = false }

-- The walk from the output, on fuel that the number of nodes gives.
unfoldable pub walk : List DependencyNode → String → Option Marks
unfolding visit
walk nodes output = visit nodes (suc (length nodes)) output unmarked

-- What the two copies of the check differ in.
pub record GraphPolicy : Type 0 where
  pub label : String
  pub is_process : DependencyRole → Bool

abbrev pub is_origin : DependencyRole → Bool
is_origin r = elim r [ origin ↦ true | _ ↦ false ]

-- `if unknown: errors.append(...)` for each node.
unfoldable pub unknown_upstream : GraphPolicy → List String → List DependencyNode → List String
unknown_upstream policy ids [] = []
unknown_upstream policy ids (n ∷ ns) =
    let rest = unknown_upstream policy ids ns in
    elim (difference n.upstream_node_ids ids) [
      | [] ↦ rest
      | _ ∷ _ ↦ (policy.label <> "-unknown-upstream:" <> n.node_id) ∷ rest
    ]

abbrev pub walk_checks : GraphPolicy → List DependencyNode → Marks → List (Bool × String)
walk_checks policy nodes m =
    (not m.cycle, policy.label <> "-cycle")
    ∷ (length m.visited == length (set_of (node_ids nodes)), policy.label <> "-disconnected-node")
    ∷ []

abbrev pub role_checks : GraphPolicy → List DependencyNode → List (Bool × String)
role_checks policy nodes =
    (any (λ n. is_origin n.role) nodes, policy.label <> "-origin-missing")
    ∷ (any (λ n. policy.is_process n.role) nodes, policy.label <> "-process-missing")
    ∷ []

-- The report on the sets that the walk leaves. A walk without a result is no case of the code: it
-- stands for fuel that ran out.
unfoldable pub walk_errors : GraphPolicy → List DependencyNode → Option Marks → List String
walk_errors policy nodes none = (policy.label <> "-recursion") ∷ []
walk_errors policy nodes (some m) = failures (walk_checks policy nodes m)

unfoldable pub graph_errors : GraphPolicy → (output : String) → List DependencyNode → List String
unfolding walk walk_errors unknown_upstream
graph_errors policy output nodes =
    if not (elem output (node_ids nodes))
    then (policy.label <> "-output-missing") ∷ []
    else sorted_set (
        unknown_upstream policy (node_ids nodes) nodes
        ++ (walk_errors policy nodes (walk nodes output) ++ failures (role_checks policy nodes)))

-- The policy of measurement manifests.
abbrev pub measurement_policy : GraphPolicy
measurement_policy = record {
  label = "ancestry";
  is_process = λ r. elim r [
    | transform ↦ true
    | execution ↦ true
    | instrument ↦ true
    | model ↦ true
    | _ ↦ false
  ];
}

-- The policy of registry manifests, where `OTHER` is a process too.
abbrev pub registry_policy : GraphPolicy
registry_policy = record {
  label = "registry-ancestry";
  is_process = λ r. elim r [
    | transform ↦ true
    | execution ↦ true
    | instrument ↦ true
    | model ↦ true
    | other ↦ true
    | _ ↦ false
  ];
}
