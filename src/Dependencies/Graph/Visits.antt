-- ===== src/Dependencies/Graph/Visits.antt =====
-- A visit of one name keeps what the walk knows of its sets.
use illusiontion.Prelude.{
  ℕ, zero, suc, String, true, List, ◌≡◌, refl, sym, elem, Bool-cases, Option-cases, inl, inr, ◌⊎◌,
  arith, eq_iff, some_injective, same, subst,
}
use illusiontion.Prelude.Sets.{Subset, add, is_unique-add, elem-add, elem-add_self, elem-add_old}
use illusiontion.Dependencies.Graph.{
  DependencyNode, Marks, node_ids, visit, visit_each, upstream_of, entered, left,
}
use illusiontion.Dependencies.Graph.Marked.{
  Upstream, Feeds, IsOrdered, IsMarked, Grows-refl, Visit, Visits, VisitEach, visit_each-VisitEach,
}

module _ (nodes : List DependencyNode) (output : String) where
  -- Closing a visit marks its name, after what it depends on.
  add-IsOrdered :
      (id : String) (visited : List String)
      → IsOrdered nodes output visited
      → ((u : String) → Upstream nodes u id → elem u visited ≡ true)
      → IsOrdered nodes output (add id visited)
  add-IsOrdered id visited ordered closed = elim (Bool-cases (elem id visited)) [
    | inl old ↦ rw old ordered
    | inr new ↦ rw new (closed, ordered)
  ]

  add-Feeds :
      (id : String) (visited : List String)
      → Feeds nodes output id
      → ((y : String) → elem y visited ≡ true → Feeds nodes output y)
      → (y : String) → elem y (add id visited) ≡ true
      → Feeds nodes output y
  add-Feeds id visited fed feeds y h = elim (Bool-cases (same y id)) [
    | inl e ↦ subst (Feeds nodes output) (sym ((eq_iff y id).0 e)) fed
    | inr e ↦ feeds y (ground (arith, elem-add y id visited, e, h))
  ]

  add_known :
      (id : String) (visited : List String)
      → elem id (node_ids nodes) ≡ true
      → Subset visited (node_ids nodes)
      → Subset (add id visited) (node_ids nodes)
  add_known id visited here known y h = elim (Bool-cases (same y id)) [
    | inl e ↦ subst (λ x. elem x (node_ids nodes) ≡ true) (sym ((eq_iff y id).0 e)) here
    | inr e ↦ known y (ground (arith, elem-add y id visited, e, h))
  ]

  left-IsMarked :
      (id : String) (after : Marks)
      → Feeds nodes output id
      → elem id (node_ids nodes) ≡ true
      → IsMarked nodes output after
      → (after.cycle ≡ true) ⊎ ((u : String) → Upstream nodes u id → elem u after.visited ≡ true)
      → IsMarked nodes output (left id after)
  left-IsMarked id after fed known marked covered = record {
    unique = is_unique-add id after.visited marked.unique;
    known = add_known id after.visited known marked.known;
    feeds = add-Feeds id after.visited fed marked.feeds;
    ordered = elim covered [
      | inl looped ↦ inl looped
      | inr closed ↦ elim marked.ordered [
        | inl looped ↦ inl looped
        | inr ordered ↦ inr (add-IsOrdered id after.visited ordered closed)
      ]
    ];
  }

  left-Visit :
      (id : String) (m after : Marks)
      → Feeds nodes output id
      → elem id (node_ids nodes) ≡ true
      → VisitEach nodes output (upstream_of nodes id) (entered id m) after
      → Visit nodes output id m (left id after)
  left-Visit id m after fed known each = record {
    marked = left-IsMarked id after fed known each.marked (elim each.covered [
      | inl looped ↦ inl looped
      | inr closed ↦ inr (λ u h. closed u h.0 h.1)
    ]);
    grows = record {
      visited = λ y h. elem-add_old y id after.visited (each.grows.visited y h);
      cycle = each.grows.cycle;
    };
    covered = inr (elem-add_self id after.visited);
  }

  looped-Visit :
      (id : String) (m : Marks)
      → IsMarked nodes output m
      → Visit nodes output id m (record m { cycle = true })
  looped-Visit id m marked = record {
    marked = record {
      unique = marked.unique;
      known = marked.known;
      feeds = marked.feeds;
      ordered = inl refl;
    };
    grows = record { visited = λ y h. h; cycle = λ h. refl };
    covered = inl refl;
  }

  pub visit-Visit : (fuel : ℕ) → Visits nodes output (visit nodes fuel)
  unfolding visit
  visit-Visit zero id m m' fed known marked e = cc
  visit-Visit (suc fuel) id m m' fed known marked e = elim (Bool-cases (elem id m.visited)) [
    | inl there ↦
        subst (Visit nodes output id m) (some_injective (ground (arith, there, e)))
          (record { marked = marked; grows = Grows-refl nodes output m; covered = inr there })
    | inr fresh ↦ elim (Bool-cases (elem id m.visiting)) [
      | inl busy ↦
          subst (Visit nodes output id m) (some_injective (ground (arith, fresh, busy, e)))
            (looped-Visit id m marked)
      | inr shut ↦
          elim (Option-cases
            (visit_each nodes (visit nodes fuel) (upstream_of nodes id) (entered id m))) [
              | inl out ↦ absurd (ground (arith, fresh, shut, out, e))
              | inr (after, each) ↦
                  subst (Visit nodes output id m)
                    (some_injective (ground (arith, fresh, shut, each, e)))
                    (left-Visit id m after fed known (
                      visit_each-VisitEach nodes output (visit nodes fuel) (visit-Visit fuel)
                        (upstream_of nodes id) (entered id m) after
                        (λ u h k. Feeds.upstream fed (h, k)) (entered_marked id m marked) each))
            ]
    ]
  ]
    where
      entered_marked :
          (id : String) (m : Marks) → IsMarked nodes output m → IsMarked nodes output (entered id m)
      entered_marked id m marked = record {
        unique = marked.unique;
        known = marked.known;
        feeds = marked.feeds;
        ordered = marked.ordered;
      }
