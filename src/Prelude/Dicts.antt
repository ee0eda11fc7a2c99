-- ===== src/Prelude/Dicts.antt =====
-- Dictionaries that a comprehension builds from a list: `{key(x): x for x in xs}`.
use Prim.Native.String.{String, ◌++◌ as append}
use mathlib.Core.Bool.{Bool, ◌&&◌}
use mathlib.Core.Option.{Option, none, some}
use mathlib.Core.List.{List, [], ◌∷◌, ◌++◌}
use illusiontion.Prelude.Tests.{same, if◌then◌else◌}
use illusiontion.Prelude.Lists.{all}
use illusiontion.Prelude.Text.{elem}

module _ {ℓ} {A : Type ℓ} (key : A → String) where
  -- `.get(id)`: the last item of a key.
  abbrev pub find_by : String → List A → Option A
  find_by id [] = none
  find_by id (x ∷ xs) = elim (find_by id xs) [
    | some later ↦ some later
    | none ↦ if same (key x) id then some x else none
  ]

-- `set(xs) == set(ys)`
abbrev pub same_set : List String → List String → Bool
same_set xs ys = all (λ x. elem x ys) xs && all (λ y. elem y xs) ys

-- `[item for id in ids for item in f(id)]`
abbrev pub gather {ℓ} : {A : Type ℓ} → (String → List A) → List String → List A
gather f [] = []
gather f (id ∷ ids) = f id ++ gather f ids

-- `", ".join(texts)`
abbrev pub join : List String → String
join [] = ""
join (x ∷ []) = x
join (x ∷ y ∷ rest) = append x (append ", " (join (y ∷ rest)))
