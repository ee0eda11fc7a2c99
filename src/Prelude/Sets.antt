-- ===== src/Prelude/Sets.antt =====
-- Sets of texts as lists without repetition: `set.add`, `set(values)`, `set.remove` and differences.
use Prim.Native.Nat.{suc, ◌≤◌}
use Prim.Native.String.{String}
use mathlib.Core.Path.{◌≡◌, refl, sym, ap, subst}
use mathlib.Core.Logic.{inl, inr}
use mathlib.Core.Bool.{Bool, true, false, not, ◌&&◌, ◌||◌}
use mathlib.Core.List.{List, [], ◌∷◌, ◌++◌}
use native.Mathlib.Omega.{arith}
use text.Mathlib.TextEquality.{eq_iff}
use text.Mathlib.TextPositions.{eq_refl}
use illusiontion.Prelude.Tests.{same, if◌then◌else◌, Bool-cases}
use illusiontion.Prelude.Lists.{length, filter}
use illusiontion.Prelude.Text.{elem}

-- `values.add(value)`
abbrev pub add : String → List String → List String
add x xs = if elem x xs then xs else x ∷ xs

-- `set(values)`
abbrev pub set_of : List String → List String
set_of [] = []
set_of (x ∷ xs) = add x (set_of xs)

-- `values.update(more)`
abbrev pub union : List String → List String → List String
union [] ys = ys
union (x ∷ xs) ys = add x (union xs ys)

-- `values.remove(value)`
abbrev pub remove : String → List String → List String
remove x xs = filter (λ y. not (same y x)) xs

-- `set(values) - set(known)`, up to the order and repetitions
abbrev pub difference : List String → List String → List String
difference xs known = filter (λ y. not (elem y known)) xs

-- `len(values) == len(set(values))`
abbrev pub is_unique : List String → Bool
is_unique [] = true
is_unique (x ∷ xs) = not (elem x xs) && is_unique xs

pub is_unique-add :
    (x : String) (xs : List String) → is_unique xs ≡ true → is_unique (add x xs) ≡ true
is_unique-add x xs h = ground arith

pub is_unique-set_of : (xs : List String) → is_unique (set_of xs) ≡ true
is_unique-set_of [] = refl
is_unique-set_of (x ∷ xs) = is_unique-add x (set_of xs) (is_unique-set_of xs)

pub elem-add : (y x : String) (xs : List String) → elem y (add x xs) ≡ (same y x || elem y xs)
elem-add y x xs = elim (Bool-cases (elem x xs)) [
  | inl old ↦ ground (arith, eq_iff y x, elem-same y x xs)
  | inr new ↦ rw new refl
]
  where
    elem-same : (y x : String) (xs : List String) → y ≡ x → elem x xs ≡ elem y xs
    elem-same y x xs e = rw e refl

pub elem-add_self : (x : String) (xs : List String) → elem x (add x xs) ≡ true
elem-add_self x xs = ground (arith, elem-add x x xs, eq_refl x)

pub elem-add_old : (y x : String) (xs : List String) → elem y xs ≡ true → elem y (add x xs) ≡ true
elem-add_old y x xs h = ground (arith, elem-add y x xs)

pub elem-set_of : (y : String) (xs : List String) → elem y (set_of xs) ≡ elem y xs
elem-set_of y [] = refl
elem-set_of y (x ∷ xs) = ground (arith, elem-add y x (set_of xs), elem-set_of y xs)

pub elem-union :
    (y : String) (xs ys : List String) → elem y (union xs ys) ≡ (elem y xs || elem y ys)
elem-union y [] ys = refl
elem-union y (x ∷ xs) ys = ground (arith, elem-add y x (union xs ys), elem-union y xs ys)

pub elem-append : (y : String) (xs ys : List String) → elem y (xs ++ ys) ≡ (elem y xs || elem y ys)
elem-append y [] ys = refl
elem-append y (x ∷ xs) ys = ground (arith, elem-append y xs ys)

pub remove_absent : (x : String) (xs : List String) → elem x xs ≡ false → remove x xs ≡ xs
remove_absent x [] h = refl
remove_absent x (y ∷ ys) h = ground (arith, remove_absent x ys, eq_iff x y, eq_iff y x)

pub remove_head : (x : String) (xs : List String) → elem x xs ≡ false → remove x (x ∷ xs) ≡ xs
remove_head x xs h = ground (arith, remove_absent x xs h, eq_refl x)

pub elem-remove :
    (y x : String) (xs : List String) → elem y (remove x xs) ≡ (elem y xs && not (same y x))
elem-remove y x [] = refl
elem-remove y x (z ∷ zs) = ground (arith, elem-remove y x zs, eq_iff y z, eq_iff z x, eq_iff y x)

-- Every element of the first list is in the second.
abbrev pub Subset : List String → List String → Type 0
Subset xs ys = (y : String) → elem y xs ≡ true → elem y ys ≡ true

-- What a set of texts has, counted in a list that repeats nothing: removing one takes off one.
length-remove :
    (x : String) (ys : List String)
    → is_unique ys ≡ true
    → elem x ys ≡ true
    → suc (length (remove x ys)) ≡ length ys
length-remove x [] u h = cc
length-remove x (y ∷ ys) u h =
    ground
      (arith, length-remove x ys, eq_iff y x, eq_iff x y, remove_absent y ys, remove_absent x ys)

is_unique-remove :
    (x : String) (ys : List String) → is_unique ys ≡ true → is_unique (remove x ys) ≡ true
is_unique-remove x [] u = refl
is_unique-remove x (y ∷ ys) u = ground (arith, is_unique-remove x ys, elem-remove y x ys)

-- A list without repetition is no longer than one that has all its elements.
pub length-le_of_subset :
    (xs ys : List String)
    → is_unique xs ≡ true
    → is_unique ys ≡ true
    → Subset xs ys
    → length xs ≤ length ys
length-le_of_subset [] ys ux uy sub = omega arith
length-le_of_subset (x ∷ xs) ys ux uy sub =
    let x_in : elem x ys ≡ true = sub x (ground (arith, eq_refl x)) in
    let rest : length xs ≤ length (remove x ys) =
      length-le_of_subset xs (remove x ys) (ground arith) (is_unique-remove x ys uy)
        (λ y h. ground (arith, elem-remove y x ys, sub y, eq_iff y x, h, ux, elem_same y x xs)) in
    omega (arith, rest, length-remove x ys uy x_in)
  where
    elem_same : (y x : String) (xs : List String) → y ≡ x → elem x xs ≡ elem y xs
    elem_same y x xs e = rw e refl

-- If it is as long, it has all of them.
pub elem_of_length :
    (xs ys : List String)
    → is_unique xs ≡ true
    → is_unique ys ≡ true
    → Subset xs ys
    → length xs ≡ length ys
    → Subset ys xs
elem_of_length xs ys ux uy sub same_length y h = elim (Bool-cases (elem y xs)) [
  | inl found ↦ found
  | inr missing ↦
      let longer : suc (length xs) ≤ length ys =
        length-le_of_subset (y ∷ xs) ys (rw missing ux) uy
          (λ z m. ground (arith, m, sub z, eq_iff z y, h)) in
      absurd (omega (arith, longer))
]

pub difference-eq-nil : (xs known : List String) → difference xs known ≡ [] → Subset xs known
difference-eq-nil [] known e y h = cc
difference-eq-nil (x ∷ xs) known e y h = elim (Bool-cases (elem x known)) [
  | inr missing ↦ absurd (ground (arith, missing, e))
  | inl there ↦ elim (Bool-cases (same y x)) [
    | inl match ↦ subst (λ z. elem z known ≡ true) (sym ((eq_iff y x).0 match)) there
    | inr other ↦ difference-eq-nil xs known (ground (arith, there, e)) y (ground (arith, other, h))
  ]
]

pub elem-filter :
    (p : String → Bool) (y : String) (xs : List String) → elem y (filter p xs) ≡ (elem y xs && p y)
elem-filter p y [] = refl
elem-filter p y (x ∷ xs) = elim (Bool-cases (same y x)) [
  | inl match ↦
      let here : p y ≡ p x = ap p ((eq_iff y x).0 match) in
      ground (arith, elem-filter p y xs, here, match)
  | inr other ↦ ground (arith, elem-filter p y xs, other)
]
