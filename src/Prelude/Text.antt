-- ===== src/Prelude/Text.antt =====
-- Texts: decimal numerals in messages, membership, and `sorted(set(...))` of a list of messages.
use Prim.Native.Nat.{ℕ, zero, suc, ◌+◌, ◌/◌, ◌%◌, Ordering}
use Prim.Native.String.{String, compare, ◌++◌ as append}
use Prim.Native.Char.{code}
use mathlib.Core.Path.{◌≡◌, refl}
use mathlib.Core.Logic.{◌≢◌}
use mathlib.Core.Bool.{Bool, true, false, ◌&&◌, ◌||◌}
use mathlib.Core.List.{List, [], ◌∷◌}
use illusiontion.Prelude.Tests.{ltb, leb, ◌==◌, same, if◌then◌else◌}

infixl 65 ◌<>◌
-- Concatenation of texts.
abbrev pub ◌<>◌ : String → String → String
s <> t = append s t

digit : ℕ → String
digit zero = "0"
digit (suc zero) = "1"
digit (suc (suc zero)) = "2"
digit (suc (suc (suc zero))) = "3"
digit (suc (suc (suc (suc zero)))) = "4"
digit (suc (suc (suc (suc (suc zero))))) = "5"
digit (suc (suc (suc (suc (suc (suc zero)))))) = "6"
digit (suc (suc (suc (suc (suc (suc (suc zero))))))) = "7"
digit (suc (suc (suc (suc (suc (suc (suc (suc zero)))))))) = "8"
digit _ = "9"

show_digits : ℕ → ℕ → String → String
unfolding digit
show_digits zero n acc = acc
show_digits (suc fuel) n acc =
    let rest = show_digits fuel (n / 10) (digit (n % 10) <> acc) in
    if ltb n 10 then digit n <> acc else rest

-- The decimal numeral that an f-string prints for a number.
unfoldable pub show : ℕ → String
unfolding show_digits
show n = show_digits (n + 1) n ""

show_128 : show 128 ≡ "128"
unfolding show
show_128 = refl

-- The code points that `str.strip()` takes off.
is_space : ℕ → Bool
is_space c =
    (leb 9 c && leb c 13)
    || (leb 28 c && leb c 32)
    || c == 0x85
    || c == 0xa0
    || c == 0x1680
    || (leb 0x2000 c && leb c 0x200a)
    || c == 0x2028
    || c == 0x2029
    || c == 0x202f
    || c == 0x205f
    || c == 0x3000

-- `not text.strip()`
unfoldable pub is_blank : String → Bool
unfolding is_space
is_blank String.[] = true
is_blank (String.◌∷◌ c s) = is_space (code c) && is_blank s

abbrev pub elem : String → List String → Bool
elem s [] = false
elem s (t ∷ ts) = same s t || elem s ts

insert_sorted : String → List String → List String
insert_sorted s [] = s ∷ []
insert_sorted s (t ∷ ts) = elim (compare s t) [
  | Ordering.lt ↦ s ∷ t ∷ ts
  | Ordering.eq ↦ t ∷ ts
  | Ordering.gt ↦ t ∷ insert_sorted s ts
]

-- `sorted(set(values))`: each text once, in the order of code points.
unfoldable pub sorted_set : List String → List String
unfolding insert_sorted
sorted_set [] = []
sorted_set (s ∷ ss) = insert_sorted s (sorted_set ss)

insert_text : String → List String → List String
insert_text s [] = s ∷ []
insert_text s (t ∷ ts) = elim (compare s t) [ Ordering.gt ↦ t ∷ insert_text s ts | _ ↦ s ∷ t ∷ ts ]

-- `sorted(values)`, which keeps repetitions.
unfoldable pub sorted_texts : List String → List String
unfolding insert_text
sorted_texts [] = []
sorted_texts (s ∷ ss) = insert_text s (sorted_texts ss)

insert_sorted-ne-nil : (s : String) (ts : List String) → insert_sorted s ts ≢ []
unfolding insert_sorted
insert_sorted-ne-nil s [] = λ e. cc
insert_sorted-ne-nil s (t ∷ ts) = λ e. go (compare s t) e
  where
    go :
        (o : Ordering)
        → elim o [
          | Ordering.lt ↦ s ∷ t ∷ ts
          | Ordering.eq ↦ t ∷ ts
          | Ordering.gt ↦ t ∷ insert_sorted s ts
        ]
          ≡ []
        → ⊥
    go Ordering.lt e = cc
    go Ordering.eq e = cc
    go Ordering.gt e = cc

-- A report is empty exactly if nothing was reported.
pub sorted_set-eq-nil : (ss : List String) → sorted_set ss ≡ [] → ss ≡ []
unfolding sorted_set
sorted_set-eq-nil [] e = refl
sorted_set-eq-nil (s ∷ ss) e = absurd (insert_sorted-ne-nil s (sorted_set ss) e)

pub sorted_set-nil : sorted_set [] ≡ []
unfolding sorted_set
sorted_set-nil = refl

-- The messages of the checks that fail, in their order.
abbrev pub failures : List (Bool × String) → List String
failures [] = []
failures ((passed, message) ∷ checks) =
    if passed then failures checks else message ∷ failures checks

abbrev pub AllPass : List (Bool × String) → Type 0
AllPass [] = Unit
AllPass ((passed, message) ∷ checks) = (passed ≡ true) × AllPass checks

pub failures-eq-nil : (checks : List (Bool × String)) → failures checks ≡ [] → AllPass checks
failures-eq-nil [] e = tt
failures-eq-nil ((true, message) ∷ checks) e = (refl, failures-eq-nil checks e)
failures-eq-nil ((false, message) ∷ checks) e = cc

pub failures-AllPass : (checks : List (Bool × String)) → AllPass checks → failures checks ≡ []
failures-AllPass [] h = refl
failures-AllPass ((true, message) ∷ checks) h = failures-AllPass checks h.1
failures-AllPass ((false, message) ∷ checks) h = cc
