-- ===== src/Common/Lists.antt =====
-- Lists measured by native numbers, and association lists under the library's names.
use Prim.Native.Nat.{ℕ, zero, suc, ◌+◌, ◌≤◌, ◌<◌}
use mathlib.Core.Path.{◌≡◌, refl}
use mathlib.Core.Logic.{◌≢◌}
use mathlib.Core.Bool.{Bool}
use mathlib.Core.Option.{Option, none, some}
use mathlib.Core.List.{List, [], ◌∷◌, ◌++◌}
use native.Mathlib.Omega.{arith}
use knot_service_source.Common.Tests.{◌==◌, if◌then◌else◌}

module _ {ℓ} {A : Type ℓ} where
  abbrev pub length : List A → ℕ
  length [] = 0
  length (x ∷ xs) = suc (length xs)

  abbrev pub take : ℕ → List A → List A
  take zero xs = []
  take (suc n) [] = []
  take (suc n) (x ∷ xs) = x ∷ take n xs

  pub length-append : (xs ys : List A) → length (xs ++ ys) ≡ length xs + length ys
  length-append [] ys = omega arith
  length-append (x ∷ xs) ys = omega (arith, length-append xs ys)

  pub length-take : (n : ℕ) (xs : List A) → length (take n xs) ≤ n
  length-take zero xs = omega arith
  length-take (suc n) [] = omega arith
  length-take (suc n) (x ∷ xs) = omega (arith, length-take n xs)

  -- `l_queue_find`: the first entry that the match function accepts.
  abbrev pub find? : (A → Bool) → List A → Option A
  find? test [] = none
  find? test (x ∷ xs) = if test x then some x else find? test xs

  -- The entries that a test keeps.
  abbrev pub keep : (A → Bool) → List A → List A
  keep test [] = []
  keep test (x ∷ xs) = if test x then x ∷ keep test xs else keep test xs

  -- A predicate on every entry.
  abbrev pub All {κ} : (A → Type κ) → List A → Type κ
  All P [] = Unit
  All P (x ∷ xs) = P x × All P xs

-- The characters before the first NUL.
unfoldable pub c_string : List ℕ → List ℕ
c_string [] = []
c_string (c ∷ rest) = let others = c_string rest in if c == 0 then [] else c ∷ others

-- How often a number stands in a list.
abbrev pub occurs : ℕ → List ℕ → ℕ
occurs a [] = 0
occurs a (x ∷ xs) = (if x == a then 1 else 0) + occurs a xs

-- `l_queue_remove`: the first entry of the list that is the given one.
abbrev pub without : ℕ → List ℕ → List ℕ
without a [] = []
without a (x ∷ xs) = if x == a then xs else x ∷ without a xs

pub occurs-without :
    (a b : ℕ) (l : List ℕ)
    → occurs a l ≤ 1
    → occurs b (without a l) ≡ (if a == b then 0 else occurs b l)
occurs-without a b [] h = ground arith
occurs-without a b (x ∷ xs) h = ground (arith, occurs-without a b xs)

module _ {V : Type 0} where
  abbrev pub lookup : ℕ → List (ℕ × V) → Option V
  lookup k [] = none
  lookup k ((j, v) ∷ m) = if k == j then some v else lookup k m

  -- Takes the first entry of the key out, as `l_hashmap_remove` does.
  abbrev pub erase : ℕ → List (ℕ × V) → List (ℕ × V)
  erase k [] = []
  erase k (e ∷ m) = if k == e.0 then m else e ∷ erase k m

  -- How many entries point to `a`.
  abbrev pub count_by : (V → ℕ) → ℕ → List (ℕ × V) → ℕ
  count_by f a [] = 0
  count_by f a (e ∷ m) = (if f e.1 == a then 1 else 0) + count_by f a m

  -- No key is listed twice.
  abbrev pub IsDistinct : List (ℕ × V) → Type 0
  IsDistinct [] = Unit
  IsDistinct (e ∷ m) = (lookup e.0 m ≡ none) × IsDistinct m

  pub lookup-erase_ne : (j k : ℕ) (m : List (ℕ × V)) → j ≢ k → lookup j (erase k m) ≡ lookup j m
  lookup-erase_ne j k [] h = refl
  lookup-erase_ne j k (e ∷ m) h = ground (arith, lookup-erase_ne j k m h)

  pub lookup-erase_self : (k : ℕ) (m : List (ℕ × V)) → IsDistinct m → lookup k (erase k m) ≡ none
  lookup-erase_self k [] d = refl
  lookup-erase_self k (e ∷ m) d = ground (arith, lookup-erase_self k m d.1)

  pub erase-IsDistinct : (k : ℕ) (m : List (ℕ × V)) → IsDistinct m → IsDistinct (erase k m)
  erase-IsDistinct k [] d = tt
  erase-IsDistinct k (e ∷ m) d = ground (arith, erase-IsDistinct k m d.1, lookup-erase_ne e.0 k m)

  pub erase_missing : (k : ℕ) (m : List (ℕ × V)) → lookup k m ≡ none → erase k m ≡ m
  erase_missing k [] h = refl
  erase_missing k (e ∷ m) h = ground (arith, erase_missing k m)

  -- Erasing an entry takes one pointer to its target away.
  pub count_by-erase :
      (f : V → ℕ) (a k : ℕ) (v : V) (m : List (ℕ × V))
      → lookup k m ≡ some v
      → count_by f a m ≡ (if f v == a then 1 else 0) + count_by f a (erase k m)
  count_by-erase f a k v [] h = ground arith
  count_by-erase f a k v (e ∷ m) h = ground (arith, count_by-erase f a k v m)

  -- An entry that is found points to its target.
  pub count_by_pos :
      (f : V → ℕ) (k : ℕ) (v : V) (m : List (ℕ × V)) → lookup k m ≡ some v → 0 < count_by f (f v) m
  count_by_pos f k v [] h = ground arith
  count_by_pos f k v (e ∷ m) h = ground (arith, count_by_pos f k v m)
