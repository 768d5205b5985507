-- ===== src/Common/Sorting.antt =====
-- `sorted` and `list.sort`: a stable insertion sort by a test on keys.
use mathlib.Core.Bool.{Bool}
use mathlib.Core.List.{List, [], ◌∷◌}
use Prim.Native.Nat.{ℕ, ◌+◌, ◌≤◌}
use mathlib.Core.Logic.{inl, inr}
use mathlib.Core.Path.{◌≡◌, refl}
use native.Mathlib.Omega.{arith}
use tokenjuice_hermes.Common.Lists.{All, sum_by}
use tokenjuice_hermes.Common.Tests.{leb, if◌then◌else◌, Bool-cases}

module _ {ℓ} {A : Type ℓ} (precedes : A → A → Bool) where
  -- `precedes x y`: the key of `x` is not after that of `y`
  unfoldable pub insert : A → List A → List A
  insert x [] = x ∷ []
  insert x (y ∷ ys) = if precedes x y then x ∷ y ∷ ys else y ∷ insert x ys

  unfoldable pub sort_by : List A → List A
  unfolding insert
  sort_by [] = []
  sort_by (x ∷ xs) = insert x (sort_by xs)

-- Sorting keeps what holds of every element, and every sum.
module _ {ℓ κ} {A : Type ℓ} (precedes : A → A → Bool) (P : A → Type κ) where
  All-insert : (x : A) (xs : List A) → P x → All P xs → All P (insert precedes x xs)
  unfolding insert
  All-insert x [] p ps = (p, tt)
  All-insert x (y ∷ ys) p ps = elim (Bool-cases (precedes x y)) [
    | inl e ↦ rw e (p, ps)
    | inr e ↦ rw e (ps.0, All-insert x ys p ps.1)
  ]

  pub All-sort_by : (xs : List A) → All P xs → All P (sort_by precedes xs)
  unfolding sort_by
  All-sort_by [] ps = ps
  All-sort_by (x ∷ xs) ps = All-insert x (sort_by precedes xs) ps.0 (All-sort_by xs ps.1)

module _ {ℓ} {A : Type ℓ} (precedes : A → A → Bool) (f : A → ℕ) where
  sum_by-insert : (x : A) (xs : List A) → sum_by f (insert precedes x xs) ≡ f x + sum_by f xs
  unfolding insert sum_by
  sum_by-insert x [] = refl
  sum_by-insert x (y ∷ ys) = ground (arith, sum_by-insert x ys)

  pub sum_by-sort_by : (xs : List A) → sum_by f (sort_by precedes xs) ≡ sum_by f xs
  unfolding sort_by sum_by
  sum_by-sort_by [] = refl
  sum_by-sort_by (x ∷ xs) = omega (arith, sum_by-insert x (sort_by precedes xs), sum_by-sort_by xs)

-- A sorted list of numbers is ascending.
abbrev pub IsAscending : List ℕ → Type 0
IsAscending [] = Unit
IsAscending (n ∷ ns) = All (λ m. n ≤ m) ns × IsAscending ns

pub All-le_trans : (a b : ℕ) (ns : List ℕ) → a ≤ b → All (λ m. b ≤ m) ns → All (λ m. a ≤ m) ns
All-le_trans a b [] h ps = tt
All-le_trans a b (n ∷ ns) h ps = (omega arith, All-le_trans a b ns h ps.1)

insert-IsAscending : (n : ℕ) (ns : List ℕ) → IsAscending ns → IsAscending (insert leb n ns)
unfolding insert
insert-IsAscending n [] h = (tt, tt)
insert-IsAscending n (m ∷ ms) h = elim (Bool-cases (leb n m)) [
  | inl e ↦ rw e ((ground arith, All-le_trans n m ms (ground arith) h.0), h)
  | inr e ↦ rw e (All-insert leb (λ k. m ≤ k) n ms (ground arith) h.0, insert-IsAscending n ms h.1)
]

pub sort_by-IsAscending : (ns : List ℕ) → IsAscending (sort_by leb ns)
unfolding sort_by
sort_by-IsAscending [] = tt
sort_by-IsAscending (n ∷ ns) = insert-IsAscending n (sort_by leb ns) (sort_by-IsAscending ns)
