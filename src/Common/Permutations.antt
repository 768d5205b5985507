-- ===== src/Common/Permutations.antt =====
-- Sorting and gathering only reorder. The library's permutations as data, so that they are followed.
use mathlib.Core.Bool.{Bool, not}
use mathlib.Core.List.Permᴰ
use mathlib.Core.List.{List, [], ◌∷◌, ◌++◌, Permᴰ, Memᴰ, append_assoc}
use mathlib.Core.Logic.{inl, inr}
use mathlib.Core.Path.{refl, subst, sym}
use tokenjuice_hermes.Common.Lists.{All, keep}
use tokenjuice_hermes.Common.Sorting.{insert, sort_by}
use tokenjuice_hermes.Common.Tests.{Bool-cases}

abbrev pub flatten {ℓ} : {A : Type ℓ} → List (List A) → List A
flatten [] = []
flatten (xs ∷ xss) = xs ++ flatten xss

module _ {ℓ κ} {A : Type ℓ} (P : A → Type κ) where
  pub All-Permᴰ : {xs ys : List A} → Permᴰ xs ys → All P xs → All P ys
  All-Permᴰ Permᴰ.nil ps = ps
  All-Permᴰ (Permᴰ.cons e p) ps = (subst P e ps.0, All-Permᴰ p ps.1)
  All-Permᴰ (Permᴰ.swap e f) ps = (subst P f ps.1.0, (subst P e ps.0, ps.1.1))
  All-Permᴰ (Permᴰ.trans p q) ps = All-Permᴰ q (All-Permᴰ p ps)

  -- What holds of every element holds of each.
  pub All-Memᴰ : {x : A} (xs : List A) → All P xs → Memᴰ x xs → P x
  All-Memᴰ [] ps m = elim m [ ]
  All-Memᴰ (y ∷ xs) ps (Memᴰ.head e) = subst P (sym e) ps.0
  All-Memᴰ (y ∷ xs) ps (Memᴰ.tail m) = All-Memᴰ xs ps.1 m

  pub All-of-Memᴰ : (xs : List A) → ((x : A) → Memᴰ x xs → P x) → All P xs
  All-of-Memᴰ [] h = tt
  All-of-Memᴰ (x ∷ xs) h = (h x (Memᴰ.head refl), All-of-Memᴰ xs (λ y m. h y (Memᴰ.tail m)))

module _ {ℓ} {A : Type ℓ} where
  pub Permᴰ-append :
      {xs xs' ys ys' : List A} → Permᴰ xs xs' → Permᴰ ys ys' → Permᴰ (xs ++ ys) (xs' ++ ys')
  Permᴰ-append {xs' = xs'} {ys = ys} p q =
      Permᴰ.trans (Permᴰ.append_right ys p) (Permᴰ.append_left xs' q)

  -- Two blocks change places before the rest.
  pub Permᴰ-swap_blocks : (xs ys zs : List A) → Permᴰ (xs ++ (ys ++ zs)) (ys ++ (xs ++ zs))
  Permᴰ-swap_blocks xs ys zs =
      subst (λ l. Permᴰ l (ys ++ (xs ++ zs))) (append_assoc xs ys zs)
        (subst (λ l. Permᴰ ((xs ++ ys) ++ zs) l) (append_assoc ys xs zs)
          (Permᴰ.append_right zs (Permᴰ.append_comm xs ys)))

  module _ (precedes : A → A → Bool) where
    insert-Permᴰ : (x : A) (xs : List A) → Permᴰ (insert precedes x xs) (x ∷ xs)
    unfolding insert
    insert-Permᴰ x [] = Permᴰ.refl (x ∷ [])
    insert-Permᴰ x (y ∷ ys) = elim (Bool-cases (precedes x y)) [
      | inl e ↦ rw e (Permᴰ.refl (x ∷ y ∷ ys))
      | inr e ↦ rw e (Permᴰ.trans (Permᴰ.cons refl (insert-Permᴰ x ys)) (Permᴰ.swap refl refl))
    ]

    pub sort_by-Permᴰ : (xs : List A) → Permᴰ (sort_by precedes xs) xs
    unfolding sort_by
    sort_by-Permᴰ [] = Permᴰ.nil
    sort_by-Permᴰ (x ∷ xs) =
        Permᴰ.trans (insert-Permᴰ x (sort_by precedes xs)) (Permᴰ.cons refl (sort_by-Permᴰ xs))

  pub flatten-Permᴰ : {xss yss : List (List A)} → Permᴰ xss yss → Permᴰ (flatten xss) (flatten yss)
  flatten-Permᴰ Permᴰ.nil = Permᴰ.nil
  flatten-Permᴰ (Permᴰ.cons {b = ys} {l₁ = l₁} {l₂ = l₂} e p) =
      subst (λ l. Permᴰ (l ++ flatten l₁) (ys ++ flatten l₂)) (sym e)
        (Permᴰ.append_left ys (flatten-Permᴰ p))
  flatten-Permᴰ (Permᴰ.swap {a' = xs} {b' = ys} {l = l} e f) =
      rw (e, f) (Permᴰ-swap_blocks ys xs (flatten l))
  flatten-Permᴰ (Permᴰ.trans p q) = Permᴰ.trans (flatten-Permᴰ p) (flatten-Permᴰ q)

  pub keep-Permᴰ : (p : A → Bool) (xs : List A) → Permᴰ (keep p xs ++ keep (λ x. not (p x)) xs) xs
  unfolding keep
  keep-Permᴰ p [] = Permᴰ.nil
  keep-Permᴰ p (x ∷ xs) = elim (Bool-cases (p x)) [
    | inl e ↦ rw e (Permᴰ.cons refl (keep-Permᴰ p xs))
    | inr e ↦ rw e (
        Permᴰ.trans (Permᴰ.middle x (keep p xs) (keep (λ y. not (p y)) xs))
          (Permᴰ.cons refl (keep-Permᴰ p xs)))
  ]
