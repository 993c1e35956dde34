-- ===== src/Common/Sort.antt =====
-- `sort.Slice` and `sort.SliceStable` as a stable insertion sort by a `less` function. Where no two
-- elements are equal in order, every sort gives this list, whatever the order of the input.
pub mod Sorted
use mathlib.Core.Path.{◌≡◌, refl, ◌∙◌}
use mathlib.Core.Bool.{Bool, true, not, ◌||◌}
use mathlib.Core.List.{List, [], ◌∷◌, Mem, Pairwise, Permᴰ, mem-cons, mem-cons_self, not-mem-nil}
use mathlib.Core.Logic.Or
use mathlib.Core.List.Permᴰ
use native.Mathlib.Omega.{arith}
use mathlib.Core.Logic.{◌↔◌, inl, inr}
use token_control.Common.Tests.{if◌then◌else◌, Bool-cases}
use token_control.Common.Lists.{All, any}

module _ {A : Type 0} (less : A → A → Bool) where
  unfoldable pub insert : A → List A → List A
  insert x [] = x ∷ []
  insert x (y ∷ ys) = if less y x then y ∷ insert x ys else x ∷ y ∷ ys

  unfoldable pub sort : List A → List A
  unfolding insert
  sort [] = []
  sort (x ∷ xs) = insert x (sort xs)

  -- One of the two comes first.
  abbrev pub Apart : A → A → Type 0
  Apart x y = less x y ≡ not (less y x)

  Apart-prop : (x y : A) → IsProp (Apart x y)
  Apart-prop x y = hlevel

  Apart-symm : (x y : A) → Apart x y → Apart y x
  Apart-symm x y h = ground arith

  module _ (less_trans : (x y z : A) → less x y ≡ true → less y z ≡ true → less x z ≡ true) where
    insert_comm : (x y : A) (l : List A) → Apart x y → insert x (insert y l) ≡ insert y (insert x l)
    unfolding insert
    insert_comm x y [] a = ground arith
    insert_comm x y (z ∷ l) a =
        ground (arith, insert_comm x y l a, less_trans z x y, less_trans z y x)

    -- The order of the input is forgotten.
    sort_perm : {l m : List A} → Permᴰ l m → Pairwise Apart l → sort l ≡ sort m
    unfolding sort
    sort_perm Permᴰ.nil h = refl
    sort_perm (Permᴰ.cons {a = x} {l₁ = l} e p) (Pairwise.cons _ h) = cc (e, sort_perm p h)
    sort_perm (Permᴰ.swap {a = x} {b = y} {l = l} e f) (Pairwise.cons h _) =
        rw (← e, ← f) (insert_comm x y (sort l) (h y mem-cons_self))
    sort_perm (Permᴰ.trans p q) h =
        sort_perm p h
        ∙ sort_perm q (Permᴰ.pairwise (λ x y. Apart-prop x y) (λ x y. Apart-symm x y) p h)

module _ {A : Type 0} (less : A → A → Bool) (P : A → Type 0) where
  pub insert-All : (x : A) (l : List A) → All P (insert less x l) ↔ (P x × All P l)
  unfolding insert
  insert-All x [] = (λ h. h, λ h. h)
  insert-All x (y ∷ l) = elim (Bool-cases (less y x)) [
    | inl e ↦
        rw (e, insert)
          (
            λ h. let (px, pl) = (insert-All x l).0 h.1 in (px, (h.0, pl)),
            λ h. (h.1.0, (insert-All x l).1 (h.0, h.1.1)),
          )
    | inr e ↦ rw (e, insert) (λ h. h, λ h. h)
  ]

  -- Sorting keeps the elements.
  pub sort-All : (l : List A) → All P (sort less l) ↔ All P l
  unfolding sort
  sort-All [] = (λ h. h, λ h. h)
  sort-All (x ∷ l) = (
    λ h. let (px, pl) = (insert-All x (sort less l)).0 h in (px, (sort-All l).0 pl),
    λ h. (insert-All x (sort less l)).1 (h.0, (sort-All l).1 h.1),
  )

module _ {A : Type 0} where
  -- Any two elements are related, the earlier to the later one.
  abbrev pub Distinct : (A → A → Type 0) → List A → Type 0
  Distinct R [] = Unit
  Distinct R (x ∷ xs) = All (R x) xs × Distinct R xs

  All-mem :
      (P : A → Type 0)
      → ((a : A) → IsProp (P a))
      → (xs : List A) → All P xs
      → (a : A) → Mem a xs
      → P a
  All-mem P prop [] h a m = absurd (not-mem-nil m)
  All-mem P prop (x ∷ xs) h a m =
      Or.elim (prop a) (mem-cons.0 m) (λ e. rw e h.0) (λ k. All-mem P prop xs h.1 a k)

  Pairwise-of_Distinct :
      (R : A → A → Type 0)
      → ((a b : A) → IsProp (R a b))
      → (xs : List A) → Distinct R xs
      → Pairwise R xs
  Pairwise-of_Distinct R prop [] h = Pairwise.nil
  Pairwise-of_Distinct R prop (x ∷ xs) h =
      Pairwise.cons (All-mem (R x) (prop x) xs h.0) (Pairwise-of_Distinct R prop xs h.1)

  pub All-imp : (P Q : A → Type 0) → ((a : A) → P a → Q a) → (xs : List A) → All P xs → All Q xs
  All-imp P Q f [] h = tt
  All-imp P Q f (x ∷ xs) h = (f x h.0, All-imp P Q f xs h.1)

  pub Distinct-imp :
      (R S : A → A → Type 0)
      → ((a b : A) → R a b → S a b)
      → (xs : List A) → Distinct R xs
      → Distinct S xs
  Distinct-imp R S f [] h = tt
  Distinct-imp R S f (x ∷ xs) h = (All-imp (R x) (S x) (f x) xs h.0, Distinct-imp R S f xs h.1)

  -- Sorting forgets the order of the input where any two of its elements are apart.
  pub sort-perm_Distinct :
      (less : A → A → Bool)
      → ((x y z : A) → less x y ≡ true → less y z ≡ true → less x z ≡ true)
      → {l m : List A} → Permᴰ l m
      → Distinct (Apart less) l
      → sort less l ≡ sort less m
  sort-perm_Distinct less less_trans {l} p h =
      sort_perm less less_trans p (Pairwise-of_Distinct (Apart less) (Apart-prop less) l h)

module _ {A : Type 0} (less : A → A → Bool) (p : A → Bool) where
  any-insert : (x : A) (l : List A) → any p (insert less x l) ≡ (p x || any p l)
  unfolding insert
  any-insert x [] = refl
  any-insert x (y ∷ l) = ground (arith, any-insert x l)

  pub any-sort : (l : List A) → any p (sort less l) ≡ any p l
  unfolding sort
  any-sort [] = refl
  any-sort (x ∷ l) = any-insert x (sort less l) ∙ rw (any-sort l) refl
