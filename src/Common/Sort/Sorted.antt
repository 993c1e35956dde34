-- ===== src/Common/Sort/Sorted.antt =====
-- That the sort sorts: no element comes before an earlier one.
use mathlib.Core.Path.{◌≡◌}
use mathlib.Core.Bool.{true, false, Bool}
use mathlib.Core.List.{List, [], ◌∷◌}
use mathlib.Core.Logic.{inl, inr}
use token_control.Common.Tests.{Bool-cases}
use token_control.Common.Lists.{Some}
use token_control.Common.Sort.{insert, sort, insert-All, All-imp, Distinct}

module _ {A : Type 0} (less : A → A → Bool) where
  -- The first of two elements may stand before the second.
  abbrev pub Ordered : A → A → Type 0
  Ordered x y = less y x ≡ false

  module _ (asymm : (x y : A) → less x y ≡ true → less y x ≡ false)
      (negtrans : (x y z : A) → less x y ≡ false → less y z ≡ false → less x z ≡ false) where
    insert-Sorted : (x : A) (l : List A) → Distinct Ordered l → Distinct Ordered (insert less x l)
    unfolding insert
    insert-Sorted x [] h = (tt, tt)
    insert-Sorted x (y ∷ l) (p, h) = elim (Bool-cases (less y x)) [
      | inl e ↦
          rw (e, insert) ((insert-All less (Ordered y) x l).1 (asymm y x e, p), insert-Sorted x l h)
      | inr e ↦
          rw (e, insert)
            ((e, All-imp (Ordered y) (Ordered x) (λ z k. negtrans z y x k e) l p), (p, h))
    ]

    pub sort-Sorted : (l : List A) → Distinct Ordered (sort less l)
    unfolding sort
    sort-Sorted [] = tt
    sort-Sorted (x ∷ l) = insert-Sorted x (sort less l) (sort-Sorted l)

  module _ (P : A → Type 0) where
    insert-Some_new : (x : A) (l : List A) → P x → Some P (insert less x l)
    unfolding insert
    insert-Some_new x [] h = inl h
    insert-Some_new x (y ∷ l) h = elim (Bool-cases (less y x)) [
      | inl e ↦ rw (e, insert) (inr (insert-Some_new x l h))
      | inr e ↦ rw (e, insert) (inl h)
    ]

    insert-Some_old : (x : A) (l : List A) → Some P l → Some P (insert less x l)
    unfolding insert
    insert-Some_old x [] h = absurd h
    insert-Some_old x (y ∷ l) (inl h) = elim (Bool-cases (less y x)) [
      | inl e ↦ rw (e, insert) (inl h)
      | inr e ↦ rw (e, insert) (inr (inl h))
    ]
    insert-Some_old x (y ∷ l) (inr h) = elim (Bool-cases (less y x)) [
      | inl e ↦ rw (e, insert) (inr (insert-Some_old x l h))
      | inr e ↦ rw (e, insert) (inr (inr h))
    ]

    -- The sort keeps an element.
    pub sort-Some : (l : List A) → Some P l → Some P (sort less l)
    unfolding sort
    sort-Some [] h = absurd h
    sort-Some (x ∷ l) (inl h) = insert-Some_new x (sort less l) h
    sort-Some (x ∷ l) (inr h) = insert-Some_old x (sort less l) (sort-Some l h)
