-- ===== src/Policy/Resolve/Decisive.antt =====
-- There is always a most specific policy, or none sets the field, where the names are different.
use token_control.Common.{◌≡◌, ◌⊎◌, Bool, true, Option, none}
use token_control.Policy.Effective.{Effective}

module _ {A B : Type 0} (less : A → A → Bool)
    (less_trans : (x y z : A) → less x y ≡ true → less y z ≡ true → less x z ≡ true)
    (choose : A → Option B) where
  -- A policy does not decide against one that is put in front of the list.
  abbrev Yields : A → A → Type 0
  Yields p q = (choose q ≡ none) ⊎ ((q ≡ p) ⊎ (less q p ≡ true))
