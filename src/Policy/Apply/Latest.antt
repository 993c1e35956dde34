-- ===== src/Policy/Apply/Latest.antt =====
-- What a field of the state is after a loop that overwrites it: what the last policy that sets it says.
use token_control.Common.{
  ◌≡◌, ◌⊎◌, ◌∙◌, inl, inr, refl, true, false, Bool, List, [], ◌∷◌, Option, none, some, All, Some,
  arith,
}
use token_control.Common.Sort.{sort, sort-All, Distinct}
use token_control.Common.Sort.Sorted.{Ordered, sort-Sorted, sort-Some}
use token_control.Policy.Apply.{State, apply_each}

-- No policy of the list sets the field.
abbrev pub Silent : {A B : Type 0} → (A → Option B) → List A → Type 0
Silent choose l = All (λ q. choose q ≡ none) l

-- The last of the policies that set the field sets it to the value.
abbrev pub Top : {A B : Type 0} → (A → A → Bool) → (A → Option B) → List A → B → Type 0
Top {A} less choose l v =
    (p : A) × Some (λ q. q ≡ p) l
    × (choose p ≡ some v)
    × All (λ q. (choose q ≡ none) ⊎ ((q ≡ p) ⊎ (less q p ≡ true))) l

-- A field of the state that each round overwrites where its policy sets it.
module _ {A B : Type 0} (f : State → A → State) (part : State → B) (choose : A → Option B)
    (keeps : (s : State) (x : A) → choose x ≡ none → part (f s x) ≡ part s)
    (takes : (s : State) (x : A) (v : B) → choose x ≡ some v → part (f s x) ≡ v) where
  apply_each-Silent : (s : State) (l : List A) → Silent choose l → part (apply_each f s l) ≡ part s
  unfolding apply_each
  apply_each-Silent s [] h = refl
  apply_each-Silent s (x ∷ l) (e, h) = apply_each-Silent (f s x) l h ∙ keeps s x e

  -- Behind the deciding policy only itself sets the field.
  apply_each-behind :
      (s : State) (p : A) (v : B) (l : List A)
      → choose p ≡ some v
      → part s ≡ v
      → All (λ q. (choose q ≡ none) ⊎ (q ≡ p)) l
      → part (apply_each f s l) ≡ v
  unfolding apply_each
  apply_each-behind s p v [] h k a = k
  apply_each-behind s p v (x ∷ l) h k (inl e, a) =
      apply_each-behind (f s x) p v l h (keeps s x e ∙ k) a
  apply_each-behind s p v (x ∷ l) h k (inr e, a) =
      apply_each-behind (f s x) p v l h (takes s x v (rw e h)) a

  module _ (less : A → A → Bool) (asymm : (x y : A) → less x y ≡ true → less y x ≡ false)
      (negtrans : (x y z : A) → less x y ≡ false → less y z ≡ false → less x z ≡ false) where
    behind :
        (p : A) (l : List A)
        → All (Ordered less p) l
        → All (λ q. (choose q ≡ none) ⊎ ((q ≡ p) ⊎ (less q p ≡ true))) l
        → All (λ q. (choose q ≡ none) ⊎ (q ≡ p)) l
    behind p [] o a = tt
    behind p (x ∷ l) (o, os) (inl e, a) = (inl e, behind p l os a)
    behind p (x ∷ l) (o, os) (inr (inl e), a) = (inr e, behind p l os a)
    behind p (x ∷ l) (o, os) (inr (inr e), a) = absurd (ground arith)

    apply_sorted-Top :
        (s : State) (p : A) (v : B) (l : List A)
        → choose p ≡ some v
        → Distinct (Ordered less) l
        → Some (λ q. q ≡ p) l
        → All (λ q. (choose q ≡ none) ⊎ ((q ≡ p) ⊎ (less q p ≡ true))) l
        → part (apply_each f s l) ≡ v
    unfolding apply_each
    apply_sorted-Top s p v [] h d m a = absurd m
    apply_sorted-Top s p v (x ∷ l) h (o, d) (inl e) (_, a) =
        apply_each-behind (f s x) p v l h (takes s x v (rw e h)) (behind p l (rw e at o) a)
    apply_sorted-Top s p v (x ∷ l) h (o, d) (inr m) (_, a) = apply_sorted-Top (f s x) p v l h d m a

    -- The loop over the sorted list leaves what the last policy that sets the field says.
    pub apply_each-Top :
        (s : State) (l : List A) (v : B)
        → Top less choose l v
        → part (apply_each f s (sort less l)) ≡ v
    apply_each-Top s l v (p, m, h, a) =
        apply_sorted-Top s p v (sort less l) h (sort-Sorted less asymm negtrans l)
          (sort-Some less (λ q. q ≡ p) l m)
          ((sort-All less (λ q. (choose q ≡ none) ⊎ ((q ≡ p) ⊎ (less q p ≡ true))) l).1 a)

    pub sort-Silent :
        (s : State) (l : List A) → Silent choose l → part (apply_each f s (sort less l)) ≡ part s
    sort-Silent s l h =
        apply_each-Silent s (sort less l) ((sort-All less (λ q. choose q ≡ none) l).1 h)
