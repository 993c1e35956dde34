-- ===== src/Text/Joined.antt =====
-- `strings.Split` gives back what `strings.Join` has joined.
use token_control.Common.{
  ℕ, ◌≡◌, ◌∙◌, inl, inr, ap, true, false, List, [], ◌∷◌, ◌++◌, any, All, eqb, arith, Bool-cases,
}
use mathlib.Core.List.{append_assoc, append-nil}
use token_control.Text.{Text, split, split_from, join}

-- The byte does not occur in the text.
abbrev pub Without : ℕ → Text → Type 0
Without sep n = any (λ c. eqb c sep) n ≡ false

split_from-last : (sep : ℕ) (cur n : Text) → Without sep n → split_from sep cur n ≡ (cur ++ n) ∷ []
unfolding split_from
split_from-last sep cur [] h = ap (λ t. t ∷ []) (rw append-nil)
split_from-last sep cur (c ∷ n) h = elim (Bool-cases (eqb c sep)) [
  | inl e ↦ absurd (ground arith)
  | inr e ↦ rw e (
      split_from-last sep (cur ++ (c ∷ [])) n (ground arith)
      ∙ ap (λ t. t ∷ []) (append_assoc cur (c ∷ []) n))
]

split_from-next :
    (sep : ℕ) (cur n rest : Text)
    → Without sep n
    → split_from sep cur (n ++ (sep ∷ rest)) ≡ (cur ++ n) ∷ split_from sep [] rest
unfolding split_from
split_from-next sep cur [] rest h =
    let same : eqb sep sep ≡ true = ground arith in
    rw same (ap (λ t. t ∷ split_from sep [] rest) (rw append-nil))
split_from-next sep cur (c ∷ n) rest h = elim (Bool-cases (eqb c sep)) [
  | inl e ↦ absurd (ground arith)
  | inr e ↦ rw e (
      split_from-next sep (cur ++ (c ∷ [])) n rest (ground arith)
      ∙ ap (λ t. t ∷ split_from sep [] rest) (append_assoc cur (c ∷ []) n))
]

pub split-join :
    (sep : ℕ) (n : Text) (names : List Text)
    → All (Without sep) (n ∷ names)
    → split (join (sep ∷ []) (n ∷ names)) sep ≡ n ∷ names
unfolding split join
split-join sep n [] (h, _) = split_from-last sep [] n h
split-join sep n (m ∷ names) (h, k) =
    split_from-next sep [] n (join (sep ∷ []) (m ∷ names)) h
    ∙ ap (λ l. n ∷ l) (split-join sep m names k)
