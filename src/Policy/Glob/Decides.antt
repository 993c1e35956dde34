-- ===== src/Policy/Glob/Decides.antt =====
-- `globMatch` decides the relation `Matches` on values without a slash.
use token_control.Common.{
  ◌≡◌, ◌↔◌, ◌⊎◌, refl, Bool, true, false, ◌||◌, List, [], ◌∷◌, some, is_nil, inl, inr, arith,
  Option-cases,
}
use token_control.Text.{Text, ◌==◌, codes}
use token_control.Text.Laws.{eq_iff}
use token_control.Policy.Glob.{
  Term, Chunk, chunks, find_chunk, match_chunks, parse, path_matches, fold, glob_match,
}
use token_control.Policy.Glob.Relation.{
  Star, Matches, unchunk, unchunk-chunks, Formed, chunks-Formed,
}
use token_control.Policy.Glob.Search.{has_slash, then_rest, starred, unstarred}

match_chunks-cons :
    (b : Bool) (t : Term) (ts : List Term) (rest : List Chunk) (name : Text)
    → match_chunks ((b, t ∷ ts) ∷ rest) name
      ≡ then_rest rest (find_chunk b (is_nil rest) (t ∷ ts) name)
unfolding match_chunks
match_chunks-cons true t ts rest name =
    ground (arith, Option-cases (find_chunk true (is_nil rest) (t ∷ ts) name))
match_chunks-cons false t ts rest name =
    ground (arith, Option-cases (find_chunk false (is_nil rest) (t ∷ ts) name))

Star-end : (name : Text) → has_slash name ≡ false → Star (λ s. is_nil s ≡ true) name
Star-end [] s = refl
Star-end (c ∷ name) s = inr (ground arith, Star-end name (ground arith))

-- The loop over the chunks decides what they mean.
match_chunks-Matches :
    (cs : List Chunk)
    → Formed cs
    → (name : Text) → has_slash name ≡ false
    → (match_chunks cs name ≡ true) ↔ Matches (unchunk cs) name
unfolding match_chunks
match_chunks-Matches [] f name s = (λ h. h, λ h. h)
match_chunks-Matches ((true, []) ∷ []) f name s = (λ h. Star-end name s, λ h. rw s refl)
match_chunks-Matches ((true, []) ∷ r ∷ rest) f name s = absurd (ground arith)
match_chunks-Matches ((false, []) ∷ rest) f name s = absurd f
match_chunks-Matches ((true, t ∷ ts) ∷ rest) (p, l, f) name s =
    rw (match_chunks-cons true t ts rest name)
      (starred (t ∷ ts) p rest l (match_chunks-Matches rest f) name s)
match_chunks-Matches ((false, t ∷ ts) ∷ rest) (p, l, f) name s =
    rw (match_chunks-cons false t ts rest name)
      (unstarred (t ∷ ts) p rest l (match_chunks-Matches rest f) name s)

path_matches-Matches :
    (pattern name : Text)
    → has_slash name ≡ false
    → (path_matches pattern name ≡ true)
      ↔ ((ts : List Term) × (parse pattern ≡ some ts) × Matches ts name)
unfolding path_matches
path_matches-Matches pattern name s = elim (Option-cases (parse pattern)) [
  | inl e ↦ rw (path_matches, e) (λ h. absurd (ground arith), λ (ts, k, m). absurd (ground arith))
  | inr (ts, e) ↦
      let both = match_chunks-Matches (chunks ts) (chunks-Formed ts) name s in
      let means = unchunk-chunks ts name in
      rw (path_matches, e)
        (
          λ h. (ts, refl, means.0 (both.0 h)),
          λ (us, k, m). let same : ts ≡ us = ground arith in both.1 (means.1 (rw same m)),
        )
]

or_iff :
    {P Q R : Type 0} (a b c : Bool)
    → (a ≡ true) ↔ P
    → (b ≡ true) ↔ Q
    → (c ≡ true) ↔ R
    → ((a || b || c) ≡ true) ↔ (P ⊎ (Q ⊎ R))
or_iff true b c p q r = (λ h. inl (p.0 refl), λ h. refl)
or_iff false true c p q r = (λ h. inr (inl (q.0 refl)), λ h. refl)
or_iff false false c p q r = (
  λ h. inr (inr (r.0 h)),
  λ h. elim h [
    | inl k ↦ absurd (ground (arith, p.1 k))
    | inr (inl k) ↦ absurd (ground (arith, q.1 k))
    | inr (inr k) ↦ r.1 k
  ],
)

-- On a value without a slash, `globMatch` answers true exactly where the pattern is `*`, or equals the
-- value, or is well formed and matches it, up to letter case and outer space: a star stands for any
-- bytes, and each other term for one byte that it takes.
pub glob_match-Matches :
    (pattern value : Text)
    → has_slash (fold value) ≡ false
    → (glob_match pattern value ≡ true) ↔ (
        (fold pattern ≡ codes "*")
        ⊎ ((fold pattern ≡ fold value)
            ⊎ ((ts : List Term) × (parse (fold pattern) ≡ some ts) × Matches ts (fold value))))
unfolding glob_match
glob_match-Matches pattern value s =
    let p = fold pattern in
    let v = fold value in
    let star = eq_iff p (codes "*") in
    let same = eq_iff p v in
    let path = path_matches-Matches p v s in
    or_iff (p == codes "*") (p == v) (path_matches p v) star same path
