-- ===== src/Policy/Glob/Literal.antt =====
-- `globMatch` at patterns without a metacharacter.
use token_control.Common.{
  ◌≡◌, ◌∙◌, refl, ℕ, Bool, false, ◌||◌, List, [], ◌∷◌, map, Option, none, some, eqb, any, is_nil,
  arith, Bool-cases, Option-cases, inl, inr,
}
use token_control.Text.{Text, ◌==◌, codes}
use token_control.Text.Laws.{eq_iff}
use token_control.Policy.Glob.{
  Term, char, top, step, at_end, parse_from, parse, chunks, match_chunk, find_chunk, match_chunks,
  path_matches, fold, glob_match,
}

-- The characters that path.Match does not take literally.
abbrev is_meta : ℕ → Bool
is_meta c = eqb c b'*' || (eqb c b'?' || (eqb c b'[' || eqb c b'\\'))

parse_from-literal : (s : Text) → any is_meta s ≡ false → parse_from top s ≡ some (map char s)
unfolding parse_from step at_end
parse_from-literal [] h = refl
parse_from-literal (c ∷ s) h = ground (arith, parse_from-literal s)

chunks-literal : (c : ℕ) (s : Text) → chunks (map char (c ∷ s)) ≡ (false, map char (c ∷ s)) ∷ []
unfolding chunks
chunks-literal c [] = refl
chunks-literal c (d ∷ s) = rw (chunks-literal d s) refl

-- The chunk matches the beginning of the name and uses it up.
abbrev used_up : Option Text → Bool
used_up none = false
used_up (some left) = is_nil left

match_chunk-literal : (s name : Text) → used_up (match_chunk (map char s) name) ≡ (s == name)
unfolding match_chunk ◌==◌
match_chunk-literal [] [] = refl
match_chunk-literal [] (d ∷ name) = refl
match_chunk-literal (c ∷ s) [] = refl
match_chunk-literal (c ∷ s) (d ∷ name) = ground (arith, match_chunk-literal s name)

-- The only chunk is the last one.
one_chunk :
    (ts : List Term) (name : Text)
    → match_chunks ((false, ts) ∷ []) name ≡ used_up (match_chunk ts name)
unfolding match_chunks find_chunk
one_chunk ts name = ground (arith, Option-cases (match_chunk ts name))

match_chunks-literal : (s name : Text) → match_chunks (chunks (map char s)) name ≡ (s == name)
unfolding match_chunks chunks find_chunk ◌==◌
match_chunks-literal [] [] = refl
match_chunks-literal [] (d ∷ name) = refl
match_chunks-literal (c ∷ s) name =
    rw (chunks-literal c s) (one_chunk (map char (c ∷ s)) name ∙ match_chunk-literal (c ∷ s) name)

path_matches-literal : (p v : Text) → any is_meta p ≡ false → path_matches p v ≡ (p == v)
unfolding path_matches parse
path_matches-literal p v h = rw (path_matches, parse_from-literal p h) (match_chunks-literal p v)

not_star : (p : Text) → any is_meta p ≡ false → (p == codes "*") ≡ false
not_star p h = elim (Bool-cases (p == codes "*")) [
  | inr e ↦ e
  | inl e ↦ let k = (eq_iff p (codes "*")).0 e in absurd (ground (arith, rw k at h))
]

literal :
    (p v : Text) → any is_meta p ≡ false → (p == codes "*" || p == v || path_matches p v) ≡ (p == v)
literal p v h = ground (arith, not_star p h, path_matches-literal p v h)

-- A pattern without `*`, `?`, `[` and a backslash matches exactly the values that equal it up to letter
-- case and outer space.
glob_match-literal :
    (pattern value : Text)
    → any is_meta (fold pattern) ≡ false
    → glob_match pattern value ≡ (fold pattern == fold value)
unfolding glob_match
glob_match-literal pattern value h = literal (fold pattern) (fold value) h
