-- ===== src/Policy/Glob/Search.antt =====
-- The search of path.Match for the chunks of a pattern: a chunk behind a star is taken at the first
-- place where it fits, which loses no match of a name without a slash.
use token_control.Common.{
  ◌≡◌, ◌↔◌, ◌⊎◌, refl, ℕ, Bool, true, false, List, [], ◌∷◌, ◌++◌, Option, none, some, eqb, is_nil,
  any, inl, inr, arith, Option-cases,
}
use token_control.Text.{Text}
use token_control.Policy.Glob.{
  Term, any_seq, Chunk, match_chunk, if_used_up, skip_to, find_chunk, match_chunks,
}
use token_control.Policy.Glob.Relation.{
  Star, Star-leave, Matches, Plain, unchunk, Leads, match_chunk-Matches,
}

abbrev pub has_slash : Text → Bool
has_slash = any (λ c. eqb c b'/')

-- What is left of a name behind as many bytes as there are terms.
abbrev after : List Term → Text → Text
after [] name = name
after (t ∷ ts) [] = []
after (t ∷ ts) (c ∷ name) = after ts name

match_chunk-after :
    (ts : List Term) (name left : Text) → match_chunk ts name ≡ some left → left ≡ after ts name
unfolding match_chunk
match_chunk-after [] name left h = ground arith
match_chunk-after (t ∷ ts) [] left h = absurd (ground arith)
match_chunk-after (t ∷ ts) (c ∷ name) left h = ground (arith, match_chunk-after ts name left)

after-slash :
    (ts : List Term) (name : Text) → has_slash name ≡ false → has_slash (after ts name) ≡ false
after-slash [] name h = h
after-slash (t ∷ ts) [] h = refl
after-slash (t ∷ ts) (c ∷ name) h = after-slash ts name (ground arith)

after-nil : (ts : List Term) → after ts [] ≡ []
after-nil [] = refl
after-nil (t ∷ ts) = refl

-- One byte more leaves one byte more, or both leave nothing.
after-cons :
    (ts : List Term) (c : ℕ) (name : Text)
    → (after ts (c ∷ name) ≡ after ts name) ⊎ ((d : ℕ) × (after ts (c ∷ name) ≡ d ∷ after ts name))
after-cons [] c name = inr (c, refl)
after-cons (t ∷ ts) c [] = inl (after-nil ts)
after-cons (t ∷ ts) c (d ∷ name) = after-cons ts d name

-- A star may as well begin behind the first place where the terms fit.
Star-after :
    (ts us : List Term) (name : Text)
    → Plain ts
    → has_slash name ≡ false
    → Star (Matches (ts ++ (any_seq ∷ us))) name
    → Matches (any_seq ∷ us) (after ts name)
Star-after ts us [] p s h =
    let (left, e, m) = (match_chunk-Matches ts (any_seq ∷ us) [] p).0 h in
    rw (← match_chunk-after ts [] left e) m
Star-after ts us (c ∷ name) p s (inl h) =
    let (left, e, m) = (match_chunk-Matches ts (any_seq ∷ us) (c ∷ name) p).0 h in
    rw (← match_chunk-after ts (c ∷ name) left e) m
Star-after ts us (c ∷ name) p s (inr (n, h)) =
    let later = Star-after ts us name p (ground arith) h in
    elim (after-cons ts c name) [
      | inl e ↦ rw e later
      | inr (d, e) ↦
          let free = after-slash ts (c ∷ name) s in
          let free' : has_slash (d ∷ after ts name) ≡ false = rw e at free in
          rw e (inr (ground arith, later))
    ]

find_chunk-cons :
    (last : Bool) (ts : List Term) (c : ℕ) (name : Text)
    → eqb c b'/' ≡ false
    → if_used_up last (match_chunk ts (c ∷ name)) ≡ none
    → find_chunk true last ts (c ∷ name) ≡ find_chunk true last ts name
unfolding find_chunk skip_to
find_chunk-cons last ts c name s h = ground arith

find_chunk-here :
    (last : Bool) (ts : List Term) (name left : Text)
    → if_used_up last (match_chunk ts name) ≡ some left
    → find_chunk true last ts name ≡ some left
unfolding find_chunk
find_chunk-here last ts name left h = ground arith

find_chunk-nil :
    (last : Bool) (ts : List Term)
    → if_used_up last (match_chunk ts []) ≡ none
    → find_chunk true last ts [] ≡ none
unfolding find_chunk skip_to
find_chunk-nil last ts h = ground arith

if_used_up-some :
    (last : Bool) (o : Option Text) (left : Text)
    → if_used_up last o ≡ some left
    → (o ≡ some left) × (last ≡ true → is_nil left ≡ true)
if_used_up-some last none left h = absurd (ground arith)
if_used_up-some last (some l) left h = (ground arith, λ e. ground arith)

-- What the loop over the chunks does with what is left behind a chunk.
abbrev pub then_rest : List Chunk → Option Text → Bool
then_rest rest none = false
then_rest rest (some left) = match_chunks rest left

module _ (ts : List Term) (p : Plain ts) where
  -- Where the chunk is not taken, the pattern does not match here.
  not_taken :
      (rest : List Chunk) (name : Text)
      → if_used_up (is_nil rest) (match_chunk ts name) ≡ none
      → ¬ Matches (ts ++ unchunk rest) name
  not_taken [] name h m = let (left, e, k) = (match_chunk-Matches ts [] name p).0 m in ground arith
  not_taken (r ∷ rest) name h m =
      let (left, e, k) = (match_chunk-Matches ts (unchunk (r ∷ rest)) name p).0 m in ground arith

  -- Where it is taken, a star before it may begin behind it.
  taken :
      (rest : List Chunk) (name left : Text)
      → Leads rest
      → has_slash name ≡ false
      → if_used_up (is_nil rest) (match_chunk ts name) ≡ some left
      → Star (Matches (ts ++ unchunk rest)) name
      → Matches (unchunk rest) left
  taken [] name left l s h m = (if_used_up-some true (match_chunk ts name) left h).1 refl
  taken ((false, vs) ∷ rest) name left l s h m = absurd (ground arith)
  taken ((true, vs) ∷ rest) name left l s h m =
      let e = (if_used_up-some false (match_chunk ts name) left h).0 in
      rw (match_chunk-after ts name left e) (Star-after ts (vs ++ unchunk rest) name p s m)

  module _ (rest : List Chunk) (l : Leads rest)
      (ih : (left : Text)
        → has_slash left ≡ false
        → (match_chunks rest left ≡ true) ↔ Matches (unchunk rest) left) where
    -- What is left has no slash either.
    left-slash :
        (name left : Text)
        → has_slash name ≡ false
        → match_chunk ts name ≡ some left
        → has_slash left ≡ false
    left-slash name left s e = rw (match_chunk-after ts name left e) (after-slash ts name s)

    -- At a place where the chunk is taken.
    here :
        (name left : Text)
        → has_slash name ≡ false
        → if_used_up (is_nil rest) (match_chunk ts name) ≡ some left
        → (match_chunks rest left ≡ true) ↔ Star (Matches (ts ++ unchunk rest)) name
    here name left s h =
        let e = (if_used_up-some (is_nil rest) (match_chunk ts name) left h).0 in
        let both = ih left (left-slash name left s e) in
        (
          λ m.
              Star-leave (Matches (ts ++ unchunk rest)) name
                ((match_chunk-Matches ts (unchunk rest) name p).1 (left, e, both.0 m)),
          λ m. both.1 (taken rest name left l s h m),
        )

    -- The search for a place after a star.
    pub starred :
        (name : Text)
        → has_slash name ≡ false
        → (then_rest rest (find_chunk true (is_nil rest) ts name) ≡ true)
          ↔ Star (Matches (ts ++ unchunk rest)) name
    starred [] s = elim (Option-cases (if_used_up (is_nil rest) (match_chunk ts []))) [
      | inr (left, h) ↦ rw (find_chunk-here (is_nil rest) ts [] left h) (here [] left s h)
      | inl h ↦
          rw (find_chunk-nil (is_nil rest) ts h)
            (λ m. absurd (ground arith), λ m. absurd (not_taken rest [] h m))
    ]
    starred (c ∷ name) s =
        elim (Option-cases (if_used_up (is_nil rest) (match_chunk ts (c ∷ name)))) [
          | inr (left, h) ↦
              rw (find_chunk-here (is_nil rest) ts (c ∷ name) left h) (here (c ∷ name) left s h)
          | inl h ↦
              let free : eqb c b'/' ≡ false = ground arith in
              let later = starred name (ground arith) in
              rw (find_chunk-cons (is_nil rest) ts c name free h) (
                λ m. inr (free, later.0 m),
                λ m. elim m [
                  | inl now ↦ absurd (not_taken rest (c ∷ name) h now)
                  | inr (_, on) ↦ later.1 on
                ],
              )
        ]

    -- The first chunk, without a star.
    pub unstarred :
        (name : Text)
        → has_slash name ≡ false
        → (then_rest rest (find_chunk false (is_nil rest) ts name) ≡ true)
          ↔ Matches (ts ++ unchunk rest) name
    unfolding find_chunk
    unstarred name s = elim (Option-cases (if_used_up (is_nil rest) (match_chunk ts name))) [
      | inr (left, h) ↦
          let e = (if_used_up-some (is_nil rest) (match_chunk ts name) left h).0 in
          let both = ih left (left-slash name left s e) in
          let parts = match_chunk-Matches ts (unchunk rest) name p in
          rw (find_chunk, h)
            (
              λ m. parts.1 (left, e, both.0 m),
              λ m.
                  let (left', e', k) = parts.0 m in
                  let same : left ≡ left' = ground arith in both.1 (rw same k),
            )
      | inl h ↦
          rw (find_chunk, h) (λ m. absurd (ground arith), λ m. absurd (not_taken rest name h m))
    ]
