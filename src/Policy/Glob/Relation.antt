-- ===== src/Policy/Glob/Relation.antt =====
-- What it means for a name to match a pattern, with no search order in it, and what the chunks of a
-- pattern mean.
use token_control.Common.{
  ◌≡◌, ◌↔◌, ◌⊎◌, refl, Bool, true, false, List, [], ◌∷◌, ◌++◌, some, eqb, is_nil, All, inl, inr,
  arith,
}
use token_control.Text.{Text}
use token_control.Policy.Glob.{
  Term, any_seq, any_one, class, char, takes, Chunk, onto, star, chunks, match_chunk,
}

-- A star takes any number of bytes that are no slash, and the rest of the pattern matches the rest.
abbrev pub Star : (Text → Type 0) → Text → Type 0
Star P [] = P []
Star P (c ∷ s) = P (c ∷ s) ⊎ ((eqb c b'/' ≡ false) × Star P s)

-- Another term takes one byte.
abbrev pub Taken : Term → (Text → Type 0) → Text → Type 0
Taken t P [] = ⊥
Taken t P (c ∷ s) = (takes t c ≡ true) × P s

abbrev pub Matches : List Term → Text → Type 0
Matches [] s = is_nil s ≡ true
Matches (any_seq ∷ ts) s = Star (Matches ts) s
Matches (any_one ∷ ts) s = Taken any_one (Matches ts) s
Matches (class neg ranges ∷ ts) s = Taken (class neg ranges) (Matches ts) s
Matches (char d ∷ ts) s = Taken (char d) (Matches ts) s

abbrev pub is_star : Term → Bool
is_star any_seq = true
is_star _ = false

abbrev pub Plain : List Term → Type 0
Plain = All (λ t. is_star t ≡ false)

Matches-plain :
    (t : Term) (ts : List Term) (s : Text)
    → is_star t ≡ false
    → Matches (t ∷ ts) s ↔ Taken t (Matches ts) s
Matches-plain any_seq ts s h = absurd (ground arith)
Matches-plain any_one ts s h = (λ m. m, λ m. m)
Matches-plain (class neg ranges) ts s h = (λ m. m, λ m. m)
Matches-plain (char d) ts s h = (λ m. m, λ m. m)

pub Star-map : (P Q : Text → Type 0) → ((s : Text) → P s → Q s) → (s : Text) → Star P s → Star Q s
Star-map P Q f [] h = f [] h
Star-map P Q f (c ∷ s) (inl p) = inl (f (c ∷ s) p)
Star-map P Q f (c ∷ s) (inr (n, h)) = inr (n, Star-map P Q f s h)

pub Star-leave : (P : Text → Type 0) (s : Text) → P s → Star P s
Star-leave P [] h = h
Star-leave P (c ∷ s) h = inl h

-- Two stars in a row are one.
Star-twice : (P : Text → Type 0) (s : Text) → Star (Star P) s → Star P s
Star-twice P [] h = h
Star-twice P (c ∷ s) (inl h) = h
Star-twice P (c ∷ s) (inr (n, h)) = inr (n, Star-twice P s h)

-- The terms of a list of chunks.
abbrev pub unchunk : List Chunk → List Term
unchunk [] = []
unchunk ((true, ts) ∷ rest) = any_seq ∷ (ts ++ unchunk rest)
unchunk ((false, ts) ∷ rest) = ts ++ unchunk rest

unchunk-onto : (t : Term) (cs : List Chunk) → unchunk (onto t cs) ≡ t ∷ unchunk cs
unchunk-onto t [] = refl
unchunk-onto t ((true, ts) ∷ rest) = refl
unchunk-onto t ((false, ts) ∷ rest) = refl

unchunk-star :
    (cs : List Chunk) (s : Text) → Matches (unchunk (star cs)) s ↔ Star (Matches (unchunk cs)) s
unchunk-star [] s = (λ h. h, λ h. h)
unchunk-star ((true, ts) ∷ rest) s = (
  Star-leave (Matches (unchunk ((true, ts) ∷ rest))) s,
  Star-twice (Matches (ts ++ unchunk rest)) s,
)
unchunk-star ((false, ts) ∷ rest) s = (λ h. h, λ h. h)

-- A term that takes one byte, before terms that mean the same.
onto-Matches :
    (t : Term) (ts : List Term) (cs : List Chunk)
    → is_star t ≡ false
    → ((s : Text) → Matches (unchunk cs) s ↔ Matches ts s)
    → (s : Text) → Matches (unchunk (onto t cs)) s ↔ Matches (t ∷ ts) s
onto-Matches t ts cs p ih s = rw (unchunk-onto t cs) (go s)
  where
    go : (s : Text) → Matches (t ∷ unchunk cs) s ↔ Matches (t ∷ ts) s
    go [] = (
      λ h. absurd ((Matches-plain t (unchunk cs) [] p).0 h),
      λ h. absurd ((Matches-plain t ts [] p).0 h),
    )
    go (c ∷ s) = (
      λ h.
          let (a, b) = (Matches-plain t (unchunk cs) (c ∷ s) p).0 h in
          (Matches-plain t ts (c ∷ s) p).1 (a, (ih s).0 b),
      λ h.
          let (a, b) = (Matches-plain t ts (c ∷ s) p).0 h in
          (Matches-plain t (unchunk cs) (c ∷ s) p).1 (a, (ih s).1 b),
    )

-- The chunks of a pattern mean what it means.
pub unchunk-chunks : (ts : List Term) (s : Text) → Matches (unchunk (chunks ts)) s ↔ Matches ts s
unfolding chunks
unchunk-chunks [] s = (λ h. h, λ h. h)
unchunk-chunks (any_seq ∷ ts) s =
    let both = unchunk-star (chunks ts) s in
    (
      λ h.
          Star-map (Matches (unchunk (chunks ts))) (Matches ts) (λ s. (unchunk-chunks ts s).0) s
            (both.0 h),
      λ h. both.1 (
          Star-map (Matches ts) (Matches (unchunk (chunks ts))) (λ s. (unchunk-chunks ts s).1) s h),
    )
unchunk-chunks (any_one ∷ ts) s = onto-Matches any_one ts (chunks ts) refl (unchunk-chunks ts) s
unchunk-chunks (class neg ranges ∷ ts) s =
    onto-Matches (class neg ranges) ts (chunks ts) refl (unchunk-chunks ts) s
unchunk-chunks (char d ∷ ts) s = onto-Matches (char d) ts (chunks ts) refl (unchunk-chunks ts) s

-- A chunk with terms takes one byte for each, and a chunk after the first has a star.
abbrev pub Leads : List Chunk → Type 0
Leads [] = Unit
Leads ((starred, ts) ∷ rest) = starred ≡ true

abbrev pub Formed : List Chunk → Type 0
Formed [] = Unit
Formed ((true, []) ∷ rest) = is_nil rest ≡ true
Formed ((false, []) ∷ rest) = ⊥
Formed ((starred, t ∷ ts) ∷ rest) = Plain (t ∷ ts) × Leads rest × Formed rest

onto-Formed : (t : Term) (cs : List Chunk) → is_star t ≡ false → Formed cs → Formed (onto t cs)
onto-Formed t [] p h = ((p, tt), tt, tt)
onto-Formed t ((true, ts) ∷ rest) p h = ((p, tt), refl, h)
onto-Formed t ((false, []) ∷ rest) p h = absurd h
onto-Formed t ((false, u ∷ us) ∷ rest) p (k, l, f) = ((p, k), l, f)

star-Formed : (cs : List Chunk) → Formed cs → Formed (star cs)
star-Formed [] h = refl
star-Formed ((true, ts) ∷ rest) h = h
star-Formed ((false, []) ∷ rest) h = absurd h
star-Formed ((false, u ∷ us) ∷ rest) h = h

pub chunks-Formed : (ts : List Term) → Formed (chunks ts)
unfolding chunks
chunks-Formed [] = tt
chunks-Formed (any_seq ∷ ts) = star-Formed (chunks ts) (chunks-Formed ts)
chunks-Formed (any_one ∷ ts) = onto-Formed any_one (chunks ts) refl (chunks-Formed ts)
chunks-Formed (class neg ranges ∷ ts) =
    onto-Formed (class neg ranges) (chunks ts) refl (chunks-Formed ts)
chunks-Formed (char d ∷ ts) = onto-Formed (char d) (chunks ts) refl (chunks-Formed ts)

-- `matchChunk` takes the beginning of the name that the terms match.
pub match_chunk-Matches :
    (ts us : List Term) (name : Text)
    → Plain ts
    → Matches (ts ++ us) name
      ↔ ((left : Text) × (match_chunk ts name ≡ some left) × Matches us left)
unfolding match_chunk
match_chunk-Matches [] us name p =
    (λ h. (name, refl, h), λ (left, e, h). let k : name ≡ left = ground arith in rw k h)
match_chunk-Matches (t ∷ ts) us [] (p, ps) =
    (λ h. absurd ((Matches-plain t (ts ++ us) [] p).0 h), λ (left, e, h). absurd (ground arith))
match_chunk-Matches (t ∷ ts) us (c ∷ name) (p, ps) =
    let both = Matches-plain t (ts ++ us) (c ∷ name) p in
    let rest = match_chunk-Matches ts us name ps in
    (
      λ h. let (a, b) = both.0 h in let (left, e, m) = rest.0 b in (left, rw (match_chunk, a) e, m),
      λ (left, e, m). both.1 (ground arith, rest.1 (left, ground arith, m)),
    )
