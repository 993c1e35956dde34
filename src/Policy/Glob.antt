-- ===== src/Policy/Glob.antt =====
-- `globMatch` and `ValidGlob`, over Go's path.Match. A pattern is parsed whole, since path.Match
-- reports a malformed pattern whatever the name is; then the chunks between its stars are matched in
-- turn, each at the first place that fits.
pub mod Literal
pub mod Relation
pub mod Search
pub mod Decides
use token_control.Common.{
  ℕ, Bool, true, false, not, ◌&&◌, ◌||◌, List, [], ◌∷◌, ◌++◌, Option, none, some, leb, eqb, any,
  if◌then◌else◌, is_nil,
}
use token_control.Text.{Text, ◌==◌, codes, to_lower, trim_space}

-- A class lists its ranges, the last one first.
pub data Term : Type 0 where
  any_seq any_one : Term
  class : Bool → List (ℕ × ℕ) → Term
  char : ℕ → Term

-- Where the parser stands: outside a class, behind a backslash, or inside a class.
pub data Mode : Type 0 where
  top escaped : Mode
  opened : Mode
  item item_escaped : Bool → List (ℕ × ℕ) → Mode
  low high high_escaped : Bool → List (ℕ × ℕ) → ℕ → Mode

step_item : Bool → List (ℕ × ℕ) → ℕ → Option (Mode × List Term)
step_item neg ranges c =
    if eqb c b']'
    then if is_nil ranges then none else some (top, class neg ranges ∷ [])
    else if eqb c b'-'
    then none
    else if eqb c b'\\'
    then some (item_escaped neg ranges, [])
    else some (low neg ranges c, [])

step : Mode → ℕ → Option (Mode × List Term)
unfolding step_item
step top c =
    if eqb c b'*'
    then some (top, any_seq ∷ [])
    else if eqb c b'?'
    then some (top, any_one ∷ [])
    else if eqb c b'['
    then some (opened, [])
    else if eqb c b'\\'
    then some (escaped, [])
    else some (top, char c ∷ [])
step escaped c = some (top, char c ∷ [])
step opened c = if eqb c b'^' then some (item true [], []) else step_item false [] c
step (item neg ranges) c = step_item neg ranges c
step (item_escaped neg ranges) c = some (low neg ranges c, [])
step (low neg ranges lo) c =
    if eqb c b'-' then some (high neg ranges lo, []) else step_item neg ((lo, lo) ∷ ranges) c
step (high neg ranges lo) c =
    if eqb c b']' || eqb c b'-'
    then none
    else if eqb c b'\\'
    then some (high_escaped neg ranges lo, [])
    else some (item neg ((lo, c) ∷ ranges), [])
step (high_escaped neg ranges lo) c = some (item neg ((lo, c) ∷ ranges), [])

at_end : Mode → Option (List Term)
at_end top = some []
at_end _ = none

parse_from : Mode → Text → Option (List Term)
unfolding step at_end
parse_from m [] = at_end m
parse_from m (c ∷ s) = elim (step m c) [
  | none ↦ none
  | some (m', ts) ↦ elim (parse_from m' s) [ none ↦ none | some us ↦ some (ts ++ us) ]
]

-- None is path.ErrBadPattern.
unfoldable pub parse : Text → Option (List Term)
unfolding parse_from
parse = parse_from top

abbrev pub in_class : Bool → List (ℕ × ℕ) → ℕ → Bool
in_class neg ranges c =
    let inside = any (λ r. leb r.0 c && leb c r.1) ranges in if neg then not inside else inside

-- The terms between two stars, with whether a star stands before them.
abbrev pub Chunk : Type 0
Chunk = Bool × List Term

-- A term that is no star goes to the chunk behind it, which has no star yet.
abbrev onto : Term → List Chunk → List Chunk
onto t [] = (false, t ∷ []) ∷ []
onto t ((true, ts) ∷ rest) = (false, t ∷ []) ∷ (true, ts) ∷ rest
onto t ((false, ts) ∷ rest) = (false, t ∷ ts) ∷ rest

-- A star; stars in a row are one.
abbrev star : List Chunk → List Chunk
star [] = (true, []) ∷ []
star ((true, ts) ∷ rest) = (true, ts) ∷ rest
star ((false, ts) ∷ rest) = (true, ts) ∷ rest

-- The chunks that `scanChunk` takes off a pattern in turn.
pub chunks : List Term → List Chunk
chunks [] = []
chunks (any_seq ∷ ts) = star (chunks ts)
chunks (any_one ∷ ts) = onto any_one (chunks ts)
chunks (class neg ranges ∷ ts) = onto (class neg ranges) (chunks ts)
chunks (char d ∷ ts) = onto (char d) (chunks ts)

abbrev takes : Term → ℕ → Bool
takes any_seq c = false
takes any_one c = not (eqb c b'/')
takes (class neg ranges) c = in_class neg ranges c
takes (char d) c = eqb d c

-- `matchChunk`: what is left of the name, where the chunk matches its beginning.
pub match_chunk : List Term → Text → Option Text
match_chunk [] name = some name
match_chunk (t ∷ ts) [] = none
match_chunk (t ∷ ts) (c ∷ name) =
    let rest = match_chunk ts name in elim (takes t c) [ true ↦ rest | false ↦ none ]

-- The last chunk has to use up the name.
abbrev if_used_up : Bool → Option Text → Option Text
if_used_up last none = none
if_used_up last (some left) = if last && not (is_nil left) then none else some left

-- The loop that skips bytes of the name up to a slash; it takes the first place where the chunk matches.
skip_to : Bool → List Term → Text → Option Text
unfolding match_chunk
skip_to last ts [] = none
skip_to last ts (c ∷ name) =
    let later = skip_to last ts name in
    if eqb c b'/'
    then none
    else elim (if_used_up last (match_chunk ts name)) [ some left ↦ some left | none ↦ later ]

pub find_chunk : Bool → Bool → List Term → Text → Option Text
unfolding match_chunk skip_to
find_chunk starred last ts name = elim (if_used_up last (match_chunk ts name)) [
  | some left ↦ some left
  | none ↦ if starred then skip_to last ts name else none
]

-- The loop over the chunks. A star at the end takes what is left of the name, unless it has a slash.
pub match_chunks : List Chunk → Text → Bool
unfolding find_chunk
match_chunks [] name = is_nil name
match_chunks ((true, []) ∷ rest) name = not (any (λ c. eqb c b'/') name)
match_chunks ((false, ts) ∷ rest) name = elim (find_chunk false (is_nil rest) ts name) [
  | none ↦ false
  | some left ↦ match_chunks rest left
]
match_chunks ((true, t ∷ ts) ∷ rest) name = elim (find_chunk true (is_nil rest) (t ∷ ts) name) [
  | none ↦ false
  | some left ↦ match_chunks rest left
]

-- `ok, err := path.Match(pattern, value); err == nil && ok`
unfoldable pub path_matches : Text → Text → Bool
unfolding parse chunks match_chunks
path_matches pattern value = elim (parse pattern) [
  | none ↦ false
  | some ts ↦ match_chunks (chunks ts) value
]

-- `ValidGlob(pattern) == nil`
unfoldable pub valid_glob : Text → Bool
unfolding parse
valid_glob pattern = elim (parse pattern) [ none ↦ false | some ts ↦ true ]

-- `strings.ToLower(strings.TrimSpace(s))`
unfoldable pub fold : Text → Text
unfolding to_lower trim_space
fold s = to_lower (trim_space s)

unfoldable pub glob_match : Text → Text → Bool
unfolding fold ◌==◌ path_matches
glob_match pattern value =
    let p = fold pattern in let v = fold value in p == codes "*" || p == v || path_matches p v
