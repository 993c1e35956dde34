-- ===== src/Main/Exempt.antt =====
-- Which namespaces the flags exempt.
use token_control.Common.{
  ◌≡◌, ◌∙◌, inl, inr, refl, ap, Bool, true, ◌&&◌, ◌||◌, List, [], ◌∷◌, any, is_nil, All, arith,
  Bool-cases, if◌then◌else◌,
}
use token_control.Text.{Text, ◌==◌, non_empty, split, join, trim_space}
use token_control.Text.Laws.{eq_iff}
use token_control.Text.Joined.{Without, split-join}
use token_control.Webhook.Cluster.{exempt}
use token_control.Main.{add_key, parse_parts, parse_set, config_of}

-- A part that stands for a namespace once it is trimmed.
abbrev stands_for : Text → Text → Bool
stands_for ns part = non_empty (trim_space part) && trim_space part == ns

any-add_key :
    (ns s : Text) (out : List Text)
    → any (λ k. k == ns) (add_key s out) ≡ (any (λ k. k == ns) out || s == ns)
unfolding add_key
any-add_key ns s out = elim (Bool-cases (any (λ k. k == s) out)) [
  | inr e ↦ rw e (ground arith)
  | inl e ↦ elim (Bool-cases (s == ns)) [
    | inr f ↦ rw (e, f) (ground arith)
    | inl f ↦
        let same : s ≡ ns = (eq_iff s ns).0 f in
        let there : any (λ k. k == ns) out ≡ true = rw same at e in rw (e, f, there) refl
  ]
]

any-parse_parts :
    (ns : Text) (out parts : List Text)
    → any (λ k. k == ns) (parse_parts out parts)
      ≡ (any (λ k. k == ns) out || any (stands_for ns) parts)
unfolding parse_parts
any-parse_parts ns out [] = ground arith
any-parse_parts ns out (s ∷ parts) =
    let t = trim_space s in
    any-parse_parts ns (if non_empty t then add_key t out else out) parts
    ∙ elim (Bool-cases (non_empty t)) [
      | inl e ↦ rw (e, any-add_key ns t out) (ground arith)
      | inr e ↦ rw e (ground arith)
    ]

-- A name without a comma, without space around it, and not empty.
abbrev pub IsPlain : Text → Type 0
IsPlain n = (trim_space n ≡ n) × (non_empty n ≡ true) × Without b',' n

any-plain :
    (ns : Text) (names : List Text)
    → All IsPlain names
    → any (stands_for ns) names ≡ any (λ n. n == ns) names
any-plain ns [] h = refl
any-plain ns (n ∷ names) ((t, e, _), h) = rw (t, e, any-plain ns names h) refl

All-Without : (names : List Text) → All IsPlain names → All (Without b',') names
All-Without [] h = tt
All-Without (n ∷ names) ((_, _, w), h) = (w, All-Without names h)

no_names : parse_set (join (b',' ∷ []) []) ≡ []
unfolding parse_set join trim_space
no_names = refl

parse_set-join :
    (ns : Text) (names : List Text)
    → All IsPlain names
    → any (λ k. k == ns) (parse_set (join (b',' ∷ []) names)) ≡ any (λ n. n == ns) names
unfolding parse_set
parse_set-join ns [] h = ap (any (λ k. k == ns)) no_names
parse_set-join ns (n ∷ names) h =
    any-parse_parts ns [] (split (join (b',' ∷ []) (n ∷ names)) b',')
    ∙ rw (split-join b',' n names (All-Without (n ∷ names) h)) (any-plain ns (n ∷ names) h)

-- The flag takes a list of names that are joined by commas, each without space around it and not
-- empty: then exactly these namespaces are exempt, with the namespace of the operator and the empty
-- one.
pub exempt-config_of :
    (operator_namespace : Text) (names : List Text) (ns : Text)
    → All IsPlain names
    → exempt (config_of operator_namespace (join (b',' ∷ []) names)) ns
      ≡ (is_nil ns || ns == operator_namespace || any (λ n. n == ns) names)
unfolding exempt config_of
exempt-config_of operator_namespace names ns h =
    let set = parse_set-join ns names h in rw set (ground arith)
