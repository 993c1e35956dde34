-- ===== src/Controller/Secrets/Store.antt =====
-- A list of Secrets as the state of a client that has the assumed laws.
use token_control.Common.{
  ◌≡◌, ◌≢◌, ◌⊎◌, ◌∙◌, ap, inl, inr, refl, Bool, true, false, ◌&&◌, List, [], ◌∷◌, Option, none,
  some, any, All, Some, arith, Bool-cases, if◌then◌else◌,
}
use token_control.Common.Result.{Result, ok, err}
use token_control.Text.{Text, ◌==◌, codes}
use token_control.Text.Laws.{eq_iff, ==_refl}
use token_control.Webhook.Cluster.{Fetch, found, not_found, Fetch-cases}
use token_control.Controller.Secrets.{Secret, SecretClient, deleted}
use token_control.Controller.Secrets.Laws.{SecretLaws, Labelled, Deletes, Writes}

abbrev pub Store : Type 0
Store = List Secret

abbrev pub at : Text → Text → Secret → Bool
at ns name x = x.namespace == ns && x.name == name

get_in : Store → Text → Text → Fetch Secret
get_in [] ns name = not_found
get_in (x ∷ s) ns name = if at ns name x then found x else get_in s ns name

without : Text → Text → Store → Store
without ns name [] = []
without ns name (x ∷ s) = let rest = without ns name s in if at ns name x then rest else x ∷ rest

abbrev pub blank : Text → Text → Secret
blank ns name = record {
  namespace = ns;
  name = name;
  labels = [];
  annotations = [];
  kind = [];
  entries = [];
  owner = none;
}

old_in : Store → Text → Text → Secret
unfolding get_in
old_in s ns name = elim (get_in s ns name) [ found x ↦ x | _ ↦ blank ns name ]

-- CreateOrUpdate refuses a mutation that changes the namespace or the name.
write_in : Store → Text → Text → Result Text Secret → Store × Option Text
unfolding without
write_in s ns name (err e) = (s, some e)
write_in s ns name (ok new) =
    if at ns name new then (new ∷ without ns name s, none) else (s, some (codes "renamed"))

abbrev pub labelled : Text → Text → Secret → Bool
labelled key value x = any (λ l. l.0 == key && l.1 == value) x.labels

select : Store → Text → Text → List Secret → List Secret
unfolding get_in
select s key value [] = []
select s key value (x ∷ xs) =
    let rest = select s key value xs in
    elim (get_in s x.namespace x.name) [
      | found y ↦ if labelled key value y then y ∷ rest else rest
      | _ ↦ rest
    ]

unfoldable pub store : SecretClient Store
unfolding get_in old_in write_in without select
store = record {
  get = get_in;
  create_or_update = λ s ns name f. write_in s ns name (f (old_in s ns name));
  list = λ s key value. ok (select s key value s);
  delete = λ s x. (without x.namespace x.name s, deleted);
  set_owner = λ owner x. ok (record x { owner = some owner });
}

get_in-at :
    (s : Store) (ns name : Text) (x : Secret) → get_in s ns name ≡ found x → at ns name x ≡ true
unfolding get_in
get_in-at [] ns name x h = absurd (ground arith)
get_in-at (y ∷ s) ns name x h = elim (Bool-cases (at ns name y)) [
  | inl e ↦ let same : y ≡ x = ground arith in rw (← same) e
  | inr e ↦ get_in-at s ns name x (ground arith)
]

get_in-without : (s : Store) (ns name : Text) → get_in (without ns name s) ns name ≡ not_found
unfolding get_in without
get_in-without [] ns name = refl
get_in-without (x ∷ s) ns name = elim (Bool-cases (at ns name x)) [
  | inl e ↦ rw e (get_in-without s ns name)
  | inr e ↦ rw e (rw e (get_in-without s ns name))
]

keys-differ :
    (ns name ns' name' : Text) (x : Secret)
    → (ns' ≢ ns) ⊎ (name' ≢ name)
    → at ns name x ≡ true
    → at ns' name' x ≡ false
keys-differ ns name ns' name' x (inl n) h =
    ground (arith, eq_iff x.namespace ns, eq_iff x.namespace ns')
keys-differ ns name ns' name' x (inr n) h = ground (arith, eq_iff x.name name, eq_iff x.name name')

get_in-others :
    (s : Store) (ns name ns' name' : Text)
    → (ns' ≢ ns) ⊎ (name' ≢ name)
    → get_in (without ns name s) ns' name' ≡ get_in s ns' name'
unfolding get_in without
get_in-others [] ns name ns' name' n = refl
get_in-others (x ∷ s) ns name ns' name' n = elim (Bool-cases (at ns name x)) [
  | inl e ↦ rw (e, keys-differ ns name ns' name' x n e) (get_in-others s ns name ns' name' n)
  | inr e ↦ rw e (ground (arith, get_in-others s ns name ns' name' n))
]

get_in_self :
    (s : Store) (ns name : Text) (x : Secret)
    → get_in s ns name ≡ found x
    → get_in s x.namespace x.name ≡ found x
get_in_self s ns name x h =
    let here = get_in-at s ns name x h in
    let same_ns : x.namespace ≡ ns = (eq_iff x.namespace ns).0 (ground arith) in
    let same_name : x.name ≡ name = (eq_iff x.name name).0 (ground arith) in
    ap (λ n. get_in s n x.name) same_ns ∙ (ap (get_in s ns) same_name ∙ h)

select-only :
    (s : Store) (key value : Text) (xs : List Secret)
    → All
        (λ x. (get_in s x.namespace x.name ≡ found x) × Labelled key value x)
        (select s key value xs)
unfolding select
select-only s key value [] = tt
select-only s key value (x ∷ xs) = elim (Fetch-cases (get_in s x.namespace x.name)) [
  | inl (y, e) ↦ elim (Bool-cases (labelled key value y)) [
    | inl l ↦
        rw (e, l, select) ((get_in_self s x.namespace x.name y e, l), select-only s key value xs)
    | inr l ↦ rw (e, l, select) (select-only s key value xs)
  ]
  | inr (inl e) ↦ rw (e, select) (select-only s key value xs)
  | inr (inr (t, e)) ↦ rw (e, select) (select-only s key value xs)
]

-- The Secret that a Get finds stands in the list.
stands :
    (s : Store) (ns name : Text) (x : Secret) → get_in s ns name ≡ found x → Some (λ y. y ≡ x) s
unfolding get_in
stands [] ns name x h = absurd (ground arith)
stands (y ∷ s) ns name x h = elim (Bool-cases (at ns name y)) [
  | inl e ↦ inl (ground arith)
  | inr e ↦ inr (stands s ns name x (ground arith))
]

select-has :
    (s : Store) (key value : Text) (xs : List Secret) (x : Secret)
    → get_in s x.namespace x.name ≡ found x
    → Labelled key value x
    → Some (λ y. y ≡ x) xs
    → Some (λ y. y ≡ x) (select s key value xs)
unfolding select
select-has s key value [] x h l m = absurd m
select-has s key value (z ∷ xs) x h l (inl e) = rw (e, h, l, select) (inl refl)
select-has s key value (z ∷ xs) x h l (inr m) =
    let later = select-has s key value xs x h l m in
    elim (Fetch-cases (get_in s z.namespace z.name)) [
      | inl (y, e) ↦ elim (Bool-cases (labelled key value y)) [
        | inl k ↦ rw (e, k, select) (inr later)
        | inr k ↦ rw (e, k, select) later
      ]
      | inr (inl e) ↦ rw (e, select) later
      | inr (inr (t, e)) ↦ rw (e, select) later
    ]

write_in-found :
    (s : Store) (ns name : Text) (r : Result Text Secret)
    → (write_in s ns name r).1 ≡ none
    → (new : Secret) × (r ≡ ok new) × (get_in (write_in s ns name r).0 ns name ≡ found new)
unfolding write_in get_in
write_in-found s ns name (err e) h = absurd (ground arith)
write_in-found s ns name (ok new) h = elim (Bool-cases (at ns name new)) [
  | inl e ↦ (new, refl, rw e (rw e refl))
  | inr e ↦ absurd (ground arith)
]

write_in-others :
    (s : Store) (ns name : Text) (r : Result Text Secret) (ns' name' : Text)
    → (ns' ≢ ns) ⊎ (name' ≢ name)
    → get_in (write_in s ns name r).0 ns' name' ≡ get_in s ns' name'
unfolding write_in get_in
write_in-others s ns name (err e) ns' name' n = refl
write_in-others s ns name (ok new) ns' name' n = elim (Bool-cases (at ns name new)) [
  | inl e ↦ rw (e, keys-differ ns name ns' name' new n e) (get_in-others s ns name ns' name' n)
  | inr e ↦ rw e refl
]

pub store-SecretLaws : SecretLaws store
unfolding store old_in
store-SecretLaws = record {
  get_key = λ s ns name x h.
      let here = get_in-at s ns name x h in
      ((eq_iff x.namespace ns).0 (ground arith), (eq_iff x.name name).0 (ground arith));
  updated = λ s ns name f h.
      let (new, made, here) = write_in-found s ns name (f (old_in s ns name)) h in
      (old_in s ns name, new, made, here);
  update_others = λ s ns name f. write_in-others s ns name (f (old_in s ns name));
  listed = λ s key value xs x e h l.
      let same : select s key value s ≡ xs = ground arith in
      rw (← same) (select-has s key value s x h l (stands s x.namespace x.name x h));
  listed_only = λ s key value xs e.
      let same : select s key value s ≡ xs = ground arith in
      rw (← same) (select-only s key value s);
  removed = λ s x _. get_in-without s x.namespace x.name;
  delete_others = λ s x ns name n. get_in-others s x.namespace x.name ns name n;
  owned = λ owner x y h.
      let same : record x { owner = some owner } ≡ y = ground arith in
      rw (← same) (refl, refl, refl, refl, refl);
}

pub store-Deletes : Deletes store
unfolding store
store-Deletes = ((λ s key value. (_, refl)), λ s x. tt)

old_in-at : (s : Store) (ns name : Text) → at ns name (old_in s ns name) ≡ true
unfolding old_in
old_in-at s ns name = elim (Fetch-cases (get_in s ns name)) [
  | inl (x, e) ↦ rw (e, old_in) (get_in-at s ns name x e)
  | inr (inl e) ↦ rw (e, old_in) (rw (==_refl ns, ==_refl name) refl)
  | inr (inr (t, e)) ↦ rw (e, old_in) (rw (==_refl ns, ==_refl name) refl)
]

pub store-Writes : Writes store
unfolding store write_in
store-Writes = (
  λ owner x. (_, refl),
  λ s ns name f keeps.
      let (y, e, same_ns, same_name) = keeps (old_in s ns name) in
      rw (e, write_in) (rw (same_ns, same_name, old_in-at s ns name) refl),
)
