-- ===== src/Controller/Replication/Agreement.antt =====
-- The controller and the pod webhook agree on the namespaces of a credential.
use token_control.Common.{
  ◌≡◌, ◌↔◌, ◌∙◌, inl, inr, refl, sym, ap, Bool, true, false, ◌&&◌, ◌||◌, List, [], ◌∷◌, some, any,
  All, arith, if◌then◌else◌, Bool-cases, Option-cases,
}
use token_control.Common.Result.{ok, >>=-returns}
use token_control.Text.{Text, ◌==◌}
use token_control.Text.Laws.{eq_iff}
use token_control.Api.Selector.{Labels, LabelSelector, LabelSelectors}
use token_control.Api.Credential.{ModelCredential}
use token_control.Policy.Selector.{selector_matches}
use token_control.Webhook.Cluster.{found, Client, namespace_labels, credential_authorizes}
use token_control.Controller.Replication.{put_key, put_all, put_selected, authorized_namespaces}

abbrev pub has : Text → List Text → Bool
has n out = any (λ k. k == n) out

has-equal : (n m : Text) (out : List Text) → (m == n) ≡ true → has m out ≡ has n out
has-equal n m out h = let same : m ≡ n = (eq_iff m n).0 h in rw same refl

has-put_key : (n m : Text) (out : List Text) → has n (put_key m out) ≡ (m == n || has n out)
unfolding put_key
has-put_key n m out = elim (Bool-cases (has m out)) [
  | inr e ↦ rw e refl
  | inl e ↦ elim (Bool-cases (m == n)) [
    | inl f ↦ rw (e, f) (ground (arith, has-equal n m out f))
    | inr f ↦ rw (e, f) refl
  ]
]

has-put_all : (n : Text) (ns out : List Text) → has n (put_all ns out) ≡ (has n ns || has n out)
unfolding put_all
has-put_all n [] out = refl
has-put_all n (m ∷ ns) out =
    has-put_all n ns (put_key m out) ∙ rw (has-put_key n m out) (ground arith)

has-put_if :
    (n m : Text) (b : Bool) (out : List Text)
    → has n (if b then put_key m out else out) ≡ ((b && m == n) || has n out)
has-put_if n m true out = has-put_key n m out
has-put_if n m false out = refl

module _ (K : LabelSelectors) (sel : LabelSelector) (c : Client) (n : Text) (l : Labels)
    (matches : Bool) (here : c.get_namespace n ≡ found l)
    (decided : selector_matches K (some sel) l ≡ ok matches) where
  -- An entry of the list is the namespace exactly by its name.
  same_labels : (x : Text × Labels) → c.get_namespace x.0 ≡ found x.1 → (x.0 == n) ≡ true → x.1 ≡ l
  same_labels x e h =
      let name : x.0 ≡ n = (eq_iff x.0 n).0 h in
      let both : found x.1 ≡ found l = rw (← e, name) here in ground arith

  same_match :
      (x : Text × Labels) (m : Bool)
      → selector_matches K (some sel) x.1 ≡ ok m
      → x.1 ≡ l
      → m ≡ matches
  same_match x m h e =
      let both : ok m ≡ ok matches = sym h ∙ ap (selector_matches K (some sel)) e ∙ decided in
      ground arith

  has-put_selected :
      (ns : List (Text × Labels)) (start out : List Text)
      → put_selected K sel ns start ≡ ok out
      → All (λ x. c.get_namespace x.0 ≡ found x.1) ns
      → has n out ≡ (has n start || (any (λ x. x.0 == n) ns && matches))
  unfolding put_selected
  has-put_selected [] start out h k = ground arith
  has-put_selected (x ∷ ns) start out h (e, k) =
      let (match, hm, rest) = >>=-returns (selector_matches K (some sel) x.1) _ h in
      let later = has-put_selected ns (if match then put_key x.0 start else start) out rest k in
      let step = has-put_if n x.0 match start in
      elim (Bool-cases (x.0 == n)) [
        | inr f ↦ later ∙ rw (step, f) (ground arith)
        | inl f ↦
            let same : match ≡ matches = same_match x match hm (same_labels x e f) in
            later ∙ rw (step, f, same) (ground arith)
      ]

listed-decided :
    (K : LabelSelectors) (sel : LabelSelector) (c : Client) (n : Text) (ns : List (Text × Labels))
    (start out : List Text)
    → put_selected K sel ns start ≡ ok out
    → All (λ x. c.get_namespace x.0 ≡ found x.1) ns
    → any (λ x. x.0 == n) ns ≡ true
    → (l : Labels) × (c.get_namespace n ≡ found l)
      × (m : Bool) × (selector_matches K (some sel) l ≡ ok m)
unfolding put_selected
listed-decided K sel c n [] start out h k listed = absurd (ground arith)
listed-decided K sel c n (x ∷ ns) start out h (e, k) listed =
    let (match, hm, rest) = >>=-returns (selector_matches K (some sel) x.1) _ h in
    elim (Bool-cases (x.0 == n)) [
      | inl f ↦ let name : x.0 ≡ n = (eq_iff x.0 n).0 f in (x.1, rw (← name) e, match, hm)
      | inr f ↦ listed-decided K sel c n ns _ out rest k (ground arith)
    ]

namespace_labels-found :
    (c : Client) (n : Text) (l : Labels) → c.get_namespace n ≡ found l → namespace_labels c n ≡ ok l
unfolding namespace_labels
namespace_labels-found c n l h = ground arith

-- Where the namespaces are listed with the labels that a Get of each returns, and the controller finds
-- the authorized namespaces of a credential: a namespace of the list is among them exactly when the
-- pod webhook authorizes the credential in it.
pub authorized_namespaces-authorizes :
    (K : LabelSelectors) (c : Client) (mc : ModelCredential) (ns : List (Text × Labels))
    (out : List Text) (n : Text)
    → authorized_namespaces K (ok ns) mc ≡ ok out
    → All (λ x. c.get_namespace x.0 ≡ found x.1) ns
    → any (λ x. x.0 == n) ns ≡ true
    → (any (λ k. k == n) out ≡ true) ↔ (credential_authorizes K c mc n ≡ ok true)
unfolding authorized_namespaces credential_authorizes
authorized_namespaces-authorizes K c mc ns out n h k listed =
    elim (Option-cases mc.spec.namespace_selector) [
      | inl e ↦
          let put = has-put_all n mc.spec.allowed_namespaces [] in
          let same : put_all mc.spec.allowed_namespaces [] ≡ out = ground arith in
          rw e (rw (← same, put) (ground arith))
      | inr (sel, e) ↦
          let start : List Text = put_all mc.spec.allowed_namespaces [] in
          let run : put_selected K sel ns start ≡ ok out = rw e at h in
          let (l, here, m, decided) = listed-decided K sel c n ns start out run k listed in
          let put = has-put_all n mc.spec.allowed_namespaces [] in
          let selected = has-put_selected K sel c n l m here decided ns start out run k in
          rw (e, namespace_labels-found c n l here, selected, put, listed) (ground (arith, decided))
    ]
