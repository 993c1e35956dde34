-- ===== src/Controller/Replication/Keys.antt =====
-- The map that `authorizedNamespaces` returns has each key once.
use token_control.Common.{
  ◌≡◌, inl, inr, Bool, true, false, List, [], ◌∷◌, some, any, All, arith, Bool-cases, Option-cases,
  if◌then◌else◌,
}
use token_control.Common.Sort.{Distinct}
use token_control.Common.Result.{Result, ok, >>=-returns}
use token_control.Text.{Text, ◌==◌}
use token_control.Text.Laws.{eq_iff, ==_refl, OtherText}
use token_control.Api.Selector.{Labels, LabelSelector, LabelSelectors}
use token_control.Api.Credential.{ModelCredential}
use token_control.Policy.Selector.{selector_matches}
use token_control.Controller.Replication.{put_key, put_all, put_selected, authorized_namespaces}

absent-OtherText :
    (n : Text) (out : List Text) → any (λ k. k == n) out ≡ false → All (OtherText n) out
absent-OtherText n [] h = tt
absent-OtherText n (k ∷ out) h = elim (Bool-cases (n == k)) [
  | inr e ↦ (e, absent-OtherText n out (ground arith))
  | inl e ↦ let same : n ≡ k = (eq_iff n k).0 e in absurd (ground (arith, ==_refl n, rw same at h))
]

put_key-Distinct :
    (n : Text) (out : List Text) → Distinct OtherText out → Distinct OtherText (put_key n out)
unfolding put_key
put_key-Distinct n out d = elim (Bool-cases (any (λ k. k == n) out)) [
  | inl e ↦ rw e d
  | inr e ↦ rw e (absent-OtherText n out e, d)
]

put_all-Distinct :
    (ns out : List Text) → Distinct OtherText out → Distinct OtherText (put_all ns out)
unfolding put_all
put_all-Distinct [] out d = d
put_all-Distinct (n ∷ ns) out d = put_all-Distinct ns (put_key n out) (put_key-Distinct n out d)

put_if-Distinct :
    (b : Bool) (n : Text) (out : List Text)
    → Distinct OtherText out
    → Distinct OtherText (if b then put_key n out else out)
put_if-Distinct true n out d = put_key-Distinct n out d
put_if-Distinct false n out d = d

put_selected-Distinct :
    (K : LabelSelectors) (sel : LabelSelector) (ns : List (Text × Labels)) (start out : List Text)
    → put_selected K sel ns start ≡ ok out
    → Distinct OtherText start
    → Distinct OtherText out
unfolding put_selected
put_selected-Distinct K sel [] start out h d =
    let same : start ≡ out = ground arith in rw (← same) d
put_selected-Distinct K sel (x ∷ ns) start out h d =
    let (match, _, rest) = >>=-returns (selector_matches K (some sel) x.1) _ h in
    put_selected-Distinct K sel ns _ out rest (put_if-Distinct match x.0 start d)

pub authorized_namespaces-Distinct :
    (K : LabelSelectors) (listed : Result Text (List (Text × Labels))) (mc : ModelCredential)
    (out : List Text)
    → authorized_namespaces K listed mc ≡ ok out
    → Distinct OtherText out
unfolding authorized_namespaces
authorized_namespaces-Distinct K listed mc out h = elim (Option-cases mc.spec.namespace_selector) [
  | inl e ↦
      let same : put_all mc.spec.allowed_namespaces [] ≡ out = ground arith in
      rw (← same) (put_all-Distinct mc.spec.allowed_namespaces [] tt)
  | inr (sel, e) ↦
      let (ns, _, run) = >>=-returns listed _ (rw (e, authorized_namespaces) at h) in
      put_selected-Distinct K sel ns _ out run (put_all-Distinct mc.spec.allowed_namespaces [] tt)
]
