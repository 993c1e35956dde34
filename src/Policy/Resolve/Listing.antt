-- ===== src/Policy/Resolve/Listing.antt =====
-- The selections of `Resolve` on a permuted list: what is selected is permuted.
use mathlib.Core.List.{Permᴰ}
use mathlib.Core.List.Permᴰ
use token_control.Common.{
  ◌≡◌, refl, Bool, true, false, List, [], ◌∷◌, Option, none, some, arith, if◌then◌else◌,
}
use token_control.Common.Result.{ok}
use token_control.Common.Sort.{Distinct, All-imp}
use token_control.Text.{Text}
use token_control.Api.Selector.{Labels, LabelSelectors}
use token_control.Api.Policies.{ClusterTokenPolicy, TokenPolicy}
use token_control.Policy.Selector.{selector_matches}
use token_control.Policy.Apply.{Level, namespace, workload}
use token_control.Policy.Resolve.{
  Selected, select_cluster, classify, select_namespace, add_selected,
}
use token_control.Policy.Resolve.Selection.{select_cluster-cons, select_namespace-cons}
use token_control.Policy.Resolve.Budget.{select_cluster-All, select_namespace-All}

module _ (K : LabelSelectors) (labels : Labels) where
  select_cluster-of_cons :
      (m : Bool) (p : ClusterTokenPolicy) (ps rest : List ClusterTokenPolicy)
      → selector_matches K p.spec.namespace_selector labels ≡ ok m
      → select_cluster K labels ps ≡ ok rest
      → select_cluster K labels (p ∷ ps) ≡ ok (if m then p ∷ rest else rest)
  unfolding select_cluster
  select_cluster-of_cons m p ps rest h k = rw (h, k)

  if-perm :
      (m : Bool) (p q : ClusterTokenPolicy) {l l' : List ClusterTokenPolicy}
      → p ≡ q
      → Permᴰ l l'
      → Permᴰ (if m then p ∷ l else l) (if m then q ∷ l' else l')
  if-perm true p q e d = Permᴰ.cons e d
  if-perm false p q e d = d

  if-swap :
      (m n : Bool) (p q : ClusterTokenPolicy) (l : List ClusterTokenPolicy)
      → Permᴰ
          (if m then p ∷ (if n then q ∷ l else l) else (if n then q ∷ l else l))
          (if n then q ∷ (if m then p ∷ l else l) else (if m then p ∷ l else l))
  if-swap true true p q l = Permᴰ.swap refl refl
  if-swap true false p q l = Permᴰ.refl (p ∷ l)
  if-swap false true p q l = Permᴰ.refl (q ∷ l)
  if-swap false false p q l = Permᴰ.refl l

  pub select_cluster-perm :
      {ps qs : List ClusterTokenPolicy}
      → Permᴰ ps qs
      → (cs : List ClusterTokenPolicy) → select_cluster K labels ps ≡ ok cs
      → (ds : List ClusterTokenPolicy) × (select_cluster K labels qs ≡ ok ds) × Permᴰ cs ds
  select_cluster-perm Permᴰ.nil cs h = (cs, h, Permᴰ.refl cs)
  select_cluster-perm (Permᴰ.cons {a = p} {b = q} {l₁ = ps} {l₂ = qs} e d) cs h =
      let (m, rest, hm, hr, same) = select_cluster-cons K labels p ps cs h in
      let (rest', hr', d') = select_cluster-perm d rest hr in
      (
        if m then q ∷ rest' else rest',
        select_cluster-of_cons m q qs rest' (rw (← e) hm) hr',
        rw (← same) (if-perm m p q e d'),
      )
  select_cluster-perm (Permᴰ.swap {a = p} {b = q} {a' = q'} {b' = p'} {l = l} e f) cs h =
      let (m, rest, hm, hr, same) = select_cluster-cons K labels p (q ∷ l) cs h in
      let (n, rest', hn, hr', same') = select_cluster-cons K labels q l rest hr in
      (
        if n then q' ∷ (if m then p' ∷ rest' else rest') else (if m then p' ∷ rest' else rest'),
        select_cluster-of_cons n q' (p' ∷ l) _ (rw (← f) hn)
            (select_cluster-of_cons m p' l rest' (rw (← e) hm) hr'),
        rw (← same, ← same', ← e, ← f) (if-swap m n p q rest'),
      )
  select_cluster-perm (Permᴰ.trans d d') cs h =
      let (ds, hd, p) = select_cluster-perm d cs h in
      let (es, he, q) = select_cluster-perm d' ds hd in (es, he, Permᴰ.trans p q)

  pub select_cluster-Distinct :
      (R : ClusterTokenPolicy → ClusterTokenPolicy → Type 0) (ps cs : List ClusterTokenPolicy)
      → select_cluster K labels ps ≡ ok cs
      → Distinct R ps
      → Distinct R cs
  unfolding select_cluster
  select_cluster-Distinct R [] cs h d = let e : cs ≡ [] = ground arith in rw e tt
  select_cluster-Distinct R (p ∷ ps) cs h (a, d) =
      let (m, rest, hm, hr, same) = select_cluster-cons K labels p ps cs h in
      rw (← same) (keep m rest hr (select_cluster-Distinct R ps rest hr d))
    where
      keep :
          (m : Bool) (rest : List ClusterTokenPolicy)
          → select_cluster K labels ps ≡ ok rest
          → Distinct R rest
          → Distinct R (if m then p ∷ rest else rest)
      keep true rest hr k =
          ((select_cluster-All K (R p) labels ps rest hr).1 (All-imp (R p) _ (λ q r _. r) ps a), k)
      keep false rest hr k = k

-- Two selections with the same policies in each tier, in any order.
abbrev pub SameSelected : Selected → Selected → Type 0
SameSelected s t = Permᴰ s.ns_defaults t.ns_defaults × Permᴰ s.wl_matched t.wl_matched

module _ (K : LabelSelectors) (pod_labels : Option Labels) (sa : Text) where
  select_namespace-of_cons :
      (l : Option Level) (p : TokenPolicy) (ps : List TokenPolicy) (rest : Selected)
      → classify K pod_labels sa p ≡ ok l
      → select_namespace K pod_labels sa ps ≡ ok rest
      → select_namespace K pod_labels sa (p ∷ ps) ≡ ok (add_selected l p rest)
  unfolding select_namespace
  select_namespace-of_cons l p ps rest h k = rw (h, k)

  add_selected-perm :
      (l : Option Level) (p q : TokenPolicy) (s t : Selected)
      → p ≡ q
      → SameSelected s t
      → SameSelected (add_selected l p s) (add_selected l q t)
  add_selected-perm none p q s t e d = d
  add_selected-perm (some namespace) p q s t e d = (Permᴰ.cons e d.0, d.1)
  add_selected-perm (some workload) p q s t e d = (d.0, Permᴰ.cons e d.1)

  add_selected-swap :
      (l m : Option Level) (p q : TokenPolicy) (s : Selected)
      → SameSelected (add_selected l p (add_selected m q s)) (add_selected m q (add_selected l p s))
  add_selected-swap none m p q s = (Permᴰ.refl _, Permᴰ.refl _)
  add_selected-swap (some namespace) none p q s = (Permᴰ.refl _, Permᴰ.refl _)
  add_selected-swap (some namespace) (some namespace) p q s = (Permᴰ.swap refl refl, Permᴰ.refl _)
  add_selected-swap (some namespace) (some workload) p q s = (Permᴰ.refl _, Permᴰ.refl _)
  add_selected-swap (some workload) none p q s = (Permᴰ.refl _, Permᴰ.refl _)
  add_selected-swap (some workload) (some namespace) p q s = (Permᴰ.refl _, Permᴰ.refl _)
  add_selected-swap (some workload) (some workload) p q s = (Permᴰ.refl _, Permᴰ.swap refl refl)

  pub select_namespace-perm :
      {ps qs : List TokenPolicy}
      → Permᴰ ps qs
      → (s : Selected) → select_namespace K pod_labels sa ps ≡ ok s
      → (t : Selected) × (select_namespace K pod_labels sa qs ≡ ok t) × SameSelected s t
  select_namespace-perm Permᴰ.nil s h = (s, h, (Permᴰ.refl _, Permᴰ.refl _))
  select_namespace-perm (Permᴰ.cons {a = p} {b = q} {l₁ = ps} {l₂ = qs} e d) s h =
      let (l, rest, hl, hr, same) = select_namespace-cons K pod_labels sa p ps s h in
      let (rest', hr', d') = select_namespace-perm d rest hr in
      (
        add_selected l q rest',
        select_namespace-of_cons l q qs rest' (rw (← e) hl) hr',
        rw (← same) (add_selected-perm l p q rest rest' e d'),
      )
  select_namespace-perm (Permᴰ.swap {a = p} {b = q} {a' = q'} {b' = p'} {l = ps} e f) s h =
      let (l, rest, hl, hr, same) = select_namespace-cons K pod_labels sa p (q ∷ ps) s h in
      let (m, rest', hm, hr', same') = select_namespace-cons K pod_labels sa q ps rest hr in
      (
        add_selected m q' (add_selected l p' rest'),
        select_namespace-of_cons m q' (p' ∷ ps) (add_selected l p' rest') (rw (← f) hm)
            (select_namespace-of_cons l p' ps rest' (rw (← e) hl) hr'),
        rw (← same, ← same', ← e, ← f) (add_selected-swap l m p q rest'),
      )
  select_namespace-perm (Permᴰ.trans d d') s h =
      let (t, ht, (n, w)) = select_namespace-perm d s h in
      let (u, hu, (n', w')) = select_namespace-perm d' t ht in
      (u, hu, (Permᴰ.trans n n', Permᴰ.trans w w'))

  pub select_namespace-Distinct :
      (R : TokenPolicy → TokenPolicy → Type 0) (ps : List TokenPolicy) (s : Selected)
      → select_namespace K pod_labels sa ps ≡ ok s
      → Distinct R ps
      → Distinct R s.ns_defaults × Distinct R s.wl_matched
  unfolding select_namespace
  select_namespace-Distinct R [] s h d =
      let e : s ≡ record { ns_defaults = []; wl_matched = [] } = ground arith in rw e (tt, tt)
  select_namespace-Distinct R (p ∷ ps) s h (a, d) =
      let (l, rest, hl, hr, same) = select_namespace-cons K pod_labels sa p ps s h in
      rw (← same) (keep l rest hr (select_namespace-Distinct R ps rest hr d))
    where
      keep :
          (l : Option Level) (rest : Selected)
          → select_namespace K pod_labels sa ps ≡ ok rest
          → Distinct R rest.ns_defaults × Distinct R rest.wl_matched
          → Distinct R (add_selected l p rest).ns_defaults
            × Distinct R (add_selected l p rest).wl_matched
      keep none rest hr k = k
      keep (some namespace) rest hr k = (
        (
          ((select_namespace-All K (R p) pod_labels sa ps rest hr).1
              (All-imp (R p) _ (λ q r _. r) ps a)).0,
          k.0,
        ),
        k.1,
      )
      keep (some workload) rest hr k = (
        k.0,
        (
          ((select_namespace-All K (R p) pod_labels sa ps rest hr).1
              (All-imp (R p) _ (λ q r _. r) ps a)).1,
          k.1,
        ),
      )
