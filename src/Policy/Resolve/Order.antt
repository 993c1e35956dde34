-- ===== src/Policy/Resolve/Order.antt =====
-- The order in which the policies are listed does not matter.
use mathlib.Core.List.{Permᴰ}
use token_control.Common.{◌≡◌, ◌≢◌, ◌∙◌, sym, refl, ap, true, List, arith, is_nil}
use token_control.Common.Result.{ok}
use token_control.Common.Sort.{sort, Apart, Distinct, Distinct-imp, sort-perm_Distinct}
use token_control.Text.Laws.{before_trans, before_apart}
use token_control.Api.Selector.{LabelSelectors}
use token_control.Api.Policies.{ClusterTokenPolicy, TokenPolicy}
use token_control.Policy.Effective.{Effective}
use token_control.Policy.Apply.{by_name, by_priority, sort_by_priority}
use token_control.Policy.Resolve.{ResolveInput, Selected, apply_all, assemble, resolve}
use token_control.Policy.Resolve.Selection.{resolve-ok, resolve-of_selected}
use token_control.Policy.Resolve.Listing.{
  SameSelected, select_cluster-perm, select_namespace-perm, select_cluster-Distinct,
  select_namespace-Distinct,
}

-- Two cluster policies, or two policies of a namespace, have different names.
abbrev pub OtherName : ClusterTokenPolicy → ClusterTokenPolicy → Type 0
OtherName p q = p.name ≢ q.name

abbrev pub OtherPolicy : TokenPolicy → TokenPolicy → Type 0
OtherPolicy p q = p.name ≢ q.name

pub by_priority_trans :
    (p q r : TokenPolicy) → by_priority p q ≡ true → by_priority q r ≡ true → by_priority p r ≡ true
by_priority_trans p q r h k = ground (arith, before_trans p.name q.name r.name)

pub by_priority-Apart : (p q : TokenPolicy) → OtherPolicy p q → Apart by_priority p q
by_priority-Apart p q n = ground (arith, before_apart p.name q.name n)

by_name-perm :
    {l m : List ClusterTokenPolicy}
    → Permᴰ l m
    → Distinct OtherName l
    → sort by_name l ≡ sort by_name m
by_name-perm {l} p h =
    sort-perm_Distinct by_name (λ x y z. before_trans x.name y.name z.name) p
      (Distinct-imp OtherName (Apart by_name) (λ a b. before_apart a.name b.name) l h)

by_priority-perm :
    {l m : List TokenPolicy}
    → Permᴰ l m
    → Distinct OtherPolicy l
    → sort by_priority l ≡ sort by_priority m
by_priority-perm {l} p h =
    sort-perm_Distinct by_priority by_priority_trans p
      (Distinct-imp OtherPolicy (Apart by_priority) by_priority-Apart l h)

is_nil-perm {ℓ} : {A : Type ℓ} {l m : List A} → Permᴰ l m → is_nil l ≡ is_nil m
is_nil-perm Permᴰ.nil = refl
is_nil-perm (Permᴰ.cons e p) = refl
is_nil-perm (Permᴰ.swap e f) = refl
is_nil-perm (Permᴰ.trans p q) = is_nil-perm p ∙ is_nil-perm q

assemble-perm :
    (cs ds : List ClusterTokenPolicy) (s t : Selected)
    → Permᴰ cs ds
    → SameSelected s t
    → Distinct OtherName cs
    → Distinct OtherPolicy s.ns_defaults
    → Distinct OtherPolicy s.wl_matched
    → assemble cs s ≡ assemble ds t
unfolding assemble apply_all sort_by_priority
assemble-perm cs ds s t p (pn, pw) hc hn hw = rw (
  by_name-perm p hc,
  by_priority-perm pn hn,
  by_priority-perm pw hw,
  is_nil-perm p,
  is_nil-perm pn,
  is_nil-perm pw,
)

-- The order in which the policies are listed does not matter: if the input resolves, then the input
-- with its cluster policies and the policies of its namespace listed in another order resolves to the
-- same decision, provided that no two cluster policies share a name and no two policies of the
-- namespace do.
pub resolve-perm :
    (K : LabelSelectors) (i : ResolveInput) (e : Effective)
    (cluster_policies : List ClusterTokenPolicy) (namespace_policies : List TokenPolicy)
    → Permᴰ i.cluster_policies cluster_policies
    → Permᴰ i.namespace_policies namespace_policies
    → Distinct OtherName i.cluster_policies
    → Distinct OtherPolicy i.namespace_policies
    → resolve K i ≡ ok e
    → resolve K
        (record i { cluster_policies = cluster_policies; namespace_policies = namespace_policies })
      ≡ ok e
resolve-perm K i e cps nps pc pn dc dn h =
    let (cs, s, hc, hs, same) = resolve-ok K i e h in
    let (ds, hd, pd) = select_cluster-perm K i.namespace_labels pc cs hc in
    let (t, ht, pt) = select_namespace-perm K i.pod_labels i.service_account pn s hs in
    let (un, uw) =
      select_namespace-Distinct K i.pod_labels i.service_account OtherPolicy i.namespace_policies s
        hs dn in
    let listed : ResolveInput = record i { cluster_policies = cps; namespace_policies = nps } in
    resolve-of_selected K listed hd ht
    ∙ ap ok (
        sym (
          assemble-perm cs ds s t pd pt
            (select_cluster-Distinct K i.namespace_labels OtherName i.cluster_policies cs hc dc) un
            uw)
        ∙ same)
