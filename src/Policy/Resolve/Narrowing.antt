-- ===== src/Policy/Resolve/Narrowing.antt =====
-- Narrow, never widen: a narrower tier permits no model that the broader tiers refuse.
use token_control.Common.{◌≡◌, ◌∙◌, refl, sym, inl, inr, true, [], none}
use token_control.Common.Result.{ok}
use token_control.Text.{Text}
use token_control.Api.Selector.{LabelSelectors}
use token_control.Policy.Effective.{Effective, permit}
use token_control.Policy.Effective.Permission.{permit-Dropped}
use token_control.Policy.Resolve.{ResolveInput, Selected, select_namespace, assemble, resolve}
use token_control.Policy.Resolve.Assembly.{
  assemble-cluster, assemble-ns, assemble-wl, assemble-ns_rules,
}
use token_control.Policy.Resolve.Selection.{
  resolve-ok, resolve-of_selected, select_namespace-no_identity,
}

-- The scope of a whole namespace, and the scope of the cluster policies alone.
abbrev pub namespace_scope : ResolveInput → ResolveInput
namespace_scope i = record i { pod_labels = none; service_account = [] }

abbrev pub cluster_scope : ResolveInput → ResolveInput
cluster_scope i = record i { namespace_policies = [] }

select_namespace-nil :
    (K : LabelSelectors) (i : ResolveInput)
    → select_namespace K i.pod_labels i.service_account []
      ≡ ok (record { ns_defaults = []; wl_matched = [] })
unfolding select_namespace
select_namespace-nil K i = refl

module _ (K : LabelSelectors) (i : ResolveInput) (provider model : Text) (e : Effective)
    (h : resolve K i ≡ ok e) (allowed : (permit e provider model).allowed ≡ true) where
  -- A model that is permitted for a workload is permitted in its namespace: the input without the
  -- labels and the service account of the workload resolves to a decision that permits it.
  pub permit-workload_narrows :
      (e' : Effective) × (resolve K (namespace_scope i) ≡ ok e')
      × ((permit e' provider model).allowed ≡ true)
  permit-workload_narrows =
      let (cs, sel, hc, hs, same) = resolve-ok K i e h in
      let without : Selected = record { ns_defaults = sel.ns_defaults; wl_matched = [] } in
      (
        assemble cs without,
        resolve-of_selected K (namespace_scope i) hc (
            select_namespace-no_identity K i.pod_labels i.service_account i.namespace_policies sel
              hs),
        permit-Dropped (assemble cs without) (assemble cs sel) provider model
            (inl (assemble-cluster cs without ∙ sym (assemble-cluster cs sel)))
            (inl (assemble-ns cs without ∙ sym (assemble-ns cs sel)))
            (inr (assemble-wl cs sel.ns_defaults)) (rw same allowed),
      )

  -- A model that is permitted in a namespace or for a workload is permitted by the cluster policies
  -- alone: the input without the policies of the namespace resolves to a decision that permits it.
  pub permit-namespace_narrows :
      (e' : Effective) × (resolve K (cluster_scope i) ≡ ok e')
      × ((permit e' provider model).allowed ≡ true)
  permit-namespace_narrows =
      let (cs, sel, hc, hs, same) = resolve-ok K i e h in
      let without : Selected = record { ns_defaults = []; wl_matched = [] } in
      (
        assemble cs without,
        resolve-of_selected K (cluster_scope i) hc (select_namespace-nil K i),
        permit-Dropped (assemble cs without) (assemble cs sel) provider model
            (inl (assemble-cluster cs without ∙ sym (assemble-cluster cs sel)))
            (inr (assemble-ns_rules cs [])) (inr (assemble-wl cs [])) (rw same allowed),
      )
