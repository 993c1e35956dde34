-- ===== src/Policy/Apply/Fields.antt =====
-- What one round of each loop does to the fields that the loop does not own, and the rules and the
-- quota after all rounds.
use token_control.Common.{◌≡◌, refl, ◌∙◌, ◌↔◌, List, [], ◌∷◌, All}
use token_control.Api.{TokenQuota}
use token_control.Api.Policies.{ClusterTokenPolicy, TokenPolicy}
use token_control.Common.{Option}
use token_control.Policy.Quota.Limits.{Tighter, Tighter-min_quota}
use token_control.Policy.Apply.{
  State, Level, namespace, workload, apply_cluster, apply_namespace_tier, apply_each,
}

-- A part of the state that every round leaves alone is as before.
pub apply_each-keeps :
    {A B : Type 0} (f : State → A → State) (part : State → B)
    → ((s : State) (x : A) → part (f s x) ≡ part s)
    → (s : State) (xs : List A) → part (apply_each f s xs) ≡ part s
unfolding apply_each
apply_each-keeps f part keep s [] = refl
apply_each-keeps f part keep s (x ∷ xs) = apply_each-keeps f part keep (f s x) xs ∙ keep s x

pub workload-keeps_cluster :
    (s : State) (p : TokenPolicy) → (apply_namespace_tier workload s p).eff.cluster ≡ s.eff.cluster
unfolding apply_namespace_tier
workload-keeps_cluster s p = refl

pub workload-keeps_ns :
    (s : State) (p : TokenPolicy) → (apply_namespace_tier workload s p).eff.ns ≡ s.eff.ns
unfolding apply_namespace_tier
workload-keeps_ns s p = refl

pub namespace-keeps_cluster :
    (s : State) (p : TokenPolicy) → (apply_namespace_tier namespace s p).eff.cluster ≡ s.eff.cluster
unfolding apply_namespace_tier
namespace-keeps_cluster s p = refl

pub namespace-keeps_wl :
    (s : State) (p : TokenPolicy) → (apply_namespace_tier namespace s p).eff.wl ≡ s.eff.wl
unfolding apply_namespace_tier
namespace-keeps_wl s p = refl

pub cluster-keeps_ns : (s : State) (p : ClusterTokenPolicy) → (apply_cluster s p).eff.ns ≡ s.eff.ns
unfolding apply_cluster
cluster-keeps_ns s p = refl

pub cluster-keeps_wl : (s : State) (p : ClusterTokenPolicy) → (apply_cluster s p).eff.wl ≡ s.eff.wl
unfolding apply_cluster
cluster-keeps_wl s p = refl

-- Where every round takes in the quota of its policy, the quota is the greatest bound of all.
pub apply_each-Tighter :
    {A : Type 0} (f : State → A → State) (quota : A → Option TokenQuota) (c : Option TokenQuota)
    → ((s : State) (x : A)
        → Tighter c (f s x).eff.quota ↔ (Tighter c s.eff.quota × Tighter c (quota x)))
    → (s : State) (xs : List A)
    → Tighter c (apply_each f s xs).eff.quota
      ↔ (Tighter c s.eff.quota × All (λ x. Tighter c (quota x)) xs)
unfolding apply_each
apply_each-Tighter f quota c one s [] = (λ h. (h, tt), λ h. h.0)
apply_each-Tighter f quota c one s (x ∷ xs) = (
  λ h.
      let (now, later) = (apply_each-Tighter f quota c one (f s x) xs).0 h in
      let (old, new) = (one s x).0 now in (old, (new, later)),
  λ (old, new). (apply_each-Tighter f quota c one (f s x) xs).1 ((one s x).1 (old, new.0), new.1),
)

pub cluster-Tighter :
    (c : Option TokenQuota) (s : State) (p : ClusterTokenPolicy)
    → Tighter c (apply_cluster s p).eff.quota ↔ (Tighter c s.eff.quota × Tighter c p.spec.quota)
unfolding apply_cluster
cluster-Tighter c s p = Tighter-min_quota c s.eff.quota p.spec.quota

pub namespace-Tighter :
    (level : Level) (c : Option TokenQuota) (s : State) (p : TokenPolicy)
    → Tighter c (apply_namespace_tier level s p).eff.quota
      ↔ (Tighter c s.eff.quota × Tighter c p.spec.quota)
unfolding apply_namespace_tier
namespace-Tighter namespace c s p = Tighter-min_quota c s.eff.quota p.spec.quota
namespace-Tighter workload c s p = Tighter-min_quota c s.eff.quota p.spec.quota
