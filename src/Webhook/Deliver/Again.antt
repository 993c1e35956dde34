-- ===== src/Webhook/Deliver/Again.antt =====
-- Injecting a credential a second time.
use token_control.Common.{
  ◌≡◌, ◌∙◌, inl, inr, refl, ap, Bool, true, false, List, [], ◌∷◌, ◌++◌, any, any-append, arith,
  Bool-cases,
}
use token_control.Text.{Text, ◌==◌}
use token_control.Text.Laws.{==_refl}
use token_control.Api.Credential.{InjectionMode, ModelCredential}
use token_control.Webhook.Pod.{EnvVar, VolumeMount, Container, Pod}
use token_control.Webhook.Deliver.{
  has_env, has_volume, has_mount, apply, apply_both, with_env, with_mount, with_volume, env_var,
  mount_of, mode_of, inject_env, inject_volume, deliver, inject_credential,
}

any-last :
    {A : Type 0} (p : A → Bool) (xs : List A) (x : A) → p x ≡ true → any p (xs ++ (x ∷ [])) ≡ true
any-last p xs x h = any-append p xs (x ∷ []) ∙ ground arith

has_env-with_env : (v : EnvVar) (c : Container) → has_env (with_env v c).env v.name ≡ true
unfolding has_env
has_env-with_env v c = any-last (λ e. e.name == v.name) c.env v (==_refl v.name)

has_mount-with_mount :
    (m : VolumeMount) (c : Container) → has_mount (with_mount m c).volume_mounts m.name ≡ true
unfolding has_mount
has_mount-with_mount m c = any-last (λ e. e.name == m.name) c.volume_mounts m (==_refl m.name)

has_volume-with_volume :
    (p : Pod) (name secret_name key : Text)
    → has_volume (with_volume p name secret_name key).volumes name ≡ true
unfolding has_volume
has_volume-with_volume p name secret_name key = elim (Bool-cases (has_volume p.volumes name)) [
  | inl e ↦ rw e e
  | inr e ↦ rw e (any-last (λ v. v.name == name) p.volumes _ (==_refl name))
]

with_volume-again :
    (p : Pod) (name secret_name key : Text)
    → has_volume p.volumes name ≡ true
    → with_volume p name secret_name key ≡ p
with_volume-again p name secret_name key e = rw e refl

module _ (has : Container → Bool) (extend : Container → Container)
    (has-extend : (c : Container) → has (extend c) ≡ true) where
  apply-again :
      (cs : List Container)
      → apply has extend (apply has extend cs).0 ≡ ((apply has extend cs).0, false)
  unfolding apply
  apply-again [] = refl
  apply-again (c ∷ cs) = elim (Bool-cases (has c)) [
    | inl e ↦ rw (e, e, apply-again cs) refl
    | inr e ↦ rw (e, has-extend c, apply-again cs) refl
  ]

  apply_both-again :
      (p : Pod)
      → apply_both has extend (apply_both has extend p).0 ≡ ((apply_both has extend p).0, false)
  unfolding apply_both
  apply_both-again p = rw (apply-again p.containers, apply-again p.init_containers) refl

inject_env-again :
    (p : Pod) (name secret_name key : Text)
    → inject_env (inject_env p name secret_name key).0 name secret_name key
      ≡ ((inject_env p name secret_name key).0, false)
unfolding inject_env
inject_env-again p name secret_name key =
    apply_both-again (λ c. has_env c.env name) (with_env (env_var name secret_name key))
      (has_env-with_env (env_var name secret_name key)) p

apply_both-volumes :
    (has : Container → Bool) (extend : Container → Container) (p : Pod)
    → (apply_both has extend p).0.volumes ≡ p.volumes
unfolding apply_both
apply_both-volumes has extend p = refl

inject_volume-again :
    (p : Pod) (mc : ModelCredential) (secret_name key : Text)
    → inject_volume (inject_volume p mc secret_name key).0 mc secret_name key
      ≡ ((inject_volume p mc secret_name key).0, false)
unfolding inject_volume
inject_volume-again p mc secret_name key =
    let name : Text = (mount_of mc).name in
    let has : Container → Bool = λ c. has_mount c.volume_mounts name in
    let q : Pod = with_volume p name secret_name key in
    let done : Pod = (apply_both has (with_mount (mount_of mc)) q).0 in
    let mounted : has_volume done.volumes name ≡ true =
      ap (λ vs. has_volume vs name) (apply_both-volumes has (with_mount (mount_of mc)) q)
      ∙ has_volume-with_volume p name secret_name key in
    ap (apply_both has (with_mount (mount_of mc)))
      (with_volume-again done name secret_name key mounted)
    ∙ apply_both-again has (with_mount (mount_of mc)) (has_mount-with_mount (mount_of mc)) q

deliver-again :
    (mode : InjectionMode) (p : Pod) (mc : ModelCredential)
    → deliver mode (deliver mode p mc).0 mc ≡ ((deliver mode p mc).0, false)
unfolding deliver
deliver-again InjectionMode.none p mc = refl
deliver-again InjectionMode.projected_volume p mc = inject_volume-again p mc _ _
deliver-again InjectionMode.unset p mc = inject_env-again p _ _ _
deliver-again InjectionMode.env p mc = inject_env-again p _ _ _
deliver-again (InjectionMode.other t) p mc = inject_env-again p _ _ _

-- Injecting a credential into a pod that has had it injected leaves the pod as it is, and reports no
-- change.
pub inject_credential-again :
    (p : Pod) (mc : ModelCredential)
    → inject_credential (inject_credential p mc).0 mc ≡ ((inject_credential p mc).0, false)
unfolding inject_credential
inject_credential-again p mc = deliver-again (mode_of mc.spec.injection) p mc
