-- ===== src/Webhook/Deliver/Kept.antt =====
-- What `injectCredential` leaves as it is.
use token_control.Common.{
  ◌≡◌, ◌∙◌, sym, ap, refl, inl, inr, Bool, true, false, not, List, [], ◌∷◌, ◌++◌, any, is_nil,
  filterb, filterb-left, arith, Bool-cases,
}
use token_control.Text.{Text, ◌==◌}
use token_control.Text.Laws.{eq_iff}
use token_control.Api.Credential.{InjectionMode, ModelCredential}
use token_control.Webhook.Pod.{secret, EnvVar, VolumeMount, Container, Pod}
use token_control.Webhook.Deliver.{
  has_env, has_volume, has_mount, apply, apply_both, with_env, with_mount, with_volume, env_var,
  mount_of, mode_of, inject_env, inject_volume, deliver, inject_credential,
}

abbrev named : {A : Type 0} → (A → Text) → Text → A → Bool
named name n x = name x == n

-- The elements under each name that the first list has are the same in the second, in order: none is
-- lost, none is changed, and none is added.
abbrev pub SameNamed : {A : Type 0} → (A → Text) → List A → List A → Type 0
SameNamed name xs ys =
    (n : Text)
    → any (named name n) xs ≡ true
    → filterb (named name n) ys ≡ filterb (named name n) xs

module _ {A : Type 0} (name : A → Text) where
  SameNamed-refl : (xs : List A) → SameNamed name xs xs
  SameNamed-refl xs n h = refl

  any-filterb : (p : A → Bool) (xs : List A) → any p xs ≡ not (is_nil (filterb p xs))
  any-filterb p [] = refl
  any-filterb p (x ∷ xs) = ground (arith, any-filterb p xs)

  SameNamed-trans :
      (xs ys zs : List A) → SameNamed name xs ys → SameNamed name ys zs → SameNamed name xs zs
  SameNamed-trans xs ys zs h k n m =
      let there : any (named name n) ys ≡ true =
        any-filterb (named name n) ys
        ∙ (ap (λ l. not (is_nil l)) (h n m) ∙ (sym (any-filterb (named name n) xs) ∙ m)) in
      k n there ∙ h n m

  filterb-last :
      (p : A → Bool) (x : A) (xs : List A) → p x ≡ false → filterb p (xs ++ (x ∷ [])) ≡ filterb p xs
  filterb-last p x [] h = filterb-left p x [] h
  filterb-last p x (y ∷ xs) h = ground (arith, filterb-last p x xs h)

  -- An element is added under a name that the list does not have.
  SameNamed-last :
      (x : A) (xs : List A)
      → any (named name (name x)) xs ≡ false
      → SameNamed name xs (xs ++ (x ∷ []))
  SameNamed-last x xs new n h = elim (Bool-cases (name x == n)) [
    | inr e ↦ filterb-last (named name n) x xs e
    | inl e ↦
        let same : name x ≡ n = (eq_iff (name x) n).0 e in
        let had : any (named name (name x)) xs ≡ true = rw same h in absurd (ground arith)
  ]

-- The variables and the mounts of a container under each name that it has are the same in another.
abbrev pub Keeps : Container → Container → Type 0
Keeps c d =
    SameNamed (λ e. e.name) c.env d.env × SameNamed (λ m. m.name) c.volume_mounts d.volume_mounts

-- The same containers, each with what it had.
abbrev pub EachKeeps : List Container → List Container → Type 0
EachKeeps [] [] = Unit
EachKeeps [] (d ∷ ds) = ⊥
EachKeeps (c ∷ cs) [] = ⊥
EachKeeps (c ∷ cs) (d ∷ ds) = Keeps c d × EachKeeps cs ds

-- The volumes of a pod, and the variables and the mounts of each of its containers, under each name
-- that there is, are the same in another.
abbrev pub PodKeeps : Pod → Pod → Type 0
PodKeeps p q =
    SameNamed (λ v. v.name) p.volumes q.volumes
    × EachKeeps p.containers q.containers
    × EachKeeps p.init_containers q.init_containers

Keeps-refl : (c : Container) → Keeps c c
Keeps-refl c = (λ n h. refl, λ n h. refl)

EachKeeps-refl : (cs : List Container) → EachKeeps cs cs
EachKeeps-refl [] = tt
EachKeeps-refl (c ∷ cs) = (Keeps-refl c, EachKeeps-refl cs)

EachKeeps-trans : (a b c : List Container) → EachKeeps a b → EachKeeps b c → EachKeeps a c
EachKeeps-trans [] [] [] h k = tt
EachKeeps-trans [] [] (z ∷ c) h k = k
EachKeeps-trans [] (y ∷ b) c h k = absurd h
EachKeeps-trans (x ∷ a) [] c h k = absurd h
EachKeeps-trans (x ∷ a) (y ∷ b) [] h k = k
EachKeeps-trans (x ∷ a) (y ∷ b) (z ∷ c) (p, h) (q, k) = (
  (
    SameNamed-trans (λ e. e.name) x.env y.env z.env p.0 q.0,
    SameNamed-trans (λ m. m.name) x.volume_mounts y.volume_mounts z.volume_mounts p.1 q.1,
  ),
  EachKeeps-trans a b c h k,
)

pub PodKeeps-refl : (p : Pod) → PodKeeps p p
PodKeeps-refl p = (λ n h. refl, EachKeeps-refl p.containers, EachKeeps-refl p.init_containers)

pub PodKeeps-trans : (p q r : Pod) → PodKeeps p q → PodKeeps q r → PodKeeps p r
PodKeeps-trans p q r h k = (
  SameNamed-trans (λ v. v.name) p.volumes q.volumes r.volumes h.0 k.0,
  EachKeeps-trans p.containers q.containers r.containers h.1 k.1,
  EachKeeps-trans p.init_containers q.init_containers r.init_containers h.2 k.2,
)

module _ (has : Container → Bool) (extend : Container → Container)
    (keeps : (c : Container) → has c ≡ false → Keeps c (extend c)) where
  apply-EachKeeps : (cs : List Container) → EachKeeps cs (apply has extend cs).0
  unfolding apply
  apply-EachKeeps [] = tt
  apply-EachKeeps (c ∷ cs) = elim (Bool-cases (has c)) [
    | inl e ↦ rw e (Keeps-refl c, apply-EachKeeps cs)
    | inr e ↦ rw e (keeps c e, apply-EachKeeps cs)
  ]

  apply_both-PodKeeps : (p : Pod) → PodKeeps p (apply_both has extend p).0
  unfolding apply_both
  apply_both-PodKeeps p =
      (λ n h. refl, apply-EachKeeps p.containers, apply-EachKeeps p.init_containers)

with_env-Keeps :
    (v : EnvVar) (c : Container) → has_env c.env v.name ≡ false → Keeps c (with_env v c)
unfolding has_env
with_env-Keeps v c new = (SameNamed-last (λ e. e.name) v c.env new, λ n h. refl)

with_mount-Keeps :
    (m : VolumeMount) (c : Container)
    → has_mount c.volume_mounts m.name ≡ false
    → Keeps c (with_mount m c)
unfolding has_mount
with_mount-Keeps m c new = (λ n h. refl, SameNamed-last (λ k. k.name) m c.volume_mounts new)

with_volume-PodKeeps :
    (p : Pod) (name secret_name key : Text) → PodKeeps p (with_volume p name secret_name key)
unfolding has_volume
with_volume-PodKeeps p name secret_name key = elim (Bool-cases (has_volume p.volumes name)) [
  | inl e ↦ rw e (PodKeeps-refl p)
  | inr e ↦ rw e (
    SameNamed-last (λ v. v.name) (record { name = name; source = secret secret_name key }) p.volumes
        e,
    EachKeeps-refl p.containers,
    EachKeeps-refl p.init_containers,
  )
]

inject_env-PodKeeps :
    (p : Pod) (name secret_name key : Text) → PodKeeps p (inject_env p name secret_name key).0
unfolding inject_env
inject_env-PodKeeps p name secret_name key =
    apply_both-PodKeeps (λ c. has_env c.env name) (with_env (env_var name secret_name key))
      (with_env-Keeps (env_var name secret_name key)) p

inject_volume-PodKeeps :
    (p : Pod) (mc : ModelCredential) (secret_name key : Text)
    → PodKeeps p (inject_volume p mc secret_name key).0
unfolding inject_volume
inject_volume-PodKeeps p mc secret_name key =
    let q : Pod = with_volume p (mount_of mc).name secret_name key in
    PodKeeps-trans p q (inject_volume p mc secret_name key).0
      (with_volume-PodKeeps p (mount_of mc).name secret_name key)
      (apply_both-PodKeeps (λ c. has_mount c.volume_mounts (mount_of mc).name)
        (with_mount (mount_of mc)) (with_mount-Keeps (mount_of mc)) q)

deliver-PodKeeps :
    (mode : InjectionMode) (p : Pod) (mc : ModelCredential) → PodKeeps p (deliver mode p mc).0
unfolding deliver
deliver-PodKeeps InjectionMode.none p mc = PodKeeps-refl p
deliver-PodKeeps InjectionMode.projected_volume p mc = inject_volume-PodKeeps p mc _ _
deliver-PodKeeps InjectionMode.unset p mc = inject_env-PodKeeps p _ _ _
deliver-PodKeeps InjectionMode.env p mc = inject_env-PodKeeps p _ _ _
deliver-PodKeeps (InjectionMode.other t) p mc = inject_env-PodKeeps p _ _ _

pub inject_credential-PodKeeps :
    (p : Pod) (mc : ModelCredential) → PodKeeps p (inject_credential p mc).0
unfolding inject_credential
inject_credential-PodKeeps p mc = deliver-PodKeeps (mode_of mc.spec.injection) p mc
