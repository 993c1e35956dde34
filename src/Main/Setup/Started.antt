-- ===== src/Main/Setup/Started.antt =====
-- How the process starts.
use mathlib.Core.List.{append_assoc}
use token_control.Common.{
  ◌≡◌, ◌⊎◌, ◌∙◌, inl, inr, refl, ap, sym, Bool, true, false, List, [], ◌∷◌, ◌++◌, map, Option, none,
  some, if◌then◌else◌,
}
use token_control.Text.{Text, codes}
use token_control.Main.{Flags, config_of}
use token_control.Controller.Watches.{ObjectKind}
use token_control.Main.Setup.{
  Call, new_manager, new_client, complete_controller, complete_webhook, add_healthz, add_readyz,
  start, ping, webhook_started, WebhookSetup, ControllerSetup, Reconciler, Setup, Manager, ◌>>◌,
  done, call, when, exit_code, set_up_webhooks, set_up, manager_options, main,
}

-- A controller for each custom resource, which also runs on the changes of the kinds that are listed.
abbrev controllers : Text → List ControllerSetup
controllers operator_namespace =
    record {
      reconciler = Reconciler.token_policy_reconciler;
      object = ObjectKind.token_policy;
      watched = ObjectKind.cluster_token_policy ∷ ObjectKind.model_credential ∷ [];
      name = codes "tokenpolicy";
    }
    ∷ record {
      reconciler = Reconciler.cluster_token_policy_reconciler;
      object = ObjectKind.cluster_token_policy;
      watched = ObjectKind.namespace ∷ [];
      name = codes "clustertokenpolicy";
    }
    ∷ record {
      reconciler = Reconciler.model_credential_reconciler operator_namespace;
      object = ObjectKind.model_credential;
      watched = ObjectKind.namespace ∷ [];
      name = codes "modelcredential";
    }
    ∷ record {
      reconciler = Reconciler.model_claim_reconciler;
      object = ObjectKind.model_claim;
      watched =
          ObjectKind.cluster_token_policy ∷ ObjectKind.token_policy ∷ ObjectKind.model_credential
          ∷ ObjectKind.namespace ∷ [];
      name = codes "modelclaim";
    }
    ∷ []

abbrev webhooks : Flags → List WebhookSetup
webhooks f =
    WebhookSetup.cluster_token_policy_validator
    ∷ WebhookSetup.token_policy_validator
    ∷ WebhookSetup.model_credential_validator f.operator_namespace
    ∷ WebhookSetup.model_claim_validator
    ∷ WebhookSetup.pod_validator_and_defaulter (config_of f.operator_namespace f.exempt_namespaces)
    ∷ []

-- The controllers, the webhooks where they are enabled, the two checks, and last the start.
abbrev pub plan : Flags → List Call
plan f =
    new_manager (manager_options f)
      ∷ new_client
      ∷ map complete_controller (controllers f.operator_namespace)
    ++ ((if f.enable_webhooks then map complete_webhook (webhooks f) else [])
        ++ (add_healthz ping
            ∷ add_readyz (if f.enable_webhooks then webhook_started else ping)
            ∷ start
            ∷ []))

module _ {S : Type 0} (M : Manager S) where
  -- The calls are made in order, and none returns an error.
  abbrev pub Performs : List Call → S → S → Type 0
  Performs [] s s' = s ≡ s'
  Performs (c ∷ cs) s s' = (t : S) × (M.perform s c ≡ (t, none)) × Performs cs t s'

  -- All calls of the list are made, or they are made up to the first that returns an error.
  abbrev pub Stops : List Call → S → S → Option Text → Type 0
  Stops cs s s' error =
      ((error ≡ none) × Performs cs s s')
      ⊎ ((before : List Call) × (c : Call) × (after : List Call) × (t : S) × (e : Text) × (cs
            ≡ before ++ c ∷ after)
          × Performs before s t
          × (M.perform t c ≡ (s', some e))
          × (error ≡ some e))

  Performs-append :
      (cs ds : List Call) (s t u : S) → Performs cs s t → Performs ds t u → Performs (cs ++ ds) s u
  Performs-append [] ds s t u h k = rw h k
  Performs-append (c ∷ cs) ds s t u (v, same, h) k = (v, same, Performs-append cs ds v t u h k)

  -- The code makes the calls of the list.
  abbrev Makes : Setup S → List Call → Type 0
  Makes m cs = (s : S) → Stops cs s (m s).0 (m s).1

  done-Makes : Makes done []
  done-Makes s = inl (refl, refl)

  call_Stops :
      (c : Call) (s s' : S) (error : Option Text)
      → M.perform s c ≡ (s', error)
      → Stops (c ∷ []) s s' error
  call_Stops c s s' none h = inl (refl, (s', h, refl))
  call_Stops c s s' (some e) h = inr ([], c, [], s, e, refl, refl, h, refl)

  call-Makes : (c : Call) → Makes (call M c) (c ∷ [])
  call-Makes c s = call_Stops c s (M.perform s c).0 (M.perform s c).1 refl

  next_Stops :
      (n : Setup S) (cs ds : List Call) (s s' : S) (error : Option Text)
      → Stops cs s s' error
      → Makes n ds
      → let r : S × Option Text = elim error [ none ↦ n s' | some e ↦ (s', some e) ] in
        Stops (cs ++ ds) s r.0 r.1
  next_Stops n cs ds s s' none (inl (same, h)) k = elim (k s') [
    | inl (none_left, p) ↦ inl (none_left, Performs-append cs ds s s' (n s').0 h p)
    | inr (before, c, after, t, e, split, p, failed, given) ↦ inr (
      cs ++ before,
      c,
      after,
      t,
      e,
      ap (λ l. cs ++ l) split ∙ sym (append_assoc cs before (c ∷ after)),
      Performs-append cs before s s' t h p,
      failed,
      given,
    )
  ]
  next_Stops n cs ds s s' none (inr (before, c, after, t, e, split, p, failed, given)) k = cc
  next_Stops n cs ds s s' (some e) (inl (same, h)) k = cc
  next_Stops n cs ds s s' (some x) (inr (before, c, after, t, e, split, p, failed, given)) k = inr (
    before,
    c,
    after ++ ds,
    t,
    e,
    ap (λ l. l ++ ds) split ∙ append_assoc before (c ∷ after) ds,
    p,
    failed,
    given,
  )

  next-Makes :
      (m n : Setup S) (cs ds : List Call) → Makes m cs → Makes n ds → Makes (m >> n) (cs ++ ds)
  next-Makes m n cs ds h k s = next_Stops n cs ds s (m s).0 (m s).1 (h s) k

  after-Makes :
      (c : Call) (n : Setup S) (ds : List Call) → Makes n ds → Makes (call M c >> n) (c ∷ ds)
  after-Makes c n ds = next-Makes (call M c) n (c ∷ []) ds (call-Makes c)

  when-Makes :
      (b : Bool) (m : Setup S) (cs : List Call)
      → Makes m cs
      → Makes (when b m) (if b then cs else [])
  when-Makes true m cs h = h
  when-Makes false m cs h = done-Makes

  set_up_webhooks-Makes :
      (f : Flags)
      → Makes
          (set_up_webhooks M (config_of f.operator_namespace f.exempt_namespaces))
          (map complete_webhook (webhooks f))
  unfolding set_up_webhooks config_of
  set_up_webhooks-Makes f =
      after-Makes _ _ _ (after-Makes _ _ _ (after-Makes _ _ _ (after-Makes _ _ _ (call-Makes _))))

  set_up-Makes : (f : Flags) → Makes (set_up M f) (plan f)
  unfolding set_up
  set_up-Makes f = after-Makes _ _ _ (
      after-Makes _ _ _ (
        after-Makes _ _ _ (
          after-Makes _ _ _ (
            after-Makes _ _ _ (
              after-Makes _ _ _ (
                next-Makes _ _ _ _ (when-Makes f.enable_webhooks _ _ (set_up_webhooks-Makes f))
                  (after-Makes _ _ _ (after-Makes _ _ _ (call-Makes _)))))))))

  -- The process exits with code 0 after all calls of the plan were made in order, none with an error;
  -- or it exits with code 1, after the calls of the plan up to the first that returned an error. So
  -- the manager is started, as the last call, only where the controllers, the webhooks if they are
  -- enabled, and the two checks were all accepted.
  pub main-Makes :
      (f : Flags) (s : S)
      → let r = main M f s in
        ((r.1 ≡ 0) × Performs (plan f) s r.0)
        ⊎ ((r.1 ≡ 1)
            × (before : List Call) × (c : Call) × (after : List Call) × (t : S) × (e : Text) × (plan
                  f
                ≡ before ++ c ∷ after)
            × Performs before s t
            × (M.perform t c ≡ (r.0, some e)))
  unfolding main
  main-Makes f s = elim (set_up-Makes f s) [
    | inl (none_left, p) ↦ inl (ap exit_code none_left, p)
    | inr (before, c, after, t, e, split, p, failed, given) ↦
        inr (ap exit_code given, before, c, after, t, e, split, p, failed)
  ]
