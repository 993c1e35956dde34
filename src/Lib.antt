-- ===== src/Lib.antt =====
-- Verification of token-control: a Kubernetes operator that governs which workloads may call which
-- models, with which credentials and under which token budget.
--
-- The parts, and how they interact. Policies are custom resources of three tiers: ClusterTokenPolicy
-- for the cluster, TokenPolicy without a selector for a namespace, and TokenPolicy with a selector for
-- workloads. The resolver (internal/policy/resolver.go) makes of the policies that apply to a scope an
-- `Effective` decision, which answers for a model whether it is permitted and with which credential.
-- The pod webhooks (internal/webhook/v1alpha1) find the models that a pod declares, by ModelClaims and
-- by an annotation, resolve the decision for its workload, and reject the pod or bind credentials to
-- it. The credential controller (internal/controller) adds up the budgets of the policies that name a
-- ModelCredential and compares them with its capacity, and the claim controller records whether the
-- policies permit what a ModelClaim requests. The validating webhooks check the custom resources.
--
-- The files:
--   Common, Common/*       tests, lists, results with errors, int64 with its wrap-around, and the sort
--                          of package sort as a stable insertion sort, with Sort/Sorted
--   Text, Text/*           strings, what the code uses of packages strings and fmt, and their laws
--   Api, Api/*             api/v1alpha1: the specs and statuses of the custom resources
--   Policy/Glob            globMatch and ValidGlob, with path.Match of the standard library;
--                          Glob/Literal; Glob/Relation, Search and Decides: what a pattern means
--   Policy/Quota           minQuota and minPtr; Quota/Limits: the order of tightness
--   Policy/Selector        selectorMatches and workloadMatches
--   Policy/Tier            evalTier; Tier/Verdicts, Credentials and Folded: what a tier decides
--   Policy/Effective       Permit, denyReason and EffectiveModels; Effective/Permission, Models
--                          and Folded
--   Policy/Apply           the three loops of Resolve over the policies; Apply/Fields, Latest
--                          and Sources
--   Policy/Resolve         Resolve and ResolveForPolicy; Resolve/Assembly, Selection, Listing, Order,
--                          Narrowing, Budget, Specific, Decisive, Sources and Target: the
--                          proofs
--   Gateway, Gateway/*     internal/gateway/gateway.go: the generated rate-limit objects; Selection,
--                          Limits and Annotations: which object, its limits, and what it is marked with;
--                          Includes: that an object has what another has
--   Controller/Capacity    addQuota, availableQuota, oversubscribed, referencingPolicies and
--                          reconcileCapacity of modelcredential_controller.go; Capacity/Allocation,
--                          Binding and Planning
--   Controller/Replication  authorizedNamespaces; Replication/Keys and Agreement
--   Controller/Secrets     syncSecret and pruneSecrets; Secrets/Laws: what is assumed of the client;
--                          Store: a client that has these laws; Synced and Pruned
--   Controller/Credential  Reconcile of modelcredential_controller.go; Credential/Replicas,
--                          Convergence and Failures
--   Controller/Claim       claimIdentities, resolveClaim and Reconcile of modelclaim_controller.go, with
--                          helpers.go; Claim/Verdict, Credentials and Admitted
--   Controller/Artifacts   reconcileGateway and deleteArtifact of tokenpolicy_controller.go;
--                          Artifacts/Laws, Store and Installed
--   Controller/PolicyStatus  Reconcile of tokenpolicy_controller.go; PolicyStatus/Reported
--   Controller/ClusterStatus  Reconcile of clustertokenpolicy_controller.go; ClusterStatus/Governed
--   Controller/Watches     the requests that a change enqueues, of each SetupWithManager; Watches/Fresh
--   Webhook/Cluster        the client, Config, resolveEffective and credentialAuthorizes
--   Webhook/Pod            pods, their annotations and their service account
--   Webhook/Declared       parseModels and declaredModelsForPod; Declared/Keys
--   Webhook/Validate       PodValidator; Validate/Rejection and Reported
--   Webhook/Deliver        injectCredential; Deliver/Kept and Deliver/Again
--   Webhook/Inject         PodDefaulter; Inject/Loop and Inject/Authorized
--   Webhook/Admit          the validating webhooks of TokenPolicy and ClusterTokenPolicy; Admit/Bindings:
--                          those of ModelClaim and ModelCredential; Admit/Accepted, Resolves, Writes,
--                          History and Dead
--   Webhook/Request        ValidateCreate, ValidateUpdate and ValidateDelete of the validators
--   Main, Main/Exempt      cmd/main.go: the flags, and the configuration that is made of them
--   Main/Setup             main, SetupWebhooksWithManager (setup.go) and each SetupWithManager: the calls that
--                          set the process up; Setup/Started
--   Metrics                internal/metrics/metrics.go; Metrics/Emitted: the calls on the collectors;
--                          Metrics/Decisions and Labels
--   */Samples, */Tests     concrete objects, runs, and the theorems at concrete inputs
--
-- How state and operations correspond. A struct is a record with the fields that the code reads; a
-- string enumeration is a data type with `unset` for the empty string and `other` for the values that
-- the schema excludes; a nil pointer is `none`; a nil slice and an empty one are one list, since the
-- code does not tell them apart. A Go result with an error is a `Result`. The maps that the code uses
-- as sets (`sourceSet`, `seen`, `set`) are lists without repetition. Pointers that a function writes
-- through are values that it takes and returns: the tier that applyNamespaceTier extends is named by a
-- `Level`. A loop is a function on the list that it walks, so every function is total and no fuel is
-- needed. An int64 is an integer, with the wrap-around of sums and differences written out.
--
-- Parameters. The conversion of label selectors (metav1.LabelSelectorAsSelector) is the record
-- `LabelSelectors`, the client of the API server, where it only reads, the record `Client`,
-- meta.SetStatusCondition the record `Conditions`, and the manager of controller-runtime the record
-- `Manager`; nothing is assumed of these. The clients of Secrets and of gateway artifacts act on a
-- state that is a parameter too. What the API server documents of their verbs (a Secret that was
-- written is read back, an applied artifact has each field that was sent, the others are kept, a
-- deletion removes the one that it names) are records of laws, `Controller/Secrets/Laws` and
-- `Controller/Artifacts/Laws`; the two Store modules define clients that have them. The order in
-- which Go visits a map is a parameter that permutes the entries. The writes of the API server to
-- the custom resources are a relation, `Webhook/Admit/Writes`: a new object has a new name, a name
-- is kept, and the validating webhook has accepted the request.
--
-- Bounds. Texts are lists of bytes; only ASCII letters are folded and only ASCII space is trimmed,
-- which is what provider and model names consist of. In a pattern, `?` and a class stand for one byte,
-- which is one character of such a name.
--
-- Not modelled: logging; the registration of schemes, the servers and the work queue of the manager, which
-- are calls of libraries, and which of the two API clients a reconciler is given; what Prometheus makes of
-- the calls on its collectors; the time stamps and messages of conditions; and the generated deep copies,
-- the identity on immutable values.
pub mod Common
pub mod Text
pub mod Api
pub mod Policy
pub mod Gateway
pub mod Controller
pub mod Webhook
pub mod Main
pub mod Metrics
