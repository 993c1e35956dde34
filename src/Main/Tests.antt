-- ===== src/Main/Tests.antt =====
-- The flags of the manager at concrete texts.
use mathlib.Core.List.{reverse}
use token_control.Common.{◌≡◌, ◌⊎◌, refl, true, List, [], ◌∷◌, ◌++◌, ◌||◌, none, some, any, is_nil}
use token_control.Text.{Text, ◌==◌, codes, join, trim_space, split}
use token_control.Webhook.Cluster.{exempt}
use token_control.Main.{parse_set, default_flags, config_of}
use token_control.Main.Setup.{Call, Manager, main}
use token_control.Main.Setup.Started.{Performs, plan, main-Makes}
use token_control.Main.Exempt.{exempt-config_of}

parses :
    parse_set (codes " kube-system,, kube-public ,kube-system")
    ≡ codes "kube-public" ∷ codes "kube-system" ∷ []
unfolding parse_set split trim_space ◌==◌
parses = refl

exempt-config_of_example :
    exempt
      (config_of
        (codes "token-control")
        (join (codes ",") (codes "kube-system" ∷ codes "kube-public" ∷ [])))
      (codes "team")
    ≡ (is_nil (codes "team")
        || codes "team" == codes "token-control"
        || any (λ n. n == codes "team") (codes "kube-system" ∷ codes "kube-public" ∷ []))
unfolding trim_space
exempt-config_of_example =
    exempt-config_of (codes "token-control") (codes "kube-system" ∷ codes "kube-public" ∷ [])
      (codes "team") ((refl, refl, refl), ((refl, refl, refl), tt))

-- The defaults outside of a pod.
default_exemption :
    exempt
      (config_of (default_flags []).operator_namespace (default_flags []).exempt_namespaces)
      (codes "kube-public")
    ≡ true
unfolding exempt config_of default_flags split trim_space
default_exemption = refl

-- A manager that accepts every call and records it, the last one first.
abbrev recorder : Manager (List Call)
recorder = record { perform = λ calls c. (c ∷ calls, none) }

starts_all : (main recorder (default_flags []) []).0 ≡ reverse (plan (default_flags []))
unfolding main default_flags
starts_all = refl

main-Makes_example :
    let r = main recorder (default_flags []) [] in
    ((r.1 ≡ 0) × Performs recorder (plan (default_flags [])) [] r.0)
    ⊎ ((r.1 ≡ 1)
        × (before : List Call) × (c : Call) × (after : List Call) × (t : List Call) × (e : Text)
        × (plan (default_flags []) ≡ before ++ c ∷ after)
        × Performs recorder before [] t
        × (recorder.perform t c ≡ (r.0, some e)))
main-Makes_example = main-Makes recorder (default_flags []) []
