-- ===== src/Controller/Capacity/Binding.antt =====
-- The rollup over all policies that name a credential.
use token_control.Common.{◌≡◌, false}
use token_control.Text.{Text, ◌==◌}
use token_control.Api.Policies.{TokenPolicy}
use token_control.Policy.Apply.{policy_source}

-- The key of a cluster policy is that of no policy of a namespace.
abbrev IsClusterKey : Text → Type 0
IsClusterKey s = (q : TokenPolicy) → (policy_source q == s) ≡ false
