-- ===== src/Controller/Replication/Tests.antt =====
-- The agreement of the controller and the webhook at a concrete credential.
use token_control.Common.{◌≡◌, ◌↔◌, refl, true, [], ◌∷◌, any}
use token_control.Common.Result.{ok}
use token_control.Text.{◌==◌, codes}
use token_control.Policy.Selector.{selector_matches}
use token_control.Policy.Samples.{equality_selectors}
use token_control.Webhook.Cluster.{credential_authorizes}
use token_control.Controller.Samples.{namespaces, namespace_named, client, prod_credential}
use token_control.Controller.Replication.{put_key, put_all, put_selected, authorized_namespaces}
use token_control.Controller.Replication.Agreement.{authorized_namespaces-authorizes}

authorized_namespaces-authorizes_example :
    (any (λ k. k == codes "team") (codes "team" ∷ []) ≡ true)
    ↔ (credential_authorizes equality_selectors client prod_credential (codes "team") ≡ ok true)
unfolding authorized_namespaces put_selected put_all put_key selector_matches equality_selectors
    namespace_named ◌==◌
authorized_namespaces-authorizes_example =
    authorized_namespaces-authorizes equality_selectors client prod_credential namespaces
      (codes "team" ∷ []) (codes "team") refl (refl, (refl, tt)) refl
