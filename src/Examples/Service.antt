-- ===== src/Examples/Service.antt =====
-- The theorem on a service behind a lossy network at a concrete one: it forgets nothing, the network
-- delivers the second answer only.
use lnurlcash_core.Common.{Bool, true, false, List, [], ◌∷◌, ◌≡◌, refl}
use lnurlcash_core.Common.Text.{Text, codes, text_eq, take_while, after_first}
use lnurlcash_core.Urls.{is_allowed_service_url}
use lnurlcash_core.Protocol.Types.{Request, rotate, MutationResponse}
use lnurlcash_core.Errors.{Result}
use lnurlcash_core.Client.Monad.{Net}
use lnurlcash_core.Client.Run.{run_mutation}
use lnurlcash_core.Client.Mutate.{is_sendable}
use lnurlcash_core.Client.Service.{
  Delivery, late, delivered, AtMostOnce, link, state_after, run_mutation-AtMostOnce,
}
use lnurlcash_core.Samples.{callback, secret, other_secret, sample_deps, sample_config, untouched}
use lnurlcash_core.Samples.Url.{sample_url}

abbrev rotation : Request
rotation = record { url = callback; new_secrets = other_secret ∷ []; outputs = secret ∷ [] }

-- The service notes that it was asked.
abbrev serve : Text → Bool → Text × Bool
serve url asked = (codes "confirmation", true)

abbrev network : List Text → Delivery
network [] = late
network (_ ∷ _) = delivered

can_send : is_sendable sample_deps (link serve false network) sample_config rotation ≡ true
unfolding is_allowed_service_url sample_url text_eq take_while codes after_first
can_send = refl

abbrev ended : Result MutationResponse × Net
ended = run_mutation sample_deps (link serve false network) sample_config rotation rotate untouched

run_mutation-AtMostOnce_example :
    AtMostOnce serve false network sample_deps sample_config rotation rotate false ended.0
      (state_after serve false network ended.1.sent)
run_mutation-AtMostOnce_example =
    run_mutation-AtMostOnce serve false network sample_deps sample_config rotation rotate can_send
      false refl untouched refl
