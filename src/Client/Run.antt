-- ===== src/Client/Run.antt =====
-- `run` and `run_mutation` of src/client.rs.
use lnurlcash_core.Common.{
  ℕ, zero, suc, not, List, ◌∷◌, Option, none, some, if◌then◌else◌, unwrap_or, ok, err, ok_or,
}
use lnurlcash_core.Common.Text.{Text, codes}
use lnurlcash_core.Errors.{
  Error, request_refused, new_ambiguous, with_secrets, is_ambiguous, Result,
}
use lnurlcash_core.Deps.{Deps, JsonApi}
use lnurlcash_core.Urls.{is_allowed_service_url}
use lnurlcash_core.Protocol.Types.{Request, MutationKind, melt, MutationResponse}
use lnurlcash_core.Protocol.Mutation.{parse_mutation}
use lnurlcash_core.Client.Monad.{
  Reply, timed_out, unreachable, unreadable, body_text, Transport, ClientConfig, Net, M, ◌>>=◌,
  lift,
}

abbrev pub lost : Request → Text → Error
lost request message = with_secrets (new_ambiguous message) request.new_secrets

abbrev pub offline_message : Text
offline_message = codes "offline mode is on - no request was made"

abbrev pub forbidden_message : Text
forbidden_message =
    codes
      "refusing to fetch that URL - only https, or http to a loopback or .onion host, is allowed"

-- What `run` makes of the end of a GET.
unfoldable pub receive : {Value : Type 0} → JsonApi Value → Request → Reply → Result Value
receive json request timed_out =
    err (lost request (codes "the service took too long to respond - its answer, if any, was lost"))
receive json request unreachable =
    err (lost request (codes "failed to reach the service - it may be offline or unreachable"))
receive json request unreadable =
    err (lost request (codes "the service's response could not be read"))
receive json request (body_text text) =
    ok_or (json.from_str text) (lost request (codes "the service returned an unreadable response"))

abbrev pub attempts_of : ClientConfig → MutationKind → ℕ
attempts_of config melt = 0
attempts_of config _ = config.mutation_retries

-- One round of the loop: an ambiguous outcome is kept for the next round, any other ends it.
abbrev pub resolve {ℓ} : {A : Type ℓ} → List Text → (Error → M A) → Result A × Net → Result A × Net
resolve secrets retry (ok a, net) = (ok a, net)
resolve secrets retry (err e, net) =
    let again = retry e net in if is_ambiguous e then again else (err (with_secrets e secrets), net)

module _ {Value Url : Type 0} (d : Deps Value Url) (transport : Transport)
    (config : ClientConfig) where
  unfoldable pub run : Request → M Value
  unfolding receive
  run request net =
      if config.offline
      then (err (request_refused offline_message), net)
      else if not (is_allowed_service_url d.url request.url)
      then (err (request_refused forbidden_message), net)
      else (
        receive d.json request (transport net.sent request.url),
        record net { sent = request.url ∷ net.sent },
      )

  unfoldable pub attempt : Request → MutationKind → M MutationResponse
  attempt request kind = do
    body ← run request
    lift (parse_mutation d body kind request.outputs config.policy)

  -- The loop, with the rounds left and the last ambiguous error.
  unfoldable pub rounds : ℕ → Request → MutationKind → Option Error → M MutationResponse
  rounds zero request kind last net = (
    err (
        with_secrets (unwrap_or last (new_ambiguous (codes "the mutation was never attempted")))
          request.new_secrets),
    net,
  )
  rounds (suc n) request kind last net =
      resolve request.new_secrets (λ e. rounds n request kind (some e)) (attempt request kind net)

  unfoldable pub run_mutation : Request → MutationKind → M MutationResponse
  run_mutation request kind = rounds (suc (attempts_of config kind)) request kind none
