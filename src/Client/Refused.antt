-- ===== src/Client/Refused.antt =====
-- `run_mutation` of src/client.rs against a service that never answers a retry with a success.
use lnurlcash_core.Common.{
  ℕ, zero, suc, ◌≤◌, ◌<◌, true, false, List, [], Option, none, some, ◌≡◌, refl, arith, err,
}
use lnurlcash_core.Common.Text.{Text}
use lnurlcash_core.Errors.{Error, request_refused, with_secrets, new_secrets, is_ambiguous}
use lnurlcash_core.Errors.Secrets.{with_secrets_lem, is_ambiguous-carries}
use lnurlcash_core.Deps.{Deps}
use lnurlcash_core.Protocol.Types.{Request, MutationKind}
use lnurlcash_core.Protocol.Mutation.{parse_mutation}
use lnurlcash_core.Client.Monad.{body_text, Transport, ClientConfig, Net}
use lnurlcash_core.Client.Run.{receive, attempts_of, attempt, rounds, run_mutation}
use lnurlcash_core.Client.Mutate.{is_plain_refusal, IsAmbiguous, is_sendable, log, resent, run_sent}
use lnurlcash_core.Client.Replay.{IsLost, rounds_lost}

-- A plain refusal hands back no secrets, and none can be attached to it.
plain_refusal_lem :
    (e : Error) (secrets : List Text)
    → is_plain_refusal e ≡ true
    → (with_secrets e secrets ≡ e) × (is_ambiguous e ≡ false) × (new_secrets e ≡ [])
unfolding with_secrets is_ambiguous new_secrets
plain_refusal_lem (request_refused _) secrets h = ground arith
plain_refusal_lem _ secrets h = ground arith

with_secrets_unknown :
    (e : Error) (secrets : List Text)
    → is_ambiguous e ≡ true
    → (is_ambiguous (with_secrets e secrets) ≡ true)
      × (new_secrets (with_secrets e secrets) ≡ secrets)
with_secrets_unknown e secrets h =
    ground (arith, with_secrets_lem e secrets, is_ambiguous-carries e)

module _ {Value Url : Type 0} (d : Deps Value Url) (transport : Transport) (config : ClientConfig)
    (request : Request) (kind : MutationKind)
    (sendable : is_sendable d transport config request ≡ true) where
  -- The outcome of rounds whose answers were all lost.
  abbrev pub IsUnknown : Error → Type 0
  IsUnknown e = (is_ambiguous e ≡ true) × (new_secrets e ≡ request.new_secrets)

  rounds-IsUnknown :
      (n : ℕ) (last : Option Error) (net : Net)
      → IsAmbiguous last
      → ((j : ℕ)
          → j < n
          → IsLost d transport config (transport (resent j request.url net.sent) request.url))
      → (e : Error) × (rounds d transport config n request kind last net
          ≡ (err e, record net { sent = resent n request.url net.sent }))
        × IsUnknown e
  unfolding rounds with_secrets is_ambiguous new_secrets
  rounds-IsUnknown zero none net again losses = (_, refl, (refl, refl))
  rounds-IsUnknown zero (some e) net again losses =
      (_, refl, with_secrets_unknown e request.new_secrets again)
  rounds-IsUnknown (suc n) last net again losses =
      let (e, open_ended, same) =
        rounds_lost d transport config request kind sendable n last net (losses 0 (omega arith)) in
      rw same (
        rounds-IsUnknown n (some e) (log d transport config request net) open_ended
          (λ j less. losses (suc j) (omega arith)))

  -- If the answer to every sending is lost, then the outcome is ambiguous and hands back the secrets
  -- of the request, after as many sendings as there are retries and one more.
  pub run_mutation-IsUnknown :
      (net : Net)
      → ((j : ℕ)
          → j ≤ attempts_of config kind
          → IsLost d transport config (transport (resent j request.url net.sent) request.url))
      → (e : Error) × (run_mutation d transport config request kind net ≡ (
        err e,
        record net { sent = resent (suc (attempts_of config kind)) request.url net.sent },
      ))
        × IsUnknown e
  unfolding run_mutation
  run_mutation-IsUnknown net losses =
      rounds-IsUnknown (suc (attempts_of config kind)) none net tt
        (λ j less. losses j (omega arith))

  module _ (text : Text) (body : Value) (e : Error) (reads : d.json.from_str text ≡ some body)
      (refuses : parse_mutation d body kind request.outputs config.policy ≡ err e)
      (plain : is_plain_refusal e ≡ true) where
    rounds_refused :
        (k n : ℕ) (last : Option Error) (net : Net)
        → k ≤ n
        → ((j : ℕ)
            → j < k
            → IsLost d transport config (transport (resent j request.url net.sent) request.url))
        → transport (resent k request.url net.sent) request.url ≡ body_text text
        → rounds d transport config (suc n) request kind last net
          ≡ (err e, record net { sent = resent (suc k) request.url net.sent })
    unfolding rounds attempt receive
    rounds_refused zero n last net few losses answers =
        let (same, settled, _) = plain_refusal_lem e request.new_secrets plain in
        rw
          (run_sent d transport config request net sendable, answers, reads, refuses, settled, same)
          refl
    rounds_refused (suc k) zero last net few losses answers = absurd (omega arith)
    rounds_refused (suc k) (suc n) last net few losses answers =
        let (e, _, same) =
          rounds_lost d transport config request kind sendable (suc n) last net
            (losses 0 (omega arith)) in
        rw same (
          rounds_refused k n (some e) (log d transport config request net) (omega arith)
            (λ j less. losses (suc j) (omega arith)) answers)

    -- If the answers to the first `k` sendings are lost and `k` is within the retries, then a refusal
    -- of the kind that burns nothing, in answer to the next sending, is the outcome, and no secrets
    -- come back with it, though an earlier sending may have been applied.
    pub run_mutation_refused :
        (k : ℕ) (net : Net)
        → k ≤ attempts_of config kind
        → ((j : ℕ)
            → j < k
            → IsLost d transport config (transport (resent j request.url net.sent) request.url))
        → transport (resent k request.url net.sent) request.url ≡ body_text text
        → (run_mutation d transport config request kind net
            ≡ (err e, record net { sent = resent (suc k) request.url net.sent }))
          × (new_secrets e ≡ [])
    unfolding run_mutation
    run_mutation_refused k net few losses answers =
        let (_, _, bare) = plain_refusal_lem e request.new_secrets plain in
        (rounds_refused k (attempts_of config kind) none net few losses answers, bare)
