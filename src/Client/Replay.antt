-- ===== src/Client/Replay.antt =====
-- `run_mutation` of src/client.rs against a service that answers a retry.
use lnurlcash_core.Common.{
  ℕ, zero, suc, ◌≤◌, ◌<◌, Option, none, some, ◌≡◌, refl, arith, ok, err, true,
}
use lnurlcash_core.Common.Text.{Text, codes}
use lnurlcash_core.Errors.{Error, with_secrets, is_ambiguous}
use lnurlcash_core.Deps.{Deps}
use lnurlcash_core.Protocol.Types.{Request, MutationKind, MutationResponse}
use lnurlcash_core.Protocol.Mutation.{parse_mutation}
use lnurlcash_core.Client.Monad.{
  Reply, timed_out, unreachable, unreadable, body_text, Transport, ClientConfig, Net,
}
use lnurlcash_core.Client.Run.{receive, lost, attempts_of, attempt, rounds, run_mutation}
use lnurlcash_core.Client.Mutate.{is_sendable, log, resent, run_sent}

module _ {Value Url : Type 0} (d : Deps Value Url) (transport : Transport)
    (config : ClientConfig) where
  -- The transport lost the answer, or the answer is no JSON.
  abbrev pub IsLost : Reply → Type 0
  IsLost (body_text text) = d.json.from_str text ≡ none
  IsLost _ = Unit {0}

  pub receive-lost :
      (request : Request) (reply : Reply)
      → IsLost reply
      → (m : Text) × (receive d.json request reply ≡ err (lost request m))
  unfolding receive
  receive-lost request timed_out h = (_, refl)
  receive-lost request unreachable h = (_, refl)
  receive-lost request unreadable h = (_, refl)
  receive-lost request (body_text text) h =
      (codes "the service returned an unreadable response", rw h refl)

  module _ (request : Request) (kind : MutationKind)
      (sendable : is_sendable d transport config request ≡ true) where
    pub rounds_lost :
        (n : ℕ) (last : Option Error) (net : Net)
        → IsLost (transport net.sent request.url)
        → (e : Error) × (is_ambiguous e ≡ true)
          × (rounds d transport config (suc n) request kind last net
              ≡ rounds d transport config n request kind
                  (some e)
                  (log d transport config request net))
    unfolding rounds attempt with_secrets is_ambiguous
    rounds_lost n last net h =
        let (m, e) = receive-lost request (transport net.sent request.url) h in
        (lost request m, refl, rw (run_sent d transport config request net sendable, e) refl)

    module _ (response : MutationResponse) (text : Text) (body : Value)
        (reads : d.json.from_str text ≡ some body)
        (confirms : parse_mutation d body kind request.outputs config.policy ≡ ok response) where
      rounds_confirmed :
          (k n : ℕ) (last : Option Error) (net : Net)
          → k ≤ n
          → ((j : ℕ) → j < k → IsLost (transport (resent j request.url net.sent) request.url))
          → transport (resent k request.url net.sent) request.url ≡ body_text text
          → rounds d transport config (suc n) request kind last net
            ≡ (ok response, record net { sent = resent (suc k) request.url net.sent })
      unfolding rounds attempt receive
      rounds_confirmed zero n last net few losses answers =
          rw (run_sent d transport config request net sendable, answers, reads, confirms) refl
      rounds_confirmed (suc k) zero last net few losses answers = absurd (omega arith)
      rounds_confirmed (suc k) (suc n) last net few losses answers =
          let (e, _, same) = rounds_lost (suc n) last net (losses 0 (omega arith)) in
          rw same (
            rounds_confirmed k n (some e) (log d transport config request net) (omega arith)
              (λ j less. losses (suc j) (omega arith)) answers)

      -- If the answers to the first `k` sendings are lost, `k` is within the retries, and the answer
      -- to the next sending of that URL confirms the mutation, then the mutation succeeds with that
      -- response, after exactly `k + 1` sendings.
      pub run_mutation_confirmed :
          (k : ℕ) (net : Net)
          → k ≤ attempts_of config kind
          → ((j : ℕ) → j < k → IsLost (transport (resent j request.url net.sent) request.url))
          → transport (resent k request.url net.sent) request.url ≡ body_text text
          → run_mutation d transport config request kind net
            ≡ (ok response, record net { sent = resent (suc k) request.url net.sent })
      unfolding run_mutation
      run_mutation_confirmed k net few losses answers =
          rounds_confirmed k (attempts_of config kind) none net few losses answers
