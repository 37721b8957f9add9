-- ===== src/Client/Mutate.antt =====
-- `run_mutation` of src/client.rs: what is sent, and what the outcome carries.
use lnurlcash_core.Common.{
  ℕ, zero, suc, ◌≤◌, Bool, true, false, not, ◌&&◌, ◌||◌, List, ◌∷◌, Option, none, some, ◌≡◌, ◌≢◌,
  ◌⊎◌, inl, inr, refl, arith, if◌then◌else◌, ok, err, Bool-cases, Option-cases,
}
use lnurlcash_core.Common.Text.{Text, codes}
use lnurlcash_core.Errors.{
  Error, request_refused, protocol, service_rejected, note_pending, note_spent, note_unknown,
  unverifiable, ambiguous, with_secrets, new_secrets, is_ambiguous, Result,
}
use lnurlcash_core.Errors.Secrets.{carries_secrets}
use lnurlcash_core.Deps.{Deps}
use lnurlcash_core.Urls.{is_allowed_service_url}
use lnurlcash_core.Protocol.Types.{
  Request, MutationKind, melt, rotate, split, merge, MutationResponse,
}
use lnurlcash_core.Protocol.Mutation.{parse_mutation}
use lnurlcash_core.Protocol.Mutation.Owed.{reading, unexpected, reading-parse_mutation}
use lnurlcash_core.Client.Monad.{
  Reply, timed_out, unreachable, unreadable, body_text, Transport, ClientConfig, Net,
}
use lnurlcash_core.Client.Run.{
  offline_message, forbidden_message, receive, lost, resolve, run, attempt, rounds, run_mutation,
}

-- A refusal of the kind that burns nothing: a rejection, or a note that is pending.
abbrev pub is_plain_refusal : Error → Bool
is_plain_refusal (service_rejected _) = true
is_plain_refusal note_pending = true
is_plain_refusal _ = false

abbrev pub is_answer_error : Error → Bool
is_answer_error e = carries_secrets e || is_plain_refusal e

abbrev pub is_answer {ℓ} : {A : Type ℓ} → Result A → Bool
is_answer (ok _) = true
is_answer (err e) = is_answer_error e

-- An error of a request that went out hands back its secrets, or is a plain refusal.
abbrev pub Kept {ℓ} : {A : Type ℓ} → List Text → Result A → Type 0
Kept secrets (ok _) = Unit
Kept secrets (err e) =
    ((carries_secrets e ≡ true) × (new_secrets e ≡ secrets)) ⊎ (is_plain_refusal e ≡ true)

-- How often a mutation may be sent: a melt once, any other once more than the configured retries.
abbrev pub most_sendings : ℕ → MutationKind → ℕ
most_sendings retries melt = 1
most_sendings retries rotate = suc retries
most_sendings retries split = suc retries
most_sendings retries merge = suc retries

-- The log after a URL was sent `j` more times.
abbrev pub resent : ℕ → Text → List Text → List Text
resent zero url sent = sent
resent (suc j) url sent = resent j url (url ∷ sent)

abbrev pub IsAmbiguous : Option Error → Type 0
IsAmbiguous none = Unit
IsAmbiguous (some e) = is_ambiguous e ≡ true

expected-is_answer {ℓ} : {A : Type ℓ} (r : Result A) → reading r ≢ unexpected → is_answer r ≡ true
expected-is_answer (ok _) h = refl
expected-is_answer (err (request_refused _)) h = absurd (h refl)
expected-is_answer (err (protocol _)) h = absurd (h refl)
expected-is_answer (err _) h = refl

with_secrets-Kept {ℓ} :
    (A : Type ℓ) (e : Error) (secrets : List Text)
    → is_answer_error e ≡ true
    → Kept {A = A} secrets (err (with_secrets e secrets))
unfolding with_secrets new_secrets
with_secrets-Kept A (request_refused _) secrets h = cc
with_secrets-Kept A (protocol _) secrets h = cc
with_secrets-Kept A (service_rejected _) secrets h = inr refl
with_secrets-Kept A note_pending secrets h = inr refl
with_secrets-Kept A (note_spent _ _) secrets h = inl (refl, refl)
with_secrets-Kept A (note_unknown _ _) secrets h = inl (refl, refl)
with_secrets-Kept A (unverifiable _ _) secrets h = inl (refl, refl)
with_secrets-Kept A (ambiguous _ _) secrets h = inl (refl, refl)

ambiguous-is_answer_error : (e : Error) → is_ambiguous e ≡ true → is_answer_error e ≡ true
unfolding is_ambiguous
ambiguous-is_answer_error (ambiguous _ _) h = refl
ambiguous-is_answer_error _ h = cc

module _ {Value Url : Type 0} (d : Deps Value Url) (transport : Transport)
    (config : ClientConfig) where
  -- Whether `run` sends a request at all.
  abbrev pub is_sendable : Request → Bool
  is_sendable request = not config.offline && is_allowed_service_url d.url request.url

  abbrev pub log : Request → Net → Net
  log request net = record net { sent = request.url ∷ net.sent }

  parse_mutation-is_answer :
      (body : Value) (kind : MutationKind) (outputs : List Text)
      → is_answer (parse_mutation d body kind outputs config.policy) ≡ true
  parse_mutation-is_answer body kind outputs =
      expected-is_answer _
        (ground (arith, reading-parse_mutation d body kind outputs config.policy))

  run_unsent :
      (request : Request) (net : Net)
      → is_sendable request ≡ false
      → (m : Text) × (run d transport config request net ≡ (err (request_refused m), net))
  unfolding run
  run_unsent request net h =
      (if config.offline then offline_message else forbidden_message, ground arith)

  pub run_sent :
      (request : Request) (net : Net)
      → is_sendable request ≡ true
      → run d transport config request net
        ≡ (receive d.json request (transport net.sent request.url), log request net)
  unfolding run
  run_sent request net h = ground arith

  receive_lem :
      (request : Request) (reply : Reply)
      → ((v : Value) × (receive d.json request reply ≡ ok v))
        ⊎ ((m : Text) × (receive d.json request reply ≡ err (lost request m)))
  unfolding receive
  receive_lem request timed_out = inr (_, refl)
  receive_lem request unreachable = inr (_, refl)
  receive_lem request unreadable = inr (_, refl)
  receive_lem request (body_text text) = elim (Option-cases (d.json.from_str text)) [
    | inl e ↦ inr (codes "the service returned an unreadable response", rw e refl)
    | inr (v, e) ↦ inl (v, rw e refl)
  ]

  attempt_unsent :
      (request : Request) (kind : MutationKind) (net : Net)
      → is_sendable request ≡ false
      → (m : Text) × (attempt d transport config request kind net ≡ (err (request_refused m), net))
  unfolding attempt
  attempt_unsent request kind net h = let (m, e) = run_unsent request net h in (m, rw e refl)

  attempt_sent :
      (request : Request) (kind : MutationKind) (net : Net)
      → is_sendable request ≡ true
      → (r : Result MutationResponse) × (attempt d transport config request kind net
          ≡ (r, log request net))
        × (is_answer r ≡ true)
  unfolding attempt with_secrets
  attempt_sent request kind net h = elim (receive_lem request (transport net.sent request.url)) [
    | inl (v, e) ↦ (
      parse_mutation d v kind request.outputs config.policy,
      rw (run_sent request net h, e) refl,
      parse_mutation-is_answer v kind request.outputs,
    )
    | inr (m, e) ↦ (err (lost request m), rw (run_sent request net h, e) refl, refl)
  ]

  -- How the rounds of a request that goes out end: what the outcome carries, and how often the URL
  -- was sent.
  abbrev pub Ends : ℕ → Request → Net → Result MutationResponse × Net → Type 0
  Ends n request net end =
      Kept request.new_secrets end.0
      × ((j : ℕ) × (j ≤ n) × (end.1 ≡ record net { sent = resent j request.url net.sent }))

  round_lem :
      (n : ℕ) (request : Request) (kind : MutationKind) (net : Net) (r : Result MutationResponse)
      → is_answer r ≡ true
      → ((e : Error)
          → is_ambiguous e ≡ true
          → Ends n request
              (log request net)
              (rounds d transport config n request kind (some e) (log request net)))
      → Ends (suc n) request net (
          resolve request.new_secrets
            (λ e. rounds d transport config n request kind (some e))
            (r, log request net))
  round_lem n request kind net (ok response) answer later = (tt, (1, omega arith, refl))
  round_lem n request kind net (err e) answer later = elim (Bool-cases (is_ambiguous e)) [
    | inl again ↦
        let (kept, (j, few, same)) = later e again in rw again (kept, (suc j, omega arith, same))
    | inr settled ↦
        rw settled
          (with_secrets-Kept MutationResponse e request.new_secrets answer, (1, omega arith, refl))
  ]

  rounds_lem :
      (n : ℕ) (request : Request) (kind : MutationKind) (last : Option Error) (net : Net)
      → is_sendable request ≡ true
      → IsAmbiguous last
      → Ends n request net (rounds d transport config n request kind last net)
  unfolding rounds
  rounds_lem zero request kind none net h a =
      (with_secrets-Kept MutationResponse _ request.new_secrets refl, (0, omega arith, refl))
  rounds_lem zero request kind (some e) net h a = (
    with_secrets-Kept MutationResponse e request.new_secrets (ambiguous-is_answer_error e a),
    (0, omega arith, refl),
  )
  rounds_lem (suc n) request kind last net h a =
      let (r, sent, answer) = attempt_sent request kind net h in
      rw sent (
        round_lem n request kind net r answer
          (λ e again. rounds_lem n request kind (some e) (log request net) h again))

  -- A mutation that cannot be sent is refused before anything leaves.
  pub run_mutation_unsent :
      (request : Request) (kind : MutationKind) (net : Net)
      → is_sendable request ≡ false
      → (m : Text) × (run_mutation d transport config request kind net
          ≡ (err (request_refused m), net))
  unfolding run_mutation rounds with_secrets is_ambiguous
  run_mutation_unsent request kind net h =
      let (m, e) = attempt_unsent request kind net h in (m, rw e refl)

  -- Of a mutation that is sent: an error hands back the secrets of the request, or is a refusal of
  -- the kind that burns nothing; the same URL is sent each time, at most once more than the configured
  -- retries, and for a melt at most once.
  pub run_mutation_sent :
      (request : Request) (kind : MutationKind) (net : Net)
      → is_sendable request ≡ true
      → Ends
          (most_sendings config.mutation_retries kind)
          request
          net
          (run_mutation d transport config request kind net)
  unfolding run_mutation
  run_mutation_sent request melt net h = rounds_lem 1 request melt none net h tt
  run_mutation_sent request rotate net h =
      rounds_lem (suc config.mutation_retries) request rotate none net h tt
  run_mutation_sent request split net h =
      rounds_lem (suc config.mutation_retries) request split none net h tt
  run_mutation_sent request merge net h =
      rounds_lem (suc config.mutation_retries) request merge none net h tt
