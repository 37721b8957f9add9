-- ===== src/Ffi/Client.antt =====
-- `parse_mutation` and `ambiguous_outcome` of src/ffi.rs against `run_mutation` of src/client.rs.
use lnurlcash_core.Common.{
  zero, suc, Bool, true, false, List, [], ◌∷◌, ◌≡◌, refl, Option, none, some, ok, err, ok_or, arith,
  Option-cases, inl, inr, if◌then◌else◌,
}
use lnurlcash_core.Common as Common
use lnurlcash_core.Common.Text.{Text, codes}
use lnurlcash_core.Errors.{Error, with_secrets, is_ambiguous}
use lnurlcash_core.Errors as Errors
use lnurlcash_core.Deps.{Deps}
use lnurlcash_core.Protocol.Types.{Request}
use lnurlcash_core.Client.Monad.{
  Reply, timed_out, unreachable, unreadable, body_text, Transport, ClientConfig, Net, continue,
  lift,
}
use lnurlcash_core.Client.Run.{receive, attempts_of, lost, resolve, attempt, rounds, run_mutation}
use lnurlcash_core.Client.Mutate.{is_sendable, log, run_sent}
use lnurlcash_core.Protocol.Mutation as Mutation
use lnurlcash_core.Ffi.{
  ambiguous, from_error, FfiResult, convert, parse_body, FfiMutationKind, kind_of, FfiMutation,
  ffi_mutation, ffi_policy, ambiguous_outcome,
}
use lnurlcash_core.Ffi.Answers.{parse_mutation, with_secrets_err, attach_err}

-- The last round: whatever the error is, it is returned with the secrets.
resolve_last {ℓ} :
    {A : Type ℓ} (secrets : List Text) (r : Errors.Result A) (net : Net)
    → (resolve secrets (λ e net. (err (with_secrets e secrets), net)) (r, net)).0
      ≡ with_secrets_err secrets r
resolve_last secrets (ok a) net = refl
resolve_last secrets (err e) net = ground arith

resolve-continue {ℓ κ} :
    {A : Type ℓ} {B : Type κ} (secrets : List Text) (r : Errors.Result B) (f : B → Errors.Result A)
    (net : Net)
    → (resolve secrets
        (λ e net. (err (with_secrets e secrets), net))
        (continue (r, net) (λ b. lift (f b)))).0
      ≡ with_secrets_err secrets (Common.◌>>=◌ r f)
resolve-continue {A = A} secrets (err e) f net = resolve_last {A = A} secrets (err e) net
resolve-continue secrets (ok b) f net = resolve_last secrets (f b) net

module _ {Value Url : Type 0} (d : Deps Value Url) (transport : Transport)
    (config : ClientConfig) where
  -- What a caller in another language makes of the end of the GET.
  abbrev pub AgreesWith : Request → FfiMutationKind → FfiResult FfiMutation → Reply → Type 0
  AgreesWith request kind outcome (body_text body) =
      outcome
      ≡ parse_mutation d body request.new_secrets kind request.outputs (ffi_policy config.policy)
  AgreesWith request kind outcome _ =
      (detail : Text) × (outcome ≡ err (ambiguous_outcome detail request.new_secrets))

  once :
      (request : Request) (kind : FfiMutationKind) (net : Net)
      → is_sendable d transport config request ≡ true
      → attempts_of config (kind_of kind) ≡ 0
      → (run_mutation d transport config request (kind_of kind) net).0
        ≡ with_secrets_err request.new_secrets (
            Common.◌>>=◌
              (receive d.json request (transport net.sent request.url))
              (λ body. Mutation.parse_mutation d body (kind_of kind) request.outputs config.policy))
  unfolding run_mutation rounds attempt
  once request kind net sendable single =
      rw (single, run_sent d transport config request net sendable)
        (resolve-continue request.new_secrets
          (receive d.json request (transport net.sent request.url))
          (λ body. Mutation.parse_mutation d body (kind_of kind) request.outputs config.policy)
          (log d transport config request net))

  read_value :
      (request : Request) (kind : FfiMutationKind) (found : Option Value)
      → convert ffi_mutation (
          with_secrets_err request.new_secrets (
            Common.◌>>=◌
              (ok_or found (lost request (codes "the service returned an unreadable response")))
              (λ body.
                Mutation.parse_mutation d body (kind_of kind) request.outputs config.policy)))
        ≡ Common.◌>>=◌
            (attach_err request.new_secrets
              (ok_or found (ambiguous (codes "the service returned an unreadable response") [])))
            (λ value. convert ffi_mutation (
              with_secrets_err request.new_secrets
                (Mutation.parse_mutation d value (kind_of kind) request.outputs config.policy)))
  unfolding with_secrets from_error
  read_value request kind none = refl
  read_value request kind (some value) = refl

  read :
      (request : Request) (kind : FfiMutationKind) (reply : Reply)
      → AgreesWith request kind
          (convert ffi_mutation (
            with_secrets_err request.new_secrets (
              Common.◌>>=◌ (receive d.json request reply) (λ body.
                Mutation.parse_mutation d body (kind_of kind) request.outputs config.policy))))
          reply
  unfolding receive parse_mutation parse_body ambiguous_outcome from_error with_secrets
  read request kind timed_out = (_, refl)
  read request kind unreachable = (_, refl)
  read request kind unreadable = (_, refl)
  read request kind (body_text body) = read_value request kind (d.json.from_str body)

  -- Of a mutation that is sent once and not again, the client's outcome is what `parse_mutation` of the
  -- bindings makes of the text of the answer, with the secrets and the outputs of the request, or, if
  -- no answer could be read, an `ambiguous_outcome` with the secrets of the request.
  pub run_mutation-AgreesWith :
      (request : Request) (kind : FfiMutationKind) (net : Net)
      → is_sendable d transport config request ≡ true
      → attempts_of config (kind_of kind) ≡ 0
      → AgreesWith request kind
          (convert ffi_mutation (run_mutation d transport config request (kind_of kind) net).0)
          (transport net.sent request.url)
  run_mutation-AgreesWith request kind net sendable single =
      rw (once request kind net sendable single)
        (read request kind (transport net.sent request.url))
