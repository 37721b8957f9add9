-- ===== src/Client/Service.antt =====
-- `run_mutation` of src/client.rs against a service behind a network that loses requests and answers. The
-- service is any state with a handler, and the transport is made of the two.
use lnurlcash_core.Common.{
  ℕ, zero, suc, Bool, true, false, List, [], ◌∷◌, Option, none, some, ◌≡◌, ◌⊎◌, inl, inr, refl, sym,
  ap, ◌∙◌, subst, if◌then◌else◌, unwrap_or, ok, err, Bool-cases,
}
use lnurlcash_core.Common as Common
use lnurlcash_core.Common.Text.{Text, codes}
use lnurlcash_core.Errors.{Error, ambiguous, with_secrets, is_ambiguous, new_ambiguous, Result}
use lnurlcash_core.Deps.{Deps}
use lnurlcash_core.Protocol.Types.{Request, MutationKind, MutationResponse}
use lnurlcash_core.Protocol.Mutation.{parse_mutation}
use lnurlcash_core.Client.Monad.{
  Reply, timed_out, unreachable, unreadable, body_text, Transport, ClientConfig, Net, M, continue,
  lift,
}
use lnurlcash_core.Client.Run.{receive, resolve, attempt, rounds, run_mutation}
use lnurlcash_core.Client.Mutate.{is_sendable, log, run_sent, IsAmbiguous}

-- What becomes of a request: it is dropped before it arrives, or it arrives and the answer is late, broken,
-- or delivered.
pub data Delivery : Type 0 where
  dropped late broken delivered : Delivery

abbrev reply_of : Delivery → Text → Reply
reply_of dropped answer = unreachable
reply_of late answer = timed_out
reply_of broken answer = unreadable
reply_of delivered answer = body_text answer

module _ {State : Type 0} (serve : Text → State → Text × State) (initial : State)
    (network : List Text → Delivery) where
  abbrev arrival : Delivery → Text → State → State
  arrival dropped url s = s
  arrival _ url s = (serve url s).1

  -- The service after what was sent, the last URL first.
  abbrev pub state_after : List Text → State
  state_after [] = initial
  state_after (url ∷ sent) = arrival (network sent) url (state_after sent)

  abbrev pub link : Transport
  link sent url = reply_of (network sent) (serve url (state_after sent)).0

  module _ {Value Url : Type 0} (d : Deps Value Url) (config : ClientConfig) (request : Request)
      (kind : MutationKind) where
    -- How the client reads an answer, and what it makes of it in the end.
    abbrev pub read : Text → Result MutationResponse
    read answer =
        Common.◌>>=◌ (receive d.json request (body_text answer))
          (λ body. parse_mutation d body kind request.outputs config.policy)

    abbrev pub concluded : Result MutationResponse → Result MutationResponse
    concluded (ok response) = ok response
    concluded (err e) = err (with_secrets e request.new_secrets)

    -- The one call that the retries stand for, made in a state of the service.
    abbrev pub once : State → Text × State
    once s = serve request.url s

    -- How the retries end, by the state in which they began: with what the client makes of the answer to one
    -- call, and the service in the state after it; or with an ambiguous error, and the service in the state
    -- before the call or after it.
    pub data AtMostOnce (s : State) : Result MutationResponse → State → Type 0 where
      answered : AtMostOnce s (concluded (read (once s).0)) (once s).1
      unheard :
          {e : Error} {t : State}
          → is_ambiguous e ≡ true
          → (t ≡ s) ⊎ (t ≡ (once s).1)
          → AtMostOnce s (err e) t

    with_secrets-ambiguous :
        (e : Error) (secrets : List Text)
        → is_ambiguous e ≡ true
        → is_ambiguous (with_secrets e secrets) ≡ true
    unfolding with_secrets is_ambiguous
    with_secrets-ambiguous (ambiguous _ _) secrets h = refl
    with_secrets-ambiguous _ secrets h = cc

    module _ (sendable : is_sendable d link config request ≡ true) (s : State)
        (replays : serve request.url (once s).1 ≡ once s) where
      served : (t : State) → (t ≡ s) ⊎ (t ≡ (once s).1) → serve request.url t ≡ once s
      served t (inl e) = ap (serve request.url) e
      served t (inr e) = ap (serve request.url) e ∙ replays

      continue-lift :
          (r : Result Value) (net : Net)
          → continue
              (r, net)
              (λ body. lift (parse_mutation d body kind request.outputs config.policy))
            ≡ (
              Common.◌>>=◌ r (λ body. parse_mutation d body kind request.outputs config.policy),
              net,
            )
      continue-lift (ok body) net = refl
      continue-lift (err e) net = refl

      attempt_read :
          (net : Net)
          → attempt d link config request kind net ≡ (
            Common.◌>>=◌
                (receive d.json request (link net.sent request.url))
                (λ body. parse_mutation d body kind request.outputs config.policy),
            log d link config request net,
          )
      unfolding attempt
      attempt_read net =
          ap
            (λ (p : Result Value × Net).
              continue p (λ body. lift (parse_mutation d body kind request.outputs config.policy)))
            (run_sent d link config request net sendable)
          ∙ continue-lift _ _

      -- One round: the client reads the answer to the one call, or hears nothing that it can use.
      data Round (x : Result MutationResponse) (t : State) : Type 0 where
        heard : x ≡ read (once s).0 → t ≡ (once s).1 → Round x t
        lost_round :
            {e : Error} → x ≡ err e → is_ambiguous e ≡ true → (t ≡ s) ⊎ (t ≡ (once s).1) → Round x t

      delivery-Round :
          (delivery : Delivery) (t : State)
          → (t ≡ s) ⊎ (t ≡ (once s).1)
          → Round
              (Common.◌>>=◌
                (receive d.json request (reply_of delivery (serve request.url t).0))
                (λ body. parse_mutation d body kind request.outputs config.policy))
              (arrival delivery request.url t)
      unfolding receive with_secrets is_ambiguous
      delivery-Round dropped t at = lost_round refl refl at
      delivery-Round late t at =
          lost_round refl refl (inr (ap (λ (p : Text × State). p.1) (served t at)))
      delivery-Round broken t at =
          lost_round refl refl (inr (ap (λ (p : Text × State). p.1) (served t at)))
      delivery-Round delivered t at =
          heard (ap (λ (p : Text × State). read p.0) (served t at))
            (ap (λ (p : Text × State). p.1) (served t at))

      landed : {x : Result MutationResponse} {t : State} → Round x t → (t ≡ s) ⊎ (t ≡ (once s).1)
      landed (heard hx ht) = inr ht
      landed (lost_round hx amb at) = at

      answered_by :
          (x : Result MutationResponse) (t : State)
          → x ≡ read (once s).0
          → t ≡ (once s).1
          → AtMostOnce s (concluded x) t
      answered_by x t hx ht =
          subst (λ (x : Result MutationResponse). AtMostOnce s (concluded x) t) (sym hx)
            (subst (λ t. AtMostOnce s (concluded (read (once s).0)) t) (sym ht) answered)

      abbrev Ended : Result MutationResponse × Net → Type 0
      Ended end = AtMostOnce s end.0 (state_after end.1.sent)

      resolve-Ended :
          (x : Result MutationResponse) (net : Net) (retry : Error → M MutationResponse)
          → Round x (state_after net.sent)
          → ((e : Error) → is_ambiguous e ≡ true → Ended (retry e net))
          → Ended (resolve request.new_secrets retry (x, net))
      resolve-Ended (ok a) net retry (heard hx ht) again = answered_by (ok a) _ hx ht
      resolve-Ended (ok a) net retry (lost_round hx amb at) again = cc hx
      resolve-Ended (err e) net retry round again = elim (Bool-cases (is_ambiguous e)) [
        | inl amb ↦ rw amb (again e amb)
        | inr settled ↦ rw settled (settled_round e settled round)
      ]
        where
          settled_round :
              (e : Error)
              → is_ambiguous e ≡ false
              → Round (err e) (state_after net.sent)
              → Ended (err (with_secrets e request.new_secrets), net)
          settled_round e settled (heard hx ht) = answered_by (err e) _ hx ht
          settled_round e settled (lost_round {e = e1} hx amb at) = cc (settled, amb, hx)

      rounds-Ended :
          (n : ℕ) (last : Option Error) (net : Net)
          → IsAmbiguous last
          → (state_after net.sent ≡ s) ⊎ (state_after net.sent ≡ (once s).1)
          → Ended (rounds d link config n request kind last net)
      unfolding rounds is_ambiguous
      rounds-Ended zero last net amb at = unheard (unwrapped last amb) at
        where
          unwrapped :
              (last : Option Error)
              → IsAmbiguous last
              → is_ambiguous (
                  with_secrets
                    (unwrap_or last (new_ambiguous (codes "the mutation was never attempted")))
                    request.new_secrets)
                ≡ true
          unwrapped none amb = with_secrets-ambiguous _ request.new_secrets refl
          unwrapped (some e) amb = with_secrets-ambiguous e request.new_secrets amb
      rounds-Ended (suc n) last net amb at =
          let round = delivery-Round (network net.sent) (state_after net.sent) at in
          rw (attempt_read net) (
            resolve-Ended _ (log d link config request net) _ round
              (λ e amb. rounds-Ended n (some e) (log d link config request net) amb (landed round)))

      -- A mutation that can be sent, against a service which answers a call that is made again as it did the
      -- first time, and changes nothing by it: whatever requests and answers the network loses, the retries
      -- amount to at most one call.
      pub run_mutation-AtMostOnce :
          (net : Net)
          → state_after net.sent ≡ s
          → AtMostOnce s
              (run_mutation d link config request kind net).0
              (state_after (run_mutation d link config request kind net).1.sent)
      unfolding run_mutation
      run_mutation-AtMostOnce net at = rounds-Ended _ none net tt (inl at)
