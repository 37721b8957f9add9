-- ===== src/Client/Safety.antt =====
-- `rotate_note`, `split_note` and `merge_notes` of src/client.rs: which secrets the caller has after
-- them. A plain refusal hands back none, also where an earlier sending, whose answer was lost, may have
-- been applied (Client/Refused).
use lnurlcash_core.Common.{
  ℕ, ◌+◌, true, List, [], ◌∷◌, ◌≡◌, ◌⊎◌, inl, inr, refl, subst, arith, ok, err, Bool-cases,
}
use lnurlcash_core.Common.Text.{Text}
use lnurlcash_core.Errors.{Error, new_secrets, Result}
use lnurlcash_core.Errors.Secrets.{carries_secrets}
use lnurlcash_core.Deps.{Deps}
use lnurlcash_core.Protocol.Types.{Request, MutationKind, rotate, split, merge, MutationResponse}
use lnurlcash_core.Protocol.Requests.{rotate_request, split_request, merge_request}
use lnurlcash_core.Client.Monad.{Transport, ClientConfig, Net, ◌>>=◌, lift, pure, continue}
use lnurlcash_core.Client.Run.{run_mutation}
use lnurlcash_core.Client.Mutate.{
  is_plain_refusal, is_sendable, Kept, run_mutation_unsent, run_mutation_sent,
}
use lnurlcash_core.Client.{RotateOutcome, SplitOutcome, rotate_note, split_note, merge_notes}

-- What a failed mutation leaves to its caller: nothing was sent, or the error hands back the
-- secrets, or it is a refusal of the kind that burns nothing.
abbrev pub Accounted : List Text → Net → Error → Net → Type 0
Accounted secrets net e after =
    (after.sent ≡ net.sent)
    ⊎ ((carries_secrets e ≡ true) × (new_secrets e ≡ secrets))
    ⊎ (is_plain_refusal e ≡ true)

abbrev pub Safe {ℓ} : {A : Type ℓ} → (A → Type 0) → List Text → Net → Result A × Net → Type 0
Safe Held secrets net (ok a, after) = Held a
Safe Held secrets net (err e, after) = Accounted secrets net e after

Kept-Safe {ℓ} :
    {A : Type ℓ} (Held : A → Type 0) (f : MutationResponse → A)
    → ((response : MutationResponse) → Held (f response))
    → (secrets : List Text) (net : Net) (r : Result MutationResponse) (after : Net) → Kept secrets r
    → Safe Held secrets net (continue (r, after) (λ response. pure (f response)))
Kept-Safe Held f held secrets net (ok response) after kept = held response
Kept-Safe Held f held secrets net (err e) after (inl kept) = inr (inl kept)
Kept-Safe Held f held secrets net (err e) after (inr plain) = inr (inr plain)

module _ {Value Url : Type 0} (d : Deps Value Url) (transport : Transport)
    (config : ClientConfig) where
  mutate_Safe {ℓ} :
      {A : Type ℓ} (Held : A → Type 0) (f : MutationResponse → A)
      → ((response : MutationResponse) → Held (f response))
      → (kind : MutationKind) (secrets : List Text) (net : Net) (r : Result Request)
      → ((request : Request) → r ≡ ok request → request.new_secrets ≡ secrets)
      → Safe Held secrets net (
          (lift r >>= λ request.
          run_mutation d transport config request kind >>= λ response. pure (f response))
            net)
  mutate_Safe Held f held kind secrets net (err e) known = inl refl
  mutate_Safe Held f held kind secrets net (ok request) known =
      elim (Bool-cases (is_sendable d transport config request)) [
        | inl sendable ↦ Kept-Safe Held f held secrets net _ _ (
            subst (λ held. Kept held (run_mutation d transport config request kind net).0)
              (known request refl)
              (run_mutation_sent d transport config request kind net sendable).0)
        | inr unsendable ↦
            let (m, e) = run_mutation_unsent d transport config request kind net unsendable in
            rw e (inl refl)
      ]

  rotate_request_holds :
      (callback k1 fresh : Text) (request : Request)
      → rotate_request d callback k1 fresh ≡ ok request
      → request.new_secrets ≡ fresh ∷ []
  unfolding rotate_request
  rotate_request_holds callback k1 fresh request e = ground arith

  split_request_holds :
      (callback : Text) (k1s : List Text) (amount : ℕ) (fresh change : Text) (request : Request)
      → split_request d callback k1s amount fresh change ≡ ok request
      → request.new_secrets ≡ fresh ∷ change ∷ []
  unfolding split_request
  split_request_holds callback k1s amount fresh change request e = ground arith

  merge_request_holds :
      (callback : Text) (k1s : List Text) (fresh : Text) (request : Request)
      → merge_request d callback k1s fresh ≡ ok request
      → request.new_secrets ≡ fresh ∷ []
  unfolding merge_request
  merge_request_holds callback k1s fresh request e = ground arith

  -- A rotate returns the fresh secret that it drew, or an error after which nothing was sent, or
  -- which hands back that secret, or which is a refusal of the kind that burns nothing.
  pub rotate_note-Safe :
      (callback k1 : Text) (net : Net)
      → Safe
          (λ (r : RotateOutcome). r.k1 ≡ config.secret_source net.drawn)
          (config.secret_source net.drawn ∷ [])
          net
          (rotate_note d transport config callback k1 net)
  unfolding rotate_note
  rotate_note-Safe callback k1 net =
      let fresh = config.secret_source net.drawn in
      mutate_Safe (λ (r : RotateOutcome). r.k1 ≡ fresh)
        (λ response. record { k1 = fresh; signature = response.signature }) (λ response. refl)
        rotate (fresh ∷ []) (record net { drawn = net.drawn + 1 })
        (rotate_request d callback k1 fresh) (rotate_request_holds callback k1 fresh)

  -- A split returns the two secrets that it drew, in their order, or an error after which nothing
  -- was sent, or which hands back both, or which is a refusal of the kind that burns nothing.
  pub split_note-Safe :
      (callback : Text) (k1s : List Text) (amount : ℕ) (net : Net)
      → Safe
          (λ (r : SplitOutcome).
            (r.k1 ≡ config.secret_source net.drawn)
            × (r.change ≡ config.secret_source (net.drawn + 1)))
          (config.secret_source net.drawn ∷ config.secret_source (net.drawn + 1) ∷ [])
          net
          (split_note d transport config callback k1s amount net)
  unfolding split_note
  split_note-Safe callback k1s amount net =
      let fresh = config.secret_source net.drawn in
      let change = config.secret_source (net.drawn + 1) in
      mutate_Safe (λ (r : SplitOutcome). (r.k1 ≡ fresh) × (r.change ≡ change))
        (λ response. record {
          k1 = fresh;
          change = change;
          signature = response.signature;
          change_signature = response.change_signature;
        })
        (λ response. (refl, refl)) split (fresh ∷ change ∷ [])
        (record net { drawn = net.drawn + 1 + 1 })
        (split_request d callback k1s amount fresh change)
        (split_request_holds callback k1s amount fresh change)

  -- A merge returns the fresh secret that it drew, or an error after which nothing was sent, or
  -- which hands back that secret, or which is a refusal of the kind that burns nothing.
  pub merge_notes-Safe :
      (callback : Text) (k1s : List Text) (net : Net)
      → Safe
          (λ (r : RotateOutcome). r.k1 ≡ config.secret_source net.drawn)
          (config.secret_source net.drawn ∷ [])
          net
          (merge_notes d transport config callback k1s net)
  unfolding merge_notes
  merge_notes-Safe callback k1s net =
      let fresh = config.secret_source net.drawn in
      mutate_Safe (λ (r : RotateOutcome). r.k1 ≡ fresh)
        (λ response. record { k1 = fresh; signature = response.signature }) (λ response. refl) merge
        (fresh ∷ []) (record net { drawn = net.drawn + 1 }) (merge_request d callback k1s fresh)
        (merge_request_holds callback k1s fresh)
