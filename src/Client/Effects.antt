-- ===== src/Client/Effects.antt =====
-- What the effects of src/client.rs do to its state, for any chain of them.
use lnurlcash_core.Common.{
  ℕ, zero, suc, ◌≤◌, Bool, true, false, not, List, [], ◌∷◌, ◌++◌, Option, none, some, ◌≡◌, refl,
  sym, ap, ◌∙◌, subst, arith, if◌then◌else◌, all, ok, err, Bool-cases, inl, inr,
}
use lnurlcash_core.Common.Text.{Text}
use lnurlcash_core.Errors.{Error, is_ambiguous, Result}
use lnurlcash_core.Deps.{Deps}
use lnurlcash_core.Urls.{is_allowed_service_url}
use lnurlcash_core.Protocol.Types.{Request, MutationKind, MutationResponse}
use lnurlcash_core.Client.Monad.{Transport, ClientConfig, Net, M, continue, ◌>>=◌, lift, pure, draw}
use lnurlcash_core.Client.Run.{resolve, run, attempt, rounds, run_mutation}

module _ {Value Url : Type 0} (d : Deps Value Url) (transport : Transport)
    (config : ClientConfig) where
  -- What a call may do to the state: it sends URLs that may be fetched, none in offline mode, behind those
  -- that were sent before, and gives out secrets that were not given out before.
  pub record Grows (net after : Net) : Type 0 where
    pub more : List Text
    pub log : after.sent ≡ more ++ net.sent
    pub allowed : all (is_allowed_service_url d.url) more ≡ true
    pub quiet : config.offline ≡ true → more ≡ []
    pub drawn : net.drawn ≤ after.drawn

  pub Grows-refl : (net : Net) → Grows net net
  Grows-refl net = record {
    more = [];
    log = refl;
    allowed = refl;
    quiet = λ _. refl;
    drawn = omega arith;
  }

  append_assoc : (s t r : List Text) → (s ++ t) ++ r ≡ s ++ (t ++ r)
  append_assoc [] t r = refl
  append_assoc (c ∷ s) t r = ap (λ x. c ∷ x) (append_assoc s t r)

  all-append :
      (p : Text → Bool) (s t : List Text) → all p s ≡ true → all p t ≡ true → all p (s ++ t) ≡ true
  all-append p [] t hs ht = ht
  all-append p (c ∷ s) t hs ht = elim (Bool-cases (p c)) [
    | inl good ↦ rw good (all-append p s t (rw (good) at (hs)) ht)
    | inr bad ↦ cc (rw (bad) at (hs))
  ]

  pub Grows-trans :
      {net between after : Net} → Grows net between → Grows between after → Grows net after
  Grows-trans {net} {between} {after} g h = record {
    more = h.more ++ g.more;
    log = h.log ∙ ap (λ s. h.more ++ s) g.log ∙ sym (append_assoc h.more g.more net.sent);
    allowed = all-append _ h.more g.more h.allowed g.allowed;
    quiet = λ offline. rw (h.quiet offline, g.quiet offline) refl;
    drawn = omega (arith, g.drawn, h.drawn);
  }

  abbrev pub Proper {ℓ} : {A : Type ℓ} → M A → Type 0
  Proper m = (net : Net) → Grows net (m net).1

  pub continue-Grows {ℓ κ} :
      {A : Type ℓ} {B : Type κ} (net : Net) (p : Result A × Net) (f : A → M B)
      → Grows net p.1
      → ((a : A) → Proper (f a))
      → Grows net (continue p f).1
  continue-Grows net (ok a, between) f g each = Grows-trans g (each a between)
  continue-Grows net (err e, between) f g each = g

  abbrev sent_by : (request : Request) (net : Net) (offline good : Bool) → Net
  sent_by request net offline good =
      if offline
      then net
      else if not good
      then net
      else record net { sent = request.url ∷ net.sent }

  run_lem :
      (request : Request) (net : Net)
      → (run d transport config request net).1
        ≡ sent_by request net config.offline (is_allowed_service_url d.url request.url)
  unfolding run
  run_lem request net = ground arith

  sent_by-Grows :
      (request : Request) (net : Net) (offline good : Bool)
      → config.offline ≡ offline
      → is_allowed_service_url d.url request.url ≡ good
      → Grows net (sent_by request net offline good)
  sent_by-Grows request net true good off may = Grows-refl net
  sent_by-Grows request net false false off may = Grows-refl net
  sent_by-Grows request net false true off may = record {
    more = request.url ∷ [];
    log = refl;
    allowed = rw may refl;
    quiet = λ offline. cc (off, offline);
    drawn = omega arith;
  }

  run-Proper : (request : Request) → Proper (run d transport config request)
  run-Proper request net =
      subst (Grows net) (sym (run_lem request net)) (sent_by-Grows request net _ _ refl refl)

  attempt-Proper :
      (request : Request) (kind : MutationKind) → Proper (attempt d transport config request kind)
  unfolding attempt
  attempt-Proper request kind net =
      continue-Grows net (run d transport config request net) _ (run-Proper request net)
        (λ body between. Grows-refl between)

  resolve-Grows {ℓ} :
      {A : Type ℓ} (net : Net) (secrets : List Text) (retry : Error → M A) (p : Result A × Net)
      → Grows net p.1
      → ((e : Error) → Proper (retry e))
      → Grows net (resolve secrets retry p).1
  resolve-Grows net secrets retry (ok a, between) g each = g
  resolve-Grows net secrets retry (err e, between) g each = elim (Bool-cases (is_ambiguous e)) [
    | inl again ↦ rw again (Grows-trans g (each e between))
    | inr final ↦ rw final g
  ]

  rounds-Proper :
      (n : ℕ) (request : Request) (kind : MutationKind) (last : Option Error)
      → Proper (rounds d transport config n request kind last)
  unfolding rounds
  rounds-Proper zero request kind last net = Grows-refl net
  rounds-Proper (suc n) request kind last net =
      resolve-Grows net request.new_secrets _ (attempt d transport config request kind net)
        (attempt-Proper request kind net) (λ e. rounds-Proper n request kind (some e))

  run_mutation-Proper :
      (request : Request) (kind : MutationKind)
      → Proper (run_mutation d transport config request kind)
  unfolding run_mutation
  run_mutation-Proper request kind = rounds-Proper _ request kind none

  -- What a call begins with: a step that sends nothing, then the rest.
  pub lift-Proper {ℓ κ} :
      {A : Type ℓ} {B : Type κ} (r : Result A) (f : A → M B)
      → ((a : A) → Proper (f a))
      → Proper (lift r >>= f)
  lift-Proper r f each net = continue-Grows net (r, net) f (Grows-refl net) each

  pub draw-Grows : (net : Net) → Grows net (draw config net).1
  draw-Grows net = record {
    more = [];
    log = refl;
    allowed = refl;
    quiet = λ _. refl;
    drawn = omega arith;
  }

  -- A GET that is read, and a mutation whose response is.
  pub read-Proper {ℓ} :
      {B : Type ℓ} (request : Request) (f : Value → Result B)
      → Proper (run d transport config request >>= λ body. lift (f body))
  read-Proper request f net =
      continue-Grows net (run d transport config request net) _ (run-Proper request net)
        (λ body between. Grows-refl between)

  pub mutate-Proper {ℓ} :
      {B : Type ℓ} (request : Request) (kind : MutationKind) (f : MutationResponse → B)
      → Proper (run_mutation d transport config request kind >>= λ response. pure (f response))
  mutate-Proper request kind f net =
      continue-Grows net (run_mutation d transport config request kind net) _
        (run_mutation-Proper request kind net) (λ response between. Grows-refl between)

  pub request-Proper {ℓ} :
      {B : Type ℓ} (r : Result Request) (kind : MutationKind) (f : MutationResponse → B)
      → Proper (
          lift r >>= λ request.
          run_mutation d transport config request kind >>= λ response. pure (f response))
  request-Proper r kind f = lift-Proper r _ (λ request. mutate-Proper request kind f)

  pub get-Proper {ℓ} :
      {B : Type ℓ} (r : Result Request) (f : Value → Result B)
      → Proper (lift r >>= λ request. run d transport config request >>= λ body. lift (f body))
  get-Proper r f = lift-Proper r _ (λ request. read-Proper request f)

  pub chain-Proper {ℓ κ ι} :
      {A : Type ℓ} {B : Type κ} {C : Type ι} (r : Result A) (m : A → M B) (f : B → M C)
      → ((a : A) → Proper (m a))
      → ((b : B) → Proper (f b))
      → Proper (lift r >>= λ a. m a >>= f)
  chain-Proper r m f first second =
      lift-Proper r _ (λ a net. continue-Grows net (m a net) f (first a net) second)
