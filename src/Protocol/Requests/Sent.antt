-- ===== src/Protocol/Requests/Sent.antt =====
-- What the mutating requests of src/protocol.rs put on the wire.
use lnurlcash_core.Common.{
  ℕ, true, List, [], ◌∷◌, ◌++◌, some, ◌≡◌, refl, sym, ap, ◌∙◌, subst, arith, any, ok, ◌>>=◌, guard,
  ok_or, >>=-eq-ok, ok-injective, guard-eq-ok, ok_or-eq-ok,
}
use lnurlcash_core.Common.Text.{Text, codes, text_eq, trim}
use lnurlcash_core.Common.Decimal.{decimal}
use lnurlcash_core.Deps.{Deps, UrlLaws}
use lnurlcash_core.Errors.{Result}
use lnurlcash_core.Secrets.{hash_k1}
use lnurlcash_core.Urls.{is_allowed_service_url}
use lnurlcash_core.Note.{Pair, append_pairs}
use lnurlcash_core.Note.RoundTrip.{query_pairs-append_pairs}
use lnurlcash_core.Protocol.Types.{Request, naming}
use lnurlcash_core.Protocol.Requests.{
  k1_params, callback_url, output_param, rotate_request_with_hash, split_request_with_hash,
  merge_request_with_hash, rotate_request, split_request, merge_request, holding,
}

module _ {Value Url : Type 0} (d : Deps Value Url) (laws : UrlLaws d.url) where
  scheme-append_pairs :
      (pairs : List Pair) (x : Url) → d.url.scheme (append_pairs d.url pairs x) ≡ d.url.scheme x
  unfolding append_pairs
  scheme-append_pairs [] x = refl
  scheme-append_pairs ((k, v) ∷ pairs) x =
      scheme-append_pairs pairs (d.url.append_pair x k v) ∙ laws.scheme-append_pair x k v

  host_str-append_pairs :
      (pairs : List Pair) (x : Url) → d.url.host_str (append_pairs d.url pairs x) ≡ d.url.host_str x
  unfolding append_pairs
  host_str-append_pairs [] x = refl
  host_str-append_pairs ((k, v) ∷ pairs) x =
      host_str-append_pairs pairs (d.url.append_pair x k v) ∙ laws.host_str-append_pair x k v

  -- A URL may be fetched, and is the callback with these pairs behind its own query.
  pub record IsCall (callback : Text) (params : List Pair) (url : Text) : Type 0 where
    pub from : Url
    pub to : Url
    pub parsed : d.url.parse callback ≡ some from
    pub parses : d.url.parse url ≡ some to
    pub pairs : d.url.query_pairs to ≡ d.url.query_pairs from ++ params
    pub allowed : is_allowed_service_url d.url url ≡ true

  allowed_lem :
      (callback url : Text) (from to : Url)
      → d.url.parse callback ≡ some from
      → d.url.parse url ≡ some to
      → d.url.scheme to ≡ d.url.scheme from
      → d.url.host_str to ≡ d.url.host_str from
      → is_allowed_service_url d.url callback ≡ true
      → is_allowed_service_url d.url url ≡ true
  unfolding is_allowed_service_url
  allowed_lem callback url from to parsed parses scheme host h = cc

  callback_url-IsCall :
      (callback : Text) (params : List Pair) (url : Text)
      → callback_url d callback params ≡ ok url
      → IsCall callback params url
  unfolding callback_url
  callback_url-IsCall callback params url h =
      let (_, allowed, h1) = >>=-eq-ok (guard (is_allowed_service_url d.url callback) _) _ h in
      let (_, _, h2) = >>=-eq-ok (guard (any (λ p. text_eq p.0 (codes "k1")) params) _) _ h1 in
      let (from, parsed, h3) = >>=-eq-ok (ok_or (d.url.parse callback) _) _ h2 in
      let found = ok_or-eq-ok _ _ parsed in
      let to = append_pairs d.url params from in
      let read = ap d.url.parse (sym (ok-injective h3)) ∙ laws.parse-to_string to in
      record {
        from = from;
        to = to;
        parsed = found;
        parses = read;
        pairs = query_pairs-append_pairs d.url laws params from;
        allowed =
            allowed_lem callback url from to found read (scheme-append_pairs params from)
              (host_str-append_pairs params from) (guard-eq-ok _ _ allowed);
      }

  -- A request that names outputs: it may be fetched, it is the callback with these pairs behind its
  -- own query, and it keeps the outputs and the secrets behind them.
  pub record IsNaming (callback : Text) (params : List Pair) (named kept : List Text)
      (request : Request) : Type 0 where
    pub call : IsCall callback params request.url
    pub outputs : request.outputs ≡ named
    pub new_secrets : request.new_secrets ≡ kept

  output_param-eq-ok :
      (name value : Text) (pair : Pair)
      → output_param d name value ≡ ok pair
      → pair ≡ (name, trim value)
  unfolding output_param
  output_param-eq-ok name value pair h = ground arith

  -- The last steps of a request: the callback is called, and the secrets are put behind the outputs.
  naming-IsNaming :
      (callback : Text) (params : List Pair) (named : List Text) (request : Request)
      → (callback_url d callback params >>= λ url. ok (naming url named)) ≡ ok request
      → IsNaming callback params named [] request
  naming-IsNaming callback params named request h =
      let (url, called, h1) = >>=-eq-ok (callback_url d callback params) _ h in
      subst (IsNaming callback params named []) (ok-injective h1) (record {
        call = callback_url-IsCall callback params url called;
        outputs = refl;
        new_secrets = refl;
      })

  holding-IsNaming :
      (callback : Text) (params : List Pair) (named secrets : List Text) (built request : Request)
      → IsNaming callback params named [] built
      → ◌≡◌ {A = Result Request} (ok (holding d built secrets)) (ok request)
      → IsNaming callback params named secrets request
  holding-IsNaming callback params named secrets built request given h =
      subst (IsNaming callback params named secrets) (ok-injective h)
        (record { call = given.call; outputs = given.outputs; new_secrets = refl })

  rotate_with_hash-IsNaming :
      (callback k1 h : Text) (request : Request)
      → rotate_request_with_hash d callback k1 h ≡ ok request
      → IsNaming callback ((codes "k1", k1) ∷ (codes "p1", trim h) ∷ []) (h ∷ []) [] request
  unfolding rotate_request_with_hash
  rotate_with_hash-IsNaming callback k1 h request e =
      let (output, named, e1) = >>=-eq-ok (output_param d (codes "p1") h) _ e in
      subst (λ (p : Pair). IsNaming callback ((codes "k1", k1) ∷ p ∷ []) (h ∷ []) [] request)
        (output_param-eq-ok _ _ output named)
        (naming-IsNaming callback ((codes "k1", k1) ∷ output ∷ []) (h ∷ []) request e1)

  merge_with_hash-IsNaming :
      (callback : Text) (k1s : List Text) (h : Text) (request : Request)
      → merge_request_with_hash d callback k1s h ≡ ok request
      → IsNaming callback (k1_params k1s ++ (codes "p1", trim h) ∷ []) (h ∷ []) [] request
  unfolding merge_request_with_hash
  merge_with_hash-IsNaming callback k1s h request e =
      let (output, named, e1) = >>=-eq-ok (output_param d (codes "p1") h) _ e in
      subst (λ (p : Pair). IsNaming callback (k1_params k1s ++ p ∷ []) (h ∷ []) [] request)
        (output_param-eq-ok _ _ output named)
        (naming-IsNaming callback (k1_params k1s ++ output ∷ []) (h ∷ []) request e1)

  abbrev pub split_params : List Text → ℕ → Text → Text → List Pair
  split_params k1s amount_msat h h2 =
      k1_params k1s
      ++ ((codes "amount", decimal amount_msat) ∷ (codes "p1", trim h) ∷ (codes "p2", trim h2) ∷ [])

  split_with_hash-IsNaming :
      (callback : Text) (k1s : List Text) (amount_msat : ℕ) (h h2 : Text) (request : Request)
      → split_request_with_hash d callback k1s amount_msat h h2 ≡ ok request
      → IsNaming callback (split_params k1s amount_msat h h2) (h ∷ h2 ∷ []) [] request
  unfolding split_request_with_hash
  split_with_hash-IsNaming callback k1s amount_msat h h2 request e =
      let (p1, named, e1) = >>=-eq-ok (output_param d (codes "p1") h) _ e in
      let (p2, named2, e2) = >>=-eq-ok (output_param d (codes "p2") h2) _ e1 in
      let pairs =
        λ (p q : Pair). k1_params k1s ++ ((codes "amount", decimal amount_msat) ∷ p ∷ q ∷ []) in
      subst
        (λ (p : Pair). IsNaming callback (pairs p (codes "p2", trim h2)) (h ∷ h2 ∷ []) [] request)
        (output_param-eq-ok _ _ p1 named)
        (subst (λ (q : Pair). IsNaming callback (pairs p1 q) (h ∷ h2 ∷ []) [] request)
          (output_param-eq-ok _ _ p2 named2)
          (naming-IsNaming callback (pairs p1 p2) (h ∷ h2 ∷ []) request e2))

  -- A rotate that can be requested goes to the callback, if that may be fetched, with the old secret
  -- and the hash of the new one behind the callback's own query, and keeps that hash as its output
  -- and the new secret behind it.
  pub rotate_request-IsNaming :
      (callback k1 fresh : Text) (request : Request)
      → rotate_request d callback k1 fresh ≡ ok request
      → (h : Text) × (hash_k1 d.crypto fresh ≡ ok h)
        × IsNaming callback
            ((codes "k1", k1) ∷ (codes "p1", trim h) ∷ [])
            (h ∷ [])
            (fresh ∷ [])
            request
  unfolding rotate_request
  rotate_request-IsNaming callback k1 fresh request e =
      let (h, hashed, e1) = >>=-eq-ok (hash_k1 d.crypto fresh) _ e in
      let (built, named, e2) = >>=-eq-ok (rotate_request_with_hash d callback k1 h) _ e1 in
      (
        h,
        hashed,
        holding-IsNaming callback _ _ (fresh ∷ []) built request
            (rotate_with_hash-IsNaming callback k1 h built named) e2,
      )

  -- A merge that can be requested goes to the callback, if that may be fetched, with the old secrets
  -- in their order and the hash of the new one behind the callback's own query, and keeps that hash
  -- as its output and the new secret behind it.
  pub merge_request-IsNaming :
      (callback : Text) (k1s : List Text) (fresh : Text) (request : Request)
      → merge_request d callback k1s fresh ≡ ok request
      → (h : Text) × (hash_k1 d.crypto fresh ≡ ok h)
        × IsNaming callback
            (k1_params k1s ++ (codes "p1", trim h) ∷ [])
            (h ∷ [])
            (fresh ∷ [])
            request
  unfolding merge_request
  merge_request-IsNaming callback k1s fresh request e =
      let (h, hashed, e1) = >>=-eq-ok (hash_k1 d.crypto fresh) _ e in
      let (built, named, e2) = >>=-eq-ok (merge_request_with_hash d callback k1s h) _ e1 in
      (
        h,
        hashed,
        holding-IsNaming callback _ _ (fresh ∷ []) built request
            (merge_with_hash-IsNaming callback k1s h built named) e2,
      )

  -- A split that can be requested goes to the callback, if that may be fetched, with the old secrets,
  -- the amount and the hashes of the two new secrets behind the callback's own query, the change
  -- last, and keeps the hashes as its outputs and the new secrets behind them in the same order.
  pub split_request-IsNaming :
      (callback : Text) (k1s : List Text) (amount_msat : ℕ) (fresh change : Text)
      (request : Request)
      → split_request d callback k1s amount_msat fresh change ≡ ok request
      → (h h2 : Text) × (hash_k1 d.crypto fresh ≡ ok h)
        × (hash_k1 d.crypto change ≡ ok h2)
        × IsNaming callback
            (split_params k1s amount_msat h h2)
            (h ∷ h2 ∷ [])
            (fresh ∷ change ∷ [])
            request
  unfolding split_request
  split_request-IsNaming callback k1s amount_msat fresh change request e =
      let (h, hashed, e1) = >>=-eq-ok (hash_k1 d.crypto fresh) _ e in
      let (h2, hashed2, e2) = >>=-eq-ok (hash_k1 d.crypto change) _ e1 in
      let (built, named, e3) =
        >>=-eq-ok (split_request_with_hash d callback k1s amount_msat h h2) _ e2 in
      (
        h,
        h2,
        hashed,
        hashed2,
        holding-IsNaming callback _ _ (fresh ∷ change ∷ []) built request
            (split_with_hash-IsNaming callback k1s amount_msat h h2 built named) e3,
      )
