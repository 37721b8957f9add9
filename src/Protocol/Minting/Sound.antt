-- ===== src/Protocol/Minting/Sound.antt =====
-- What the readers of a payRequest and of an invoice in src/protocol.rs accept.
use lnurlcash_core.Common.{
  ℕ, true, not, ◌&&◌, Option, some, ◌≡◌, subst, ap, ◌∙◌, arith, is_some, ok, ok_or, guard,
  >>=-eq-ok, guard-eq-ok, ok-injective,
}
use lnurlcash_core.Common.Text.{Text, codes}
use lnurlcash_core.Bolt11.{decode_bolt11_amount_msat}
use lnurlcash_core.Bolt11.Amount.{Names, decode_bolt11_amount_msat-Names}
use lnurlcash_core.Fees.{MintFee}
use lnurlcash_core.Fees.Monotone.{IsBounded}
use lnurlcash_core.Fees.Token.Bounds.{parse_mint_fee-IsBounded}
use lnurlcash_core.Deps.{Deps}
use lnurlcash_core.Protocol.Types.{PayRequestInfo, InvoiceResult, names_mint_output}
use lnurlcash_core.Protocol.Fields.{as_str, as_u64, field_is, reject_error}
use lnurlcash_core.Protocol.Minting.{
  not_pay_request, withdraw_link_of, has_room, check_invoiced, parse_pay_request, parse_invoice,
}

module _ {Value Url : Type 0} (d : Deps Value Url) where
  -- A payRequest that can be minted at, and whose fee can be grossed up.
  pub record IsMintable (info : PayRequestInfo) : Type 0 where
    pub named : is_some info.withdraw_link ≡ true → names_mint_output info ≡ true
    pub bounded : (fee : MintFee) → info.mint_fee ≡ some fee → IsBounded fee

  room_lem :
      (link : Option Text) (info : PayRequestInfo)
      → not (is_some link && not (has_room d info.comment_allowed)) ≡ true
      → is_some link ≡ true
      → names_mint_output info ≡ true
  unfolding names_mint_output
  room_lem link info h linked = ground arith

  -- A payRequest that is read offers room for an output commitment if it names a withdraw link, and
  -- a fee that it names has a rate below one million.
  pub parse_pay_request-IsMintable :
      (body : Value) (info : PayRequestInfo) → parse_pay_request d body ≡ ok info → IsMintable info
  unfolding parse_pay_request
  parse_pay_request-IsMintable body info h =
      let (_, _, h1) = >>=-eq-ok (reject_error d.json body) _ h in
      let (_, _, h2) =
        >>=-eq-ok (guard (field_is d.json body (codes "tag") (codes "payRequest")) not_pay_request)
          _ h1 in
      let (link, _, h3) = >>=-eq-ok (withdraw_link_of d body) _ h2 in
      let (_, room, h4) =
        >>=-eq-ok
          (guard
            (not (is_some link && not (has_room d (as_u64 d.json body (codes "commentAllowed")))))
            _)
          _ h3 in
      let (callback, _, h5) =
        >>=-eq-ok (ok_or (as_str d.json body (codes "callback")) not_pay_request) _ h4 in
      subst IsMintable (ok-injective h5) (record {
        named = λ linked. room_lem link _ (guard-eq-ok _ _ room) linked;
        bounded = λ fee e. parse_mint_fee-IsBounded d.json _ fee e;
      })

  check_invoiced-eq-ok :
      (pr : Text) (requested msat : ℕ)
      → check_invoiced d pr requested ≡ ok tt
      → decode_bolt11_amount_msat pr ≡ some msat
      → msat ≡ requested
  unfolding check_invoiced
  check_invoiced-eq-ok pr requested msat h e = ground arith

  -- If an invoice that is accepted names an amount of whole msat, by one of the known networks, a number
  -- without leading zeros and a multiplier in front of its last `1`, where the number and the amount are
  -- a u64, then that is the amount that was requested.
  pub parse_invoice-Names :
      (body : Value) (requested : ℕ) (result : InvoiceResult) (msat : ℕ)
      → parse_invoice d body requested ≡ ok result
      → Names result.pr msat
      → msat ≡ requested
  unfolding parse_invoice
  parse_invoice-Names body requested result msat h names =
      let (_, _, h1) = >>=-eq-ok (reject_error d.json body) _ h in
      let (pr, _, h2) = >>=-eq-ok (ok_or (as_str d.json body (codes "pr")) _) _ h1 in
      let (_, checked, h3) = >>=-eq-ok (check_invoiced d pr requested) _ h2 in
      let same : pr ≡ result.pr = ap (λ (r : InvoiceResult). r.pr) (ok-injective h3) in
      check_invoiced-eq-ok pr requested msat checked
        (ap decode_bolt11_amount_msat same ∙ decode_bolt11_amount_msat-Names result.pr msat names)
