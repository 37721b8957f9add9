-- ===== src/Client/Session.antt =====
-- A session of src/client.rs: any sequence of its calls, each in the state that the one before left.
use lnurlcash_core.Common.{ℕ, ◌+◌, List, Option, ok_or}
use lnurlcash_core.Common.Text.{Text, codes}
use lnurlcash_core.Deps.{Deps}
use lnurlcash_core.Protocol.Types.{
  rotate, split, merge, melt, MutationResponse, WithdrawRequestInfo,
}
use lnurlcash_core.Protocol.Requests.{
  note_info_request, mint_address_request, pay_request_request, invoice_request,
  mint_invoice_request, verify_request, melt_request, rotate_request, split_request, merge_request,
}
use lnurlcash_core.Protocol.NoteInfo.{parse_note_info, parse_note_info_by_hash}
use lnurlcash_core.Protocol.Minting.{
  parse_mint_address, parse_pay_request, parse_invoice, parse_verify,
}
use lnurlcash_core.Note.{with_new_k1, build_note_info_url_by_hash}
use lnurlcash_core.Errors.{request_refused}
use lnurlcash_core.Client.Monad.{Transport, ClientConfig, Net, draw}
use lnurlcash_core.Client.Effects.{
  Grows, Grows-refl, Grows-trans, Proper, lift-Proper, draw-Grows, get-Proper, chain-Proper,
  request-Proper,
}
use lnurlcash_core.Client.{
  RotateOutcome, MeltOutcome, settled_of, fetch_note_info, fetch_note_info_by_hash,
  fetch_mint_address, melt_note, rotate_note, split_note, merge_notes, fetch_pay_request,
  request_invoice, request_mint_invoice, fetch_invoice_verification, probe_burned_note, settle_note,
}

abbrev rotation : Text → MutationResponse → RotateOutcome
rotation fresh response = record { k1 = fresh; signature = response.signature }

abbrev outcome : MutationResponse → MeltOutcome
outcome response = record { pr = response.pr; verify = response.verify }

module _ {Value Url : Type 0} (d : Deps Value Url) (transport : Transport)
    (config : ClientConfig) where
  -- One call of the client, and the state behind it.
  pub data Call (net : Net) : Net → Type 0 where
    note_info : (url : Text) → Call net (fetch_note_info d transport config url net).1
    note_info_by_hash :
        (link h : Text) → Call net (fetch_note_info_by_hash d transport config link h net).1
    mint_address : (url : Text) → Call net (fetch_mint_address d transport config url net).1
    melted : (callback k1 pr : Text) → Call net (melt_note d transport config callback k1 pr net).1
    rotated : (callback k1 : Text) → Call net (rotate_note d transport config callback k1 net).1
    parted :
        (callback : Text) (k1s : List Text) (amount_msat : ℕ)
        → Call net (split_note d transport config callback k1s amount_msat net).1
    merged :
        (callback : Text) (k1s : List Text)
        → Call net (merge_notes d transport config callback k1s net).1
    pay_request : (url : Text) → Call net (fetch_pay_request d transport config url net).1
    invoice :
        (callback : Text) (amount_msat : ℕ)
        → Call net (request_invoice d transport config callback amount_msat net).1
    mint_invoice :
        (callback : Text) (amount_msat : ℕ) (mint_secret : Text)
        → Call net (request_mint_invoice d transport config callback amount_msat mint_secret net).1
    verification : (url : Text) → Call net (fetch_invoice_verification d transport config url net).1
    probed : (url : Text) → Call net (probe_burned_note d transport config url net).1
    settled :
        (base_url k1 : Text) (amount_msat : ℕ) (signature : Option Text)
        → Call net (settle_note d transport config base_url k1 amount_msat signature net).1

  pub data Session (start : Net) : Net → Type 0 where
    begun : Session start start
    then_called : {net after : Net} → Session start net → Call net after → Session start after

  fetch_note_info-Proper :
      (url : Text) → Proper d transport config (fetch_note_info d transport config url)
  unfolding fetch_note_info
  fetch_note_info-Proper url =
      get-Proper d transport config (note_info_request d url)
        (λ (body : Value). parse_note_info d body url config.policy)

  rotate_note-Proper :
      (callback k1 : Text) → Proper d transport config (rotate_note d transport config callback k1)
  unfolding rotate_note
  rotate_note-Proper callback k1 net =
      let fresh = config.secret_source net.drawn in
      Grows-trans d transport config (draw-Grows d transport config net) (
        request-Proper d transport config (rotate_request d callback k1 fresh) rotate
          (λ (response : MutationResponse). rotation fresh response) _)

  Call-Grows : {net after : Net} → Call net after → Grows d transport config net after
  unfolding fetch_note_info_by_hash fetch_mint_address melt_note split_note merge_notes
      fetch_pay_request request_invoice request_mint_invoice fetch_invoice_verification
      probe_burned_note settle_note
  Call-Grows {net} (note_info url) = fetch_note_info-Proper url net
  Call-Grows {net} (note_info_by_hash link h) =
      lift-Proper d transport config
        (ok_or (build_note_info_url_by_hash d.url d.spend link h) (
          request_refused
            (codes "a note lookup needs a URL and a cp1 or a bearer note's 64-hex hash")))
        _
        (λ url.
          get-Proper d transport config (note_info_request d url)
            (λ (body : Value). parse_note_info_by_hash d body config.policy))
        net
  Call-Grows {net} (mint_address url) =
      get-Proper d transport config (mint_address_request d url)
        (λ (body : Value). parse_mint_address d body) net
  Call-Grows {net} (melted callback k1 pr) =
      request-Proper d transport config (melt_request d callback k1 pr) melt
        (λ (response : MutationResponse). outcome response) net
  Call-Grows {net} (rotated callback k1) = rotate_note-Proper callback k1 net
  Call-Grows {net} (parted callback k1s amount_msat) =
      let fresh = config.secret_source net.drawn in
      let change = config.secret_source (net.drawn + 1) in
      Grows-trans d transport config
        (Grows-trans d transport config (draw-Grows d transport config net)
          (draw-Grows d transport config (draw config net).1))
        (request-Proper d transport config (split_request d callback k1s amount_msat fresh change)
          split
          (λ (response : MutationResponse). record {
            k1 = fresh;
            change = change;
            signature = response.signature;
            change_signature = response.change_signature;
          })
          _)
  Call-Grows {net} (merged callback k1s) =
      let fresh = config.secret_source net.drawn in
      Grows-trans d transport config (draw-Grows d transport config net) (
        request-Proper d transport config (merge_request d callback k1s fresh) merge
          (λ (response : MutationResponse). rotation fresh response) _)
  Call-Grows {net} (pay_request url) =
      get-Proper d transport config (pay_request_request d url)
        (λ (body : Value). parse_pay_request d body) net
  Call-Grows {net} (invoice callback amount_msat) =
      get-Proper d transport config (invoice_request d callback amount_msat)
        (λ (body : Value). parse_invoice d body amount_msat) net
  Call-Grows {net} (mint_invoice callback amount_msat mint_secret) =
      get-Proper d transport config (mint_invoice_request d callback amount_msat mint_secret)
        (λ (body : Value). parse_invoice d body amount_msat) net
  Call-Grows {net} (verification url) =
      get-Proper d transport config (verify_request d url) (λ (body : Value). parse_verify d body)
        net
  Call-Grows {net} (probed url) = fetch_note_info-Proper url net
  Call-Grows {net} (settled base_url k1 amount_msat signature) =
      chain-Proper d transport config
        (ok_or (with_new_k1 d.url d.spend base_url k1 amount_msat signature)
          (request_refused (codes "that note URL does not parse")))
        (fetch_note_info d transport config)
        (λ (info : WithdrawRequestInfo) between.
          let (turned, after) = rotate_note d transport config info.callback k1 between in
          (settled_of info k1 signature turned, after))
        fetch_note_info-Proper (λ (info : WithdrawRequestInfo). rotate_note-Proper info.callback k1)
        net

  -- Whatever a session does, it keeps the log of what was sent before, sends only URLs that may be fetched,
  -- none at all in offline mode, and the number of secrets given out never falls.
  pub Session-Grows :
      {start after : Net} → Session start after → Grows d transport config start after
  Session-Grows begun = Grows-refl d transport config _
  Session-Grows (then_called session call) =
      Grows-trans d transport config (Session-Grows session) (Call-Grows call)
