-- ===== src/Client.antt =====
-- src/client.rs over an arbitrary transport. `Net` is what the world has seen of the client: the
-- URLs sent, the last one first, and how many secrets the source has given.
pub mod Monad
pub mod Run
pub mod Mutate
pub mod Replay
pub mod Refused
pub mod Safety
pub mod Settle
pub mod Effects
pub mod Session
pub mod Service
use lnurlcash_core.Common.{ℕ, Bool, false, List, [], ◌∷◌, Option, none, some, ok, err}
use lnurlcash_core.Common as Common
use lnurlcash_core.Common.Text.{Text, codes}
use lnurlcash_core.Errors.{
  Error, request_refused, service_rejected, note_pending, note_spent, note_unknown, Result,
}
use lnurlcash_core.Deps.{Deps}
use lnurlcash_core.Note.{with_new_k1, build_note_info_url_by_hash}
use lnurlcash_core.Protocol.Types.{
  melt, rotate, split, merge, NoteInfoByHash, WithdrawRequestInfo, MintAddressInfo, PayRequestInfo,
  InvoiceResult, VerifyResult,
}
use lnurlcash_core.Protocol.Requests.{
  note_info_request, mint_address_request, melt_request, rotate_request, split_request,
  merge_request, pay_request_request, invoice_request, mint_invoice_request, verify_request,
}
use lnurlcash_core.Protocol.NoteInfo.{parse_note_info, parse_note_info_by_hash}
use lnurlcash_core.Protocol.Minting.{
  parse_mint_address, parse_pay_request, parse_invoice, parse_verify,
}
use lnurlcash_core.Client.Monad.{Net, M, ◌>>=◌, lift, pure, ClientConfig, Transport, draw}
use lnurlcash_core.Client.Run.{run, run_mutation}

pub data NoteFate : Type 0 where
  live gone unknown : NoteFate

pub record RotateOutcome : Type 0 where
  pub k1 : Text
  pub signature : Option Text

pub record SplitOutcome : Type 0 where
  pub k1 : Text
  pub change : Text
  pub signature : Option Text
  pub change_signature : Option Text

pub record MeltOutcome : Type 0 where
  pub pr : Option Text
  pub verify : Option Text

pub record SettledNote : Type 0 where
  pub k1 : Text
  pub amount_msat : ℕ
  pub signature : Option Text
  pub callback : Text

-- How `probe_burned_note` reads the answer.
unfoldable pub fate_of {ℓ} : {A : Type ℓ} → Result A → NoteFate
fate_of (ok _) = live
fate_of (err (note_spent _ _)) = gone
fate_of (err (note_unknown _ _)) = gone
fate_of (err _) = unknown

-- How `settle_note` reads the outcome of its rotate.
unfoldable pub settled_of :
    WithdrawRequestInfo → Text → Option Text → Result RotateOutcome → Result SettledNote
settled_of info k1 signature (ok rotated) = ok (record {
  k1 = rotated.k1;
  amount_msat = info.max_withdrawable;
  signature = rotated.signature;
  callback = info.callback;
})
settled_of info k1 signature (err (request_refused _)) = ok (record {
  k1 = k1;
  amount_msat = info.max_withdrawable;
  signature = signature;
  callback = info.callback;
})
settled_of info k1 signature (err (service_rejected _)) = ok (record {
  k1 = k1;
  amount_msat = info.max_withdrawable;
  signature = signature;
  callback = info.callback;
})
settled_of info k1 signature (err note_pending) = ok (record {
  k1 = k1;
  amount_msat = info.max_withdrawable;
  signature = signature;
  callback = info.callback;
})
settled_of info k1 signature (err e) = err e

module _ {Value Url : Type 0} (d : Deps Value Url) (transport : Transport)
    (config : ClientConfig) where
  unfoldable pub fetch_note_info : Text → M WithdrawRequestInfo
  fetch_note_info url = do
    request ← lift (note_info_request d url)
    body ← run d transport config request
    lift (parse_note_info d body url config.policy)

  unfoldable pub fetch_note_info_by_hash : Text → Text → M NoteInfoByHash
  fetch_note_info_by_hash withdraw_link h = do
    url ← lift (
        Common.ok_or (build_note_info_url_by_hash d.url d.spend withdraw_link h) (
          request_refused
            (codes "a note lookup needs a URL and a cp1 or a bearer note's 64-hex hash")))
    request ← lift (note_info_request d url)
    body ← run d transport config request
    lift (parse_note_info_by_hash d body config.policy)

  unfoldable pub fetch_mint_address : Text → M MintAddressInfo
  fetch_mint_address url = do
    request ← lift (mint_address_request d url)
    body ← run d transport config request
    lift (parse_mint_address d body)

  unfoldable pub melt_note : Text → Text → Text → M MeltOutcome
  melt_note callback k1 pr = do
    request ← lift (melt_request d callback k1 pr)
    response ← run_mutation d transport config request melt
    pure (record { pr = response.pr; verify = response.verify })

  unfoldable pub rotate_note : Text → Text → M RotateOutcome
  rotate_note callback k1 = do
    fresh ← draw config
    request ← lift (rotate_request d callback k1 fresh)
    response ← run_mutation d transport config request rotate
    pure (record { k1 = fresh; signature = response.signature })

  unfoldable pub split_note : Text → List Text → ℕ → M SplitOutcome
  split_note callback k1s amount_msat = do
    fresh ← draw config
    change ← draw config
    request ← lift (split_request d callback k1s amount_msat fresh change)
    response ← run_mutation d transport config request split
    pure (record {
      k1 = fresh;
      change = change;
      signature = response.signature;
      change_signature = response.change_signature;
    })

  unfoldable pub merge_notes : Text → List Text → M RotateOutcome
  merge_notes callback k1s = do
    fresh ← draw config
    request ← lift (merge_request d callback k1s fresh)
    response ← run_mutation d transport config request merge
    pure (record { k1 = fresh; signature = response.signature })

  unfoldable pub fetch_pay_request : Text → M PayRequestInfo
  fetch_pay_request url = do
    request ← lift (pay_request_request d url)
    body ← run d transport config request
    lift (parse_pay_request d body)

  unfoldable pub request_invoice : Text → ℕ → M InvoiceResult
  request_invoice pay_callback amount_msat = do
    request ← lift (invoice_request d pay_callback amount_msat)
    body ← run d transport config request
    lift (parse_invoice d body amount_msat)

  unfoldable pub request_mint_invoice : Text → ℕ → Text → M InvoiceResult
  request_mint_invoice pay_callback amount_msat mint_secret = do
    request ← lift (mint_invoice_request d pay_callback amount_msat mint_secret)
    body ← run d transport config request
    lift (parse_invoice d body amount_msat)

  unfoldable pub fetch_invoice_verification : Text → M VerifyResult
  fetch_invoice_verification verify_url = do
    request ← lift (verify_request d verify_url)
    body ← run d transport config request
    lift (parse_verify d body)

  unfoldable pub probe_burned_note : Text → Net → NoteFate × Net
  probe_burned_note url net =
      let (result, after) = fetch_note_info url net in (fate_of result, after)

  unfoldable pub settle_note : Text → Text → ℕ → Option Text → M SettledNote
  settle_note base_url k1 expected_amount_msat signature = do
    url ← lift (
        Common.ok_or (with_new_k1 d.url d.spend base_url k1 expected_amount_msat signature)
          (request_refused (codes "that note URL does not parse")))
    info ← fetch_note_info url
    λ net.
        let (rotated, after) = rotate_note info.callback k1 net in
        (settled_of info k1 signature rotated, after)
