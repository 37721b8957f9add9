-- ===== src/Examples/Requests.antt =====
-- The theorems on the requests of src/protocol.rs at concrete secrets.
use lnurlcash_core.Common.{[], ◌∷◌, ◌≡◌, refl, ok}
use lnurlcash_core.Common.Text.{
  Text, codes, text_eq, trim, trim_start, trim_end, drop_while, is_whitespace, take_while,
  after_first,
}
use lnurlcash_core.Secrets.{hash_k1}
use lnurlcash_core.Urls.{is_allowed_service_url}
use lnurlcash_core.Note.{append_pairs}
use lnurlcash_core.Protocol.Types.{Request}
use lnurlcash_core.Protocol.Requests.{
  rotate_request, rotate_request_with_hash, callback_url, output_param,
}
use lnurlcash_core.Protocol.Requests.Sent.{IsNaming, rotate_request-IsNaming}
use lnurlcash_core.Samples.{secret, other_secret, callback, sample_deps, sample_crypto}
use lnurlcash_core.Samples.Url.{sample_url, sample_url_laws}

abbrev rotate_url : Text
rotate_url =
    sample_url.append_pair (sample_url.append_pair callback (codes "k1") secret) (codes "p1")
      other_secret

abbrev rotate_sent : Request
rotate_sent = record {
  url = rotate_url;
  new_secrets = other_secret ∷ [];
  outputs = other_secret ∷ [];
}

rotate_request-IsNaming_example :
    (h : Text) × (hash_k1 sample_crypto other_secret ≡ ok h)
    × IsNaming sample_deps sample_url_laws callback
        ((codes "k1", secret) ∷ (codes "p1", trim h) ∷ [])
        (h ∷ [])
        (other_secret ∷ [])
        rotate_sent
unfolding rotate_request rotate_request_with_hash hash_k1 callback_url output_param
    is_allowed_service_url append_pairs sample_url codes text_eq trim trim_start trim_end drop_while
    is_whitespace take_while after_first
rotate_request-IsNaming_example =
    rotate_request-IsNaming sample_deps sample_url_laws callback secret other_secret rotate_sent
      refl

abbrev split_url : Text
split_url =
    sample_url.append_pair
      (sample_url.append_pair
        (sample_url.append_pair (sample_url.append_pair callback (codes "k1") secret)
          (codes "amount") (codes "1000"))
        (codes "p1") other_secret)
      (codes "p2") secret

abbrev split_sent : Request
split_sent = record {
  url = split_url;
  new_secrets = other_secret ∷ secret ∷ [];
  outputs = other_secret ∷ secret ∷ [];
}
