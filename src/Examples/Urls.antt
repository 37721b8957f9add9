-- ===== src/Examples/Urls.antt =====
-- The theorems on src/urls.rs at concrete inputs.
use lnurlcash_core.Common.{true, none, some, ◌≡◌, ◌⊎◌, refl}
use lnurlcash_core.Common.Text.{
  Text, codes, text_eq, lower, lower_char, upper, upper_char, is_ascii_uppercase,
  is_ascii_lowercase, trim, trim_start, trim_end, drop_while, take_while, is_whitespace,
  starts_with, ends_with, strip_prefix, after_first, split_at,
}
use lnurlcash_core.Deps.{BechApi}
use lnurlcash_core.LongBech32.{Checksum}
use lnurlcash_core.Urls.{is_insecure_host, is_allowed_service_url}
use lnurlcash_core.Urls.Resolve.{
  is_address, is_bech32_lnurl, is_lightning_address, is_loopback_lightning_address,
  ln_address_to_url, resolve_lnurl_input,
}
use lnurlcash_core.Urls.Resolve.Sound.{IsAddressUrl, resolve_lnurl_input_lem}
use lnurlcash_core.Samples.Url.{sample_url}

abbrev no_bech : BechApi Checksum
no_bech = record { encode = λ c hrp bytes. none; checked = λ c s. none }

abbrev local_mint : Text
local_mint = codes " mint@localhost:8000"

abbrev local_url : Text
local_url = codes "http://localhost:8000/.well-known/lnurlp/mint"

resolve_lnurl_input_lem_example :
    (is_allowed_service_url sample_url local_url ≡ true)
    ⊎ ((is_address (trim local_mint) ≡ true) × IsAddressUrl (trim local_mint) local_url)
unfolding resolve_lnurl_input is_bech32_lnurl is_lightning_address is_loopback_lightning_address
    ln_address_to_url is_insecure_host codes text_eq lower lower_char upper upper_char
    is_ascii_uppercase is_ascii_lowercase trim trim_start trim_end drop_while take_while
    is_whitespace starts_with ends_with strip_prefix after_first split_at
resolve_lnurl_input_lem_example =
    resolve_lnurl_input_lem no_bech sample_url local_mint local_url refl

abbrev bare_mint : Text
bare_mint = codes "m.example"

abbrev mint_url : Text
mint_url = codes "https://m.example/.well-known/lnurlp/mint"

-- An address whose domain has a path that ends in `.onion`.
abbrev smuggled : Text
smuggled = codes "a@x.com/.onion"

smuggled_cleartext :
    resolve_lnurl_input no_bech sample_url smuggled
    ≡ some (codes "http://x.com/.onion/.well-known/lnurlp/a")
unfolding resolve_lnurl_input is_bech32_lnurl is_lightning_address is_loopback_lightning_address
    ln_address_to_url is_insecure_host codes text_eq lower lower_char upper upper_char
    is_ascii_uppercase is_ascii_lowercase trim trim_start trim_end drop_while take_while
    is_whitespace starts_with ends_with strip_prefix after_first split_at
smuggled_cleartext = refl
