-- ===== src/Urls/Resolve/Sound.antt =====
-- What the resolved URLs of src/urls.rs are.
use lnurlcash_core.Common.{
  true, false, ◌++◌, Option, none, some, ◌≡◌, ◌⊎◌, inl, inr, arith, and_then, Option-cases,
  Bool-cases,
}
use lnurlcash_core.Common.Text.{Text, codes, trim, lower, after_first}
use lnurlcash_core.Deps.{UrlApi, BechApi}
use lnurlcash_core.LongBech32.{Checksum}
use lnurlcash_core.Urls.{is_insecure_host, is_allowed_service_url, from_lud17}
use lnurlcash_core.Urls.Resolve.{
  before_char, is_address, strip_at, from_bech32_lnurl, is_bare_mint_domain, ln_address_to_url,
  allowed, resolve_mint_input, resolve_lnurl_input,
}

-- The URL of an address, in cleartext exactly if what stands between its first `@` and the next colon,
-- a path included, is a loopback host or ends in `.onion`.
abbrev pub IsAddressUrl : Text → Text → Type 0
IsAddressUrl address url =
    (domain : Text) × (after_first (codes "@") (trim address) ≡ some domain)
    × (((is_insecure_host (lower (before_char b':' domain)) ≡ true)
          × (url
              ≡ codes "http"
                ++ codes "://"
                ++ domain
                ++ codes "/.well-known/lnurlp/"
                ++ before_char b'@' (trim address)))
        ⊎ ((is_insecure_host (lower (before_char b':' domain)) ≡ false)
            × (url
                ≡ codes "https"
                  ++ codes "://"
                  ++ domain
                  ++ codes "/.well-known/lnurlp/"
                  ++ before_char b'@' (trim address))))

ln_address_to_url-IsAddressUrl :
    (address url : Text) → ln_address_to_url address ≡ some url → IsAddressUrl address url
unfolding ln_address_to_url
ln_address_to_url-IsAddressUrl address url h =
    elim (Option-cases (after_first (codes "@") (trim address))) [
      | inl e ↦ ground arith
      | inr (domain, e) ↦ (
        domain,
        e,
        elim (Bool-cases (is_insecure_host (lower (before_char b':' domain)))) [
          | inl insecure ↦ inl (insecure, ground arith)
          | inr secure ↦ inr (secure, ground arith)
        ],
      )
    ]

module _ {Url : Type 0} (bech : BechApi Checksum) (u : UrlApi Url) where
  allowed-some :
      (found : Option Text) (url : Text)
      → and_then found (allowed bech u) ≡ some url
      → is_allowed_service_url u url ≡ true
  allowed-some none url h = ground arith
  allowed-some (some text) url h = ground arith

  lnurl_cases :
      (value url : Text)
      → resolve_lnurl_input bech u value ≡ some url
      → (is_allowed_service_url u url ≡ true)
        ⊎ ((is_address (trim value) ≡ true) × (ln_address_to_url (trim value) ≡ some url))
  unfolding resolve_lnurl_input
  lnurl_cases value url h = ground (
    arith,
    allowed-some (from_bech32_lnurl bech (trim value)) url,
    allowed-some (some (from_lud17 (trim value))) url,
    allowed-some (some (trim value)) url,
  )

  mint_cases :
      (value url : Text)
      → resolve_mint_input bech u value ≡ some url
      → (is_allowed_service_url u url ≡ true)
        ⊎ ((is_address (trim value) ≡ true) × (ln_address_to_url (trim value) ≡ some url))
        ⊎ ((is_bare_mint_domain (trim value) ≡ true)
            × (ln_address_to_url (codes "mint@" ++ strip_at (trim value)) ≡ some url))
  unfolding resolve_mint_input
  mint_cases value url h = ground (arith, allowed-some (from_bech32_lnurl bech (trim value)) url)

  -- Every input that resolves gives a URL that may be fetched, or the URL of the address that it is,
  -- which is in cleartext exactly if what stands between its first `@` and the next colon, even where
  -- that is more than a host, is a loopback host or ends in `.onion`.
  pub resolve_lnurl_input_lem :
      (value url : Text)
      → resolve_lnurl_input bech u value ≡ some url
      → (is_allowed_service_url u url ≡ true)
        ⊎ ((is_address (trim value) ≡ true) × IsAddressUrl (trim value) url)
  resolve_lnurl_input_lem value url h = elim (lnurl_cases value url h) [
    | inl may ↦ inl may
    | inr (names, e) ↦ inr (names, ln_address_to_url-IsAddressUrl (trim value) url e)
  ]

  -- The same of an input that names a mint, where a bare domain stands for its address `mint`.
  pub resolve_mint_input_lem :
      (value url : Text)
      → resolve_mint_input bech u value ≡ some url
      → (is_allowed_service_url u url ≡ true)
        ⊎ ((is_address (trim value) ≡ true) × IsAddressUrl (trim value) url)
        ⊎ ((is_bare_mint_domain (trim value) ≡ true)
            × IsAddressUrl (codes "mint@" ++ strip_at (trim value)) url)
  resolve_mint_input_lem value url h = elim (mint_cases value url h) [
    | inl may ↦ inl may
    | inr (inl (names, e)) ↦ inr (inl (names, ln_address_to_url-IsAddressUrl (trim value) url e))
    | inr (inr (bare, e)) ↦ inr (inr (bare, ln_address_to_url-IsAddressUrl _ url e))
  ]
