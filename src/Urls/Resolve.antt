-- ===== src/Urls/Resolve.antt =====
-- src/urls.rs: how an input resolves to a URL, and what a payRequest's URL says of its mint.
pub mod Sound
use lnurlcash_core.Common.{
  ℕ, Bool, true, false, not, ◌&&◌, ◌||◌, List, [], ◌∷◌, ◌++◌, Option, none, some, ◌==◌,
  if◌then◌else◌, any, and_then, map_option, unwrap_or,
}
use lnurlcash_core.Common.Text.{
  Text, codes, text_eq, lower, upper, trim, starts_with, ends_with, is_whitespace, take_while,
  drop_while, not_char, after_first, split_at, split_last_text,
}
use lnurlcash_core.Common.Utf8.{as_bytes, from_utf8}
use lnurlcash_core.Common.Decimal.{decimal}
use lnurlcash_core.Deps.{UrlApi, BechApi}
use lnurlcash_core.LongBech32.{Checksum, bech32, encode, decode}
use lnurlcash_core.Urls.{is_insecure_host, is_allowed_service_url, from_lud17}

abbrev has_char : ℕ → Text → Bool
has_char d s = any (λ c. c == d) s

abbrev has_space : Text → Bool
has_space s = any is_whitespace s

-- `split(c).next()`
abbrev before_char : ℕ → Text → Text
before_char d s = take_while (not_char d) s

unfoldable pub is_bech32_lnurl : Text → Bool
is_bech32_lnurl value = starts_with (codes "LNURL1") (upper (trim value))

module _ (bech : BechApi Checksum) where
  unfoldable pub to_bech32_lnurl : Text → Option Text
  to_bech32_lnurl url = map_option upper (encode bech bech32 (codes "lnurl") (as_bytes url))

  unfoldable pub from_bech32_lnurl : Text → Option Text
  from_bech32_lnurl value =
      let trimmed = trim value in
      if not (starts_with (codes "LNURL1") (upper trimmed))
      then none
      else and_then (decode bech bech32 (codes "lnurl") (lower trimmed)) from_utf8

-- The name and the domain of an input with exactly one `@`.
abbrev pub one_piece : Text → List Text → Option (Text × Text)
one_piece name (domain ∷ []) = some (name, domain)
one_piece name _ = none

abbrev pub address_parts : Text → Option (Text × Text)
address_parts trimmed = let (name, pieces) = split_at b'@' trimmed in one_piece name pieces

unfoldable pub is_lightning_address : Text → Bool
is_lightning_address value = elim (address_parts (trim value)) [
  | none ↦ false
  | some (name, domain) ↦
      not (text_eq name [])
      && not (has_space name)
      && not (text_eq domain [])
      && not (has_space domain)
      && has_char b'.' domain
      && not (starts_with (codes ".") domain)
      && not (ends_with (codes ".") domain)
]

unfoldable pub is_loopback_lightning_address : Text → Bool
is_loopback_lightning_address value = elim (address_parts (trim value)) [
  | none ↦ false
  | some (name, domain) ↦
      if text_eq name [] || text_eq domain []
      then false
      else is_insecure_host (lower (before_char b':' domain))
]

abbrev pub address_scheme : Text → Text
address_scheme domain =
    if is_insecure_host (lower (before_char b':' domain)) then codes "http" else codes "https"

unfoldable pub ln_address_to_url : Text → Option Text
ln_address_to_url address =
    let trimmed = trim address in
    and_then (after_first (codes "@") trimmed) λ domain. some (
      address_scheme domain
      ++ codes "://"
      ++ domain
      ++ codes "/.well-known/lnurlp/"
      ++ before_char b'@' trimmed)

abbrev pub strip_at : Text → Text
strip_at trimmed = drop_while (λ c. c == b'@') trimmed

unfoldable pub is_bare_mint_domain : Text → Bool
is_bare_mint_domain value =
    let trimmed = strip_at (trim value) in
    if text_eq trimmed [] || has_char b'@' trimmed || has_char b'/' trimmed
    then false
    else if has_space trimmed
    then false
    else (let host = before_char b':' trimmed in
        if has_char b'.' host
          && not (starts_with (codes ".") host)
          && not (ends_with (codes ".") host)
        then true
        else is_insecure_host (lower host))

abbrev pub is_address : Text → Bool
is_address trimmed = is_lightning_address trimmed || is_loopback_lightning_address trimmed

abbrev pub is_lud17 : Text → Bool
is_lud17 lowered =
    starts_with (codes "lnurlw://") lowered
    || starts_with (codes "lnurlp://") lowered
    || starts_with (codes "lnurlc://") lowered
    || starts_with (codes "keyauth://") lowered

module _ {Url : Type 0} (bech : BechApi Checksum) (u : UrlApi Url) where
  -- `is_allowed_service_url(&url).then_some(url)`
  abbrev pub allowed : Text → Option Text
  allowed url = if is_allowed_service_url u url then some url else none

  unfoldable pub resolve_mint_input : Text → Option Text
  resolve_mint_input value =
      let trimmed = trim value in
      if text_eq trimmed []
      then none
      else if is_bech32_lnurl trimmed
      then and_then (from_bech32_lnurl bech trimmed) allowed
      else if is_address trimmed
      then ln_address_to_url trimmed
      else if is_bare_mint_domain trimmed
      then ln_address_to_url (codes "mint@" ++ strip_at trimmed)
      else none

  unfoldable pub resolve_lnurl_input : Text → Option Text
  resolve_lnurl_input value =
      let trimmed = trim value in
      let lowered = lower trimmed in
      if text_eq trimmed []
      then none
      else if is_bech32_lnurl trimmed
      then and_then (from_bech32_lnurl bech trimmed) allowed
      else if is_lud17 lowered
      then allowed (from_lud17 trimmed)
      else if is_address trimmed
      then ln_address_to_url trimmed
      else if starts_with (codes "http://") lowered || starts_with (codes "https://") lowered
      then allowed trimmed
      else none

module _ {Url : Type 0} (u : UrlApi Url) where
  abbrev with_port : Url → Text → Text
  with_port url host = elim (u.port url) [
    | some port ↦ host ++ codes ":" ++ decimal port
    | none ↦ host
  ]

  unfoldable pub lnurlp_path_parts : Text → Option (Url × Text × Text)
  lnurlp_path_parts pay_url = and_then (u.parse pay_url) λ url.
      and_then (split_last_text (codes "/.well-known/lnurlp/") (u.path url)) λ parts.
        if text_eq parts.1 [] || has_char b'/' parts.1
        then none
        else some (url, parts.0 ++ codes "/.well-known/", parts.1)

  unfoldable pub mint_address_url : Text → Option Text
  mint_address_url pay_url = and_then (lnurlp_path_parts pay_url) λ parts.
      and_then (u.host_str parts.0) λ host. some (
        u.scheme parts.0
        ++ codes "://"
        ++ with_port parts.0 host
        ++ parts.1
        ++ codes "lnurlw/"
        ++ parts.2)

  unfoldable pub lightning_address_username : Text → Option Text
  lightning_address_username pay_url = map_option (λ parts. parts.2) (lnurlp_path_parts pay_url)

  unfoldable pub server_of : Text → Text
  server_of url =
      unwrap_or (and_then (u.parse url) λ parsed. map_option (with_port parsed) (u.host_str parsed))
        url
