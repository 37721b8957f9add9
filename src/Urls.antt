-- ===== src/Urls.antt =====
-- src/urls.rs: which URLs may be fetched, and how an input resolves to one.
pub mod Resolve
use lnurlcash_core.Common.{Bool, false, ◌||◌, ◌++◌, none, some, if◌then◌else◌, is_some, is_some_and}
use lnurlcash_core.Common.Text.{
  Text, codes, text_eq, lower, starts_with, strip_prefix, take_while, ends_with, not_char,
  drop_chars,
}
use lnurlcash_core.Deps.{UrlApi}

unfoldable pub is_insecure_host : Text → Bool
is_insecure_host host =
    text_eq host (codes "127.0.0.1")
    || text_eq host (codes "0.0.0.0")
    || text_eq host (codes "localhost")
    || ends_with (codes ".onion") host

unfoldable pub from_lud17 : Text → Text
unfolding is_insecure_host
from_lud17 url =
    let lowered = lower url in
    let resolve = λ (rest : Text).
      let host = take_while (not_char b':') (take_while (not_char b'/') rest) in
      (if is_insecure_host (lower host) then codes "http" else codes "https")
      ++ codes "://"
      ++ rest in
    if starts_with (codes "lnurlw://") lowered
    then resolve (drop_chars 9 url)
    else if starts_with (codes "lnurlp://") lowered
    then resolve (drop_chars 9 url)
    else if starts_with (codes "lnurlc://") lowered
    then resolve (drop_chars 9 url)
    else if starts_with (codes "keyauth://") lowered
    then resolve (drop_chars 10 url)
    else url

unfoldable pub to_lud17w : Text → Text
to_lud17w url = elim (strip_prefix (codes "https://") url) [
  | some rest ↦ codes "lnurlw://" ++ rest
  | none ↦ elim (strip_prefix (codes "http://") url) [
    | some rest ↦ codes "lnurlw://" ++ rest
    | none ↦ url
  ]
]

module _ {Url : Type 0} (u : UrlApi Url) where
  unfoldable pub is_allowed_service_url : Text → Bool
  unfolding is_insecure_host
  is_allowed_service_url value = elim (u.parse value) [
    | none ↦ false
    | some url ↦
        if text_eq (u.scheme url) (codes "https")
        then is_some (u.host_str url)
        else if text_eq (u.scheme url) (codes "http")
        then is_some_and (u.host_str url) is_insecure_host
        else false
  ]
