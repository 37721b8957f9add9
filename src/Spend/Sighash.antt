-- ===== src/Spend/Sighash.antt =====
-- What the signatures of src/spend.rs sign.
pub mod Binding
use lnurlcash_core.Common.{
  ℕ, not, List, [], ◌∷◌, ◌++◌, Option, none, some, if◌then◌else◌, length, map_option, option_filter,
  and_then,
}
use lnurlcash_core.Common.Text.{Text, codes, text_eq, trim, lower, contains}
use lnurlcash_core.Common.Utf8.{as_bytes}
use lnurlcash_core.Deps.{CryptoApi, UrlApi, BechApi}
use lnurlcash_core.LongBech32.{Checksum}
use lnurlcash_core.Urls.{from_lud17}
use lnurlcash_core.Urls.Resolve.{is_bech32_lnurl, from_bech32_lnurl}
use lnurlcash_core.Spend.{
  tapleaf_version, key_path_locktime, key_path_sequence, le_bytes, tagged_hash, tapleaf_hash,
}

module _ {Url : Type 0} (u : UrlApi Url) (bech : BechApi Checksum) where
  unfoldable pub spend_domain_of : Text → Option Text
  spend_domain_of value =
      let trimmed = trim value in
      let expanded =
        if is_bech32_lnurl trimmed
        then from_bech32_lnurl bech trimmed
        else some (from_lud17 trimmed) in
      and_then expanded λ expanded.
        let candidate =
          if contains (codes "://") expanded then expanded else codes "https://" ++ expanded in
        and_then (u.parse candidate)
          λ url. option_filter (map_option lower (u.host_str url)) (λ host. not (text_eq host []))

abbrev pub script_pubkey : List ℕ → List ℕ
script_pubkey output_key = 0x51 ∷ 0x20 ∷ output_key

abbrev pub spend_type : Option (List ℕ) → ℕ
spend_type none = 0x00
spend_type (some leaf) = 0x02

module _ (crypto : CryptoApi) where
  unfoldable pub spend_prevout : Text → List ℕ
  spend_prevout domain = tagged_hash crypto (codes "LNURLcash/mint") (as_bytes (lower domain) ∷ [])

  abbrev pub outpoint : Text → List ℕ
  outpoint domain = spend_prevout domain ++ le_bytes 4 0

  -- The extension of BIP-342, for a leaf.
  abbrev pub extension : Option (List ℕ) → List ℕ
  extension none = []
  extension (some leaf) =
      tapleaf_hash crypto leaf tapleaf_version ++ (0x00 ∷ le_bytes 4 0xffff_ffff)

  unfoldable pub spend_sig_msg : List ℕ → Text → ℕ → ℕ → Option (List ℕ) → List ℕ
  spend_sig_msg output_key domain locktime sequence leaf_script =
      let pubkey = script_pubkey output_key in
      (0x00 ∷ [])
      ++ (le_bytes 4 2
          ++ (le_bytes 4 locktime
              ++ (crypto.sha256 (outpoint domain)
                  ++ (crypto.sha256 (le_bytes 8 0)
                      ++ (crypto.sha256 (length pubkey ∷ pubkey)
                          ++ (crypto.sha256 (le_bytes 4 sequence)
                              ++ (crypto.sha256 (le_bytes 9 0)
                                  ++ ((spend_type leaf_script ∷ [])
                                      ++ (le_bytes 4 0 ++ extension leaf_script)))))))))

  unfoldable pub tap_sighash : List ℕ → List ℕ
  tap_sighash sig_msg = tagged_hash crypto (codes "TapSighash") ((0x00 ∷ []) ∷ sig_msg ∷ [])

  unfoldable pub key_path_sighash : List ℕ → Text → List ℕ
  key_path_sighash output_key domain =
      tap_sighash (spend_sig_msg output_key domain key_path_locktime key_path_sequence none)

  unfoldable pub script_path_sighash : List ℕ → Text → List ℕ → ℕ → ℕ → List ℕ
  script_path_sighash output_key domain leaf_script locktime sequence =
      tap_sighash (spend_sig_msg output_key domain locktime sequence (some leaf_script))
