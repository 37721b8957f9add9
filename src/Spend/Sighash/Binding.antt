-- ===== src/Spend/Sighash/Binding.antt =====
-- What the sighash of src/spend.rs depends on: the note's key, the mint's domain, the claimed times
-- and the leaf.
use lnurlcash_core.Common.{
  ℕ, zero, suc, ◌+◌, ◌/◌, ◌^◌, ◌<◌, List, [], ◌∷◌, ◌++◌, Option, none, some, ◌≡◌, refl, sym, ap,
  ◌∙◌, arith, length, concat, length-append, append-injective,
}
use lnurlcash_core.Common.Text.{Text, codes, lower}
use lnurlcash_core.Common.Utf8.{as_bytes, as_bytes-injective}
use lnurlcash_core.Deps.{CryptoApi}
use lnurlcash_core.Spend.{tapleaf_version, le_bytes, compact_size, tagged_hash, tapleaf_hash}
use lnurlcash_core.Spend.Sighash.{
  spend_prevout, outpoint, script_pubkey, extension, spend_type, spend_sig_msg, tap_sighash,
}

length-le_bytes : (width n : ℕ) → length (le_bytes width n) ≡ width
unfolding le_bytes
length-le_bytes zero n = refl
length-le_bytes (suc width) n = ap suc (length-le_bytes width (n / 256))

le_bytes-injective : (a b : ℕ) → a < 2 ^ 32 → b < 2 ^ 32 → le_bytes 4 a ≡ le_bytes 4 b → a ≡ b
unfolding le_bytes
le_bytes-injective a b ha hb h = ground arith

length-compact_size : (n m : ℕ) → length (compact_size n) + n ≡ length (compact_size m) + m → n ≡ m
unfolding compact_size
length-compact_size n m h = ground (
  arith,
  length-le_bytes 2 n,
  length-le_bytes 4 n,
  length-le_bytes 8 n,
  length-le_bytes 2 m,
  length-le_bytes 4 m,
  length-le_bytes 8 m,
)

append_nil : (bytes : List ℕ) → bytes ++ [] ≡ bytes
append_nil [] = refl
append_nil (b ∷ bytes) = ap (λ t. b ∷ t) (append_nil bytes)

-- Everything that one sighash depends on.
pub record Signed : Type 0 where
  pub output_key : List ℕ
  pub domain : Text
  pub locktime : ℕ
  pub sequence : ℕ
  pub leaf_script : Option (List ℕ)

-- The times are a `u32`.
pub record IsTimed (x : Signed) : Type 0 where
  pub locktime : x.locktime < 2 ^ 32
  pub sequence : x.sequence < 2 ^ 32

-- What binds two sighashes together: the same note at the same domain for the same times and leaf.
pub record SameSpend (x y : Signed) : Type 0 where
  pub output_key : x.output_key ≡ y.output_key
  pub domain : lower x.domain ≡ lower y.domain
  pub locktime : x.locktime ≡ y.locktime
  pub sequence : x.sequence ≡ y.sequence
  pub leaf_script : x.leaf_script ≡ y.leaf_script

module _ (crypto : CryptoApi) where
  -- What a tagged hash is the hash of.
  abbrev pub tagged : Text → List (List ℕ) → List ℕ
  tagged tag parts = let hashed = crypto.sha256 (as_bytes tag) in hashed ++ (hashed ++ concat parts)

  abbrev pub message : Signed → List ℕ
  message x = spend_sig_msg crypto x.output_key x.domain x.locktime x.sequence x.leaf_script

  abbrev pub leaf_parts : List ℕ → List (List ℕ)
  leaf_parts leaf = (tapleaf_version ∷ []) ∷ compact_size (length leaf) ∷ leaf ∷ []

  abbrev pub hashed_leaf : Option (List ℕ) → List ℕ
  hashed_leaf none = []
  hashed_leaf (some leaf) = tagged (codes "TapLeaf") (leaf_parts leaf)

  -- The messages that are hashed on the way to a sighash and depend on what is signed.
  abbrev pub hashed_for : Signed → List (List ℕ)
  hashed_for x =
      tagged (codes "TapSighash") ((0x00 ∷ []) ∷ message x ∷ [])
      ∷ outpoint crypto x.domain
      ∷ tagged (codes "LNURLcash/mint") (as_bytes (lower x.domain) ∷ [])
      ∷ (length (script_pubkey x.output_key) ∷ script_pubkey x.output_key)
      ∷ le_bytes 4 x.sequence
      ∷ hashed_leaf x.leaf_script
      ∷ []

  -- Messages at the same place in two lists are equal if their hashes are.
  abbrev pub NoClash : List (List ℕ) → List (List ℕ) → Type 0
  NoClash (a ∷ these) (b ∷ those) =
      (crypto.sha256 a ≡ crypto.sha256 b → a ≡ b) × NoClash these those
  NoClash _ _ = Unit {0}

  module _ (sized : (bytes : List ℕ) → length (crypto.sha256 bytes) ≡ 32) where
    tagged-injective :
        (tag : Text) (parts others : List (List ℕ))
        → tagged tag parts ≡ tagged tag others
        → concat parts ≡ concat others
    tagged-injective tag parts others h =
        let hashed = crypto.sha256 (as_bytes tag) in
        let (_, h1) = append-injective hashed hashed refl h in
        let (_, h2) = append-injective hashed hashed refl h1 in h2

    same_length : (a b : List ℕ) → length (crypto.sha256 a) ≡ length (crypto.sha256 b)
    same_length a b = sized a ∙ sym (sized b)

    leaf_parts-injective : (a b : List ℕ) → concat (leaf_parts a) ≡ concat (leaf_parts b) → a ≡ b
    leaf_parts-injective a b h =
        let (_, h1) = append-injective (tapleaf_version ∷ []) (tapleaf_version ∷ []) refl h in
        let measured : length (compact_size (length a)) + length a
            ≡ length (compact_size (length b)) + length b =
          omega (
            arith,
            ap length h1,
            length-append (compact_size (length a)) (a ++ []),
            length-append (compact_size (length b)) (b ++ []),
            ap length (append_nil a),
            ap length (append_nil b),
          ) in
        let size : length a ≡ length b = length-compact_size (length a) (length b) measured in
        let (_, h2) = append-injective _ _ (ap (λ n. length (compact_size n)) size) h1 in
        sym (append_nil a) ∙ h2 ∙ append_nil b

    message-injective :
        (x y : Signed)
        → message x ≡ message y
        → (le_bytes 4 x.locktime ≡ le_bytes 4 y.locktime)
          × (crypto.sha256 (outpoint crypto x.domain) ≡ crypto.sha256 (outpoint crypto y.domain))
          × (crypto.sha256 (length (script_pubkey x.output_key) ∷ script_pubkey x.output_key)
              ≡ crypto.sha256 (length (script_pubkey y.output_key) ∷ script_pubkey y.output_key))
          × (crypto.sha256 (le_bytes 4 x.sequence) ≡ crypto.sha256 (le_bytes 4 y.sequence))
          × (spend_type x.leaf_script ≡ spend_type y.leaf_script)
          × (extension crypto x.leaf_script ≡ extension crypto y.leaf_script)
    unfolding spend_sig_msg
    message-injective x y h =
        let (_, h1) = append-injective (0x00 ∷ []) (0x00 ∷ []) refl h in
        let (_, h2) = append-injective (le_bytes 4 2) (le_bytes 4 2) refl h1 in
        let (locktime, h3) =
          append-injective (le_bytes 4 x.locktime) (le_bytes 4 y.locktime)
            (length-le_bytes 4 x.locktime ∙ sym (length-le_bytes 4 y.locktime)) h2 in
        let (prevouts, h4) = append-injective _ _ (same_length _ _) h3 in
        let (_, h5) = append-injective _ _ (same_length _ _) h4 in
        let (keys, h6) = append-injective _ _ (same_length _ _) h5 in
        let (sequences, h7) = append-injective _ _ (same_length _ _) h6 in
        let (_, h8) = append-injective _ _ (same_length _ _) h7 in
        let (kinds, h9) =
          append-injective (spend_type x.leaf_script ∷ []) (spend_type y.leaf_script ∷ []) refl
            h8 in
        let (_, h10) = append-injective (le_bytes 4 0) (le_bytes 4 0) refl h9 in
        (locktime, prevouts, keys, sequences, cc kinds, h10)

    hashed_leaf-injective :
        (a b : Option (List ℕ))
        → (crypto.sha256 (hashed_leaf a) ≡ crypto.sha256 (hashed_leaf b)
            → hashed_leaf a ≡ hashed_leaf b)
        → spend_type a ≡ spend_type b
        → extension crypto a ≡ extension crypto b
        → a ≡ b
    unfolding tapleaf_hash tagged_hash
    hashed_leaf-injective none none clash kind h = refl
    hashed_leaf-injective none (some b) clash kind h = absurd (omega (arith, kind))
    hashed_leaf-injective (some a) none clash kind h = absurd (omega (arith, kind))
    hashed_leaf-injective (some a) (some b) clash kind h =
        let (hashes, _) = append-injective _ _ (same_length _ _) h in
        ap some (
          leaf_parts-injective a b
            (tagged-injective (codes "TapLeaf") (leaf_parts a) (leaf_parts b) (clash hashes)))

    -- If SHA-256 has 32 bytes and does not clash on what is hashed on the way, two equal sighashes, of
    -- the key path or of the script path, whose times are a u32, are of the same note at the same domain
    -- (in lower case), with the same times and the same leaf if there is one.
    pub tap_sighash-SameSpend :
        (x y : Signed)
        → IsTimed x
        → IsTimed y
        → NoClash (hashed_for x) (hashed_for y)
        → tap_sighash crypto (message x) ≡ tap_sighash crypto (message y)
        → SameSpend x y
    unfolding tap_sighash tagged_hash spend_prevout
    tap_sighash-SameSpend x y tx ty (top, (outer, (inner, (key, (times, (leaf, _)))))) h =
        let h1 =
          tagged-injective (codes "TapSighash") ((0x00 ∷ []) ∷ message x ∷ [])
            ((0x00 ∷ []) ∷ message y ∷ []) (top h) in
        let (_, h2) = append-injective (0x00 ∷ []) (0x00 ∷ []) refl h1 in
        let (locktime, prevouts, keys, sequences, kinds, extensions) =
          message-injective x y (sym (append_nil (message x)) ∙ h2 ∙ append_nil (message y)) in
        let (outpoints, _) = append-injective _ _ (same_length _ _) (outer prevouts) in
        let domains =
          tagged-injective (codes "LNURLcash/mint") (as_bytes (lower x.domain) ∷ [])
            (as_bytes (lower y.domain) ∷ []) (inner outpoints) in
        let pubkeys = key keys in
        record {
          output_key = cc pubkeys;
          domain = as_bytes-injective _ _ (
              sym (append_nil (as_bytes (lower x.domain)))
              ∙ domains
              ∙ append_nil (as_bytes (lower y.domain)));
          locktime = le_bytes-injective _ _ tx.locktime ty.locktime locktime;
          sequence = le_bytes-injective _ _ tx.sequence ty.sequence (times sequences);
          leaf_script = hashed_leaf-injective x.leaf_script y.leaf_script leaf kinds extensions;
        }
