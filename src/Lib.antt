-- ===== src/Lib.antt =====
-- A model of lnurlcash-core, the crate that lets a wallet hold bearer notes of a Lightning mint
-- (LUD-25), with theorems on what its parts promise.
--
-- The parts and how they interact. A note is a URL with a secret `k1`. The client draws fresh
-- secrets, builds a request that names an output for each of them, sends it over a transport that
-- may lose the answer, and reads the answer. What matters is which answers, and which lost
-- answers, leave the caller with the fresh secret of a note that may have been minted with it.
--
-- * Errors (src/errors.rs): the taxonomy of errors as a data type with the source's variants,
--   `with_secrets`, `new_secrets`, the predicates, and `classify_note_error`.
-- * Fees (src/fees.rs): the mint fee on `u64` amounts. `proportional_fee` keeps the wrap-around of
--   `+` and `*`. The two loops of `gross_up_for_mint_fee` run on 65 units of fuel each: the first
--   doubles a number that is at least 1 and below 2 ^ 64, the second halves an interval below 2 ^ 64.
--   Fees/Token reads the token out of a payRequest's metadata.
-- * Bolt11 (src/bolt11.rs): the shape of an invoice and the amount in its human-readable part; Amount
--   has what BOLT 11 says of that part.
-- * Urls (src/urls.rs): what may be fetched, and the LUD-17 schemes; Urls/Resolve for how an input
--   resolves to a URL. LongBech32 (src/long_bech32.rs) has the checksums of an LNURL.
-- * Secrets (src/secrets.rs): the shape of a secret, its hash, and the superseded derivation.
-- * Recoverable (src/recoverable.rs): the amount in the human-readable part of a certificate; Strings
--   for the strings of fixed length, Cw1 for the payload of a `cw1`, whose reader has the payload's
--   length as fuel since each round takes two bytes at least, Path for the indices of a note, Keys for
--   the keys below a service's root, Ownership for the signature of a `ck1`, and Naming for how a
--   note is filed and looked up.
-- * Spend (src/spend.rs): the hashes, the output key and the bearer note; Sighash for what a signature
--   signs, Leaf for `check_leaf`, whose loop has the length of the script as fuel since each round
--   takes a byte at least, Clock for `check_time_claim`, whose `i64` is its 64 bits with the
--   difference as the processor has it, Check for `decode_spend` and `check_spend`, and Api for the
--   interface that the protocol has to them.
-- * Cash (src/cash.rs): the BIP-32 walk from the seed to a service's root.
-- * Signature (src/signature.rs): the certificates and their checks; Address for the proof of a
--   registration, with `str::to_lowercase` as a parameter.
-- * Note (src/note.rs): what a note URL claims, and the next URL of a note. The loops of
--   `with_new_k1` and `without_k1` are one function, `rewrite_pairs`, with the flags as its state and
--   with what they write as a parameter, `Fresh`. Check is `check_note_url`.
-- * Protocol (src/protocol.rs): Types for the data, Fields for the accessors, Requests for the
--   functions that build a URL, NoteInfo, Mutation and Minting for those that read a response. A
--   function that can fail is in the monad of `Common.Results`, in the source's order of checks.
-- * Client (src/client.rs): the requests over a transport, in the monad of Client/Monad, whose state
--   is the list of URLs sent, the last one first, and the number of secrets drawn. The transport is
--   an arbitrary function of what was sent before and of the URL; it gives the text of an answer, or
--   one of the three failures that `run` tells apart. `run_mutation` is recursion on the rounds left.
--   Session has the step relation of the client's calls, and the sequences of them; Service puts any
--   service with a state behind a network that loses requests and answers.
-- * Ffi (src/ffi.rs): the errors and records that cross to another language; Requests and Answers for
--   what builds a request and reads a response, Bytes for what crosses as hex, Keys for the nodes and
--   keys. The records that repeat those of the protocol field by field are the protocol's own. Client
--   compares `parse_mutation` with the client, RoundTrip has the laws of hex and bech32.
--
-- Common holds what the standard library gives: a `str` is the list of its code points (`len` counts
-- the bytes of its UTF-8 encoding), a `u64` a number below 2 ^ 64 with `checked_mul` and
-- `saturating_add` written out, `Result` a data type. Deps has one record for each interface that the
-- code calls: serde_json, url, bech32, hex, sha2, hmac and the curve outside the repository, and the
-- functions of src/spend.rs and src/recoverable.rs that the protocol uses, an interface which
-- Spend/Api fills with their code. The theorems hold for all their instances; those on
-- rewritten URLs assume `UrlLaws`, what the documentation of `url` says of `query_pairs_mut` and of
-- parsing a serialised URL. Samples has an instance of each, Examples the theorems at concrete inputs.
--
-- Not modelled: the curve, SHA-256, HMAC and bech32 themselves, which are parameters, and what
-- wipes a key from memory; the functions of src/ffi.rs which only pass text on to one function of
-- another file; the drawing of random secrets and HTTP itself, `format_fee_percent` and
-- `describe_mint_fee`, which print floating-point numbers, and the timeout of a request, which is
-- one way for an answer to be lost. An index of the source that is in bounds by an earlier check
-- has an arbitrary value where it is not.
pub mod Common
pub mod Errors
pub mod Fees
pub mod Deps
pub mod LongBech32
pub mod Secrets
pub mod Urls
pub mod Bolt11
pub mod Recoverable
pub mod Spend
pub mod Cash
pub mod Signature
pub mod Note
pub mod Protocol
pub mod Client
pub mod Ffi
pub mod Samples
pub mod Examples
