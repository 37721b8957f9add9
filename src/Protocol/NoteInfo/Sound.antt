-- ===== src/Protocol/NoteInfo/Sound.antt =====
-- What the readers of src/protocol.rs accept at the informational GET.
use lnurlcash_core.Common.{
  ◌≤◌, true, false, not, [], Option, none, some, ◌≡◌, ◌≢◌, ◌⊎◌, inl, inr, refl, sym, ap, arith,
  unwrap_or, Bool-cases, ltb, ok, ok_or, ◌>>=◌, guard, >>=-eq-ok,
}
use lnurlcash_core.Common.Text.{Text, codes, lower, trim, eq_ignore_case, text_eq, text_eq_iff}
use lnurlcash_core.Deps.{Deps, SpendVerdict, fails}
use lnurlcash_core.Note.{note_k1}
use lnurlcash_core.Protocol.Types.{Policy, WithdrawRequestInfo, NoteInfoByHash}
use lnurlcash_core.Protocol.Fields.{
  as_str, as_u64, field_is, reject_note_error, is_compressed_pubkey,
}
use lnurlcash_core.Protocol.NoteInfo.{
  check_mint_pubkey, same_note, same_id, is_fails, not_withdraw_request, min_withdrawable,
  check_echo, parse_note_info, parse_note_info_by_hash,
}

-- What is left of a note's state when it was looked up without its spend.
abbrev pub forget : WithdrawRequestInfo → NoteInfoByHash
forget info = record {
  callback = info.callback;
  max_withdrawable = info.max_withdrawable;
  min_withdrawable = info.min_withdrawable;
  default_description = info.default_description;
  mint_pubkey = info.mint_pubkey;
  signature = info.signature;
}

same_id-eq : (a b : Option Text) → same_id a b ≡ true → (id : Text) × (a ≡ some id) × (b ≡ some id)
same_id-eq none b h = cc h
same_id-eq (some a) none h = cc h
same_id-eq (some a) (some b) h = (a, refl, ap some (sym ((text_eq_iff a b).0 h)))

is_fails-false :
    (verdict : Option SpendVerdict) (reason : Text)
    → is_fails verdict ≡ false
    → verdict ≢ some (fails reason)
is_fails-false verdict reason h e = cc (h, ap is_fails e)

module _ {Value Url : Type 0} (d : Deps Value Url) where
  -- An echo of a spend: the same text up to case and the spaces around it, or a spend with the same
  -- note id whose verdict, at the domain of the URL, is not that it fails.
  abbrev pub Echoes : Text → Text → Text → Type 0
  Echoes k1 queried url =
      (lower (trim k1) ≡ lower (trim queried))
      ⊎ ((id : Text) × (d.spend.note_id_of k1 ≡ some id)
          × (d.spend.note_id_of queried ≡ some id)
          × ((reason : Text)
              → d.spend.check_spend k1 (unwrap_or (d.spend.spend_domain_of url) [])
                ≢ some (fails reason)))

  same_note-Echoes :
      (k1 queried url : Text) → same_note d.spend k1 queried url ≡ true → Echoes k1 queried url
  unfolding same_note eq_ignore_case
  same_note-Echoes k1 queried url h =
      elim (Bool-cases (text_eq (lower (trim k1)) (lower (trim queried)))) [
        | inl e ↦ inl ((text_eq_iff (lower (trim k1)) (lower (trim queried))).0 e)
        | inr e ↦
            let (id, here, there) =
              same_id-eq (d.spend.note_id_of k1) (d.spend.note_id_of queried) (ground arith) in
            inr (id, here, there, λ reason. is_fails-false _ reason (ground arith))
      ]

  -- An accepted response keeps its limits in order, publishes a compressed key if the policy asks
  -- for one, and, if the queried URL names a spend, echoes a spend of the same note.
  pub record IsAccepted (body : Value) (url : Text) (policy : Policy) (info : WithdrawRequestInfo)
      : Type 0 where
    pub ordered : info.min_withdrawable ≤ info.max_withdrawable
    pub verifiable :
        policy.require_mint_pubkey ≡ true
        → (key : Text) × (as_str d.json body (codes "mintPubkey") ≡ some key)
          × (is_compressed_pubkey key ≡ true)
          × (info.mint_pubkey ≡ some (lower (trim key)))
    pub echoed :
        (queried : Text)
        → note_k1 d.url url ≡ some queried
        → (k1 : Text) × (info.k1 ≡ lower k1) × (Echoes k1 queried url)

  check_echo_lem :
      (k1 url queried : Text)
      → check_echo d k1 url ≡ ok tt
      → note_k1 d.url url ≡ some queried
      → Echoes k1 queried url
  unfolding check_echo
  check_echo_lem k1 url queried h e = same_note-Echoes k1 queried url (ground arith)

  check_mint_pubkey_lem :
      (published : Option Text) (policy : Policy)
      → check_mint_pubkey published policy ≡ ok tt
      → policy.require_mint_pubkey ≡ true
      → (key : Text) × (published ≡ some key) × (is_compressed_pubkey key ≡ true)
  unfolding check_mint_pubkey
  check_mint_pubkey_lem none policy h required = ground arith
  check_mint_pubkey_lem (some key) policy h required = (key, refl, ground arith)

  -- A response that is read as a note's state has its limits in order, publishes a compressed key if
  -- the policy asks for one, and, if the URL has a spend, a `k1` that is the same text up to case and
  -- the spaces around it, or has the note id of the URL's spend and, at the URL's domain, a verdict
  -- other than a failure.
  pub parse_note_info-IsAccepted :
      (body : Value) (url : Text) (policy : Policy) (info : WithdrawRequestInfo)
      → parse_note_info d body url policy ≡ ok info
      → IsAccepted body url policy info
  unfolding parse_note_info
  parse_note_info-IsAccepted body url policy info h =
      let (_, _, h1) = >>=-eq-ok (reject_note_error d.json body) _ h in
      let (_, _, h2) =
        >>=-eq-ok
          (guard (field_is d.json body (codes "tag") (codes "withdrawRequest"))
            not_withdraw_request)
          _ h1 in
      let (callback, _, h3) =
        >>=-eq-ok (ok_or (as_str d.json body (codes "callback")) not_withdraw_request) _ h2 in
      let (k1, _, h4) =
        >>=-eq-ok (ok_or (as_str d.json body (codes "k1")) not_withdraw_request) _ h3 in
      let (highest, _, h5) =
        >>=-eq-ok (ok_or (as_u64 d.json body (codes "maxWithdrawable")) not_withdraw_request) _
          h4 in
      let (lowest, _, h6) = >>=-eq-ok (min_withdrawable d body) _ h5 in
      let (_, in_order, h7) =
        >>=-eq-ok (guard (not (ltb highest lowest)) not_withdraw_request) _ h6 in
      let (_, echo, h8) = >>=-eq-ok (check_echo d k1 url) _ h7 in
      let (_, published, h9) =
        >>=-eq-ok (check_mint_pubkey (as_str d.json body (codes "mintPubkey")) policy) _ h8 in
      record {
        ordered = ground arith;
        verifiable = λ required.
            let (key, found, compressed) = check_mint_pubkey_lem _ policy published required in
            (key, found, compressed, ground arith);
        echoed = λ queried e. (k1, ground arith, check_echo_lem k1 url queried echo e);
      }

  -- The lookup without the spend reads a response as the lookup with it does, if the response has a
  -- `k1` and its echo is accepted.
  pub parse_note_info_by_hash-parse_note_info :
      (body : Value) (url k1 : Text) (policy : Policy)
      → as_str d.json body (codes "k1") ≡ some k1
      → check_echo d k1 url ≡ ok tt
      → parse_note_info_by_hash d body policy
        ≡ (parse_note_info d body url policy >>= λ info. ok (forget info))
  unfolding parse_note_info parse_note_info_by_hash
  parse_note_info_by_hash-parse_note_info body url k1 policy has echo = ground arith
