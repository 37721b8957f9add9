-- ===== src/Client/Settle.antt =====
-- `settle_note` of src/client.rs: when it gives back the exposed secret, and when it does not.
use lnurlcash_core.Common.{ℕ, true, [], ◌∷◌, Option, some, ◌≡◌, ◌⊎◌, inl, inr, refl, arith, ok, err}
use lnurlcash_core.Common.Text.{Text}
use lnurlcash_core.Errors.{
  Error, request_refused, service_rejected, note_pending, new_secrets, Result,
}
use lnurlcash_core.Errors.Secrets.{carries_secrets}
use lnurlcash_core.Deps.{Deps}
use lnurlcash_core.Note.{with_new_k1}
use lnurlcash_core.Protocol.Types.{WithdrawRequestInfo}
use lnurlcash_core.Client.Monad.{Transport, ClientConfig, Net}
use lnurlcash_core.Client.Mutate.{is_plain_refusal}
use lnurlcash_core.Client.{
  RotateOutcome, SettledNote, settled_of, fetch_note_info, rotate_note, settle_note,
}
use lnurlcash_core.Client.Safety.{Safe, rotate_note-Safe}

-- A settled note holds the fresh secret; or it holds the exposed one with its certificate, and the
-- rotate was not sent or ended in a refusal of the kind that burns nothing. An error hands back the fresh
-- secret, unless the rotate was not sent.
abbrev pub Settled :
    Text → Text → Option Text → Net → Result RotateOutcome → Result SettledNote → Net → Type 0
Settled fresh k1 signature net rotated (ok note) after =
    (note.k1 ≡ fresh)
    ⊎ ((note.k1 ≡ k1)
        × (note.signature ≡ signature)
        × ((after.sent ≡ net.sent)
            ⊎ ((e : Error) × (rotated ≡ err e) × (is_plain_refusal e ≡ true))))
Settled fresh k1 signature net rotated (err e) after =
    (after.sent ≡ net.sent) ⊎ ((carries_secrets e ≡ true) × (new_secrets e ≡ fresh ∷ []))

settled_of-Settled :
    (fresh k1 : Text) (signature : Option Text) (info : WithdrawRequestInfo) (net after : Net)
    (r : Result RotateOutcome)
    → Safe (λ (o : RotateOutcome). o.k1 ≡ fresh) (fresh ∷ []) net (r, after)
    → Settled fresh k1 signature net r (settled_of info k1 signature r) after
unfolding settled_of
settled_of-Settled fresh k1 signature info net after (ok o) h = inl h
settled_of-Settled fresh k1 signature info net after (err (request_refused m)) (inl h) =
    inr (refl, refl, inl h)
settled_of-Settled fresh k1 signature info net after (err (service_rejected m)) h =
    inr (refl, refl, inr (service_rejected m, refl, refl))
settled_of-Settled fresh k1 signature info net after (err note_pending) h =
    inr (refl, refl, inr (note_pending, refl, refl))
settled_of-Settled fresh k1 signature info net after (err e) h = ground arith

module _ {Value Url : Type 0} (d : Deps Value Url) (transport : Transport)
    (config : ClientConfig) where
  -- Where the note's state was read: settling gives the fresh secret of its rotate; or the exposed
  -- one with its certificate, only if the rotate was not sent or ended in a refusal of the kind that
  -- burns nothing; or an error that hands back the fresh secret, unless the rotate was not sent.
  pub settle_note-Settled :
      (base_url k1 url : Text) (amount : ℕ) (signature : Option Text) (info : WithdrawRequestInfo)
      (net read : Net)
      → with_new_k1 d.url d.spend base_url k1 amount signature ≡ some url
      → fetch_note_info d transport config url net ≡ (ok info, read)
      → Settled
          (config.secret_source read.drawn)
          k1
          signature
          read
          (rotate_note d transport config info.callback k1 read).0
          (settle_note d transport config base_url k1 amount signature net).0
          (settle_note d transport config base_url k1 amount signature net).1
  unfolding settle_note
  settle_note-Settled base_url k1 url amount signature info net read parses answers =
      rw (parses, answers)
        (settled_of-Settled (config.secret_source read.drawn) k1 signature info read _ _
          (rotate_note-Safe d transport config info.callback k1 read))
