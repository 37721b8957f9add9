-- ===== src/Client/Monad.antt =====
-- The client's effects: the transport, the source of secrets, and what they have been asked.
use lnurlcash_core.Common.{ℕ, ◌+◌, Bool, List, ok, err}
use lnurlcash_core.Common.Text.{Text}
use lnurlcash_core.Errors.{Result}
use lnurlcash_core.Protocol.Types.{Policy}

-- How a GET ends: the three failures that `run` tells apart, or the text of the answer.
pub data Reply : Type 0 where
  timed_out unreachable unreadable : Reply
  body_text : Text → Reply

-- The transport may answer by all that was sent before.
abbrev pub Transport : Type 0
Transport = List Text → Text → Reply

pub record ClientConfig : Type 0 where
  pub offline : Bool
  pub secret_source : ℕ → Text
  pub policy : Policy
  pub mutation_retries : ℕ

pub record Net : Type 0 where
  pub sent : List Text
  pub drawn : ℕ

abbrev pub M {ℓ} : Type ℓ → Type ℓ
M A = Net → Result A × Net

abbrev pub continue {ℓ κ} : {A : Type ℓ} {B : Type κ} → Result A × Net → (A → M B) → Result B × Net
continue (ok a, net) f = f a net
continue (err e, net) f = (err e, net)

infixl 5 ◌>>=◌
abbrev pub ◌>>=◌ {ℓ κ} : {A : Type ℓ} {B : Type κ} → M A → (A → M B) → M B
◌>>=◌ m f net = continue (m net) f

abbrev pub lift {ℓ} : {A : Type ℓ} → Result A → M A
lift r net = (r, net)

abbrev pub pure {ℓ} : {A : Type ℓ} → A → M A
pure a net = (ok a, net)

abbrev pub draw : ClientConfig → M Text
draw config net = (ok (config.secret_source net.drawn), record net { drawn = net.drawn + 1 })
