-- ===== src/Examples/Session.antt =====
-- The theorem on sessions of src/client.rs at a concrete one: a rotate, then a look at its note.
use lnurlcash_core.Client.Monad.{Net}
use lnurlcash_core.Client.Effects.{Grows}
use lnurlcash_core.Client.{fetch_note_info, rotate_note}
use lnurlcash_core.Client.Session.{Session, begun, then_called, note_info, rotated, Session-Grows}
use lnurlcash_core.Samples.{secret, callback, sample_deps, sample_config, lossy, untouched}

abbrev turned : Net
turned = (rotate_note sample_deps lossy sample_config callback secret untouched).1

abbrev looked : Net
looked = (fetch_note_info sample_deps lossy sample_config callback turned).1

abbrev session : Session sample_deps lossy sample_config untouched looked
session = then_called (then_called begun (rotated callback secret)) (note_info callback)

Session-Grows_example : Grows sample_deps lossy sample_config untouched looked
Session-Grows_example = Session-Grows sample_deps lossy sample_config session
