-- ===== src/Model/Samples.antt =====
-- Small vaults of src/model.c for the runs of the test modules.
use pvault.Base.{ℕ, true, false, List, [], ◌∷◌, replicate}
use pvault.Base.Int.{pos}
use pvault.Header.{max_plaintext}
use pvault.Model.Add.{Env}
use pvault.Model.Types.{CustomField, Record, Vault, field_secret}
use pvault.Util.Slice.{view, null}

abbrev pub mail_id : List ℕ
mail_id = replicate 16 7

abbrev pub bank_id : List ℕ
bank_id = replicate 16 9

abbrev pub pin : CustomField
pin = record {
  name = view (b'P' ∷ b'I' ∷ b'N' ∷ []);
  value = view (b'1' ∷ b'2' ∷ b'3' ∷ b'4' ∷ []);
  flags = field_secret;
}

abbrev pub mail : Record
mail = record {
  id = mail_id;
  revision = 3;
  created_ms = pos 1000;
  updated_ms = pos 2000;
  flags = 0;
  title = view (b'M' ∷ b'a' ∷ b'i' ∷ b'l' ∷ []);
  username = view (b'a' ∷ b'n' ∷ b'a' ∷ []);
  password = view (0 ∷ 255 ∷ []);
  notes = null 0;
  urls = view (
      view (b'h' ∷ b't' ∷ b't' ∷ b'p' ∷ b's' ∷ b':' ∷ b'/' ∷ b'/' ∷ b'm' ∷ b'a' ∷ b'i' ∷ b'l' ∷ [])
      ∷ []);
  tags = view (view (b'w' ∷ b'e' ∷ b'b' ∷ []) ∷ view (b'w' ∷ b'o' ∷ b'r' ∷ b'k' ∷ []) ∷ []);
  fields = view (pin ∷ []);
}

-- What a caller hands over for a record that has no id yet.
abbrev pub bank : Record
bank = record mail {
  id = replicate 16 0;
  revision = 0;
  created_ms = pos 0;
  updated_ms = pos 0;
  title = view (b'B' ∷ b'a' ∷ b'n' ∷ b'k' ∷ []);
}

abbrev pub answers : Env
answers = record { now = pos 5000; protect_rw = true; draws = mail_id ∷ []; last_draw = bank_id }

-- A vault with one record, protected as after a load.
abbrev pub one_record : Vault
one_record = record {
  arena = record { allocated = true; capacity = max_plaintext; used = 4096; readonly = true };
  vault_id = replicate 16 1;
  device_id = replicate 16 2;
  generation = 5;
  created_ms = pos 1000;
  updated_ms = pos 2000;
  records = mail ∷ [];
  record_capacity = 16;
  vmk = replicate 32 3;
  source_hash = replicate 32 4;
  dirty = false;
  path = (b'/' ∷ b'v' ∷ b'a' ∷ b'u' ∷ b'l' ∷ b't' ∷ []);
}
