-- ===== src/Model/Types.antt =====
-- src/pvault_internal.h: `pv_custom_field`, `pv_record`, `pv_vault`, and the limits on a record.
use pvault.Arena.{Arena}
use pvault.Base.{ℕ, Bool, List}
use pvault.Base.Int.{ℤ}
use pvault.Util.Slice.{Slice, Span}

abbrev pub max_title : ℕ
max_title = 1024

abbrev pub max_username : ℕ
max_username = 4096

abbrev pub max_password : ℕ
max_password = 65536

abbrev pub max_url : ℕ
max_url = 8192

abbrev pub max_notes : ℕ
max_notes = 262144

abbrev pub max_tag : ℕ
max_tag = 256

abbrev pub max_field_name : ℕ
max_field_name = 256

abbrev pub max_field_value : ℕ
max_field_value = 65536

abbrev pub max_collection_items : ℕ
max_collection_items = 64

abbrev pub record_deleted : ℕ
record_deleted = 1

abbrev pub record_favorite : ℕ
record_favorite = 2

abbrev pub field_secret : ℕ
field_secret = 1

pub record CustomField : Type 0 where
  pub name : Slice
  pub value : Slice
  pub flags : ℕ

pub record Record : Type 0 where
  pub id : List ℕ
  pub revision : ℕ
  pub created_ms : ℤ
  pub updated_ms : ℤ
  pub flags : ℕ
  pub title : Slice
  pub username : Slice
  pub password : Slice
  pub notes : Slice
  pub urls : Span Slice
  pub tags : Span Slice
  pub fields : Span CustomField

-- The count of records is the list's length.
pub record Vault : Type 0 where
  pub arena : Arena
  pub vault_id : List ℕ
  pub device_id : List ℕ
  pub generation : ℕ
  pub created_ms : ℤ
  pub updated_ms : ℤ
  pub records : List Record
  pub record_capacity : ℕ
  pub vmk : List ℕ
  pub source_hash : List ℕ
  pub dirty : Bool
  pub path : List ℕ
