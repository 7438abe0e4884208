-- ===== src/Lib.antt =====
-- PVault: a password vault in one encrypted file. The program's parts:
--
-- - src/crypto.c writes and reads the file's header of 252 bytes, wraps the vault's key in its two
--   slots, for a password and for a recovery key, and encrypts the body under it;
-- - src/store.c writes the file so that a crash leaves the old one or the new one, and saves the vault
--   with it;
-- - src/recovery.c shows the recovery key as text with a checksum, and reads it;
-- - src/cbor_codec.c turns the vault in memory into the plaintext, a deterministic subset of CBOR,
--   and back; each record that it reads goes through `pv_model_add_record`;
-- - src/model.c keeps the vault in memory: it validates, adds and deletes records, whose bytes and
--   arrays it puts into the vault's arena;
-- - src/arena.c is that arena, a bump allocator over locked pages;
-- - src/util.c has sizes, UTF-8, sanitised text and hexadecimal for all of them;
-- - src/error.c has the statuses, which every fallible function returns.
--
-- What models what:
--
-- - Status, Result, Exec: `pv_status`; functions that fail; functions that change an object and may
--   fail, with the object as it is left then.
-- - Util: `pv_size_add`, `pv_size_mul`, `pv_slice` (Util/Slice), `pv_utf8_valid` (Util/Utf8),
--   `decode_codepoint` and `pv_text_sanitize` (Util/Codepoint), `pv_hex_encode` and `pv_hex_decode`
--   (Util/Hex), and text search (Util/Search); the other files of Util are about these.
-- - Arena: `pv_arena`, with the offset of a block for its pointer. Arena/Bounds and Arena/Blocks have
--   the facts about one call and about runs.
-- - Crypto: the keys, `Sodium` for libsodium, and `Answers` for what one call is answered.
--   Crypto/Slots has the key slots (`pv_crypto_` rewrap, unlock and `create_header`), Crypto/Encrypt and
--   Crypto/Decrypt the body; the other files of Crypto are about these.
-- - Store: a directory, where a file knows whether its bytes have reached the disk, and Store/Disk its
--   states. Store/Write has `write_atomic_at`, Store/Read `read_disk_file_at`, Store/Snapshot
--   `write_snapshot_exclusive_at` and `automatic_backup`, Store/Save `save_locked`; the other files of
--   Store are about these.
-- - Backup: the names of automatic backups in src/store.c; Backup/Names says which are read.
-- - Recovery: the alphabet; Recovery/Base32 and Recovery/Key the functions of src/recovery.c up to
--   `pv_recovery_decode`. The other files of Recovery are about these.
-- - Header: `pv_file_header`, `pv_header_encode` and `pv_header_decode`.
-- - Model/Types, Validate, Init, Copy, Add, Delete, Find and Clone: `pv_record`, `pv_vault` and the
--   functions of src/model.c by their names without `pv_model_`. A pointer to a record of the vault is
--   its index. The other files of Model are about these.
-- - Cbor/Writer, Encode, Reader and Decode: src/cbor_codec.c. Cbor/Items lists the items of a vault as
--   docs/FORMAT.md does; the other files of Cbor are about these.
--
-- Bounds and fuel: numbers of the machine are natural numbers below 2^w, with `% 2 ^ w` where the C
-- code can wrap around; sizes have 64 bits. Loops over bytes have the length as fuel, since every round
-- takes a byte at least; the base 32 writer's loop runs on the room that is left in its buffer. The
-- loop that draws a new id is given its draws, and a last one that ends it.
--
-- Calls of the system and of libsodium give what the records of answers say; `write` is called until
-- its answers are used up and then writes all that is left, and a file opens exclusively unless it is
-- there or may not be opened.
--
-- What is answered from outside is an argument: the clock, random bytes, libsodium's allocation,
-- locking and page protection, and libcbor's stream decoder, of which one theorem assumes that it
-- measures the items which the encoder writes. Pointers that a caller must not pass as NULL are not
-- NULL in the model.
--
-- Not modelled: the rest of src/store.c (locks, snapshots of a path, restoring and opening; the
-- pruning of backups after a save is left out), the fault injection of its tests, src/config.c, the
-- recovery file of src/recovery.c, and what is input and output: src/cli.c, src/shell.c, src/ui.c,
-- src/tty.c, src/secure.c, src/clipboard.c.
pub mod Arena
pub mod Backup
pub mod Base
pub mod Cbor
pub mod Crypto
pub mod Exec
pub mod Header
pub mod Model
pub mod Recovery
pub mod Result
pub mod Status
pub mod Store
pub mod Util
