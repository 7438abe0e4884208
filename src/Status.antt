-- ===== src/Status.antt =====
-- include/pvault/pvault.h and src/error.c: the status codes and the exit codes of the program.

use pvault.Base.{ℕ}

pub data Status : Type 0 where
  ok usage auth io secure_memory locked external format limit not_found exists state durability :
      Status
  nomem unsupported : Status

-- `pv_status_exit_code`
unfoldable pub exit_code : Status → ℕ
exit_code Status.ok = 0
exit_code Status.usage = 2
exit_code Status.auth = 3
exit_code Status.format = 3
exit_code Status.unsupported = 3
exit_code Status.io = 4
exit_code Status.durability = 4
exit_code Status.secure_memory = 5
exit_code Status.nomem = 5
exit_code Status.limit = 5
exit_code Status.locked = 6
exit_code Status.state = 6
exit_code Status.external = 7
exit_code Status.not_found = 1
exit_code Status.exists = 1
