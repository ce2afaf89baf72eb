-- ===== src/Syscall/Errors.antt =====
-- What the calls on open files do with a file number outside of the table.
use nachos_project_2_os_subj.Base.{ℕ, Bool, true, false, not, ◌||◌, Option, some, slt, none}
use nachos_project_2_os_subj.FileSystem.{max_files}
use nachos_project_2_os_subj.Syscall.{Call, read, write, seek, close, connect, send, receive}

-- The register that holds the file number, in the calls on an open file.
unfoldable pub file_register : Call → Option ℕ
file_register close = some 4
file_register connect = some 4
file_register seek = some 5
file_register read = some 6
file_register write = some 6
file_register send = some 6
file_register receive = some 6
file_register _ = none

-- A number for which the table has no entry.
abbrev pub is_beyond : ℕ → Bool
is_beyond id = slt id 0 || not (slt id max_files)

-- SC_Seek does not look for negative numbers.
abbrev pub is_seek : Call → Bool
is_seek seek = true
is_seek _ = false
