-- ===== src/Files/Disk.antt =====
-- The file of a store, and the operating system's answers to the i-th call that is made about it.
use port_forwarder.Base.{ℕ, suc, Bool, true, false, Option, none, some, if◌then◌else◌}
use port_forwarder.Files.Json.{Content}

-- A failed `os.WriteFile` may leave the file with other content.
pub data WriteAnswer : Type 0 where
  written : WriteAnswer
  untouched : WriteAnswer
  spoilt : Content → WriteAnswer

-- A failed `os.ReadFile` of a file that is there is `none`.
pub record Disk : Type 0 where
  pub file : Option Content
  pub calls : ℕ
  pub can_read : ℕ → Bool
  pub can_mkdir : ℕ → Bool
  pub answer : ℕ → WriteAnswer

pub data ReadResult : Type 0 where
  not_exist : ReadResult
  unreadable : ReadResult
  content : Content → ReadResult

abbrev read_found : Bool → Option Content → ReadResult
read_found can none = if can then not_exist else unreadable
read_found can (some c) = if can then content c else unreadable

-- `os.ReadFile(path)`
unfoldable pub read_file : Disk → ReadResult × Disk
read_file d = (read_found (d.can_read d.calls) d.file, record d { calls = suc d.calls })

-- `os.MkdirAll(dir, 0o700)`: whether it succeeds.
unfoldable pub mkdir_all : Disk → Bool × Disk
mkdir_all d = (d.can_mkdir d.calls, record d { calls = suc d.calls })

abbrev write_as : WriteAnswer → Content → Disk → Bool × Disk
write_as written c d = (true, record d { file = some c; calls = suc d.calls })
write_as untouched c d = (false, record d { calls = suc d.calls })
write_as (spoilt b) c d = (false, record d { file = some b; calls = suc d.calls })

-- `os.WriteFile(path, data, 0o600)`: whether it succeeds.
unfoldable pub write_file : Content → Disk → Bool × Disk
write_file c d = write_as (d.answer d.calls) c d
