-- ===== src/Files.antt =====
-- What the program uses of Go's packages os and encoding/json to keep a list of structs in a file.
pub mod Json
pub mod Disk
