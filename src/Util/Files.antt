-- ===== src/Util/Files.antt =====
-- nc_util.hpp: files, as a function from names to contents. A file that cannot be opened for reading
-- is one that is not there, so `good()` of a stream is whether it opened.
use libncclient.Common.{
  ℕ, take, Bool, true, false, Option, none, some, Bytes, if◌then◌else◌, bytes_eq,
}

abbrev pub Files : Type 0
Files = Bytes → Option Bytes

-- The files with these contents, or no contents, under a name.
abbrev pub put : Bytes → Option Bytes → Files → Files
put fname contents files other = if bytes_eq fname other then contents else files other

-- `none` is the exception.
unfoldable pub read_file : Bytes → Files → Option Bytes
read_file file files = files file

unfoldable pub read_file_bin : Bytes → Files → Option Bytes
read_file_bin file files = files file

-- What becomes of an `ofstream`, which nothing asks for: it does not open, or it opens and stores so
-- many chars at most, fewer than it is given where the system fails, as on a full disk.
pub data OutStream : Type 0 where
  not_opened : OutStream
  stores : ℕ → OutStream

unfoldable pub write_all : OutStream → Bytes → Bytes → Files → Files
write_all not_opened fname str files = files
write_all (stores n) fname str files = put fname (some (take n str)) files

unfoldable pub write_all_bin : OutStream → Bytes → Bytes → Files → Files
write_all_bin not_opened fname str files = files
write_all_bin (stores n) fname str files = put fname (some (take n str)) files

unfoldable pub file_exists : Bytes → Files → Bool
file_exists name files = elim (files name) [ none ↦ false | some contents ↦ true ]
