-- ===== src/Files/Access.antt =====
-- general/lib/io/files_interaction.c `file_exist` and `write_log_accessFile`, and `write_to_log` and
-- `sendFileToClient` of general/lib/socket/socket.c, which nothing calls.
use gopher_server_cross_plat.Base.{
  ℕ, Bool, true, false, Option, none, some, ◌≡◌, arith, ◌==◌, if◌then◌else◌, Bytes, ◌++◌, codes, ℤ,
  pos, negsuc, not,
}
use gopher_server_cross_plat.Outcome.{Result, ok, stop, exited}
use gopher_server_cross_plat.World.{Os}
use gopher_server_cross_plat.Utils.{assert_nb}
use gopher_server_cross_plat.Files.{FileType, not_exist, file_type, type_of_mode}
use gopher_server_cross_plat.Platform.{Platform}

unfoldable pub file_exist : Os → Bytes → Bool
file_exist os filename = elim (os.stat filename) [ none ↦ false | some mode ↦ true ]

-- The text of an open file, if it is one, and the return code.
unfoldable pub write_log_access_file : Bytes → Option Bytes → ℕ × Option Bytes
write_log_access_file text none = (if assert_nb false == 0 then 0 else 1, none)
write_log_access_file text (some file) =
    if assert_nb true == 0 then (0, some (file ++ text)) else (1, some file)

-- The log file's text; none: fopen fails.
unfoldable pub write_to_log : Option Bytes → ℤ × Option Bytes
write_to_log none = (negsuc 0, none)
write_to_log (some file) = (pos 0, some (file ++ codes "ciaoo"))

-- A stream on a descriptor; without one the process ends with EXIT_FAILURE.
unfoldable pub send_file_to_client : {A : Type 0} → Option A → Result A
send_file_to_client none = stop (exited (pos 1))
send_file_to_client (some stream) = ok stream

abbrev is_missing : FileType → Bool
is_missing not_exist = true
is_missing _ = false

module _ ⦃platform : Platform⦄ where
  -- A path exists for `file_exist` exactly when `file_type` has a type for it.
  pub file_exist-file_type :
      (os : Os) (cwd filename : Bytes)
      → file_exist os filename ≡ not (is_missing (file_type os cwd filename))
  unfolding file_exist file_type type_of_mode
  file_exist-file_type os cwd filename = ground arith
