-- ===== src/Files.antt =====
-- general/lib/io/files_interaction.c `file_type` and linux/lib/socket/linux_socket.c
-- `blackListFile`: what kind of file a path names, and whether it is the server's own log.
pub mod Kinds
pub mod Access
use gopher_server_cross_plat.Base.{
  ℕ, zero, suc, ◌+◌, ◌-◌, ◌/◌, ◌%◌, Bool, true, false, not, List, [], ◌∷◌, ◌++◌, Option, none, some,
  ◌==◌, if◌then◌else◌, Bytes, codes, beq,
}
use gopher_server_cross_plat.World.{Os}
use gopher_server_cross_plat.Platform.{Platform}

-- The FILES_ constants of general/include/definitions.h.
pub data FileType : Type 0 where
  not_exist is_directory is_reg_file is_unmanaged_file not_permitted : FileType

-- `s.st_mode & S_IFDIR` and `s.st_mode & S_IFREG`: one bit each.
abbrev pub has_dir_bit : ℕ → Bool
has_dir_bit mode = mode / 0x4000 % 2 == 1

abbrev pub has_reg_bit : ℕ → Bool
has_reg_bit mode = mode / 0x8000 % 2 == 1

-- The bytes before the last separator and behind it, if there is one.
unfoldable pub split_last : Bytes → Option (Bytes × Bytes)
split_last [] = none
split_last (c ∷ s) = elim (split_last s) [
  | some (d, b) ↦ some (c ∷ d, b)
  | none ↦ if c == b'/' then some ([], s) else none
]

-- Without the separators at the end.
unfoldable pub strip_end : Bytes → Bytes
strip_end [] = []
strip_end (c ∷ s) = elim (strip_end s) [ [] ↦ if c == b'/' then [] else c ∷ [] | d ∷ t ↦ c ∷ d ∷ t ]

base_of : Bytes → Option (Bytes × Bytes) → Bytes
base_of s none = s
base_of s (some (d, b)) = b

dir_of : Option (Bytes × Bytes) → Bytes
dir_of none = b'.' ∷ []
dir_of (some (d, b)) = elim (strip_end d) [ [] ↦ b'/' ∷ [] | x ∷ t ↦ x ∷ t ]

-- basename and dirname of POSIX, on a path that is not empty and not all separators.
unfoldable pub basename : Bytes → Bytes
unfolding base_of split_last strip_end
basename s = base_of (strip_end s) (split_last (strip_end s))

-- dirname of a NULL pointer is ".".
unfoldable pub dirname : Option Bytes → Bytes
unfolding dir_of split_last strip_end
dirname none = b'.' ∷ []
dirname (some s) = dir_of (split_last (strip_end s))

abbrev pub log_file_name : Bytes
log_file_name = codes "gopher_log_file.txt"

unfoldable pub black_list_file : Os → Bytes → Bytes → Bytes → Bool
unfolding basename dirname
black_list_file os base_dir path_file black_listed_file =
    if not (beq black_listed_file (basename path_file))
    then false
    else beq (dirname (os.realpath base_dir)) (dirname (os.realpath path_file))

module _ ⦃platform : Platform⦄ where
  type_of_mode : Os → Bytes → Bytes → Option ℕ → FileType
  type_of_mode os cwd filename none = not_exist
  type_of_mode os cwd filename (some mode) =
      if has_dir_bit mode
      then is_directory
      else if has_reg_bit mode
      then (if platform.black_list_file os cwd filename log_file_name
          then not_permitted
          else is_reg_file)
      else is_unmanaged_file

  unfoldable pub file_type : Os → Bytes → Bytes → FileType
  unfolding type_of_mode
  file_type os cwd filename = type_of_mode os cwd filename (os.stat filename)
