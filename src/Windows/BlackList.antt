-- ===== src/Windows/BlackList.antt =====
-- windows/lib/socket/windows_socket.c `blackListFile`.
use gopher_server_cross_plat.Base.{
  Bool, true, not, ◌&&◌, [], Option, none, some, ◌≡◌, refl, arith, Bytes, beq, ltb, length,
  if◌then◌else◌, ℤ, pos, negsuc, eqb_ℤ,
}

-- Answers of the system and of libgen.
pub record Paths : Type 0 where
  pub basename : Bytes → Bytes
  pub dirname : Bytes → Bytes
  pub full_path : Bytes → Option Bytes  -- GetFullPathNameA, if it does not fail

-- The array of 2048 bytes for a path: a path that does not fit 2047 with its terminator is not written to it.
abbrev array_of : Bytes → Bytes
array_of path = if ltb (length path) 2047 then path else []

abbrev pub same_directory : Paths → Bytes → Bytes → ℤ
same_directory s base path =
    if beq (s.dirname (array_of base)) (s.dirname (array_of path)) then pos 1 else pos 0

abbrev with_base : Paths → Bytes → Option Bytes → Option Bytes → ℤ
with_base s path_file none path = negsuc 0
with_base s path_file (some base) none = negsuc 0
with_base s path_file (some base) (some path) = same_directory s base path

unfoldable pub black_list_file : Paths → Bytes → Bytes → Bytes → ℤ
black_list_file s base_dir path_file black_listed_file =
    if not (beq black_listed_file (s.basename path_file))
    then pos 0
    else with_base s path_file (s.full_path base_dir) (s.full_path path_file)

-- How the caller reads the result.
abbrev pub is_refused : ℤ → Bool
is_refused code = not (eqb_ℤ code (pos 0))

-- Whether the two lie in one directory; a path that cannot be made counts as such.
abbrev pub in_base : Paths → Option Bytes → Option Bytes → Bool
in_base s none path = true
in_base s (some base) none = true
in_base s (some base) (some path) = beq (s.dirname (array_of base)) (s.dirname (array_of path))

in_base_lem :
    (s : Paths) (path_file : Bytes) (base path : Option Bytes)
    → is_refused (with_base s path_file base path) ≡ in_base s base path
in_base_lem s path_file none path = refl
in_base_lem s path_file (some base) none = refl
in_base_lem s path_file (some base) (some path) = ground arith

-- A file is refused exactly when it has the name, and lies in the directory of the base or the full path of
-- one of the two cannot be made.
pub black_list_file-refused :
    (s : Paths) (base_dir path_file name : Bytes)
    → is_refused (black_list_file s base_dir path_file name) ≡ (
        beq name (s.basename path_file) && in_base s (s.full_path base_dir) (s.full_path path_file))
unfolding black_list_file
black_list_file-refused s base_dir path_file name =
    ground (arith, in_base_lem s path_file (s.full_path base_dir) (s.full_path path_file))
