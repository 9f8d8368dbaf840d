-- ===== src/Codes/Tables.antt =====
-- The item types as tables of conditions, for every MIME type and every extension.
use gopher_server_cross_plat.Base.{
  ℕ, true, false, [], ◌∷◌, ◌++◌, some, if◌then◌else◌, Bytes, codes, ◌≡◌, ◌+◌, length, refl, arith,
  ap, beq, pos, Without,
}
use gopher_server_cross_plat.Outcome.{ok}
use gopher_server_cross_plat.World.{Os}
use gopher_server_cross_plat.Cstring.{
  strcmp, starts_with, strtok_r-append, Without-contains_byte, contains_byte_self,
}
use gopher_server_cross_plat.Dict.{entry, find_entry, IsSorted, compare_entries}
use gopher_server_cross_plat.Dict.Search.{bsearch-find_entry}
use gopher_server_cross_plat.Codes.{
  subtype_dict, type_dict, check_subtype, check_type, choose_code, get_gopher_code,
  code_or_minus_one, code_of_tokens, file_command, not_found_respond,
}

-- The item type that the server means for a MIME type.
abbrev pub mime_code : Bytes → Bytes → ℕ
mime_code type subtype =
    if beq (codes "directory") subtype
    then b'1'
    else if beq (codes "gif") subtype
    then b'g'
    else if beq (codes "octet-stream") subtype
    then b'9'
    else if beq (codes "x-mach-binary") subtype
    then b'9'
    else if beq (codes "x-pie-executable") subtype
    then b'9'
    else if beq (codes "image") type
    then b'I'
    else b'0'

subtype_dict-IsSorted : IsSorted subtype_dict
unfolding compare_entries strcmp
subtype_dict-IsSorted = (
  (refl, (refl, (refl, (refl, tt)))),
  ((refl, (refl, (refl, tt))), ((refl, (refl, tt)), ((refl, tt), (tt, tt)))),
)

type_dict-IsSorted : IsSorted type_dict
type_dict-IsSorted = (tt, tt)

check_subtype_lem : (s : Bytes) → check_subtype s ≡ code_or_minus_one (find_entry s subtype_dict)
unfolding check_subtype
check_subtype_lem s =
    ap code_or_minus_one (bsearch-find_entry (entry s 0) subtype_dict subtype_dict-IsSorted)

check_type_lem : (s : Bytes) → check_type s ≡ code_or_minus_one (find_entry s type_dict)
unfolding check_type
check_type_lem s =
    ap code_or_minus_one (bsearch-find_entry (entry s 0) type_dict type_dict-IsSorted)

pub choose_code-mime_code :
    (type subtype : Bytes) → choose_code type subtype ≡ pos (mime_code type subtype)
unfolding choose_code find_entry
choose_code-mime_code type subtype = rw (check_subtype_lem, check_type_lem) (ground arith)

-- On Linux, when the command can be allocated and `file` answers with a MIME type, which is not
-- its text for a missing file, the item type is the table's for that MIME type.
pub get_gopher_code-mime_code :
    (os : Os) (path : Bytes) (t : ℕ) (type : Bytes) (s : ℕ) (subtype : Bytes)
    → os.calloc_ok (length file_command + length path + 1) ≡ true
    → os.popen (file_command ++ path)
      ≡ some (some ((t ∷ type) ++ b'/' ∷ ((s ∷ subtype) ++ b'\n' ∷ [])))
    → Without b'/' (t ∷ type)
    → Without b'\n' (s ∷ subtype)
    → starts_with not_found_respond ((t ∷ type) ++ b'/' ∷ ((s ∷ subtype) ++ b'\n' ∷ [])) ≡ false
    → get_gopher_code os path ≡ ok (pos (mime_code (t ∷ type) (s ∷ subtype)))
unfolding get_gopher_code
get_gopher_code-mime_code os path t type s subtype room output no_slash no_newline found =
    rw
      (
        room,
        output,
        found,
        strtok_r-append (b'/' ∷ []) t type ((s ∷ subtype) ++ b'\n' ∷ []) b'/'
            (Without-contains_byte b'/' (t ∷ type) no_slash) (contains_byte_self b'/'),
        code_of_tokens,
        strtok_r-append (b'\n' ∷ []) s subtype [] b'\n'
            (Without-contains_byte b'\n' (s ∷ subtype) no_newline) (contains_byte_self b'\n'),
      )
      (ap ok (choose_code-mime_code (t ∷ type) (s ∷ subtype)))
