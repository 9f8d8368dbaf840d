-- ===== src/Codes.antt =====
-- linux/lib/protocol/linux_protocol.c and windows/lib/protocol/windows_protocol.c: the Gopher item
-- type of a file, from its MIME type on Linux and from its extension on Windows.
pub mod Windows
pub mod Tables
use gopher_server_cross_plat.Base.{
  ℕ, Bool, true, false, List, [], ◌∷◌, ◌++◌, Option, none, some, if◌then◌else◌, Bytes, ℤ, pos,
  negsuc, codes, eqb_ℤ,
}
use gopher_server_cross_plat.Outcome.{Result, ok, stop, fault}
use gopher_server_cross_plat.World.{Os}
use gopher_server_cross_plat.Utils.{concat}
use gopher_server_cross_plat.Cstring.{strtok_r, starts_with}
use gopher_server_cross_plat.Dict.{DictEntry, entry, bsearch}

abbrev pub subtype_dict : List DictEntry
subtype_dict =
    entry (codes "directory") b'1'
    ∷ entry (codes "gif") b'g'
    ∷ entry (codes "octet-stream") b'9'
    ∷ entry (codes "x-mach-binary") b'9'
    ∷ entry (codes "x-pie-executable") b'9'
    ∷ []

abbrev pub type_dict : List DictEntry
type_dict = entry (codes "image") b'I' ∷ []

-- -1 where the search finds nothing.
abbrev pub code_or_minus_one : Option DictEntry → ℤ
code_or_minus_one none = negsuc 0
code_or_minus_one (some e) = pos e.n

unfoldable pub check_subtype : Bytes → ℤ
unfolding bsearch
check_subtype arg = code_or_minus_one (bsearch (entry arg 0) subtype_dict)

unfoldable pub check_type : Bytes → ℤ
unfolding bsearch
check_type arg = code_or_minus_one (bsearch (entry arg 0) type_dict)

-- The two lookups, the second only when the first gives -1; plain text where both do.
unfoldable pub choose_code : Bytes → Bytes → ℤ
choose_code type subtype =
    if eqb_ℤ (check_subtype subtype) (negsuc 0)
    then (if eqb_ℤ (check_type type) (negsuc 0) then pos b'0' else check_type type)
    else check_subtype subtype

-- A NULL subtype, or a NULL type where it is looked up, goes to strcmp.
code_of_tokens : Option (Bytes × Bytes) → Result ℤ
unfolding choose_code
code_of_tokens none = stop fault
code_of_tokens (some (type, save)) = elim (strtok_r save (b'\n' ∷ [])) [
  | none ↦ stop fault
  | some (subtype, rest) ↦ ok (choose_code type subtype)
]

abbrev pub not_found_respond : Bytes
not_found_respond = codes "cannot open `non-existing-file'"

code_of_output : Option (Option Bytes) → Result ℤ
unfolding code_of_tokens
code_of_output none = ok (negsuc 0)
code_of_output (some none) = ok (negsuc 1)
code_of_output (some (some mime_type)) =
    if starts_with not_found_respond mime_type
    then ok (negsuc 2)
    else code_of_tokens (strtok_r mime_type (b'/' ∷ []))

abbrev pub file_command : Bytes
file_command = codes "file -b --mime-type "

code_of_command : Os → Option Bytes → Result ℤ
unfolding code_of_output
code_of_command os none = ok (negsuc 0)
code_of_command os (some command) = code_of_output (os.popen command)

unfoldable pub get_gopher_code : Os → Bytes → Result ℤ
unfolding code_of_command concat
get_gopher_code os path = code_of_command os (concat os file_command path)
