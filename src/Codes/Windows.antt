-- ===== src/Codes/Windows.antt =====
-- windows/lib/protocol/windows_protocol.c
use gopher_server_cross_plat.Base.{
  ℕ, false, ◌==◌, List, [], ◌∷◌, ◌++◌, Option, none, some, if◌then◌else◌, Bytes, codes, ◌≡◌,
  Without, refl, arith, beq,
}
use gopher_server_cross_plat.Cstring.{strrchr, strrchr_absent, strrchr-append, strcmp}
use gopher_server_cross_plat.Dict.{DictEntry, entry, bsearch, IsSorted, compare_entries, find_entry}
use gopher_server_cross_plat.Dict.Search.{bsearch-find_entry}

abbrev pub extension_dict : List DictEntry
extension_dict =
    entry (codes ".bin") b'9'
    ∷ entry (codes ".gif") b'g'
    ∷ entry (codes ".jpg") b'I'
    ∷ entry (codes ".png") b'I'
    ∷ []

abbrev pub code_or_text : Option DictEntry → ℕ
code_or_text none = b'0'
code_or_text (some e) = e.n

unfoldable pub check_code : Bytes → ℕ
unfolding bsearch
check_code arg = code_or_text (bsearch (entry arg 0) extension_dict)

code_of_extension : Option Bytes → ℕ
code_of_extension none = b'1'
code_of_extension (some ext) = check_code ext

unfoldable pub get_gopher_code : Bytes → ℕ
unfolding code_of_extension
get_gopher_code p = code_of_extension (strrchr p b'.')

-- The item type that the server means for an extension, its dot included.
abbrev pub extension_code : Bytes → ℕ
extension_code ext =
    if beq (codes ".bin") ext
    then b'9'
    else if beq (codes ".gif") ext
    then b'g'
    else if beq (codes ".jpg") ext
    then b'I'
    else if beq (codes ".png") ext
    then b'I'
    else b'0'

extension_dict-IsSorted : IsSorted extension_dict
unfolding compare_entries strcmp
extension_dict-IsSorted = ((refl, (refl, (refl, tt))), ((refl, (refl, tt)), ((refl, tt), (tt, tt))))

check_code-extension_code : (ext : Bytes) → check_code ext ≡ extension_code ext
unfolding check_code find_entry
check_code-extension_code ext =
    rw (bsearch-find_entry (entry ext 0) extension_dict extension_dict-IsSorted) (ground arith)

-- On Windows a path with no dot is a directory, and for any other the table decides by what
-- stands from the last dot on.
pub get_gopher_code-extension_code :
    (base ext : Bytes)
    → Without b'.' ext
    → (get_gopher_code ext ≡ b'1')
      × (get_gopher_code (base ++ b'.' ∷ ext) ≡ extension_code (b'.' ∷ ext))
unfolding get_gopher_code
get_gopher_code-extension_code base ext h = (
  rw (strrchr_absent ext b'.' h),
  rw (strrchr-append base ext b'.' h) (check_code-extension_code _),
)

code_of_extension-no_error : (e : Option Bytes) → (code_of_extension e == b'3') ≡ false
unfolding code_of_extension
code_of_extension-no_error none = refl
code_of_extension-no_error (some ext) = rw (check_code-extension_code ext) (ground arith)

-- No path has the type of an error.
pub get_gopher_code-no_error : (p : Bytes) → (get_gopher_code p == b'3') ≡ false
unfolding get_gopher_code
get_gopher_code-no_error p = code_of_extension-no_error (strrchr p b'.')
