-- ===== src/Protocol.antt =====
-- general/lib/gopher/protocol.c: from a selector to a path, the lines of a reply, and the listing of
-- a directory.
pub mod Menu
pub mod Selector
pub mod Response
pub mod Listing
pub mod Keeps
use gopher_server_cross_plat.Base.{
  ℕ, zero, suc, ◌+◌, ◌-◌, ◌%◌, Bool, true, false, not, ◌&&◌, List, [], ◌∷◌, ◌++◌, Option, none,
  some, ◌≡◌, refl, ◌==◌, if◌then◌else◌, Bytes, length, ℤ, pos, negsuc, eqb_ℤ, is_negative, codes,
}
use gopher_server_cross_plat.Outcome.{Result, ok, stop, fault, ◌>>=◌}
use gopher_server_cross_plat.World.{Os, World, M, Out, done, halt, lift}
use gopher_server_cross_plat.Send.{sprintf_into, socket_send_message}
use gopher_server_cross_plat.Cstring.Decimal.{print_int}
use gopher_server_cross_plat.Platform.{Platform}

abbrev pub need_to_free : ℤ
need_to_free = negsuc 1

abbrev pub no_free : ℤ
no_free = negsuc 2

-- The byte at the string's end; the byte before an empty array is outside it.
abbrev pub last_byte : Bytes → Option ℕ
last_byte [] = none
last_byte (x ∷ []) = some x
last_byte (x ∷ y ∷ s) = last_byte (y ∷ s)

-- A `char` printed by `%c`.
abbrev pub char_byte : ℤ → ℕ
char_byte (pos n) = n
char_byte (negsuc n) = 255 - n % 256

abbrev error_text : Bytes
error_text = codes " doesn't exist! error.host"

-- "%c%s%s\t%s\t%d\n"
unfoldable pub error_line : Bytes → ℤ → Bytes
error_line filename port =
    b'3' ∷ (filename ++ b'\t' ∷ (error_text ++ b'\t' ∷ (print_int port ++ b'\n' ∷ [])))

-- "%c%s\t%s\t%s\t%d\n"
unfoldable pub menu_line : ℤ → Bytes → Bytes → Bytes → ℤ → Bytes
menu_line type filename path host port =
    char_byte type
    ∷ (filename ++ b'\t' ∷ (path ++ b'\t' ∷ (host ++ b'\t' ∷ (print_int port ++ b'\n' ∷ []))))

-- The allocation and the sprintf of one line: the return code, and what `*result` points to.
print_line : Os → ℕ → Bytes → Result (ℤ × Option Bytes)
print_line os size text =
    if os.calloc_ok size
    then (do
      ret ← sprintf_into os size text
      ok (if is_negative ret then need_to_free else pos 0, some text))
    else ok (pos 1, none)

unfoldable pub protocol_response : Os → ℤ → Bytes → Bytes → Bytes → ℤ → Result (ℤ × Option Bytes)
unfolding print_line error_line menu_line sprintf_into
protocol_response os type filename path host port =
    if eqb_ℤ type (negsuc 0)
    then ok (pos 1, none)
    else if eqb_ℤ type (pos b'3')
    then print_line os (1 + 0 + length filename + length error_text + 6 + 4 + 4)
        (error_line filename port)
    else print_line os (1 + length path + length filename + length host + 6 + 4 + 4)
        (menu_line type filename path host port)

-- The steps for one directory entry that is not hidden: 0 goes on, another code is returned.
-- `host` is the global `ip_buffer`.
send_line : Os → ℤ × Option Bytes → M ℤ
send_line os (err, none) w = done (negsuc 0) w
send_line os (err, some line) w =
    if not (eqb_ℤ err (pos 0)) then done (negsuc 0) w else elim (socket_send_message os line w) [
      | done ret w' ↦ done (if is_negative ret then negsuc 1 else pos 0) w'
      | halt s w' ↦ halt s w'
    ]

abbrev pub is_hidden : Bytes → Bool
is_hidden [] = false
is_hidden (c ∷ name) = c == b'.'

module _ ⦃platform : Platform⦄ where
  -- `selector + (selector[0] == OS_SEPARATOR ? 1 : 0)`
  abbrev pub skip_separator : Bytes → Bytes
  skip_separator [] = []
  skip_separator (c ∷ s) = if c == platform.separator then s else c ∷ s

  abbrev resolved_text : Bytes → ℕ → Bytes → Bytes
  resolved_text root last selector =
      if last == platform.separator
      then root ++ skip_separator selector
      else root ++ platform.separator ∷ skip_separator selector

  resolve_with : Os → ℕ → Bytes → Bytes → Option ℕ → Result (ℤ × Option Bytes)
  resolve_with os size root selector none = stop fault
  resolve_with os size root selector (some last) =
      let text = resolved_text root last selector in
      do
        ret ← sprintf_into os size text
        ok (if is_negative ret then need_to_free else pos 0, some text)

  -- The return code, and what `*filepath` points to.
  unfoldable pub resolve_selector : Os → Bytes → Bytes → Result (ℤ × Option Bytes)
  unfolding resolve_with sprintf_into
  resolve_selector os gopher_root selector =
      let size = length gopher_root + 1 + length selector + 4 in
      if os.calloc_ok size
      then resolve_with os size gopher_root selector (last_byte gopher_root)
      else ok (no_free, none)

  coded_line : Os → Bytes → Bytes → Bytes → ℤ → Result (ℤ × Option Bytes)
  coded_line os fullpath filename host port = do
    code ← platform.get_gopher_code os fullpath
    protocol_response os code filename fullpath host port

  entry_line : Os → Bytes → Bytes → ℤ → Bytes → Result (ℤ × Option Bytes)
  entry_line os path host port filename =
      let size = length path + length filename + 5 in
      let fullpath = path ++ b'/' ∷ filename in
      if not (os.calloc_ok size) then ok (negsuc 0, none) else (do
        err ← sprintf_into os size fullpath
        if is_negative err then ok (negsuc 0, none) else coded_line os fullpath filename host port)

  unfoldable pub print_entry : Os → Bytes → Bytes → ℤ → Bytes → M ℤ
  unfolding entry_line coded_line send_line sprintf_into
  print_entry os path host port filename w = elim (entry_line os path host port filename) [
    | ok line ↦ send_line os line w
    | stop s ↦ halt s w
  ]

  -- One entry of the loop.
  visit_entry : Os → Bytes → Bytes → ℤ → Bytes → M ℤ
  visit_entry os path host port name w =
      if is_hidden name then done (pos 0) w else print_entry os path host port name w

  -- The loop over readdir's entries.
  unfoldable pub print_entries : Os → Bytes → Bytes → ℤ → List Bytes → M ℤ
  unfolding visit_entry
  print_entries os path host port [] w = done (pos 0) w
  print_entries os path host port (name ∷ names) w = elim (visit_entry os path host port name w) [
    | done code w' ↦ elim (eqb_ℤ code (pos 0)) [
      | true ↦ print_entries os path host port names w'
      | false ↦ done code w'
    ]
    | halt s w' ↦ halt s w'
  ]

  print_opened : Os → Bytes → Bytes → ℤ → Option (List Bytes) → M ℤ
  unfolding print_entries
  print_opened os path host port none w = done (negsuc 0) w
  print_opened os path host port (some names) w = print_entries os path host port names w

  unfoldable pub print_directory : Os → Bytes → Bytes → ℤ → M ℤ
  unfolding print_opened
  print_directory os path host port = print_opened os path host port (os.readdir path)
