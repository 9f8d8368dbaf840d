-- ===== src/Protocol/Response.antt =====
-- The lines of a reply: the buffer that holds them, and what a client reads back from a menu line.
use gopher_server_cross_plat.Base.{
  ℕ, ◌+◌, ◌<◌, ◌^◌, false, [], ◌∷◌, ◌++◌, Option, none, some, ◌≡◌, arith, if◌then◌else◌, Bytes,
  length, length-append, ℤ, pos, negsuc, leb, Without, eqb_ℤ,
}
use gopher_server_cross_plat.Outcome.{ok, stop, fault}
use gopher_server_cross_plat.World.{Os}
use gopher_server_cross_plat.Cstring.{
  split_token, split_token-append, Without-contains_byte, contains_byte_self,
}
use gopher_server_cross_plat.Cstring.Decimal.{
  print_int, print_nat, IsDigits, is_digit, print_nat-IsDigits, strtol, strtol-print_nat,
}
use gopher_server_cross_plat.Protocol.{error_line, menu_line, protocol_response, error_text}
use gopher_server_cross_plat.Protocol.Selector.{AllocatesAll, PrintsAll}

length-error_line :
    (filename : Bytes) (port : ℤ)
    → length (error_line filename port)
      ≡ length filename + length error_text + length (print_int port) + 4
unfolding error_line
length-error_line filename port = omega (
  arith,
  length-append filename (b'\t' ∷ (error_text ++ b'\t' ∷ (print_int port ++ b'\n' ∷ []))),
  length-append (print_int port) (b'\n' ∷ []),
)

length-menu_line :
    (type : ℤ) (filename path host : Bytes) (port : ℤ)
    → length (menu_line type filename path host port)
      ≡ length filename + length path + length host + length (print_int port) + 5
unfolding menu_line
length-menu_line type filename path host port = omega (
  arith,
  length-append filename
      (b'\t' ∷ (path ++ b'\t' ∷ (host ++ b'\t' ∷ (print_int port ++ b'\n' ∷ [])))),
  length-append path (b'\t' ∷ (host ++ b'\t' ∷ (print_int port ++ b'\n' ∷ []))),
  length-append host (b'\t' ∷ (print_int port ++ b'\n' ∷ [])),
  length-append (print_int port) (b'\n' ∷ []),
)

-- The line that a reply of this type consists of.
abbrev pub reply_line : ℤ → Bytes → Bytes → Bytes → ℤ → Bytes
reply_line type filename path host port =
    if eqb_ℤ type (pos b'3')
    then error_line filename port
    else menu_line type filename path host port

-- How long the port may be when printed: ten characters in an error line, nine in a menu line.
abbrev pub port_room : ℤ → ℕ
port_room type = if eqb_ℤ type (pos b'3') then 10 else 9

-- When the allocation and the print succeed and the type is not -1, the reply is the line exactly
-- when the printed port has at most ten characters for an error and nine for a menu line, and
-- otherwise sprintf writes past the end of the buffer.
pub protocol_response_lem :
    (os : Os) (type : ℤ) (filename path host : Bytes) (port : ℤ)
    → AllocatesAll os
    → PrintsAll os
    → eqb_ℤ type (negsuc 0) ≡ false
    → protocol_response os type filename path host port ≡ (
        if leb (length (print_int port)) (port_room type)
        then ok (pos 0, some (reply_line type filename path host port))
        else stop fault)
unfolding protocol_response
protocol_response_lem os type filename path host port all printed t = ground (
  arith,
  all (1 + 0 + length filename + length error_text + 6 + 4 + 4),
  all (1 + length path + length filename + length host + 6 + 4 + 4),
  printed (error_line filename port),
  printed (menu_line type filename path host port),
  length-error_line filename port,
  length-menu_line type filename path host port,
)

-- What a client takes a menu line for: the item type, then fields up to tabs, and a port number.
pub record MenuItem : Type 0 where
  pub type : ℕ
  pub display : Bytes
  pub selector : Bytes
  pub host : Bytes
  pub port : ℤ

abbrev tab : Bytes
tab = b'\t' ∷ []

abbrev newline : Bytes
newline = b'\n' ∷ []

unfoldable pub read_menu_item : Bytes → Option MenuItem
read_menu_item [] = none
read_menu_item (t ∷ s) =
    let f1 = split_token tab s in
    let f2 = split_token tab f1.1 in
    let f3 = split_token tab f2.1 in
    some (record {
      type = t;
      display = f1.0;
      selector = f2.0;
      host = f3.0;
      port = (strtol (split_token newline f3.1).0).0;
    })

split_field : (t rest : Bytes) → Without b'\t' t → split_token tab (t ++ b'\t' ∷ rest) ≡ (t, rest)
split_field t rest h =
    split_token-append tab t rest b'\t' (Without-contains_byte b'\t' t h) (contains_byte_self b'\t')

IsDigits-Without : (s : Bytes) → IsDigits s → Without b'\n' s
unfolding is_digit
IsDigits-Without [] h = tt
IsDigits-Without (c ∷ s) h = (ground arith, IsDigits-Without s h.1)

split_port : (n : ℕ) → split_token newline (print_nat n ++ newline) ≡ (print_nat n, [])
split_port n =
    split_token-append newline (print_nat n) [] b'\n'
      (Without-contains_byte b'\n' (print_nat n)
        (IsDigits-Without (print_nat n) (print_nat-IsDigits n)))
      (contains_byte_self b'\n')

-- A client reads back from a menu line the type, name, path, host and port that it was made of, if
-- no text holds a tab and the port is a number below 2^63.
pub read_menu_item-menu_line :
    (c : ℕ) (filename path host : Bytes) (n : ℕ)
    → Without b'\t' filename
    → Without b'\t' path
    → Without b'\t' host
    → n < 2 ^ 63
    → read_menu_item (menu_line (pos c) filename path host (pos n))
      ≡ some (record { type = c; display = filename; selector = path; host = host; port = pos n })
unfolding read_menu_item menu_line print_int
read_menu_item-menu_line c filename path host n hf hp hh bound = rw (
  split_field filename (path ++ b'\t' ∷ (host ++ b'\t' ∷ (print_nat n ++ newline))) hf,
  split_field path (host ++ b'\t' ∷ (print_nat n ++ newline)) hp,
  split_field host (print_nat n ++ newline) hh,
  split_port n,
  strtol-print_nat n bound,
)
