-- ===== src/Protocol/Menu.antt =====
-- general/lib/gopher/protocol.c `print_directory`, from the names of a directory to what a client reads.
use gopher_server_cross_plat.Base.{
  ℕ, ◌<◌, ◌≤◌, ◌^◌, false, List, [], ◌∷◌, ◌++◌, Option, none, some, ◌≡◌, inl, inr, refl, sym, ap,
  ◌∙◌, arith, ◌==◌, if◌then◌else◌, Bytes, length, pos, Without, Without-append, All, append_assoc,
  Bool-cases,
}
use gopher_server_cross_plat.World.{Os, World, done}
use gopher_server_cross_plat.Send.{SendsAll}
use gopher_server_cross_plat.Cstring.Decimal.{print_int, print_nat, print_nat-Without}
use gopher_server_cross_plat.Config.{get_lines}
use gopher_server_cross_plat.Config.Lines.{with_newline, get_lines-cons}
use gopher_server_cross_plat.Protocol.{menu_line, print_directory, is_hidden}
use gopher_server_cross_plat.Protocol.Selector.{AllocatesAll, PrintsAll}
use gopher_server_cross_plat.Protocol.Response.{MenuItem, read_menu_item, read_menu_item-menu_line}
use gopher_server_cross_plat.Protocol.Listing.{listing, Coded, print_directory-listing}
use gopher_server_cross_plat.Platform.{Platform}

-- A client cuts what it receives behind each newline, and reads an item from each line.
abbrev with_item : Option MenuItem → Option (List MenuItem) → Option (List MenuItem)
with_item none items = none
with_item (some item) none = none
with_item (some item) (some items) = some (item ∷ items)

read_items : List Bytes → Option (List MenuItem)
read_items [] = some []
read_items (l ∷ ls) = with_item (read_menu_item l) (read_items ls)

unfoldable pub read_menu : Bytes → Option (List MenuItem)
unfolding read_items
read_menu s = read_items (get_lines s)

read_items-cons :
    (l : Bytes) (ls : List Bytes) (item : MenuItem) (items : List MenuItem)
    → read_menu_item l ≡ some item
    → read_items ls ≡ some items
    → read_items (l ∷ ls) ≡ some (item ∷ items)
unfolding read_items
read_items-cons l ls item items e rest =
    ap (λ i. with_item i (read_items ls)) e ∙ ap (with_item (some item)) rest

-- The items meant: one for each name that is not hidden.
pub items_of : (Bytes → ℕ) → Bytes → Bytes → ℕ → List Bytes → List MenuItem
items_of code path host port [] = []
items_of code path host port (name ∷ names) =
    let rest = items_of code path host port names in
    let fullpath = path ++ b'/' ∷ name in
    if is_hidden name
    then rest
    else record {
      type = code fullpath;
      display = name;
      selector = fullpath;
      host = host;
      port = pos port;
    }
      ∷ rest

-- A text that can stand in a field: no tab and no newline.
abbrev pub IsField : Bytes → Type 0
IsField s = Without b'\t' s × Without b'\n' s

IsField-append : (s t : Bytes) → IsField s → IsField t → IsField (s ++ t)
IsField-append s t (a, b) (c, d) = (Without-append b'\t' s t a c, Without-append b'\n' s t b d)

-- A menu line without its newline.
abbrev body : ℕ → Bytes → Bytes → Bytes → ℕ → Bytes
body c name path host n = c ∷ (name ++ b'\t' ∷ (path ++ b'\t' ∷ (host ++ b'\t' ∷ print_nat n)))

menu_line-body :
    (c : ℕ) (name path host : Bytes) (n : ℕ)
    → menu_line (pos c) name path host (pos n) ≡ with_newline (body c name path host n)
unfolding menu_line print_int
menu_line-body c name path host n = simp append_assoc

body-Without :
    (c : ℕ) (name path host : Bytes) (n : ℕ)
    → (c == b'\n') ≡ false
    → Without b'\n' name
    → Without b'\n' path
    → Without b'\n' host
    → Without b'\n' (body c name path host n)
body-Without c name path host n hc hn hp hh = (
  hc,
  Without-append b'\n' name _ hn (
    refl,
    Without-append b'\n' path _ hp
        (refl, Without-append b'\n' host _ hh (refl, print_nat-Without b'\n' n (omega arith))),
  ),
)

-- A visible name is a field, and its item type is no newline.
abbrev pub Listed : (Bytes → ℕ) → Bytes → Bytes → Type 0
Listed code path name =
    is_hidden name ≡ false → IsField name × ((code (path ++ b'/' ∷ name) == b'\n') ≡ false)

module _ (code : Bytes → ℕ) (path host : Bytes) (n : ℕ) (path_field : IsField path)
    (host_field : IsField host) (small : n < 2 ^ 63) where
  read_menu-listing :
      (names : List Bytes)
      → All (Listed code path) names
      → read_menu (listing code path host (pos n) names) ≡ some (items_of code path host n names)
  unfolding read_menu listing items_of
  read_menu-listing [] h = unfold get_lines read_items in refl
  read_menu-listing (name ∷ names) h = elim (Bool-cases (is_hidden name)) [
    | inl hidden ↦ rw hidden (read_menu-listing names h.1)
    | inr visible ↦
        let (field, no_newline) = h.0 visible in
        let full : Bytes = path ++ b'/' ∷ name in
        let full_field : IsField full =
          IsField-append path (b'/' ∷ name) path_field ((refl, field.0), (refl, field.1)) in
        let line : Bytes = body (code full) name full host n in
        let rest = listing code path host (pos n) names in
        let cut : get_lines (menu_line (pos (code full)) name full host (pos n) ++ rest)
            ≡ with_newline line ∷ get_lines rest =
          ap (λ l. get_lines (l ++ rest)) (menu_line-body (code full) name full host n)
          ∙ ap get_lines (append_assoc line (b'\n' ∷ []) rest)
          ∙ get_lines-cons line rest (
              body-Without (code full) name full host n no_newline field.1 full_field.1
                host_field.1) in
        let read =
          ap read_menu_item (sym (menu_line-body (code full) name full host n))
          ∙ read_menu_item-menu_line (code full) name full host n field.0 full_field.0 host_field.0
              small in
        rw (visible, cut)
          (read_items-cons (with_newline line) (get_lines rest) _ _ read
            (read_menu-listing names h.1))
  ]

module _ ⦃platform : Platform⦄ where
  -- Of a directory that opens, on an open descriptor: a client that cuts what print_directory sends behind
  -- each newline, and each line at its tabs, reads exactly one item for each name that is not hidden, in
  -- readdir's order, with its type, the name, the path of the entry as its selector, the host and the port.
  -- This takes that allocations, prints and sends succeed, that every visible name has an item type other
  -- than 3 and a newline, that no visible name, nor the path or the host, holds a tab or a newline, that the
  -- port is a number below 2^63, and that
  -- the printed port has at most nine characters.
  pub print_directory-read_menu :
      (os : Os) (code : Bytes → ℕ) (path host : Bytes) (n : ℕ) (names : List Bytes) (w : World)
      → AllocatesAll os
      → PrintsAll os
      → SendsAll os
      → IsField path
      → IsField host
      → n < 2 ^ 63
      → length (print_int (pos n)) ≤ 9
      → os.readdir path ≡ some names
      → All (Coded os code path) names
      → All (Listed code path) names
      → w.closes ≡ 0
      → (reply : Bytes) × (print_directory os path host (pos n) w
          ≡ done (pos 0) (record w { sent = w.sent ++ reply }))
        × (read_menu reply ≡ some (items_of code path host n names))
  print_directory-read_menu os code path host n names w all printed sends p h small room opened
        coded listed open_ =
      (
        listing code path host (pos n) names,
        print_directory-listing os code path host (pos n) names w all printed sends room opened
            coded open_,
        read_menu-listing code path host n p h small names listed,
      )
