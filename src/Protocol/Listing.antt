-- ===== src/Protocol/Listing.antt =====
-- What the client of a directory receives.
use gopher_server_cross_plat.Base.{
  ℕ, ◌+◌, ◌≤◌, false, List, [], ◌∷◌, ◌++◌, some, ◌≡◌, inl, inr, refl, arith, ◌==◌, if◌then◌else◌,
  Bytes, length, length-append, ℤ, pos, append_assoc, append-nil, All, Bool-cases,
}
use gopher_server_cross_plat.Outcome.{ok}
use gopher_server_cross_plat.World.{Os, World, done}
use gopher_server_cross_plat.Send.{SendsAll, socket_send_message_all}
use gopher_server_cross_plat.Cstring.Decimal.{print_int}
use gopher_server_cross_plat.Protocol.{
  menu_line, print_entry, coded_line, print_entries, print_directory, print_opened, is_hidden,
}
use gopher_server_cross_plat.Protocol.Selector.{AllocatesAll, PrintsAll}
use gopher_server_cross_plat.Protocol.Response.{protocol_response_lem}
use gopher_server_cross_plat.Platform.{Platform}

-- The listing meant: a line for each name that is not hidden, in readdir's order.
unfoldable pub listing : (Bytes → ℕ) → Bytes → Bytes → ℤ → List Bytes → Bytes
listing code path host port [] = []
listing code path host port (name ∷ names) =
    let rest = listing code path host port names in
    let fullpath = path ++ b'/' ∷ name in
    if is_hidden name then rest else menu_line (pos (code fullpath)) name fullpath host port ++ rest

module _ ⦃platform : Platform⦄ where
  -- Where the system answers for a visible name with an item type that is no error.
  abbrev pub Coded : Os → (Bytes → ℕ) → Bytes → Bytes → Type 0
  Coded os code path name =
      is_hidden name ≡ false
      → (platform.get_gopher_code os (path ++ b'/' ∷ name) ≡ ok (pos (code (path ++ b'/' ∷ name))))
        × ((code (path ++ b'/' ∷ name) == b'3') ≡ false)

  module _ (os : Os) (code : Bytes → ℕ) (path host : Bytes) (port : ℤ) (all : AllocatesAll os)
      (printed : PrintsAll os) (sends : SendsAll os) (room : length (print_int port) ≤ 9) where
    abbrev line_of : Bytes → Bytes
    line_of name = menu_line (pos (code (path ++ b'/' ∷ name))) name (path ++ b'/' ∷ name) host port

    coded_line_lem :
        (name : Bytes)
        → is_hidden name ≡ false
        → Coded os code path name
        → coded_line os (path ++ b'/' ∷ name) name host port ≡ ok (pos 0, some (line_of name))
    unfolding coded_line
    coded_line_lem name visible coded =
        let (answer, no_error) = coded visible in
        rw answer (
          ground (
            arith,
            protocol_response_lem os (pos (code (path ++ b'/' ∷ name))) name (path ++ b'/' ∷ name)
                host port all printed refl,
          ))

    print_entry_lem :
        (name : Bytes) (w : World)
        → is_hidden name ≡ false
        → Coded os code path name
        → w.closes ≡ 0
        → print_entry os path host port name w
          ≡ done (pos 0) (record w { sent = w.sent ++ line_of name })
    unfolding print_entry
    print_entry_lem name w visible coded open_ = ground (
      arith,
      all (length path + length name + 5),
      printed (path ++ b'/' ∷ name),
      length-append path (b'/' ∷ name),
      coded_line_lem name visible coded,
      socket_send_message_all os (line_of name) w sends open_,
    )

    print_entries_lem :
        (names : List Bytes) (w : World)
        → All (Coded os code path) names
        → w.closes ≡ 0
        → print_entries os path host port names w
          ≡ done (pos 0) (record w { sent = w.sent ++ listing code path host port names })
    unfolding print_entries listing
    print_entries_lem [] w h open_ = rw append-nil
    print_entries_lem (name ∷ names) w h open_ = elim (Bool-cases (is_hidden name)) [
      | inl hidden ↦ ground (arith, print_entries_lem names w h.1 open_)
      | inr visible ↦ ground (
        arith,
        print_entry_lem name w visible h.0 open_,
        print_entries_lem names (record w { sent = w.sent ++ line_of name }) h.1 open_,
        append_assoc w.sent (line_of name) (listing code path host port names),
      )
    ]

  -- Of a directory that opens, when allocations, prints and sends succeed on an open descriptor,
  -- every visible name has an item type other than 3 and the printed port has at most nine
  -- characters, the client receives exactly one menu line for each name that is not hidden, in
  -- readdir's order, and the result is 0.
  pub print_directory-listing :
      (os : Os) (code : Bytes → ℕ) (path host : Bytes) (port : ℤ) (names : List Bytes) (w : World)
      → AllocatesAll os
      → PrintsAll os
      → SendsAll os
      → length (print_int port) ≤ 9
      → os.readdir path ≡ some names
      → All (Coded os code path) names
      → w.closes ≡ 0
      → print_directory os path host port w
        ≡ done (pos 0) (record w { sent = w.sent ++ listing code path host port names })
  unfolding print_directory
  print_directory-listing os code path host port names w all printed sends room opened h open_ =
      rw (opened, print_opened)
        (print_entries_lem os code path host port all printed sends room names w h open_)
