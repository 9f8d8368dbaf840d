-- ===== src/Server/Address.antt =====
-- linux/lib/socket/linux_socket.c `getServerIP`: the search for the server's own address.
use gopher_server_cross_plat.Base.{
  Bool, true, false, not, ◌&&◌, List, [], ◌∷◌, Option, none, some, ◌==◌, ◌≡◌, refl, if◌then◌else◌,
  Bytes, get_elem?, codes, ℤ, pos, Bool-cases, inl, inr,
}
use gopher_server_cross_plat.Outcome.{Result, ok, stop, fault}
use gopher_server_cross_plat.Cstring.{starts_with}

-- An interface: its name, and its address. No address at all, one that is not of IPv4, or one that
-- inet_ntop prints or fails to print.
pub data Address : Type 0 where
  no_address other_family not_printed : Address
  printed : Bytes → Address

pub record Interface : Type 0 where
  pub name : Bytes
  pub address : Address

-- Not of docker, with a dot behind three characters, and not a loopback.
abbrev pub is_usable : Bytes → Bytes → Bool
is_usable name text =
    not (starts_with (codes "docker") name)
    && elim (get_elem? text 3) [ none ↦ false | some c ↦ c == b'.' ]
    && not (starts_with (codes "127.0") text)

-- The address of the first usable interface is copied, and then a terminator is written behind the 2048
-- bytes of `ip_buffer`; a NULL address is read through.
unfoldable pub search : List Interface → Result ℤ
unfolding starts_with
search [] = ok (pos 0)
search (i ∷ is) =
    let rest = search is in
    elim i.address [
      | no_address ↦ stop fault
      | other_family ↦ rest
      | not_printed ↦ rest
      | printed text ↦ if is_usable i.name text then stop fault else rest
    ]

-- None: getifaddrs fails.
unfoldable pub get_server_ip : Option (List Interface) → Result ℤ
unfolding search
get_server_ip none = ok (pos 1)
get_server_ip (some interfaces) = search interfaces

-- An interface that the search passes over.
abbrev pub is_passed : Interface → Bool
is_passed i = elim i.address [
  | no_address ↦ false
  | other_family ↦ true
  | not_printed ↦ true
  | printed text ↦ not (is_usable i.name text)
]

pub all_passed : List Interface → Bool
all_passed [] = true
all_passed (i ∷ is) = is_passed i && all_passed is

-- The search gives 0 when no interface is usable and each has an address, and makes an access outside an
-- object otherwise: it never finds an address.
pub search-faults :
    (interfaces : List Interface)
    → search interfaces ≡ (if all_passed interfaces then ok (pos 0) else stop fault)
unfolding search all_passed
search-faults [] = refl
search-faults (i ∷ is) = go i.address (search-faults is)
  where
    go :
        (a : Address)
        → search is ≡ (if all_passed is then ok (pos 0) else stop fault)
        → search (record i { address = a } ∷ is)
          ≡ (if all_passed (record i { address = a } ∷ is) then ok (pos 0) else stop fault)
    go no_address h = refl
    go other_family h = h
    go not_printed h = h
    go (printed text) h = elim (Bool-cases (is_usable i.name text)) [
      | inl usable ↦ rw usable refl
      | inr passed ↦ rw passed h
    ]
