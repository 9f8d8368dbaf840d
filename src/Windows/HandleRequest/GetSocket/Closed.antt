-- ===== src/Windows/HandleRequest/GetSocket/Closed.antt =====
-- What `GetSocket` leaves open, and what `DoChild` prints.
use gopher_server_cross_plat.Base.{
  ℕ, ◌+◌, Bool, true, false, ◌&&◌, List, [], ◌∷◌, ◌++◌, Option, none, some, ◌≡◌, ◌⊎◌, inl, inr,
  refl, arith, if◌then◌else◌, Bytes, All, codes, pos, concat_all, append-nil, append_assoc, ap, sym,
  ◌∙◌, length, length-append, ◌≤◌, ◌<◌, Without,
}
use gopher_server_cross_plat.Outcome.{ok, stop, exited, ◌>>=◌, >>=-returned}
use gopher_server_cross_plat.World.{Os, Recv, got}
use gopher_server_cross_plat.Send.{sprintf_into}
use gopher_server_cross_plat.Cstring.{c_string}
use gopher_server_cross_plat.Request.Chunks.{pieces, NonEmpty}
use gopher_server_cross_plat.Windows.HandleRequest.GetSocket.{
  Mapped, nothing_opened, max_path, event_name, with_events, after_wait, open_parent, open_child,
  open_mapping, close_parent, close_child, close_mapping, unmap_view, with_view, close_all,
  get_socket, print_received, with_socket, do_child,
}

-- The socket that the protocol information gives, where the parent's mapping can be read.
abbrev pub shared_socket : Mapped → Option ℕ
shared_socket m =
    if m.opens_parent && m.opens_child && m.opens_mapping
    then elim m.view [ none ↦ none | some info ↦ m.make_socket info ]
    else none

-- Whether the parent learns that the mapping has been read.
abbrev pub is_read : Mapped → Bool
is_read m =
    m.opens_parent
    && m.opens_child
    && m.opens_mapping
    && elim m.view [ none ↦ false | some info ↦ true ]

with_events-closed :
    (m : Mapped)
    → (with_events m ≡ stop (exited (pos 1)))
      ⊎ (with_events m ≡ ok (shared_socket m, record nothing_opened { told = is_read m }))
unfolding with_events after_wait open_parent open_child close_parent with_view close_all
    open_mapping unmap_view close_child close_mapping
with_events-closed m = ground arith

event_name_lem :
    (os : Os) (name suffix : Bytes)
    → ((text : Bytes) → os.sprintf_ok text ≡ true)
    → length suffix ≤ 6
    → length name + 6 < max_path
    → event_name os name suffix ≡ ok (name ++ suffix)
unfolding event_name sprintf_into
event_name_lem os name suffix printed short fits =
    ground (arith, printed (name ++ suffix), length-append name suffix)

-- A name of fewer than 254 bytes, when prints succeed: the call ends the process, as its wait fails, or it
-- returns with every handle and view closed; it has told the parent exactly when the view was mapped, and
-- gives the socket that the mapped information makes.
pub get_socket-closed :
    (os : Os) (m : Mapped) (name : Bytes)
    → ((text : Bytes) → os.sprintf_ok text ≡ true)
    → length name + 6 < max_path
    → (get_socket os m name ≡ stop (exited (pos 1)))
      ⊎ (get_socket os m name ≡ ok (shared_socket m, record nothing_opened { told = is_read m }))
unfolding get_socket
get_socket-closed os m name printed fits =
    let steps : get_socket os m name ≡ with_events m =
      >>=-returned _ _ (event_name_lem os name (codes "parent") printed (omega arith) fits)
      ∙ >>=-returned _ _ (event_name_lem os name (codes "child") printed (omega arith) fits) in
    elim (with_events-closed m) [ inl e ↦ inl (steps ∙ e) | inr e ↦ inr (steps ∙ e) ]

c_string_all : (s : Bytes) → Without 0 s → c_string s ≡ s
unfolding c_string
c_string_all [] h = refl
c_string_all (x ∷ s) h = ground (arith, c_string_all s h.1)

print_received_lem :
    (gs : List Bytes) (rest : List Recv) (out : Bytes)
    → All NonEmpty gs
    → All (Without 0) gs
    → print_received (pieces gs (got [] ∷ rest)) out ≡ ok (out ++ concat_all gs)
unfolding print_received
print_received_lem [] rest out full clean = ap ok (sym (append-nil out))
print_received_lem ([] ∷ gs) rest out full clean = elim full.0 [ ]
print_received_lem ((x ∷ g) ∷ gs) rest out full clean =
    ap (λ s. print_received (pieces gs (got [] ∷ rest)) (out ++ s)) (c_string_all (x ∷ g) clean.0)
    ∙ print_received_lem gs rest (out ++ x ∷ g) full.1 clean.1
    ∙ ap ok (append_assoc out (x ∷ g) (concat_all gs))

-- A name of fewer than 254 bytes, when prints succeed and the mapped information makes a socket: the process
-- ends, as its wait fails, or what the socket receives up to the end of the stream, in pieces without a NUL,
-- is printed as it comes, and the socket is left open.
pub do_child-prints :
    (os : Os) (m : Mapped) (name : Bytes) (fd : ℕ) (gs : List Bytes) (rest : List Recv)
    (out : Bytes)
    → ((text : Bytes) → os.sprintf_ok text ≡ true)
    → length name + 6 < max_path
    → shared_socket m ≡ some fd
    → All NonEmpty gs
    → All (Without 0) gs
    → (do_child os m name (pieces gs (got [] ∷ rest)) out ≡ stop (exited (pos 1)))
      ⊎ (do_child os m name (pieces gs (got [] ∷ rest)) out ≡ ok (out ++ concat_all gs, some fd))
unfolding do_child with_socket
do_child-prints os m name fd gs rest out printed fits shared full clean =
    elim (get_socket-closed os m name printed fits) [
      | inl e ↦ inl (ap (λ r. r >>= λ s. with_socket s.0 incoming out >>= λ p. ok (p, s.0)) e)
      | inr e ↦ inr (
          ap (λ r. r >>= λ s. with_socket s.0 incoming out >>= λ p. ok (p, s.0)) e
          ∙ rw (shared, print_received_lem gs rest out full clean))
    ]
  where
    incoming : List Recv
    incoming = pieces gs (got [] ∷ rest)
