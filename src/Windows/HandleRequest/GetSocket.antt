-- ===== src/Windows/HandleRequest/GetSocket.antt =====
-- main_HandleRequest.c `GetSocket` and `DoChild`: a socket is made again from what the parent has put into a
-- file mapping, and what it receives is printed.
pub mod Closed
use gopher_server_cross_plat.Base.{
  ℕ, ◌+◌, ◌-◌, Bool, true, false, not, ◌&&◌, List, [], ◌∷◌, ◌++◌, Option, none, some, ◌≡◌, ◌⊎◌, inl,
  inr, refl, arith, if◌then◌else◌, Bytes, All, codes, pos, is_negative, concat_all, append-nil,
  append_assoc, ap, sym, ◌∙◌, length, length-append, ◌≤◌, ◌<◌, Without,
}
use gopher_server_cross_plat.Outcome.{
  Result, ok, stop, exited, fault, blocked, ◌>>=◌, ◌>>◌, >>=-returned,
}
use gopher_server_cross_plat.World.{Os, Recv, got, interrupted, failed}
use gopher_server_cross_plat.Send.{sprintf_into}
use gopher_server_cross_plat.Cstring.{c_string}
use gopher_server_cross_plat.Request.Chunks.{pieces, NonEmpty}

-- Answers of the system. The wait has a timeout, which is no failure.
pub record Mapped : Type 0 where
  pub opens_parent : Bool  -- OpenEvent
  pub opens_child : Bool
  pub waits : Bool  -- WaitForSingleObject does not fail
  pub opens_mapping : Bool  -- OpenFileMapping
  pub view : Option Bytes  -- MapViewOfFile, the protocol information in it
  pub make_socket : Bytes → Option ℕ  -- WSASocket; none is INVALID_SOCKET

-- The three global handles, whether they are not NULL; how many handles and views the process has open; and
-- whether the parent has been told.
pub record Opened : Type 0 where
  pub parent_event : Bool
  pub child_event : Bool
  pub mapping : Bool
  pub handles : ℕ
  pub views : ℕ
  pub told : Bool

abbrev pub nothing_opened : Opened
nothing_opened = record {
  parent_event = false;
  child_event = false;
  mapping = false;
  handles = 0;
  views = 0;
  told = false;
}

-- MAX_PATH
abbrev pub max_path : ℕ
max_path = 260

-- "%s%s" into an array; one that sprintf did not fill is not initialised.
event_name : Os → Bytes → Bytes → Result Bytes
unfolding sprintf_into
event_name os name suffix = do
  ret ← sprintf_into os max_path (name ++ suffix)
  if is_negative ret then stop fault else ok (name ++ suffix)

open_parent : Opened → Opened
open_parent o = record o { parent_event = true; handles = o.handles + 1 }

open_child : Opened → Opened
open_child o = record o { child_event = true; handles = o.handles + 1 }

open_mapping : Opened → Opened
open_mapping o = record o { mapping = true; handles = o.handles + 1 }

close_parent : Opened → Opened
close_parent o =
    if o.parent_event then record o { parent_event = false; handles = o.handles - 1 } else o

close_child : Opened → Opened
close_child o =
    if o.child_event then record o { child_event = false; handles = o.handles - 1 } else o

close_mapping : Opened → Opened
close_mapping o = if o.mapping then record o { mapping = false; handles = o.handles - 1 } else o

unmap_view : Opened → Opened
unmap_view o = record o { views = o.views - 1 }

-- The protocol information is copied out of the view, and the parent is told.
with_view : Mapped → Option Bytes → Opened → Option ℕ × Opened
unfolding unmap_view
with_view m none o = (none, o)
with_view m (some info) o =
    (m.make_socket info, record (unmap_view (record o { views = o.views + 1 })) { told = true })

close_all : Option ℕ × Opened → Option ℕ × Opened
unfolding close_parent close_child close_mapping
close_all (socket, o) = (socket, close_mapping (close_child (close_parent o)))

after_wait : Mapped → Opened → Option ℕ × Opened
unfolding with_view close_all open_mapping
after_wait m o =
    close_all (if m.opens_mapping then with_view m m.view (open_mapping o) else (none, o))

with_events : Mapped → Result (Option ℕ × Opened)
unfolding after_wait open_parent open_child close_parent
with_events m =
    if not m.opens_parent
    then ok (none, nothing_opened)
    else if not m.opens_child
    then ok (none, close_parent (open_parent nothing_opened))
    else if not m.waits
    then stop (exited (pos 1))
    else ok (after_wait m (open_child (open_parent nothing_opened)))

-- The socket, and what is open afterwards.
unfoldable pub get_socket : Os → Mapped → Bytes → Result (Option ℕ × Opened)
unfolding event_name with_events
get_socket os m name = do
  event_name os name (codes "parent")
  event_name os name (codes "child")
  with_events m

-- What each call of WSARecv gives is printed with "%s", up to the end of the stream or an error.
unfoldable pub print_received : List Recv → Bytes → Result Bytes
unfolding c_string
print_received [] out = stop blocked
print_received (got [] ∷ rest) out = ok out
print_received (got (x ∷ g) ∷ rest) out = print_received rest (out ++ c_string (x ∷ g))
print_received (interrupted ∷ rest) out = ok out
print_received (failed ∷ rest) out = ok out

with_socket : Option ℕ → List Recv → Bytes → Result Bytes
unfolding print_received
with_socket none incoming out = ok out
with_socket (some fd) incoming out = print_received incoming out

-- The output, and the socket, which is forgotten and not closed.
unfoldable pub do_child : Os → Mapped → Bytes → List Recv → Bytes → Result (Bytes × Option ℕ)
unfolding get_socket with_socket
do_child os m name incoming out = do
  s ← get_socket os m name
  printed ← with_socket s.0 incoming out
  ok (printed, s.0)
