-- ===== src/Windows/Transfer.antt =====
-- windows/lib/memory_mapping/windows_memory_mapping.c and windows/lib/socket/windows_socket.c
-- `windows_sendFile`: a file is mapped, and a thread of its own sends it to the client.
pub mod Handles
pub mod Turns
pub mod Blocks
use gopher_server_cross_plat.Base.{
  ℕ, zero, suc, ◌+◌, ◌-◌, ◌*◌, Bool, true, false, not, List, [], ◌∷◌, ◌++◌, Option, none, some,
  ◌==◌, if◌then◌else◌, Bytes, length, take, ℤ, pos, negsuc, of_u32,
}
use gopher_server_cross_plat.Outcome.{Result, ok, stop, exited, fault, ◌>>=◌}
use gopher_server_cross_plat.Cstring.{strlen}

-- Answers of the system.
pub record Answers : Type 0 where
  pub create_file : Bytes → Bool  -- whether CreateFile opens an existing file
  pub attributes : Bytes → Option (ℕ × ℕ)  -- nFileSizeHigh and nFileSizeLow; none: no attributes
  pub create_mapping : Bytes → Bool
  pub map_view : Bytes → Option Bytes  -- the bytes that can be read from the view's address on
  pub create_thread : Bool
  pub unmaps : Bool  -- UnmapViewOfFile succeeds
  pub closes_mapping : Bool  -- CloseHandle of the mapping succeeds
  pub closes_file : Bool  -- CloseHandle of the file succeeds
  pub send : Bytes → Bytes → Option ℕ  -- bytes taken of a message, given what the client has

-- What the process has open for the transfer, and what the client has got.
pub record Kernel : Type 0 where
  pub files : ℕ
  pub mappings : ℕ
  pub views : ℕ
  pub threads : ℕ  -- handles of threads
  pub sent : Bytes

-- When the new thread runs. The wait for it has a timeout of zero and may be over before it starts.
pub data Turn : Type 0 where
  before_unmap after_unmap : Turn

abbrev sent_result : Bytes → Option ℕ → Kernel → Result Kernel
sent_result m none k = ok k
sent_result m (some n) k = ok (record k { sent = k.sent ++ take n m })

abbrev send_string : Answers → Bytes → Option ℕ → Kernel → Result Kernel
send_string a view none k = stop fault
send_string a view (some n) k = sent_result (take n view) (a.send k.sent (take n view)) k

-- The view as the thread finds it; none when it is no longer mapped. The thread's exit code is not read.
unfoldable pub windows_send_file : Answers → Option Bytes → Kernel → Result Kernel
unfolding strlen
windows_send_file a none k = stop fault
windows_send_file a (some view) k = send_string a view (strlen view) k

-- The assertion that the size fits 32 bits ends the process by abort; the size is cast to `long`.
abbrev size_of : Option (ℕ × ℕ) → Result ℤ
size_of none = ok (negsuc 0)
size_of (some (high, low)) = if high == 0 then ok (of_u32 low) else stop (exited (pos 3))

unfoldable pub windows_get_file_size : Answers → Option Bytes → Result ℤ
windows_get_file_size a none = ok (negsuc 0)
windows_get_file_size a (some path) = size_of (a.attributes path)

abbrev pub close_file : Answers → Kernel → Kernel
close_file a k = if a.closes_file then record k { files = k.files - 1 } else k

abbrev pub close_mapping : Answers → Kernel → Kernel
close_mapping a k = if a.closes_mapping then record k { mappings = k.mappings - 1 } else k

abbrev pub unmap_view : Answers → Kernel → Kernel
unmap_view a k = if a.unmaps then record k { views = k.views - 1 } else k

-- sizeof of a `char *`
abbrev pub pointer_size : ℕ
pointer_size = 8

-- The mapping and then the file are closed.
abbrev finish : Answers → Kernel → ℤ × Kernel
finish a k =
    if not a.closes_mapping
    then (negsuc 0, k)
    else if not a.closes_file
    then (negsuc 0, close_mapping a k)
    else (pos pointer_size, close_file a (close_mapping a k))

-- CreateThread, the thread's part that runs so early, and CloseHandle of the thread.
start_thread : Answers → Turn → Bytes → Kernel → Result Kernel
unfolding windows_send_file
start_thread a before_unmap view k =
    if a.create_thread then windows_send_file a (some view) k else ok k
start_thread a after_unmap view k = ok k

-- The thread after the view has been unmapped, if that did not fail.
late_thread : Answers → Turn → Bytes → Kernel → Result Kernel
unfolding windows_send_file
late_thread a before_unmap view k = ok k
late_thread a after_unmap view k =
    if a.create_thread then windows_send_file a (if a.unmaps then none else some view) k else ok k

unfoldable pub transfer : Answers → Turn → Bytes → Kernel → Result (ℤ × Kernel)
unfolding start_thread late_thread
transfer a turn view k = do
  started ←
      start_thread a turn view
        (record k { threads = k.threads + (if a.create_thread then 1 else 0) })
  ended ← late_thread a turn view (
      unmap_view a
        (record started { threads = started.threads - (if a.create_thread then 1 else 0) }))
  ok (finish a ended)

map_mapping : Answers → Turn → Option Bytes → Kernel → Result (ℤ × Kernel)
unfolding transfer
map_mapping a turn none k = ok (negsuc 0, close_mapping a (close_file a k))
map_mapping a turn (some view) k = transfer a turn view (record k { views = k.views + 1 })

map_file : Answers → Turn → Bytes → ℤ → Kernel → Result (ℤ × Kernel)
unfolding map_mapping
map_file a turn path (negsuc n) k = ok (negsuc 0, close_file a k)
map_file a turn path (pos zero) k = ok (negsuc 0, close_file a k)
map_file a turn path (pos (suc n)) k =
    if a.create_mapping path
    then map_mapping a turn (a.map_view path) (record k { mappings = k.mappings + 1 })
    else ok (negsuc 0, close_file a k)

-- The return code, and what is open afterwards.
unfoldable pub windows_memory_mapping : Answers → Turn → Bytes → Kernel → Result (ℤ × Kernel)
unfolding map_file windows_get_file_size
windows_memory_mapping a turn path k =
    if a.create_file path
    then (do
      size ← windows_get_file_size a (some path)
      map_file a turn path size (record k { files = k.files + 1 }))
    else ok (negsuc 0, k)
