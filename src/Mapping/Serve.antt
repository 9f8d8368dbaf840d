-- ===== src/Mapping/Serve.antt =====
-- What the mapping of a file sends, and in which state it leaves the lock, on every branch.
use gopher_server_cross_plat.Base.{
  ℕ, ◌+◌, ◌<◌, ◌^◌, Bool, true, false, not, ◌&&◌, ◌∷◌, ◌++◌, Option, none, some, ◌==◌, Bytes,
  length, pos, ◌≡◌, arith, take-all,
}
use gopher_server_cross_plat.World.{Os, World, done, final}
use gopher_server_cross_plat.Utils.{m_thread}
use gopher_server_cross_plat.Send.{SendsAll}
use gopher_server_cross_plat.Mapping.{linux_send_file, linux_memory_mapping}

linux_send_file_all :
    (os : Os) (addr : Bytes) (w : World)
    → SendsAll os
    → w.closes ≡ 0
    → linux_send_file os addr (length addr) w ≡ done tt (record w { sent = w.sent ++ addr })
unfolding linux_send_file
linux_send_file_all os addr w sends open_ =
    ground (arith, take-all (length addr) addr, sends w.sent addr)

-- A file that opens, is not empty, is below 2^31 bytes and is mapped whole is sent whole, in
-- either mode, when send takes every message, a thread can be made, the client's descriptor is
-- open and no lock is held: the result is its size, the descriptor is closed once, and neither a
-- lock nor a descriptor of the file is left.
pub linux_memory_mapping-serves :
    (os : Os) (mode : ℕ) (path : Bytes) (x : ℕ) (addr : Bytes) (w : World)
    → SendsAll os
    → os.thread_ok ≡ true
    → os.open_rw path ≡ true
    → os.fstat_size path ≡ some (length (x ∷ addr))
    → os.mmap path ≡ some (x ∷ addr)
    → length (x ∷ addr) < 2 ^ 31
    → w.closes ≡ 0
    → w.mutex_held ≡ false
    → w.file_locked ≡ false
    → linux_memory_mapping os mode path w
      ≡ done (pos (length (x ∷ addr))) (record w { sent = w.sent ++ x ∷ addr; closes = 1 })
unfolding linux_memory_mapping
linux_memory_mapping-serves os mode path x addr w sends thread opened size mapped bound open_ free
      unlocked =
    ground (
      arith,
      linux_send_file_all os (x ∷ addr)
          (record w { files_open = w.files_open + 1; mutex_held = true }) sends open_,
      linux_send_file_all os (x ∷ addr)
          (record w { files_open = w.files_open + 1; file_locked = true }) sends open_,
    )

-- The transfer is reached: the file's size is known and not 0, and the mapping succeeds.
abbrev pub mapped_ok : Option Bytes → Bool
mapped_ok none = false
mapped_ok (some addr) = true

abbrev pub sized_ok : Option ℕ → Bool
sized_ok none = false
sized_ok (some size) = not (size == 0)

-- With threads, from a free mutex, when new threads can be made: the mutex is held at the end exactly
-- when the file opens and then fstat fails, its size is 0 or mmap fails.
pub linux_memory_mapping-mutex :
    (os : Os) (path : Bytes) (w : World)
    → os.thread_ok ≡ true
    → w.mutex_held ≡ false
    → (final (linux_memory_mapping os m_thread path w)).mutex_held
      ≡ (os.open_rw path && not (sized_ok (os.fstat_size path) && mapped_ok (os.mmap path)))
unfolding linux_memory_mapping
linux_memory_mapping-mutex os path w thread free = ground arith
