-- ===== src/Mapping.antt =====
-- linux/lib/memory_mapping/linux_memory_mapping.c and the sending functions of
-- linux/lib/socket/linux_socket.c: a served file is locked, mapped and sent by a thread.
pub mod Serve
pub mod Chunked
pub mod Keeps
use gopher_server_cross_plat.Base.{
  ℕ, zero, suc, ◌+◌, ◌-◌, Bool, true, false, not, List, [], ◌∷◌, ◌++◌, Option, none, some, ◌==◌,
  ltb, if◌then◌else◌, Bytes, length, take, drop, ℤ, pos, negsuc, to_int,
}
use gopher_server_cross_plat.Outcome.{Stop, blocked, fault}
use gopher_server_cross_plat.World.{Os, World, M, Out, done, halt}
use gopher_server_cross_plat.Utils.{m_process}
use gopher_server_cross_plat.Send.{send}

-- One call of send for all that is mapped; a short count is not looked at. The size, an int that a second
-- fstat gives, is that of the mapping here: a file below 2^31 bytes, whose fstat does not fail.
unfoldable pub linux_send_file : Os → Bytes → ℕ → M (Unit {0})
unfolding send
linux_send_file os message_to_send message_len w =
    elim (send os (take message_len message_to_send) w) [
      | done r w' ↦ done tt w'
      | halt s w' ↦ halt s w'
    ]

-- lockf(fd, F_LOCK, 0) for processes, the mutex for threads. The mutex is not recursive, and no
-- thread that is still there holds it.
unfoldable pub lock_file : ℕ → M (Unit {0})
lock_file mode w =
    if mode == m_process
    then done tt (record w { file_locked = true })
    else if w.mutex_held
    then halt blocked w
    else done tt (record w { mutex_held = true })

unfoldable pub unlock_file : ℕ → World → World
unlock_file mode w =
    if mode == m_process then record w { file_locked = false } else record w { mutex_held = false }

-- lockf(fd, F_ULOCK, 0) in either mode, and close(fd).
unfoldable pub give_up : World → World
give_up w = record w { file_locked = false; files_open = w.files_open - 1 }

-- munmap, unlock, close(fd), and shutdown and close of the client's descriptor.
release : ℕ → World → World
unfolding unlock_file
release mode w =
    let u = unlock_file mode w in record u { files_open = u.files_open - 1; closes = u.closes + 1 }

-- Without a new thread the file is sent all the same, and then a thread that was never made is joined.
send_mapped : Os → ℕ → ℕ → Bytes → M ℤ
unfolding linux_send_file release
send_mapped os mode size addr w = elim (linux_send_file os addr size w) [
  | done _ w' ↦ if os.thread_ok then done (to_int (pos size)) (release mode w') else halt fault w'
  | halt s w' ↦ halt s w'
]

map_and_send : Os → ℕ → Bytes → ℕ → M ℤ
unfolding send_mapped give_up
map_and_send os mode path size w = elim (os.mmap path) [
  | none ↦ done (negsuc 0) (give_up w)
  | some addr ↦ send_mapped os mode size addr w
]

-- An empty file is answered with 0 before anything is unlocked or closed.
map_sized : Os → ℕ → Bytes → Option ℕ → M ℤ
unfolding map_and_send give_up
map_sized os mode path none w = done (negsuc 0) (give_up w)
map_sized os mode path (some size) w =
    if size == 0 then done (pos 0) w else map_and_send os mode path size w

unfoldable pub linux_memory_mapping : Os → ℕ → Bytes → M ℤ
unfolding lock_file map_sized
linux_memory_mapping os mode path w =
    if not (os.open_rw path)
    then done (negsuc 0) w
    else elim (lock_file mode (record w { files_open = w.files_open + 1 })) [
      | done _ w' ↦ map_sized os mode path (os.fstat_size path) w'
      | halt s w' ↦ halt s w'
    ]

-- `l_sendFile`: blocks of at most 512 bytes, each as far as send takes it. `sent_before` is what the
-- socket has; the fuel counts the calls of send.
unfoldable pub send_blocks : (Bytes → Bytes → Option ℕ) → ℕ → Bytes → Bytes → Bytes
send_blocks send_fn zero sent_before message = sent_before
send_blocks send_fn (suc f) sent_before [] = sent_before
send_blocks send_fn (suc f) sent_before (x ∷ m) =
    let chunk = if ltb 512 (length (x ∷ m)) then take 512 (x ∷ m) else x ∷ m in
    elim (send_fn sent_before chunk) [
      | none ↦ sent_before
      | some n ↦ send_blocks send_fn f (sent_before ++ take n chunk) (drop n (x ∷ m))
    ]
