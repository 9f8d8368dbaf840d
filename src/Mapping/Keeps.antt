-- ===== src/Mapping/Keeps.antt =====
-- linux/lib/memory_mapping/linux_memory_mapping.c: the client's descriptor across the mapping of a file.
use gopher_server_cross_plat.Base.{
  ℕ, ◌+◌, true, Option, none, some, ◌≡◌, ◌∙◌, refl, arith, inl, inr, ◌==◌, Bytes, pos, to_int,
  Bool-cases, Option-cases,
}
use gopher_server_cross_plat.World.{Os, World, Out, done, halt, final, Keeps, Served}
use gopher_server_cross_plat.Utils.{m_process}
use gopher_server_cross_plat.Mapping.{
  linux_memory_mapping, linux_send_file, lock_file, map_sized, map_and_send, send_mapped, release,
  give_up, unlock_file,
}

linux_send_file-Keeps :
    (os : Os) (m : Bytes) (n : ℕ) (w : World) → Keeps w (final (linux_send_file os m n w))
unfolding linux_send_file
linux_send_file-Keeps os m n w = ground arith

release-Served :
    (mode size : ℕ) (w v : World)
    → w.type_request ≡ 0
    → Keeps w v
    → Served w.closes (done (to_int (pos size)) (release mode v))
unfolding release unlock_file
release-Served mode size w v typed k = elim (Bool-cases (mode == m_process)) [
  | inl process ↦ rw process (inr (omega (arith, k.same_closes), k.same_type ∙ typed))
  | inr thread ↦ rw thread (inr (omega (arith, k.same_closes), k.same_type ∙ typed))
]

send_mapped-Served :
    (os : Os) (mode size : ℕ) (addr : Bytes) (w : World)
    → w.type_request ≡ 0
    → Served w.closes (send_mapped os mode size addr w)
unfolding send_mapped
send_mapped-Served os mode size addr w typed =
    go (linux_send_file os addr size w) refl (linux_send_file-Keeps os addr size w)
  where
    go :
        (o : Out (Unit {0}))
        → linux_send_file os addr size w ≡ o
        → Keeps w (final o)
        → Served w.closes (send_mapped os mode size addr w)
    go (halt s v) e k = rw (send_mapped, e) (omega (arith, k.same_closes))
    go (done a v) e k = elim (Bool-cases os.thread_ok) [
      | inl thread ↦ rw (send_mapped, e, thread) (release-Served mode size w v typed k)
      | inr no_thread ↦ rw (send_mapped, e, no_thread) (omega (arith, k.same_closes))
    ]

map_and_send-Served :
    (os : Os) (mode : ℕ) (path : Bytes) (size : ℕ) (w : World)
    → w.type_request ≡ 0
    → Served w.closes (map_and_send os mode path size w)
unfolding map_and_send
map_and_send-Served os mode path size w typed = elim (Option-cases (os.mmap path)) [
  | inl failed_map ↦ rw (map_and_send, failed_map) (inl (unfold give_up in refl))
  | inr (addr, mapped) ↦ rw (map_and_send, mapped) (send_mapped-Served os mode size addr w typed)
]

map_sized-Served :
    (os : Os) (mode : ℕ) (path : Bytes) (size : Option ℕ) (w : World)
    → w.type_request ≡ 0
    → Served w.closes (map_sized os mode path size w)
unfolding map_sized
map_sized-Served os mode path none w typed = inl (unfold give_up in refl)
map_sized-Served os mode path (some size) w typed = elim (Bool-cases (size == 0)) [
  | inl empty ↦ rw empty (inl refl)
  | inr some_bytes ↦ rw some_bytes (map_and_send-Served os mode path size w typed)
]

lock_file-Keeps : (mode : ℕ) (w : World) → Keeps w (final (lock_file mode w))
unfolding lock_file
lock_file-Keeps mode w = ground arith

pub linux_memory_mapping-Served :
    (os : Os) (mode : ℕ) (path : Bytes) (w : World)
    → w.type_request ≡ 0
    → Served w.closes (linux_memory_mapping os mode path w)
unfolding linux_memory_mapping
linux_memory_mapping-Served os mode path w typed = elim (Bool-cases (os.open_rw path)) [
  | inl opened ↦ go opened (lock_file mode w1) refl (lock_file-Keeps mode w1)
  | inr closed ↦ rw (linux_memory_mapping, closed) (inl refl)
]
  where
    w1 : World
    w1 = record w { files_open = w.files_open + 1 }

    go :
        os.open_rw path ≡ true
        → (o : Out (Unit {0})) → lock_file mode w1 ≡ o
        → Keeps w1 (final o)
        → Served w.closes (linux_memory_mapping os mode path w)
    go opened (halt s v) e k = rw (linux_memory_mapping, opened, e) (omega (arith, k.same_closes))
    go opened (done a v) e k =
        rw (linux_memory_mapping, opened, e, ← k.same_closes)
          (map_sized-Served os mode path (os.fstat_size path) v (k.same_type ∙ typed))
