-- ===== src/Windows/Transfer/Turns.antt =====
-- What a transfer sends, by the time at which its thread runs.
use gopher_server_cross_plat.Base.{
  ℕ, suc, ◌+◌, true, ◌∷◌, ◌++◌, some, ◌≡◌, arith, Bytes, ℤ, pos, length, Without, of_u32, take-all,
}
use gopher_server_cross_plat.Outcome.{Result, ok, stop, fault}
use gopher_server_cross_plat.Windows.Transfer.{
  Answers, Kernel, Turn, before_unmap, after_unmap, windows_send_file, windows_get_file_size,
  transfer, map_mapping, map_file, windows_memory_mapping, pointer_size, start_thread, late_thread,
}
use gopher_server_cross_plat.Cstring.{strlen-append, take-prefix}

-- What the client sees of a transfer that starts with `k`.
abbrev pub Sends : Turn → Bytes → Kernel → Result (ℤ × Kernel) → Type 0
Sends before_unmap text k r = r ≡ ok (pos pointer_size, record k { sent = k.sent ++ text })
Sends after_unmap text k r = r ≡ stop fault

module _ (a : Answers) (path text rest : Bytes) (low n : ℕ) (opened : a.create_file path ≡ true)
    (sized : a.attributes path ≡ some (0, low)) (size : of_u32 low ≡ pos (suc n))
    (mapping : a.create_mapping path ≡ true) (viewed : a.map_view path ≡ some (text ++ 0 ∷ rest))
    (text_end : Without 0 text) (thread : a.create_thread ≡ true) (unmapped : a.unmaps ≡ true)
    (mapping_closed : a.closes_mapping ≡ true) (file_closed : a.closes_file ≡ true)
    (all : (s m : Bytes) → a.send s m ≡ some (length m)) where
  send_text :
      (k : Kernel)
      → windows_send_file a (some (text ++ 0 ∷ rest)) k ≡ ok (record k { sent = k.sent ++ text })
  unfolding windows_send_file
  send_text k = ground (
    arith,
    strlen-append text rest text_end,
    take-prefix text (0 ∷ rest),
    all k.sent text,
    take-all (length text) text,
  )

  -- Of a file of at least one and fewer than 2^31 bytes that can be opened, sized, mapped and
  -- closed, with a NUL among the bytes that can be read, the client gets the bytes in front of the
  -- first NUL, and 8 is returned, if the thread runs before the view is unmapped; if it runs
  -- later, the process faults. The thread can be made and send takes every message whole.
  pub windows_memory_mapping-Sends :
      (turn : Turn) (k : Kernel) → Sends turn text k (windows_memory_mapping a turn path k)
  unfolding windows_memory_mapping windows_get_file_size map_file map_mapping transfer start_thread
      late_thread
  windows_memory_mapping-Sends before_unmap k = ground (
    arith,
    send_text (record k {
      files = k.files + 1;
      mappings = k.mappings + 1;
      views = k.views + 1;
      threads = k.threads + 1;
    }),
  )
  windows_memory_mapping-Sends after_unmap k = ground arith
