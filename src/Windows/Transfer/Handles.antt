-- ===== src/Windows/Transfer/Handles.antt =====
-- What a transfer leaves open.
use gopher_server_cross_plat.Base.{◌+◌, true, ◌≡◌, ◌⊎◌, arith, Bytes, ℤ, pos, negsuc}
use gopher_server_cross_plat.Outcome.{Result, ok, stop}
use gopher_server_cross_plat.Windows.Transfer.{
  Answers, Kernel, Turn, before_unmap, after_unmap, windows_send_file, windows_get_file_size,
  transfer, map_mapping, map_file, windows_memory_mapping, pointer_size, start_thread, late_thread,
}

-- As many handles and views of each kind as before.
pub record SameHandles (k l : Kernel) : Type 0 where
  pub same_files : l.files ≡ k.files
  pub same_mappings : l.mappings ≡ k.mappings
  pub same_views : l.views ≡ k.views
  pub same_threads : l.threads ≡ k.threads

-- A call that returns leaves nothing more open, and its code is one of two.
abbrev pub Balanced : Kernel → Result (ℤ × Kernel) → Type 0
Balanced k (ok (code, l)) = ((code ≡ negsuc 0) ⊎ (code ≡ pos pointer_size)) × SameHandles k l
Balanced k (stop s) = Unit

module _ (a : Answers) (unmapped : a.unmaps ≡ true) (mapping_closed : a.closes_mapping ≡ true)
    (file_closed : a.closes_file ≡ true) where
  map_file-Balanced :
      (turn : Turn) (path : Bytes) (size : ℤ) (k : Kernel)
      → Balanced k (map_file a turn path size (record k { files = k.files + 1 }))
  unfolding map_file map_mapping transfer start_thread late_thread windows_send_file
  map_file-Balanced before_unmap path size k = ground arith
  map_file-Balanced after_unmap path size k = ground arith

  -- When the handles and the view can be closed, a transfer that returns leaves no handle of a file, a
  -- mapping or a thread and no view open, whichever call fails and whenever the thread runs; and it returns
  -- -1 or 8, the size of a pointer.
  pub windows_memory_mapping-Balanced :
      (turn : Turn) (path : Bytes) (k : Kernel) → Balanced k (windows_memory_mapping a turn path k)
  unfolding windows_memory_mapping windows_get_file_size
  windows_memory_mapping-Balanced turn path k = ground (arith, map_file-Balanced turn path)
