-- ===== src/LogPipe/Records.antt =====
-- The records of served files, from the handlers of general/lib/socket/socket.c to the log file.
use gopher_server_cross_plat.Base.{Bytes, take, ℤ, Without}
use gopher_server_cross_plat.Utils.{ThreadArgs, port_of}
use gopher_server_cross_plat.Linux.{log_record}

-- A served file: its path and size, the arguments of its handler, and the server's address.
pub record Served : Type 0 where
  pub path : Bytes
  pub size : ℤ
  pub args : ThreadArgs
  pub hostname : Bytes

-- What `socket_pipe_log_server_single_process` writes for it.
abbrev pub record_of : Served → Bytes
record_of s = take 4095 (log_record s.path s.size s.args.ip_client s.hostname (port_of s.args))

-- Without NUL in its three texts.
abbrev pub IsPlain : Served → Type 0
IsPlain s = Without 0 s.path × Without 0 s.args.ip_client × Without 0 s.hostname
