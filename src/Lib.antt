-- ===== src/Lib.antt =====
-- The Gopher server of this repository, on Linux and on Windows.
--
-- A request is read (general/lib/socket/socket.c), its selector is joined to the root
-- (general/lib/gopher/protocol.c), and the path is answered with an error line, a directory listing
-- or the mapped file (linux/lib/memory_mapping); a served file is reported to the log process over a
-- pipe (linux/lib/pipe). The accept loop (linux/lib/socket/linux_socket.c) starts a thread or a process
-- for each connection, and main reads the configuration again after SIGHUP. On Windows
-- (windows/lib) the accept loop starts a thread, or the process of main_HandleRequest.c with a command
-- line; a served file is mapped and sent by a thread of its own, and its record goes through a pipe to the
-- process of main_LogProcess.c.
--
-- Base, Cstring, Outcome and World are the ground: bytes and C strings, C integers over the native
-- numbers, the ways in which a call ends (Outcome), and the state of one request, `World`, with the
-- answers of the system, `Os`. A call that returns is `done`, and one that ends its thread or process,
-- waits for ever or leaves its memory is `halt`.
--
-- Utils      general/lib/utils/utils.c and the structs of general/include/definitions.h; Utils/Tokens
--            is `ut_win_strtok_r`
-- Dict       `compare` with bsearch, as the tables of item types use it
-- Codes      linux/lib/protocol/linux_protocol.c; Codes/Windows is windows/lib/protocol
-- Send       sprintf and `socket_send_message`
-- Protocol   `resolve_selector`, `protocol_response`, `print_directory`
-- Request    `socket_read_request`, `socket_drain_tcp`; Request/Second has their unused variants
-- Files      `file_type` and `blackListFile`; Files/Access has helpers that nothing calls
-- Mapping    `linux_memory_mapping`, `linux_sendFile`, `l_sendFile`
-- Platform   what the shared code takes from its platform: OS_SEPARATOR, `getGopherCode`, `blackListFile`,
--            `clean_request` and the serving of a file; Protocol, Request, Files and Handler take it as an
--            instance argument
-- Handler    `socket_manage_files` and `handle_request`, from the request's bytes to its end
-- Linux      the platform Linux, and what holds of its requests
-- Config     general/lib/io/config_file.c
-- Server     `start_server`, `linux_socket`, `run_concurrency`, the SIGHUP handler and main's loop;
--            Server/Address is `getServerIP`, Server/Mutex `start_mutex` and `close_mutex`
-- SendFile   `SendFile` and `fsize`, which nothing calls
-- Main       `run_in_daemon` and main, on Linux
-- LogPipe    the log process and its handlers as a relation of steps, and their setup; LogPipe/Single is
--            the log process for one record (LOG_WITH_MULTIPLE_PROCESS), LogPipe/Forked `socket_pipe_log`
-- Windows    windows/lib, main_HandleRequest.c and main_LogProcess.c: Transfer (`windows_memory_mapping`),
--            Pipe (`pipe_run_process`, `pipe_simple_write_to_pipe`, the log process), Serve (a file that is
--            sent and logged), Runner (`windows_socket_runner`), Handler (the platform Windows and
--            `handle_request`), HandleRequest (the process for a connection; HandleRequest/Process has its
--            request in it, HandleRequest/GetSocket is `GetSocket` and `DoChild`), BlackList and Main
-- Tests      a small system on which the theorems are applied
--
-- The loops over the socket take fuel, one round for each answer of recv and each byte in it. The
-- block-wise transfer takes fuel for its calls of send. In LogPipe read, write and dprintf may fail, and
-- pthread_cond_wait may return without a signal: `Calls` says which of that may happen. root_dir is an array whose terminator may be missing (Utils, `CharArray`); main's strlen and its
-- prints of it stop there. Allocation, printing, files, send, popen and
-- the network are answers of the system: what the code relies on stands in the hypotheses.
--
-- On Windows each part has a record of the system's answers of its own. A thread that is sent a pointer
-- reads behind it in a step of its own, and the thread that sends a file runs before or after the view is
-- unmapped. The division of a command line into arguments is a parameter. There CloseHandle of a process,
-- a thread or a pipe is taken to succeed.
--
-- Not modelled: one-line wrappers of system calls that nothing calls (`getFilesize` and others); what is
-- destroyed when a process is about to end; the freeing of memory, but for the arguments of a request on
-- Windows; and output to the terminal, but for that of `DoChild`. The calls on the
-- mutex and the condition variable are taken to succeed, and a dprintf or a write of a record is done in
-- whole or fails. The text in root_dir is what a handler is started with.
pub mod Base
pub mod Tests
pub mod Cstring
pub mod Outcome
pub mod Dict
pub mod Utils
pub mod World
pub mod Codes
pub mod Send
pub mod Protocol
pub mod Request
pub mod Files
pub mod Mapping
pub mod Handler
pub mod Config
pub mod Server
pub mod LogPipe
pub mod Windows
pub mod Main
pub mod SendFile
pub mod Linux
pub mod Platform
