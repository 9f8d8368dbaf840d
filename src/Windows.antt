-- ===== src/Windows.antt =====
-- The server on Windows: windows/lib, main_HandleRequest.c and main_LogProcess.c. Each child has the
-- code of one part and its own record of the system's answers.
pub mod Transfer
pub mod Pipe
pub mod Serve
pub mod Runner
pub mod HandleRequest
pub mod BlackList
pub mod Main
pub mod Handler
