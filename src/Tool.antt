-- ===== src/Tool.antt =====
-- server/tool.c: the text functions of the server. A string is the list of its bytes before the closing
-- 0, so a call of `strlen` is the list's length and the end of a scan is the end of the list. A result
-- `none` stands for an access outside an array.
pub mod Space
pub mod Argument
pub mod FileName
pub mod Simplify
pub mod UserPath
mod Tests
