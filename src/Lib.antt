-- ===== src/Lib.antt =====
-- Netdisk: a network disk with a server (server/) and a client (client/), in C. Clients log in, walk through
-- a directory tree of their own and store files that are shared by content. This library models the
-- server and the client.
--
-- The parts and the files that model them:
--
-- * server/tool.c, the text functions: Tool. `remove_space` (Tool/Space) makes a request line canonical,
--   `splite_argument` (Tool/Argument) cuts it into two arguments, `splite_file_name`, `reverseString` and
--   `get_file_name` (Tool/FileName) take paths apart, `simplifyPath` (Tool/Simplify) resolves "." and
--   "..", and `get_user_path` (Tool/UserPath) turns what a client names into a path of the server. Each
--   function has the name of the source in snake case. Tool/Simplify/Resolve and Tool/Space/Words hold the
--   independent descriptions: walking through a list of names, and the words of a text.
-- * server/taskQueue.c, the queue between the main thread and the workers: TaskQueue, over the memory of
--   nodes in Memory and the request type of server/header.h in Wire. `enqueue` and `dequeue` are commands
--   with the source's pointer assignments in order; a read of a node that is not there is a fault.
--   TaskQueue/Seg says which list of requests a queue in memory holds.
-- * server/database.c, the pool of four connections: ConnPool. A step is what one thread does while it
--   holds the mutex; ConnPool/Trace lets any threads take and release in any order and keeps the list
--   of the connections that are held.
-- * server/deal_sql.c and server/entity.h, the database: Catalog. Catalog/Tables holds the rows and the
--   effect of the SQL statements that the source writes out, Catalog/Directory, Catalog/Transfer and
--   Catalog/Account one function per function of the source.
-- * server/hash.c, the tokens: Token. `generate_token` and `verify_token` stand around the JWT library, a
--   parameter; Token/Decimal has the decimal numbers in a token and Token/Hex `string_to_hex`.
-- * server/login.c, accounts: Login, `check_user_login` with bcrypt as a parameter.
-- * server/thread.c, server/file_no_change.c and server/file_change.c, the commands: Command has the parsing
--   of a request line, the command table, `send_message` of server/tool.c, `change_dir`, `show_dir` and
--   `show_path`; Command/Detail has `show_dir_detail`, Command/Change `add_dir` and `remove_file`.
-- * server/file_change.c and client/pthread.c, the transfer of files: Transfer has the loop that both sides
--   share, Transfer/Server `recv_file` and `send_file`, Transfer/Client `puts_File` and `gets_File`, and
--   Transfer/Digest `generate_digest` and `match_digest` of server/hash.c.
-- * server/thread.c, the workers: Worker, how a worker waits for a request and takes it; Worker/Dispatch
--   has what it does with it, from the token to the handler (`deal_command`).
-- * server/main.c, server/threadPool.c and server/tcpConnect.c, the main loop: Server, the events of epoll as
--   functions on the places where descriptors are; Server/Steps has the steps in any order.
-- * server/convert_entity.c and `get_result_set` of server/database.c, rows of MySQL as texts: Rows.
-- * client/judgment.c, the client's commands: Client, `execute_command` and `command_printf`.
-- * client/login.c and client/register.c, the forms: Client/Forms.
-- * client/client.c, the menu and the loop over the commands: Client/Menu; Client/Conversation has the
--   sessions of a client with the server.
-- * client/pthread.c and client/Tools.c, the local files of a transfer: Client/Paths; Client/Tools has the
--   functions of client/Tools.c that repeat those of server/tool.c, Client/Strtok the `strtok` of the C library.
-- * `read_config` of server/tool.c and `getparameter` of client/Tools.c, the configuration files: Config.
-- * server/log.c, the log: Log, the level and the files of the log.
--
-- They interact so: the main thread puts a client's request into the queue, a worker takes it, logs
-- the client in or verifies its token, parses the line, asks `get_user_path` for the server's path and runs
-- one of the functions of server/deal_sql.c on it, over a connection of the pool.
--
-- How the model reads the source:
--
-- * A text is the list of its bytes without the closing 0. A result `none` stands for an access outside an
--   array, and so a result `some` says that the code stays inside. Arrays of which the code uses a first
--   part only (`name` and `list` in `simplifyPath`) are given by that part.
-- * Numbers are natural; a C `int` that may be negative is an integer of Prelude/Int. Ids and lengths
--   are below 2 ^ 31, so that no `int` overflows.
-- * A wait on a condition variable ends a step with a result of its own.
-- * The two loops of `dequeue` run on fuel: one round for each request that the queue counts, and one more.
--   The theorems on `dequeue` show that it is enough for a queue in order. All other loops are structural.
-- * A MySQL table is the list of its rows in the order of their insertion, and an AUTO_INCREMENT key is a
--   counter. How MySQL compares texts (`=` under the column's collation, `like`) is a parameter of
--   the functions, of which only `s = s` is assumed. Texts that are pasted into a statement contain
--   no quotes. A session is one connection with what it sees and what is committed; the statements of one
--   function run without those of other connections in between.
-- * The messages that a handler sends are a list in its result. Answers in Chinese are their UTF-8 bytes.
-- * `output_control` runs on fuel, as its recursion need not end. A descriptor of the log is known by the
--   file it was opened for: `open` is a function of the path.
-- * The JWT library is two functions, of which Token/Laws says what is relied on (`Faithful`); of bcrypt
--   Login/Laws assumes that a hash is its own setting (`Settles`).
-- * `query_cd` and `query_gets` are `none` where a name or a hash value does not fit its array in
--   server/entity.h; the rows that other statements read are taken to fit. A token of exactly 1024 bytes,
--   whose closing 0 lies behind its array, is taken to fit as well.
-- * In Client/Menu each line stands with the token that the threads of transfers wrote before it, if any.
--   Memory from `calloc` has the room that a parameter of `transfile` says.
-- * The directory `data` is a function from names to bytes. `recv` returns the blocks of a list one after
--   the other, of any sizes; `mmap` refuses an offset that is not a multiple of the page size, which is a
--   parameter. A lock on a file or two uploads of one file at once are not looked at.
-- * In Server the queue is the list of its requests and a worker takes what `serve` of TaskQueue/Refine
--   names, where the head is not lost. Where it is, the queue dangles, and no step uses it from then on: what
--   the code does with it is not defined. Worker has the take on the queue in memory. Steps of the main thread and of
--   the workers come in any order, and any number of workers may be at work.
--
-- Not modelled: the text of log lines (but a loop that follows pointers for them is), the release of
-- buffers, failures of MySQL, of `malloc` and of sockets, processes, signals and sockets (the rest of
-- server/main.c, server/tcpConnect.c and client/tcpInit.c), what the client prints of itself, and the
-- times of deletions in rows. server/bcrypt is a copy of a third-party library.
pub mod Prelude
pub mod Memory
pub mod Wire
pub mod ConnPool
pub mod TaskQueue
pub mod Tool
pub mod Token
pub mod Command
pub mod Login
pub mod Transfer
pub mod Catalog
pub mod Log
pub mod Worker
pub mod Server
pub mod Client
pub mod Rows
pub mod Config
