-- ===== src/Lib.antt =====
-- A model of the C library: its string helpers, its URL parser, its asynchronous sockets, its
-- trace files, its HTTP client, its MySQL client and its log; of the program that joins
-- sockets; and of the small programs that show how three of the parts are used.
--
-- Misc (misc.c): each helper works on the whole buffer as a list of bytes, so that a theorem
-- says also which bytes do not change; the string in the buffer is what stands before its first
-- 0. Misc.Strip has `chomp` and `_trim`, Misc.Rot13 `encode_rot13`, Misc.Cut `strcutpbrk`,
-- Misc.Delete `strdelchars`, Misc.Split `split_get_size` and `split`, Misc.Fmtsub `fmtsub`,
-- Misc.Lines `read_lines_from_stdin`, Misc.System `is_valid_ip` and `die`.
--
-- UrlParser (htclient/url_parser.c): `parse_url` and `parsed_url_free`, with the tests on bytes
-- in UrlParser.Text. The function `malloc` is an oracle `grants`, asked with the number of the
-- call, and the heap counts live blocks; a theorem takes any oracle, or one that grants every
-- call.
--
-- Tracer (tracer/tracer.c): `new_id` with the number file `.seq`, `tracer_open`,
-- `tracer_close`, `tracer_printf` and the getters; Tracer.Race has two processes that share a
-- directory, as a step relation over the stages of `new_id`, and Tracer.Crowd any number of
-- them; Tracer.Numbering follows the numbers through a list of calls on any number of tracers
-- of one directory, Tracer.Paths, Tracer.Names and Tracer.Apart the trace files. The number is
-- reduced modulo 2 ^ 64.
--
-- Htclient (htclient/htclient.c): `skip` and `parse_http_headers` on the text of the response,
-- `htclient_header_get`, `htclient_url` on top of UrlParser's `parse_url` (Htclient.Ready and,
-- for a URL that is written out, Htclient.Written), `htclient_perform` with the answers of the
-- system as a record, and `htclient_destroy` with what it leaves (Htclient.Lost,
-- Htclient.Received and Htclient.Blocks). Where `strdup` of the response is refused,
-- `parse_http_headers` reads `NULL`: the client is then marked by `null_read`, and what the
-- model does from there on means nothing. Messages that are formatted from system errors are
-- arguments.
--
-- Amysql (amysql/amysql.c): the globals as a record, `query` with the outcome of the MySQL
-- library's calls as an argument, and in Amysql.Threads, Amysql.Progress, Amysql.View and
-- Amysql.Served the two threads as a step relation over `amysql_query`, `query_and_evasync` and
-- `invoke_callback`; the other thread may work while a callback runs, and never works if
-- `pthread_create` failed. The text of an error ends with its string, or runs on behind
-- `error_str` if the array has no 0. The field buffer has 8192 bytes and the pointer array 32
-- entries, as in the code.
--
-- Netsocket (netsocket.c): the file itself has the object and its closing (`sock_close`,
-- `disconnect` with its flag set, the parts of `invoke_callback`, `netsocket_destroy`) and the
-- setters; Netsocket.Start has `netsocket_connect`, `netsocket_listen` and `sock_accept`;
-- Netsocket.Handlers the three watchers' functions; Netsocket.Script the user's calls. Answers
-- of the system are arguments. Each of these functions ends in a return, or last calls
-- `invoke_callback` or `disconnect`; a record `Ways` has the three ways out, so that a function
-- is written once for an object in any state. Netsocket.Part has `invoke_callback` and
-- `disconnect` for an object that a lens finds in a larger state, with a callback on the whole
-- state. Netsocket.World has any number of objects, what a callback does (a finite tree of
-- calls on any of the objects, each with the callback that it may cause, so that callbacks
-- nest), and the runs of the event loop; an address that was freed may be given out again.
-- Netsocket.Inside, Netsocket.Calls and Netsocket.Turns carry the invariant of one object
-- through every call and handler, Netsocket.Fine and Netsocket.Runs that of all objects through
-- callbacks and runs; Netsocket.Watched, Netsocket.Watching and Netsocket.Attempts do the same
-- for the watchers of a connection attempt. A callback ends; a call on a freed object is not
-- made. Standard input is taken to be open, so that no socket is descriptor 0.
--
-- Logger (logger.c): the globals, `con_init`, `con_logfile`, `con_timestamp_format` and
-- `_con_writef` with Misc.Strip's `chomp`; what the formats and `strftime` give is an argument,
-- and the output is the text on the console and the lines appended to files.
--
-- Pipe (pipe.c): `scallback` and `ccallback` on a pair of sockets; Netsocket's functions are
-- used on each end. Pipe.Program has `main` and the turns of a pair, Pipe.Alive what holds of
-- one end through the parts of an operation, and Pipe.Closes, Pipe.Passes, Pipe.Connects,
-- Pipe.Ongoing and Pipe.Turns what becomes of a pair. These follow one pair, since pairs share
-- nothing but the server; Pipe.Clients has the runs of `main` with any number of clients.
--
-- Programs has Programs.Asking (amysql/test_amysql.c), whose runs are those of the two event
-- loops on top of Amysql, Programs.Fetching (htclient/test_htclient.c), from Htclient's
-- `htclient_url` to `htclient_destroy`, and Programs.Tracing (tracer/test_tracer.c). What a
-- program prints is a list or a value; a pointer that may be `NULL` is an option.
--
-- Bounds: `int` indices are natural numbers, exact for strings below 2 ^ 31 bytes. The loops
-- are structural recursions on the buffer or on the number of rounds that the source's `for`
-- has; the main loop of `fmtsub` has the pattern's length as fuel, and each round takes a byte
-- of the pattern at least.
--
-- Not modelled: the copies of udns, uthash and inih, which are other projects' libraries; the
-- debug macros, which print; fmtsub_test.c, logger_test.c and amysql/test_sync_amysql.c, which
-- print what calls of one part give; and test.c, which calls the sockets by an older interface.
mod Base
pub mod Misc
pub mod UrlParser
pub mod Netsocket
pub mod Tracer
pub mod Htclient
pub mod Amysql
pub mod Logger
pub mod Pipe
pub mod Programs
