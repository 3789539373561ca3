-- ===== src/Lib.antt =====
-- Verification of the warehouse server, an HTTP server for a game.
--
-- The parts of the program and the files that model them:
--
-- Parser (http_parser.c, http_parser.h) is the push parser that every session runs, the http-parser of
-- NGINX and Node.js as it is kept in this repository, with its local changes. Enums, Chars and
-- State hold its enums, character tables and `struct http_parser`, with the functions on it alone; Flow
-- holds the local variables of `http_parser_execute`, the macros for marks and callbacks, and the ways
-- in which the code of a state ends: `continue` into the next byte or back to `reexecute`, or `leave` by
-- a return. UrlChar, Response, Request, Header, Value and Body have a `step_` function for each `case`
-- of the switch, and Execute puts them together: `dispatch` is the switch, `run_states` the jumps to
-- `reexecute`, `run_bytes` the loop, `http_parser_execute` the function. A callback gets the parser and
-- the application's state and returns its result, the new state and the parser's `http_errno`, so it
-- may fail or pause the parser; it does not change the parser's state in another way. The build is the
-- strict one (HTTP_PARSER_STRICT is 1). Assertions are not modelled.
--
-- The other modules hold proofs: Progress and Slices about the whole call, with a child for each group
-- of states, Classes about the tables, Methods about the names of methods, Lengths about printed
-- numbers, and LineEnd about the search for the end of a line.
--
-- Fuel: `run_states` has 4 rounds for a byte, since a byte passes through at most four states, and
-- `run_bytes` has the number of the bytes, each round of which moves `p`. Running out is the value
-- `spinning`.
--
-- Url (http_parser.c) is `http_parser_parse_url` with `http_parse_host`, on the memory from `buf` on.
--
-- Http (request_respons.h) is the map of headers with its order `ci_less` (Headers), the class
-- `response` and the body of `request` (Response), and `url_obj` (UrlObj), where `none` is an exception.
-- Order and Refinement are about the map of headers, Lengths and Written about the text of a response,
-- Slices about the accessors of `url_obj`.
--
-- Game (client_manager.h, client_manager.cpp, client.h, client_interface.h, error_code.h) answers a
-- request: Json is the interface of jsoncpp, a parameter, with the laws that theorems use; Client is
-- the virtual interface of a client and the class that implements it; Manager is `client_manager` with the
-- handler of a client's timer. An exception is `none`.
--
-- Net (http_session.cpp, http_server.cpp, http_server.h, io_service_pool.cpp, DBConnectPool.cpp) has the
-- session, whose handlers call the parser with callbacks that call the handler of requests and
-- `response::end`, the pool of io_services, the pool of database connections, and the acceptor with the
-- set of sessions (Server), each handler of which is one step. Target is what the callbacks of a session
-- write, Reading a read of one session, Lifetime the handlers of one session in any order with the rest
-- of the program between them, and System the acceptor, all the sessions and the state that they share.
--
-- Threads that share a mutex are modelled where the code's own mutexes and condition variables are: a
-- step is what a thread does up to the next point where another can see it or hold it up.
-- Net/Accepting/Threads has the calls of `OnAccept`, with the steps of other handlers between theirs;
-- Net/DbConnectPool/Threads the threads that call the pool of connections, with those that wait and those
-- that were woken; Net/IoServicePool/Running the thread of `io_service_pool::run` and the one of the
-- server that waits for it; Game/Manager/Threads the calls of `client_manager`, each search, insertion
-- and erasure of which is one step; Net/Server/Run the threads of `http_server::run`.
--
-- TestClient (client/TestClient.cpp) is the test client: Request has the request that it writes and a
-- session that reads it, Mongo the calls of the database driver, whose outcomes are parameters.
--
-- Program (UCludeProject.cpp) joins Net and Game: Game/Program is the function that `main` gives the
-- server, with the users and the calls of `rand()` as the shared state.
--
-- Not modelled: sockets and timers, which are boost's (their handlers are the operations of the model);
-- handlers of sessions that run at the same time on different threads, since a handler of a session is
-- one step; what is inside the database and JSON libraries; logging; the option `--fork`; GameServer.cpp,
-- an older main program; the copies of a Base64 encoder, which the server does not call; in the test
-- client the loop of `func`, and `run`, `printIfAge` and `main`, which use sockets and another driver.
pub mod Common
pub mod Parser
pub mod Url
pub mod Http
pub mod Game
pub mod Net
pub mod Program
pub mod TestClient
