-- ===== src/Lib.antt =====
-- libncclient, the client library of the game netcode: an application hands it commands and takes
-- messages from it through a C interface, and its threads keep the connection to the server.
--
-- The parts and how they meet:
--   * c_shared_data.h, c_shared_data.cpp: the object that the application and the threads share, with
--     a queue in each direction, the user, the auth data and the termination flags. SharedData has
--     its state as a record and one function per method and per `sd_` function; a method holds the
--     lock, so it is one step. SharedData.Queues has histories of calls by any threads.
--   * nc_string_interop.hpp: the strings that cross the C interface. Interop has them over Memory, a
--     heap of blocks and arrays with `new []` and `delete []`, where a call may also throw or run into
--     undefined behaviour. Interop.Copies has what copies and views read as, Memory.Past the blocks
--     that are freed behind newer ones, Memory.Balance, with Interop.Balance,
--     SharedData.Balanced and NetClient.Balanced, which blocks the calls leave allocated, and
--     Memory.Always what every result of a call satisfies.
--   * c_server_api.h, c_server_api.cpp: the text of commands and responses. ServerApi.Requests makes
--     and queues requests (`sa_make_*`, `sa_do_*`), ServerApi.Local is `is_local_command`,
--     ServerApi.Up is `sa_default_up_handling`, ServerApi.Response tells responses apart
--     (`sa_server_response_to_info`), ServerApi.Fields cuts tagged and down responses, and
--     ServerApi.Parse and ServerApi.Chat read those that are JSON. nlohmann::json (deps/json) is the
--     parameter ServerApi.Json.JsonLib: its values, `parse`, `dump` and the reads of members, with
--     an exception as `none`.
--   * nc_util.hpp: the helpers. Util has `starts_with`, `strip_whitespace`,
--     `strip_trailing_newlines`, `no_ss_split`, `split` (Util.Lines), `format_by_vector`,
--     `to_string_with_enforced_variable_dp` and `tolower_str` (Util.Format), the checks of user and
--     script names (Util.Name), the colours (Util.Colour) and the security levels (Util.Level).
--     Util.Files has the files as a function from names to contents, and Util.Atomic
--     `atomic_write_all` for both platforms, one system call at a time, with a small program logic
--     in Util.Atomic.Logic.
--   * c_steam_api.h, c_steam_api.cpp: SteamApi has the client's flags and ticket and the callbacks.
--     What the Steam SDK answers is an argument of the functions that ask it.
--   * socket.hpp: the sockets. Socket has `socket_interface` as a record of functions, Socket.Http,
--     Socket.Websock and Socket.Ssl fill it for the three kinds of socket and have the constructors,
--     Socket.Laws has what they share, Socket.Receive what the read thread gets through any of them,
--     and Socket.Context is `ssl_ctx_wrap`. What a boost::beast stream answers is an argument.
--   * c_net_client.h, c_net_client.cpp: the connection. NetClient.Auth is `handle_sending_auth`,
--     NetClient.Hex is `binary_to_hex`, NetClient.KeyFile is `check_auth` and the load of the key
--     file in `nc_start`, and NetClient.Connect is `shared_context::connect`, with the socket objects
--     that it makes.
--     NetClient.Threads has the program with its three threads, `handle_async_write`,
--     `handle_async_read` and `watchdog`, and NetClient.Threads.Steps their steps and those of the
--     application, in any order. A step of a call comes with what it added behind the write queue
--     (NetClient.Extends). The other modules there follow runs: the queue as a channel (Channel,
--     Order), the end of the threads (End, Ranks, Exit, Progress, Liveness), the socket (Socket), the
--     heap (Balance).
--
-- Chars are bytes, as numbers; strings are lists of them. An `int` that comes from a size wraps at
-- 2 ^ 32 (Common.Int), and `Fits` names the strings whose length plus one is a positive `int`.
-- Files are functions from names to contents, and what becomes of an `ofstream` is an argument
-- (Util.Files.OutStream). On Windows `ReplaceFileA` is two moves. The steps of the threads are those
-- of texts that fit; a call that throws on a longer one takes no step, and the wait for a Steam
-- ticket is taken to end. `no_ss_split` takes one more unit of fuel than the
-- text has chars: with a delimiter that is not empty each round drops at least one char, or ends.
-- Addresses are not used twice, and memory is never exhausted.
-- A `float` is a fraction over a power of two, an infinity or not a number, and is compared exactly
-- (Util.Level). `std::to_string` and `std::hash` are arguments. The loops of `atomic_write_all` run
-- on the lists of the system's answers, and those of `split` on the number of chars, since a round
-- reads at least one.
--
-- Not modelled: what boost::beast, boost::asio and OpenSSL do within a call; messages to the console;
-- nlohmann::json (deps/json), another project's library; the clock of `atomic_write_all` and of the
-- timeouts, whose readings are arguments.
pub mod Common
pub mod Memory
pub mod Interop
pub mod Util
pub mod SteamApi
pub mod SharedData
pub mod ServerApi
pub mod Socket
pub mod NetClient
pub mod Tests
