-- ===== src/Lib.antt =====
-- A model of the servers of javaIoTserver that are written in C++: the HTTP server for devices
-- in esp8266_decoder/source, with the cipher that its devices speak, and the server of the
-- relays in servak_na_winapi_relays/source, and the first server, in servak_na_linux/server. The
-- definitions follow the source function by function and keep its names, in snake case; each
-- file begins with the file or class of the source it is about.
--
-- The parts, and how they work together:
--   * Setup (setup.cpp, setup.h): SetupConfig, the configuration file as a table of keys and
--     values. The file system enters as the bytes of the file and as whether it opens. The other
--     parts read their keys from it.
--   * Cripter (MyCrypter.h, built with USE_CHACHA20): Rand is class MyRand, the key stream seeded
--     from the configuration; Codec is toBase64, codBuf and decodBuf, which mask a message and
--     write it as text; Session is class MyCripter, one end of a conversation, which draws on one
--     generator for all its messages.
--   * Http (http_utils.cpp, request.h, http_parser.cpp): Escape is convert_string, Request is
--     struct Request with its two lists of parameters, Query is parse_query_string, FirstLine is
--     parse_method and first_line_pars.
--   * Http.Connection (http_utils.h, http_parser.cpp): _resv, _resv_line, line_parse,
--     read_http_headers, read_http_body and parse_http_request; a socket is the pieces in which the
--     bytes arrive and how the connection ends.
--   * Http.Response (response.h, http_utils.cpp): recv_file, send_header, send_err and
--     sendResponse; an answer is the bytes that are sent. Router (router.cpp, and the dispatch of
--     worker_pool.cpp): the handler of a request by its method and path.
--   * MachineTime (MachineTime.cpp, my_time.cpp): Day is struct Day and what `set` does to one
--     channel; Store is the database, an interface of the statements that the class prepares,
--     over a state that is left open, since SQLite is not part of the repository; Device is class
--     MachineTime with its sessions and months, Device.Packet its set and set_post, Device.Start
--     its constructor, Device.Report its answers in JSON; Handlers is the table of devices and the
--     handlers of GET, POST, PUT and DELETE, each of which is one step.
--   * Server: Arguments and Ports (server.cpp) are what main makes of its arguments and of the
--     configuration, and what the threads of the ports then listen on, with whether a socket opens
--     as an argument; Pool (worker_pool.cpp, worker_pool.h) is the queue and the threads of a port,
--     as the steps of all threads in any order. Whether a thread comes back from a request is an
--     argument there, since the reading of a request need not end.
--   * Relay (servak_na_winapi_relays/source): the server between users and relays in the field.
--     Rele is struct Rele and the list of relays; Rand is the generator that a relay and the server
--     step together; Update is obrobnyk_relay, the report of a relay and the answer with a command;
--     Buttons, LogFile and Names are what users do (relay.cpp); Request and Answer are request.h and
--     http_utils.cpp; Handlers is relay_http_handlers.cpp; Decode and Server are decod_request and
--     the loop of main (server_relays.cpp), from the bytes of a connection on. Store is the
--     database, an interface of its statements. A result `none` is the read of a null pointer.
--     DEF_RAND stands in a header that is not in the repository and is an argument.
--   * LiraCalc (servak_na_linux/server): the first server, which keeps machines, their liry and
--     variables in a Firebird database. MyTime is class my_time_cls, the calendar; Status is class
--     Status, the messages of a request; Database is the interface of the statements, with their
--     text, and Database.Tables what they mean for the tables; Delete, Save and Add are delete.cpp,
--     save.cpp and add.cpp. `none` is a database that cannot be attached, which the source then
--     creates or ends at. Cp1251 is utf_to_cp1251 of dwnldcnf.cpp. Relay is the list
--     of relays of relay.cpp as it lies in memory, where what is freed is gone: rr_get_status for all
--     relays, and in Relay.Press rr_get_status for one and rr_put_status.
--   * Common: what the others share, with texts as lists of bytes and machine words as natural
--     numbers whose wrap-around is written out.
--   * Tests: runs on concrete inputs.
--
-- Bounds and fuel: a `char` is a byte below 256 except where its sign counts, a `uint32_t` is taken
-- modulo 2^32, a length held in a `short` modulo 2^16 with its sign. Loops are structural; on fuel
-- are parse_pairs, where the bytes of the text are enough fuel (each round takes at least one), and
-- the loops over blocks of four characters, whose fuel is the counter of the source. The loops of
-- Http.Connection are on fuel, too, since the source can leave them only when enough has arrived;
-- `none` is a loop that has not ended. In Relay.Decode the loops over the lines and over the
-- parameters take at least a byte in each round, so that the bytes are enough fuel. The walks of
-- LiraCalc.Relay have ended, or have met freed memory, in two rounds more than there are relays;
-- `running` is a walk that has not ended.
--
-- Not modelled: of the first server (servak_na_linux) the requests of KM_server.cpp, the pages and
-- JSON that only read the database, its creation, the files that
-- dwnldcnf.cpp writes, and the reports of its older relay.cpp; the gateway in Java; the loop that
-- accepts connections, and the agent of the server for devices that saves; tz.cpp, a copy of a date
-- library; output that is only printed. A time is an integer without bound where the source has an
-- `int`, except where a sum of seconds is stored. The clock, `gmtime_r`, `strftime` and the offsets
-- of time zones are arguments, and so is what `printf` writes for a `double`. Texts that `sprintf`
-- writes are taken to have room.
pub mod Common
pub mod Setup
pub mod Cripter
pub mod Http
pub mod MachineTime
pub mod Router
pub mod Server
pub mod Relay
pub mod LiraCalc
mod Tests
