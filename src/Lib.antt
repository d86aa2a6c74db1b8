-- ===== src/Lib.antt =====
-- S-VPN, a simple VPN over UDP. A client encrypts what it reads from its tunnel with a table that
-- it builds from the user's password and number, and sends it to the server; the server finds the
-- user by the first byte, decrypts, checks the source address, and writes the packet to its own
-- tunnel. What the server reads from its tunnel goes to the user that the last byte of the
-- destination names, encrypted with this user's table, at the address of the last accepted packet.
--
-- Common      arrays as lists, C's comparisons and casts, signed integers, and how a part of a loop
--             ends (`go_on`, `continue`, `return`, undefined behaviour)
-- Crypt       src/lib/crypt.c: `build_table`, `encrypt`, `decrypt`; Crypt/Permutation and
--             Crypt/Table are about the tables, Crypt/Cipher and Crypt/Codes about buffers
-- Md5         src/lib/md5.c and include/md5.h: Md5/Coding and Md5/Transform hold the operations
--             under `md5_update` and `md5_final`; Md5/Reference is RFC 1321's account, and
--             Md5/Blocks, Md5/Update, Md5/Digest and Md5/Size are the laws
-- Server      src/server/svpn_server.c: Server/Status for `fillnum` and `output_info` (laws in
--             Server/StatusLaws and Server/Report), Server/Loop for `svpn_server_handle_thread` (laws in
--             Server/Keeps, Server/Invariant and Server/Accept; Server/Relay is an abstract account of it
--             for Server/Refines, Server/RefinesParts and Server/RefinesLoop; Server/Clock and
--             Server/NoFault are about its faults, and Server/Relays about both), Server/Users for the parse of the
--             configuration (laws in Server/UsersLaws, Server/UserTables and Server/UserLines), and
--             Server/Start for `svpn_server_init`, src/server/svpn_fd.c and
--             src/server/main_server.c (laws in Server/StartLaws, Server/SettingsLaws and
--             Server/MainServes)
-- Client      Client/Loop for `svpn_handle_thread` of src/client/svpn_client.c (Client/Relay is an abstract
--             account of it for Client/Refines, Client/RefinesParts, Client/RefinesLoop and Client/Counts), Client/Start for
--             `svpn_init`, src/client/svpn_fd.c and src/client/main_client.c (laws in
--             Client/StartLaws)
-- Old         old-code: Old/Table for `BuildTable` with a timestamp (libs/crypt.c; laws in
--             Old/TableLaws), Old/Client for the clients of old/linux and old/osx, Old/Sockets for
--             server/svpn_fd.c, Old/Server for the list of clients of server/svpn_server.c (laws in
--             Old/ServerLaws) with Old/Release for `svpn_server_release`, and Old/Windows for
--             old/win32/Wtaet
-- Old/Client  Linux and Osx for the parts of `svpn_handle_thread` (Whole, OsxWhole and Packets are
--             about one packet, Relay is an abstract account of the loop for Refines and
--             RefinesBoth), Threads for the start, the stop, the wait and the release of the
--             threads (laws in ThreadsLaws), Bodies for the loops of the threads
--             with a flag (laws in BodiesLaws), Start for `svpn_init` and both svpn_fd.c (laws in
--             StartLaws), and Main for main.c (laws in MainLaws)
-- Old/Windows Channel for the buffer of an overlapped read, Comm and Second for comm.cpp, Tun and Registry for
--             tun.cpp, Config for config.cpp, Cycle for `SendCycle` of Client.cpp, and Program for
--             the rest of Client.cpp and main.cpp; Gate is an abstract account of the cycle for
--             Holds, Matches, TunRound, Rounds and Laws, Carries is about two clients, and
--             RegistryTally, RegistryLaws and ProgramLaws are the other laws
-- Scan        the part of libc's `fscanf`, `fgets` and `strcasecmp` that the program uses
-- Fd          descriptors that are opened and closed; Fd/Balance for calls that close all they open
-- Traffic     packets through both loops and both ciphers: Packet and Coded for whole packets in code,
--             Turn and Refining for loops of parts and rounds and their abstract accounts
-- Net         the server, the clients of its users and the datagrams between them, where a step is a
--             round of one program; Net/Sound and Net/Clients are about the relays, Net/Invariant,
--             Net/ServerStep, Net/ClientStep and Net/Intact about every run, Net/Rounds, Net/Delivery
--             and Net/Exchange about the runs that carry a packet. A datagram that was sent can
--             arrive at any later time, once, more than once or never
-- Tests       runs at concrete inputs
--
-- Bytes and unsigned words are natural numbers with the wrap written out; `int` and `long long`
-- are integers, with the cast to `int` where the source has one; the overflow of a `long long` is
-- out of the model, and the counts of bytes and packets in the clients' loops, which nothing reads,
-- wrap where C leaves the overflow undefined. An array is a list: a read out of range gives 0 and a write there changes
-- nothing. What system calls return is an argument: a round of a loop takes the results of
-- `select`, `recvfrom`, `read`, `sendto`, `gettimeofday` and `fopen`, and gives its effects in
-- their order. A loop is a recursion on the rounds that are left; the loop of `MD5Update` has
-- `inputlen / 64 + 1` rounds, enough since each takes 64 bytes; the loops over the configuration's
-- lines have one round more than the file has bytes, enough since each takes a byte at least.
--
-- `inet_addr`, `inet_ntoa`, and `inet_pton` with `htons` are parameters. `malloc` is a parameter
-- that gives each struct its first contents, and does not fail. A word that does not fit `tmpstr`,
-- and a user's number out of range, is undefined behaviour, the result `fault`.
--
-- The older clients' threads are known by the points of their loops; a signal ends the call in
-- which a thread is, and a step is a move of one thread. A function on a freed struct, and a signal
-- to or a wait for a thread that was not created or was waited for already, is undefined behaviour.
--
-- In the Windows client, a round of the cycle is what `WaitForMultipleObjects` returns with the
-- results of its calls; a write past an array is `fault`, the use of a deleted object `crashed`.
-- The length that `lzo1x_1_compress` gives is a parameter, as miniLZO is a library.
--
-- Not modelled: messages of the start, socket options, signal handlers, `mprintf`, the rest of the
-- draft server old-code/server, which does not compile, the print of the routes and the disabled
-- code of the Windows client, the library miniLZO with its test program, the Android application,
-- and the time of day in the log file.
pub mod Common
pub mod Crypt
pub mod Md5
pub mod Scan
pub mod Fd
pub mod Server
pub mod Client
pub mod Traffic
pub mod Net
pub mod Old
mod Tests
