-- ===== src/Lib.antt =====
-- The QingLiao chat server, as far as its own logic goes: packages on the wire, rooms, users, and
-- the manager that ties them together.
--
-- Parts and files.
-- - Wire: packages and the byte stream. Wire/Endian is utils/networkEndianness.hpp
--   (`swapEndianness`), Wire/DataPackage is utils/network/dataPackage.hpp (`makePackage`,
--   `packageToString`, `stringToPackage`, `getData`), Wire/Package is utils/network/package.hpp
--   (`write`, `canRead`, `firstMsgLength`, `read`). A byte is a number below 256, an integer of w bytes its
--   bit pattern below 256 ^ w; the host is little-endian.
-- - Messages: the history that both kinds of rooms keep, a list in the order of its time points
--   (`m_message_map` of server/room/groupRoom/groupRoom.cpp and
--   server/room/privateRoom/privateRoom.cpp).
-- - Room: server/room/room.cpp, the members of a room and the delivery to them; Room/Kcp the
--   rooms of KCP sockets, which the server does not use yet.
-- - Group: the group rooms. Group/Level and Group/Permission are groupUserLevel.hpp and
--   groupPermission.cpp of server/room/groupRoom, Group/Room and its child Moderation are
--   groupRoom.cpp.
-- - Private: server/room/privateRoom/privateRoom.cpp.
-- - User: the data of one user, `UserImpl` of server/user/user.cpp, with the calls that stay in it.
-- - Server: `ManagerImpl` of server/manager/manager.cpp with the tables of
--   server/manager/verificationManager.cpp. Server/Manager has the users and the rooms,
--   Server/Connections the connections, Server/Friends and Server/Groups the requests with the calls of
--   server/user/user.cpp that reach other users (`addFriend`, `acceptGroup` and so on), Server/Login the
--   login by user id of server/jsonMessageProcess/JsonMsgProcess.cpp.
-- - Json: the answers of utils/returnStateMessage.hpp, and what the program asks of the JSON library.
-- - Server/Commands: the commands of server/jsonMessageProcess/JsonMsgProcessCommand.h and .cpp, by
--   what they are about (Users, Friends, Groups), and the table that finds them. Server/Dispatch:
--   `processJsonMessage` of JsonMsgProcess.cpp and `SocketService::process` of
--   server/socketFunctions/socketFunctions.cpp.
-- - Network: the receive loop of `Network::process` in server/network/network.cpp, one step for each
--   chunk of bytes that a connection reads. What answers a package is a parameter of the step.
-- - Client: the test client. Client is testclient/session.cpp, Client/Network the requests of
--   testclient/network.cpp, Client/Commands testclient/commands.cpp with the loop of
--   testclient/main.cpp. Client/Transport joins the session with the server's message process.
-- - Text and Options: the words of a line and utils/option.hpp. Console: server/input/input.cpp and
--   inputCommands.cpp.
-- - Pattern: utils/regexMatch.hpp, with the regular expressions of the standard library as far as its
--   patterns need them.
-- - Error: the codes of utils/error/qls_error.h and the way a call ends. Base and Map: numbers, lists,
--   Boolean tests, and hash tables as association lists over the equality of their keys.
-- - Tests: the theorems at concrete inputs.
--
-- How state and calls correspond. A C++ object is a record with the fields of its Impl struct; a call
-- is a function from the state to its result and the new state (`Error.Action`). An exception is a
-- result (`err`), and what was written before it stays written. The functions have the names of the
-- methods, in snake case. A user, a room and a connection are their ids; a weak pointer to a user is
-- the user's id, since the server never drops a user. What a call sends is a list of receivers and
-- notices, one data constructor for each JSON text; a room reaches the server only through the
-- parameter `names`, which the server fills. The clock, the password hash and the salt are arguments.
--
-- Concurrency. A call runs without interference from other threads. The locks that the thread of a
-- group room's moderation call holds itself are modelled, since how the call ends depends on them. C++
-- leaves it undefined what comes of taking a `std::shared_mutex` that the own thread holds, so that is
-- the parameter `relock`: `deadlock_error` with libstdc++ on glibc, `blocked` where the call waits.
--
-- Parameters. The JSON library is the record `Json` of the calls that the program makes, with the
-- laws `Json.IsTyped` and, for values that are written and read again, `Client.Transport.IsFaithful`.
-- A command asks the world for the hash, a salt and the time (`Server.Commands.Users.World`).
-- Texts that the program looks into are lists of bytes (`Text`).
--
-- Bounds and fuel. Ids and counters are 64-bit patterns and wrap; the lengths of packages are 32-bit.
-- The search for a free time point (Messages.free_time) has the number of messages in the history as
-- its fuel, each of which can take one time point; the digits of a byte (Client.Network.hex) have two
-- steps, since a byte is below 256. The draw of a request id goes over the next numbers of the random
-- generator, which are given. All other loops are structural.
--
-- Not modelled: sockets, timers, threads, the logger, the database and the start-up, which are I/O; the
-- JSON and hash libraries; the rate limiter, which computes with floating-point numbers.
pub mod Base
pub mod Map
pub mod Error
pub mod Json
pub mod Wire
pub mod Messages
pub mod Group
pub mod Room
pub mod Private
pub mod User
pub mod Server
pub mod Network
pub mod Client
pub mod Text
pub mod Options
pub mod Pattern
pub mod Console
pub mod Tests
