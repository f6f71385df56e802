-- ===== src/Lib.antt =====
-- OTXLinux is a game server. The program reads packets from its connections, lets a dispatcher run
-- what they ask for on one thread, and keeps players, items and the map in memory. This library models
-- the parts below; paths are those of the repository.
--
-- Network (src/networkmessage.h, src/networkmessage.cpp, src/outputmessage.h, src/protocol.cpp,
-- src/connection.cpp). A `Message` is the buffer of NetworkMessage with its cursor, its length and its
-- overrun flag; the `add` and `get` functions have the source's names in snake_case and its guards. The
-- buffer is a list of bytes, so a `memcpy` is `slice` or `splice`. `Network.Xtea` is the cipher of
-- Protocol::XTEA_encrypt and XTEA_decrypt on words and blocks, and `Network.Protocol` is the way of a
-- packet: write_message_length, xtea_encrypt, add_crypto_header, wire, read_packet, xtea_decrypt. The
-- code is that of the build with _MULTIPLATFORM77. Integers are stored in little-endian order.
--
-- Access (src/ban.cpp, src/waitlist.cpp). `accept_connection` is Ban::acceptConnection over an
-- association list for the map of addresses; `client_login` is WaitingList::clientLogin, with the
-- clock, the number of players and the limit as arguments. A call of erase on the
-- list that does not have the entry, which C++ leaves undefined, is taken to unlink the entry.
--
-- Tasks (src/scheduler.cpp, src/tasks.cpp). `Tasks.Scheduler` is the queue of timed events with the set
-- of the active ids; every function of Scheduler and the time out of its thread is a step on the state,
-- which each changes while it holds the mutex. The thread hands a task over to the dispatcher after it
-- has released the mutex, so a step is about the taking of the task, and not about when the dispatcher
-- has it. `Tasks.Dispatcher` is the list of tasks and the thread that runs it. The
-- scheduler gives its tasks to the front of the dispatcher's list.
--
-- Player (src/player.h, src/player.cpp). `Player.Levels` is getExpForLevel, addExperience and
-- removeExperience, `Player.Skills` is addSkillAdvance and addManaSpent. What a script makes of an
-- amount is an argument, and so is the table of a vocation, which the source computes in floating
-- point.
--
-- WildcardTree (src/wildcardtree.cpp). A `Node` has its breakpoint and its children by character. The
-- game inserts the name of a player who logs in, removes it at the logout, and finds a player by the
-- beginning of the name with `find_one`.
--
-- FileLoader (src/fileloader.cpp, src/fileloader.h). `load` and `parse_tree` are OTB::Loader on the bytes
-- of a file, with the stack of open nodes as in the source; a range of the file is the list of its bytes.
-- `PropStream` has the streams of the properties.
--
-- Position (src/position.h, src/tools.cpp). The order and the arithmetic of positions, getNextPosition
-- and getDirectionTo.
--
-- Parties (src/party.cpp, src/game.cpp, src/player.cpp). The store has the objects of the parties by
-- number and the pointers of the players to them; the functions of Party write to both, and
-- `Parties.Commands` has the commands of the game. The scripts' answers are arguments: `allowed` commands
-- are those whose scripts do not forbid that a party is disbanded.
--
-- Items (src/item.cpp, src/item.h). The attributes of an item, a list with a word of bits that tells
-- which types are in it, and what an item does with them: Item::equals, the sub type, the weight and the
-- change of the id. The item database is the argument `items`.
--
-- Containers (src/container.cpp, src/container.h). An item is a value that holds its items; the containers
-- around a container are the way to it, and `perform_at` does a call at the end of a way and passes the
-- difference of the weight to each container on it, as updateItemWeight does through the parent pointers.
-- `Containers.Queries` has the queries, with the query of the top parent as an argument, and
-- `Containers.Iterator` the iterator with its loops. `Containers.Depot` (src/depotchest.cpp,
-- src/inbox.cpp) has the rules of the depot and the inbox, with the limit that the owner of a depot sets
-- as an argument. A container asks its items for their weight, and an
-- item asks its attributes and the item database.
--
-- Trades (src/game.cpp, src/player.cpp). The store has what each player trades, with whom and in which
-- state, and Game's map of the items that are offered; there is a function for each command, for
-- checkTradeState, which the containers and tiles call when an item goes away, and for the logout. What
-- the moves of the items return is an argument, since it is the containers and players that answer; an
-- item that a failed second move leaves behind counts as not received.
--
-- Chat (src/chat.cpp, src/game.cpp). The private channels with their owners, invitations and users, and
-- the commands by which players open them, invite and exclude others, join, leave and log out. The ids
-- from 100 to 9999 are tried in order, by a recursion on their number.
--
-- Numbers are natural numbers; a word of w bits keeps its wrap-around by `% 2 ^ w` where the source can
-- wrap. Loops are structural recursions on lists or on the number of rounds, where the
-- 32 rounds of the cipher and the number of blocks of a message are those of the source. Five loops run
-- on fuel: the two over the iterator of a container, which the depot uses too, on the number of items in
-- it at every depth, addExperience on a hundredth of the experience and two more, since a level costs at
-- least a hundred points, addSkillAdvance and addManaSpent on the amount and one more, since each round
-- uses up at least one. The fuel is enough for every level whose threshold fits 64 bits.
--
-- Not modelled: the sockets, timers and locks of the connections, RSA, the database, Lua scripts and
-- events, XML configuration, the map and its creatures. What goes to the client as text is left out.
pub mod Prelude
pub mod Position
pub mod Network
pub mod Access
pub mod Tasks
pub mod Player
pub mod WildcardTree
pub mod FileLoader
pub mod Parties
pub mod Items
pub mod Containers
pub mod Trades
pub mod Chat
