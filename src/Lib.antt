-- ===== src/Lib.antt =====
-- Verification library of the game server under compiler/src (C++).
--
-- The server talks to its clients in encrypted packets and keeps the state of a game world. This
-- library models parts of it as functions on explicit states, and proves what makes them correct.
--
-- Network.antt and the modules below it: a packet from the bytes of a body to the parser.
--   Network/Buffer.antt: the byte array and memcpy.
--   Network/Message.antt: class NetworkMessage (compiler/src/networkmessage.h, networkmessage.cpp);
--     addString is add_string, get<T> is get at sizeof(T), and so on. Message/Fields and
--     Message/Reading are about what is laid out and read back, Message/Bounds and Message/Reads
--     about staying inside the array.
--   Network/Output.antt: class OutputMessage (compiler/src/outputmessage.h).
--   Network/Adler.antt: adlerChecksum (compiler/src/tools.cpp).
--   Network/Xtea.antt: the rounds of the cipher; Network/Protocol.antt: class Protocol
--     (compiler/src/protocol.cpp) and the checksum test of compiler/src/connection.cpp.
--
-- Login.antt and the modules below it: who may log in.
--   Login/Ban.antt: Ban::acceptConnection (compiler/src/ban.cpp), the limit on connections.
--   Login/WaitList.antt: class WaitingList (compiler/src/waitlist.cpp), the queue before a full
--     server; Login/WaitList/Slots, Distinct and Order are about its answers and its lists.
--
-- Position.antt and the modules below it: struct Position (compiler/src/position.h), and
--   getNextPosition and getDirectionTo (compiler/src/tools.cpp). Position/Laws is about order and
--   arithmetic, Position/Walking about the two functions used together.
--
-- Tasks.antt and the modules below it: class Scheduler (compiler/src/scheduler.cpp) and class
--   Dispatcher (compiler/src/tasks.cpp). A run is a list of actions, each under the class's lock, and
--   ends where the behaviour of the source is not defined. The tasks that a task's function adds to
--   the dispatcher are a parameter.
--   Tasks/Handed and Tasks/Pending are about the events of a run, Tasks/Queue about the dispatcher.
--
-- Party.antt and the modules below it: the rule for shared experience in class Party
--   (compiler/src/party.cpp), with the positions of Position.antt. Party/Sharing is about the rule,
--   Party/Flag about three operations that set its flag. Party/Members has the members, invitations
--   and leadership of parties, Party/Handlers the handlers of compiler/src/game.cpp for them.
--   Party/Rosters is about their lists; Party/Agreement says what it is that parties and players
--   agree, and Party/Joining, Leading, Disbanding,
--   Ending, Leaving and Keeping are about what keeps it.
--
-- Otb.antt and the modules below it: the loader of binary files (compiler/src/fileloader.cpp) and the
--   streams of properties (compiler/src/fileloader.h). Otb/Props is about escapes and streams,
--   Otb/RoundTrip about a whole file.
--
-- Item.antt and the modules below it: the attributes of items, class ItemAttributes and
--   Item::equals (compiler/src/item.cpp, item.h). Item/Laws is about the list of attributes,
--   Item/Reading about what is read, Item/Equality about equals.
--
-- Container.antt and the modules below it: class Container and class ContainerIterator
--   (compiler/src/container.cpp, container.h). Container/Weights, Changes and Operations are about
--   total weights, Container/Restores about taking an item out again, Container/Queries has queryAdd,
--   queryMaxCount and queryRemove, and Container/Queries/Counting is about what queryMaxCount counts;
--   Container/Destination is about queryDestination; Container/Iteration has the iterator and the
--   loops on it, which run on fuel, and Container/Visits is about these: as much fuel as there are
--   items, at any depth, is enough.
--
-- Area.antt and the modules below it: class MatrixArea and class AreaCombat
--   (compiler/src/combat.h, combat.cpp), the tiles that a spell reaches, with the positions and
--   directions of Position.antt. Area/Setup makes the areas, Area/Lookup has getArea and getList;
--   Area/Loops has rules for loops, Area/Turns is about copyArea,
--   Area/Reach about getList.
--
-- Pathing.antt and the modules below it: the search for a way, class AStarNodes and
--   Map::getPathMatching (compiler/src/map.cpp, map.h), and class FrozenPathingConditionCall
--   (compiler/src/creature.cpp). Pathing/Condition has the condition, Pathing/Search the search.
--   Pathing/Nodes says what holds of the nodes, Changes, Rounds and Offers are about what keeps it,
--   Potential about the number that makes the search end, Follows about the directions, Ends about
--   whole searches, and Best about getBestNode. The search is on fuel for its rounds and for the way
--   back: 123 million is more than the rounds that 512 nodes, each of a cost of at most 120085, allow.
--
-- Chat.antt and the modules below it: class ChatChannel, class PrivateChatChannel and class Chat
--   (compiler/src/chat.cpp, chat.h). Chat/Channels has the operations of Chat, Chat/Requests the list
--   of channels, what is said, and the handlers of compiler/src/game.cpp. Chat/Changes says what the
--   private channels keep to, Loops is about the loops over their keys, Sound, Keeping, Handled and
--   Created are about what keeps it, Runs about all requests, Gone about the end of a session. The
--   loops run over all 65536 keys, or over the 9900 slots for private channels.
--
-- Money.antt and the modules below it: Game::addMoney and Game::removeMoney (compiler/src/game.cpp)
--   on piles of coins; Money/Conserved is about what they are worth. The loop over crystal coins has
--   their number as fuel, of which each round takes at least one.
--
-- WildcardTree.antt and the modules below it: class WildcardTreeNode
--   (compiler/src/wildcardtree.cpp), the completion of players' names; WildcardTree/Words is about
--   the set of names that a tree holds, WildcardTree/FindOne about the query, WildcardTree/Live
--   about the branches that remove leaves.
--
-- Numbers are natural numbers, and a w-bit word wraps by `% 2 ^ w` where the code can wrap. A buffer
-- is a function of the index; that accesses stay inside the array is proved, not built in. Loops are
-- recursions on the rounds left; the checksum's outer loop has the number of bytes as fuel, of which
-- each round takes at least one.
--
-- Not modelled: sockets, timers, threads and locks, the database, the scripting interface, the XML
-- and map loaders, floating-point values, and the game world itself (creatures, tiles, the table of items). What the search for a way asks of
-- the world, and what a script answers in a channel, are records of functions.
pub mod Base
pub mod Chat
pub mod Container
pub mod Item
pub mod Money
pub mod Network
pub mod Position
pub mod Pathing
pub mod Tasks
pub mod Party
pub mod Otb
pub mod Area
pub mod Login
pub mod WildcardTree
