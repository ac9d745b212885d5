-- ===== src/Lib.antt =====
-- as3chat: a model of the chat servers of 1.0/server and 3.0/server and of what their clients can
-- bring about.
--
-- The server of 1.0 keeps clients in chat rooms. One thread waits for the events of its sockets, takes
-- new clients, reads their requests and puts them in a queue; threads take the tasks from the queue
-- and carry them out; another thread throws out clients that have been silent for a minute. Rooms are
-- linked lists through the clients' own structs, and a hash table holds the names of those who have
-- logged in. Scripts give the settings, the rooms and the ranks, and MySQL the passwords.
--
-- The state is one record, `State` of Server.antt: the heap of `clients` structs by address, the
-- arrays `fd_clients` and `rooms`, the chains of the hash table, the queue of tasks, and what has been
-- written to the sockets and which of them were closed. A function of the program is a command, a
-- function from a state to a `Run`: a result with the next state, `fault` where the program would use
-- a null or freed pointer or an index outside an array, or end with an error of Lua, or `out_of_fuel`.
-- A theorem that names the result of a run so excludes both.
--
-- The server of 3.0 is a rewrite in C++ that has come as far as its framing, its tasks and its first
-- replies. Its main thread waits for events and hands clients to a pool of threads, which read
-- packets, parse them as XML and queue replies; the main thread writes those when a socket has room. A
-- list keeps the clients by name and by descriptor, a task is to throw out silent ones, and another
-- answers the policy requests of Flash. Its state is `Process` of Server3/Process.antt, the heap of
-- clients, their list with its mutex, the queue of the pool and what the system was asked, and its
-- functions give an `Outcome`: a result with the next state, an exception, a crash or a deadlock.
--
-- Which file models what:
--   Server.antt, Server/Commands.antt    the globals and structs of 1.0/server/MyleftServer.h, and reads
--                                        and writes of them with their bounds
--   Messages.antt                        the texts that 1.0/server/function.c and message.c print
--   Rooms.antt                           1.0/server/function.c: join_room, leave_room, send_message_all,
--                                        send_userlist, send_roomlist, other_same_username
--   HashTable.antt                       1.0/server/hash.c: BKDRHash, hash_create, hash_search, hash_add,
--                                        hash_del
--   Nodes.antt                           1.0/server/function.c: node_add, node_del, get_fdnode_byname,
--                                        heartbeat
--   External.antt                        what the server takes from Lua, ezxml, MySQL, MD5 and crypt(3),
--                                        as parameters
--   LuaFunctions.antt                    1.0/server/luafunction.c: lua_load_config, lua_load_key,
--                                        lua_load_room, lua_get_type
--   Database.antt                        1.0/server/db_mysql.c: get_user_tuple, get_password
--   Message.antt, Message/Login.antt     1.0/server/message.c: parse_message
--   Tags.antt                            1.0/server/function.c: get_attribute, get_tag
--   Events.antt                          1.0/server/MyleftServer.c: the start and the events of main;
--                                        1.0/server/message.c: readtask
--   Server3/Groups.antt                  3.0/server/BuddyList.cpp, RoomUserList.cpp
--   Server3/FifoList.antt                3.0/server/FifoList.h, PacketBuffer.h
--   Server3/Client.antt                  3.0/server/Client.cpp: send, recv and the queues
--   Server3/Process.antt                 the state of the process, and deletion of a client
--   Server3/ClientList.antt              3.0/server/ClientList.cpp
--   Server3/System.antt                  what the server takes from the system and TinyXML, as parameters
--   Server3/Jobs.antt                    3.0/server/RecvMessage.cpp, ParseMessage.cpp: run
--   Server3/Loop.antt                    3.0/server/main.cpp: the events of main
--   Server3/ThreadPool.antt              3.0/server/ThreadPool.h: the threads and their waits
--   Server3/CrossDomain.antt             3.0/server/CrossDomain.cpp: the events of run
--   Server3/Socket.antt                  3.0/server/Socket.cpp, and the start of main and CrossDomain::run
--   Server3/Log.antt                     3.0/server/Log.cpp: which messages are printed
--   Server3/Dict.antt                    std::map and std::multimap
-- Proofs stand below the file of the code: Rooms/Chain says when the heap holds a list of members, and
-- Rooms/Leave, Rooms/Enter and Rooms/Join what leaving, entering and moving do to it; HashTable/Chains
-- relates the chains to their keys; Message/Gate, Message/Chat, Message/Moves, Message/Commands,
-- Message/Silence, Message/Expulsion and Message/Login/Sound take the branches of a request;
-- Message/Login/Welcome and Message/Admission put logins together; LuaFunctions/RoomNames and
-- Events/Start are about the start, Events/Logout about the tasks; Nodes/Heartbeat is about the
-- heartbeat, and Database/Columns about the columns of a result, Tags/Extraction about the older
-- reading of requests. For the newer server, Client/Framing and Client/Heads are about packets on a
-- stream, ClientList/Adding, ClientList/Removing and ClientList/Expiry about the list and its
-- invariant `Valid`, Jobs/Receiving and Jobs/Replies about the tasks and, in Replies/Refusals, those
-- that throw, and in Receiving/Negative those that read a negative length, Loop/Answers and
-- Loop/Hangup are about the events, and Loop/RoundTrip and Loop/Turns put events and tasks together,
-- ClientList/Keeping, Jobs/Keeping and Loop/Keeping carry `Valid` through all of them, Client/Names
-- says what of a client never changes, Socket/Opening is about the flags of a socket,
-- ThreadPool/Wakeups is about the sleep of the threads, CrossDomain/Policy about the policy file, and
-- FifoList/Order, Groups/Adding, Groups/Removing and Dict/Laws about the containers. `Roster` of
-- Rooms/Leave is the invariant of a room: its list is the list of its members, each once, each live,
-- logged in and with that room in its `roomid`. Tests holds runs at small states.
--
-- Bounds and fuel. Arrays have the sizes of the header: 50 rooms, 20480 descriptors, names of 64 bytes
-- and texts of 512; an index outside faults. Walks along `next` take fuel, since a list in the heap
-- may be a ring; each theorem on them asks for more fuel than the list has members, which is enough.
-- Numbers that are `int` in C stand as integers, the counters of members and the clock among them, and
-- are not cut to 32 bits; the hash is `unsigned int` and is, and so is the length before a packet of
-- 3.0. A read of 3.0 ends with the reads that the system is said to give, and the pieces of the policy
-- file are bounded by its length.
--
-- What is not modelled: the set-up of sockets, epoll, threads and locks in 1.0/server/MyleftServer.c
-- and the connection of 1.0/server/db_mysql.c, which are I/O; hash_destroy of 1.0/server/hash.c, which
-- stands behind the endless loop of main; the log of 1.0; what the script of the requests does itself,
-- of which the model has only whether it can be read and whether the call of its function returns; of
-- 3.0/server utility.h, which nothing there uses, and Exception.cpp; the vendored Lua, ezxml, MD5,
-- Squirrel, TinyXML and zlib, and the clients. Handlers run one after another here, but for the
-- threads of Server3/ThreadPool.antt; that a lock keeps two of them apart is taken for granted, and
-- races on a client of 3.0 that two threads hold are not modelled.
pub mod Common
pub mod Server
pub mod Messages
pub mod Rooms
pub mod Tests
pub mod HashTable
pub mod Nodes
pub mod External
pub mod LuaFunctions
pub mod Database
pub mod Message
pub mod Events
pub mod Tags
pub mod Server3
