-- ===== src/Lib.antt =====
-- A verification library for ecServer, the server of an electronic classroom, in which teachers,
-- whiteboards and students exchange messages and students build houses together in groups.
--
-- A message comes in through the event loop, is put into a buffer of the buffer pool and is handed
-- over a blocking queue to a handler. The handler looks up the sender's room, its students and their
-- groups, changes them, and hands buffers over another queue to the thread that sends them.
--
-- The files and what they model:
--   Base: names of the libraries, tests on numbers, lists, and std::map as a sorted list.
--   Sync/Pool: PoolT.h. PoolT is the record of the fields; pool is the constructor; malloc, free and
--     used are the member functions. A call is one step, since it runs under the pool's lock.
--     Sync/Pool/Ownership follows the calls of a program's threads.
--   Sync/Queue: QueueT.h. An event is a section that the mutex makes indivisible, or the signal
--     that enqueue sends after it; enqueue_locked and send_signal are enqueue, test_queue is the
--     loop of dequeue, and recheck, spurious and timeout are the ways out of the wait.
--     Sync/Queue/Wakeups is about signals and order, Sync/Queue/Fifo about the abstract queue.
--   Content/Picture: content/DataTool.cpp. set_data is setData, get_picture is getPicture, and the
--     other names are those of the getters. Floats is the arithmetic that the code does on floats.
--     Decimal and Text are about decimal digits, RoundTrip about what is read back.
--   Content/House: CNode and CMakeHouse of content/makehouse.cpp, a function for each operation.
--     Layers is about layer_up and layer_down, Nodes, Operations and Lookup about the map of nodes,
--     Dangling about deleted nodes in the list of layers.
--   Content/Group: CGroup of content/makehouse.cpp, its members and its counters.
--   Content/Grouping: the groups of a CRoom, content/room.cpp. Loop is about the loop of
--     init_buildhouse_group, Outcomes about the groups that it leaves.
--   Content/Room: the clients of a CRoom and the lookups of CRoomManager, content/room.cpp and
--     content/roommanager.cpp; has_client is CRoom::get_room_by_fd. Lookup is about what they find,
--     Courses has the courses of a room and their items, content/course.cpp.
--   Content/Puzzle: CPuzzle of content/puzzle.cpp, with the time as an argument.
--   Server: Single.h and Buf.h, the state that the handlers share: the buffers, their pool, the send
--     queue, the students and the rooms.
--   Messages: handler/HandleMessage.cpp; post_message, post_teacher_to_white and so on are
--     postMessage, postTeacherToWhite and so on. Relay is about messages to one client, Copies and
--     Broadcast about messages to all students.
--   Departure: what content/room.cpp does and sends when a client leaves: update_all_student_status,
--     del_student, teacher_disconnect, reset (reset_room), del_client, and CRoomManager's del_client
--     (del_client_of_rooms). The room that a member function runs on is named by its id. Letters says
--     what messages in buffers of the pool hold for whom, Sending which are made, Reports and Students
--     are about a student who leaves, Teacher about a teacher, Strangers about a client of another room.
--   ClassRoom: the handlers of handler/HandleClassRoom.cpp that change a room or answer from it:
--     handle_login_class_room is handleLoginClassRoom, and so on. Leaving is about a student who leaves
--     early, Joining has handleSelectedClassRoom, Scenes handleControlChangeScene.
--   Login: content/LoginCheck.cpp, the checks of a login. Login/Passwords is about the passwords accepted.
--   PuzzleGame: the puzzles of a CRoom, content/room.cpp, and the handlers of handler/HandlePuzzle.cpp that
--     start and end a game and show a part. Games is about what they leave.
--   BuildHouse: set_buf of CGroup, content/makehouse.cpp, and the handlers of
--     handler/HandleBuildHouse.cpp for scale, angle and layer, whose compiled branch works on the one
--     group that the class CHandleMessage keeps. Publishing is about changes of a layer, Scaling about
--     a scale. Saved has handleBuildHouse_Update, which keeps a student's message in longlong_data, and
--     handleRainbowValley_HouseInfo of handler/HandleRainbowValley.cpp, which sends what is kept, and
--     handleRainbowValley_HouseNum.
--     Pictures has the handlers that move, add and delete a picture, Pictures/Adding is about adding one.
--   Records: postDBRecord and postDBRecordCount of handler/HandleMessage.cpp, Records/Questions the handlers
--     of handler/HandleClassRoom.cpp that ask the database. A database is a function from a statement of
--     SQL.h and its parameters to rows. Records/Answers is about what is sent,
--     Records/Courses and Records/Setting about the courses that a teacher sets and asks for.
--   Handlers: the handlers that pass a message of the teacher on to the whiteboard, in
--     handler/HandleCartoon.cpp and the other files of handler, and their part of the table
--     handler/MSGHANDLE. Handlers/Types has the numbers of protocol.h, Handlers/Relays the handlers,
--     Handlers/Table the table and dispatch, a round of RecvTask.cpp; Handlers/Dispatch is about what
--     becomes of a message.
--   GroupMessages: broadcast, sendToWhite and sendToOtherStudent of CGroup, content/makehouse.cpp.
--     GroupMessages/Copies is about the copies.
--   Socket: Sock.c (recv_v, send_v), Evloop.cpp (recv_cb) and SendTask.cpp (send_loop), with the calls of
--     recv and send as a list of what they return. Receiving and Sending are about the bytes. Timed has
--     send_n and recv_n, whose waits are limited.
--   Autoproto: the generator of protocol.h, autoproto/autoprotocol.cc. Streams is what it uses of the C++
--     streams, Lines a file as lines, Types its classes, Load LoadXml, Replace checkcontent and replace,
--     Build autoBuildProtocol and autoBuildHandler, Build/Structures the text of a structure, Main autoBuild,
--     autoBuildMakefile and main. Replace/Runs, Pieces, Outcomes and Twice are about what replace leaves,
--     Replace/Endless about files that it does not come to the end of, Build/Protocols and Build/Rebuilt
--     about a second run, Load/RoundTrip about what is read. The shell is a parameter that is given command
--     lines; the law IsShell is about names of letters, digits, dots and underscores.
--   Tests: runs on concrete inputs.
--
-- What a state is: an object is a record, a pointer is a number, and an object that code can reach
-- in two ways lies on a heap, a function from addresses. A result none stands for what C++ leaves
-- undefined (a pointer to nothing, an overflow of a signed number) and for an exception. A message that
-- does not fit its buffer is a result of its own of recv_cb, overran, with the bytes past the end. An int is
-- its pattern of 32 bits. The order in which the arguments of std::swap are evaluated is a parameter
-- of layer_up and layer_down.
--
-- Bounds and fuel: the digits of a number are taken with fuel 20, and a long long has at most 19
-- digits. The loops of the generator that read a file take fuel, a round for each line; more fuel than
-- the file has lines is enough if no line is longer than the buffer. All other recursion is on lists and
-- on the counts of the source's loops.
--
-- Not modelled: output to the console, the names of groups, save_data, which nothing that is compiled
-- calls, the rest of the event loop, the database and the caches, the configuration, the processes, and
-- the programs under auth and test.
pub mod Base
pub mod Sync
pub mod Socket
pub mod Content
pub mod Server
pub mod Messages
pub mod Departure
pub mod Handlers
pub mod GroupMessages
pub mod BuildHouse
pub mod ClassRoom
pub mod PuzzleGame
pub mod Autoproto
pub mod Records
pub mod Login
pub mod Tests
