-- ===== src/Lib.antt =====
-- skynetCpp is a service framework: services with handles and names that send each other messages
-- within a node and between the nodes of a cluster. This library models parts of its C++ sources and
-- proves what makes them correct.
--
-- The parts and where they are:
--   * skynet-src/handle.cpp, skynet-src/include/handle.h: the table of services (Handle). `init`,
--     `register`, `grab`, `retire`, `retire_all`, `find_name`, `name_handle` are HandleInit,
--     HandleRegister, HandleGrab, HandleRetire, HandleRetireall, HandleFindname and HandleNamehandle;
--     `Storage` is HandleStorage. `attach` and `release` are the parts of Context::Context and
--     Context::Release (skynet-src/service.cpp) that meet the table. Handle/Text has the comparison of
--     strings, Handle/Slots the slots, Handle/Names the names, Handle/Retire the removal.
--   * service-src/service_gate.cpp, with service-src/databuffer.h and service-src/hashid.h: the gate service
--     (Gate), which cuts the byte streams of its connections into messages. Gate/Databuffer and Gate/Hashid
--     have the functions of the two headers under their names, Gate/Dispatch `forward` (_forward) and
--     `dispatch_message`, and Gate/Sockets the messages of sockets, the commands (`ctrl` for _ctrl) and the
--     start. Calls of other components are a list of effects, in order.
--   * service-src/service_harbor.cpp: the service that carries messages between the nodes (Harbor): the
--     queue of waiting messages (Harbor/Queue, with `push` and `pop` for push_queue_msg and pop_queue), the
--     header of a message to another node (Harbor/Wire), what happens to a message for another node
--     (Harbor/Slave), the states of a connection (Harbor/Receive), the map of global names (Harbor/Names),
--     and the commands, the main loop and the start (Harbor/Service), each function under its name.
--   * skynet-src/service.cpp, with skynet-src/harbor.cpp and skynet-src/error.cpp: contexts, which bring
--     together the table of handles and the queues (Service). Service/Contexts has the state and the life
--     of a context, Service/Send ServiceSend, ServiceSendname and HandleExit, Service/Dispatch
--     MessageDispatch, and Service/Launch NewContext.
--   * skynet-src/mq.cpp, skynet-src/include/mq.h: the queue of a service and the global queue (Mq), with
--     the methods of GlobalQueue and MessageQueue under their names; `pop_queue` is
--     MessageQueue::Pop on one queue.
--   * skynet-src/timer.cpp, skynet-src/include/timer.h: the timer wheel (Timer), with AddNode, MoveList,
--     TimerShift, Execute and Update in snake case. A linked list is the list of its nodes.
--     Timer/Clock has `update_time` for Updatetime.
--   * skynet-src/monitor.cpp, skynet-src/include/monitor.h: the watch over endless loops (Monitor), with
--     `trigger` and `check` for CMonitor::Trigger and CMonitor::Check.
--   * skynet-src/command.cpp: the text commands on names, handles and contexts (Commands), `cmd_register` for
--     CmdRegister and so on, and `to_handle` for ToHandle.
--   * skynet-src/socket_server.cpp, skynet-src/include/socket_server.h and skynet-src/include/socket_protocol.h:
--     the sockets (SocketServer), which has the data. SocketServer/Ids has `reserve_id` for ReserveId,
--     SocketServer/Closing NewFd, ForceClose and the ways to close a socket, SocketServer/Sending SendBuffer
--     and the lists it sends, SocketServer/Control and SocketServer/Ctrl the handlers of the commands of other
--     threads with `ctrl_cmd` for CtrlCmd, SocketServer/Events the reading of a socket and the default case of
--     Poll, and SocketServer/Api what other threads call, each in snake case. SocketServer/Once follows the
--     type of a socket through all of them.
--   * Prelude: names of the libraries, lists over the native numbers, bit operations, and `Run`, the
--     outcome of code that may stop at an assertion, a bad access, a signed overflow or a lock that is never
--     released.
--
-- How the parts interact: a context registers itself in the handle table and is found there by those
-- who send to it; the gate sends the messages of a connection to the handle of an agent or a broker;
-- the harbor holds messages for a node in a queue until the connection to it stands, and messages for a
-- name until its handle is known; a thread that sends to a socket writes itself where nothing waits on it,
-- and else keeps the data
-- in the slot and writes a request to the pipe; a push finds the context of a handle; a worker takes
-- the queue of a context from the global queue, and releases it, with DropMessage for its messages, if the
-- context is gone; and the nodes of the timer that expire are pushed to their handles.
--
-- Numbers are natural numbers. A handle is a 32-bit word with the harbor in its high 8 bits. An `int`
-- that may be negative is its pattern below 2 ^ 32, and the sizes of buffers are exact below 2 ^ 31. A
-- pointer is a number or an option, a linked list a list, and a block of memory a list of bytes. Fuel:
-- `register` has 26 rounds, one more than the doublings up to 2 ^ 24 slots; `place_of` has one round
-- more than there are names, which is enough for every sorted table; `dispatch_message` has one round
-- more than the bytes that the buffer holds, since on an open connection each round but the last
-- consumes a byte; `push_socket_data` has two rounds more than there are bytes; the loop over the
-- messages in MessageDispatch has two rounds, since it goes on from an empty queue only, and its bound
-- is then at most one. The loop of TimerShift has four rounds, one for each level: a time that is not
-- 0 has a digit that is not 0 in one of them. ReserveId has its own bound of 2 ^ 16 rounds, with the number
-- of exchanges that fail given beforehand. The loops over `write` and `sendto` use up one answer of the kernel
-- in each round, and an answer for every buffer is enough.
--
-- A pointer without a value is a fault when it is followed; where the code only compares it with null,
-- a parameter says how that comes out. What a std::string does when it is assigned a null pointer, and what a
-- read into a pointer without a value does, is a parameter of the socket server, so that its theorems hold
-- whatever comes of it; and so are the bytes that SendRequest reads behind its package, a field of its state. An address in memory is a number there, and the bytes that are sent are their addresses.
-- The code of the services, of the modules and of the C library
-- (sscanf, strtoul, std::to_string) are parameters too.
--
-- Not modelled: the commands of skynet-src/command.cpp on the clock, the Lua state and files, threads
-- (each function runs to its end under its lock), of the socket server the accepting of connections, the loop
-- of Poll over its slots and the list of its sockets, the Lua binding, module loading,
-- log files, profiles, the reading of the configuration, and the system calls.
pub mod Prelude
pub mod Harbor
pub mod Commands
pub mod Gate
pub mod Handle
pub mod Mq
pub mod Service
pub mod Timer
pub mod Monitor
pub mod SocketServer
