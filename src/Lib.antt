-- ===== src/Lib.antt =====
-- Verification of the CSC469 programs: the chat server and the chat client of A3, and the kernel-heap
-- allocator of A2.
--
-- The chat server keeps a list of members and a list of rooms, each room with a list of the members
-- in it. Clients send control messages over TCP, which A3/server_util.c answers
-- (`process_control_msg`), and chat messages over UDP, which it passes on to the sender's room
-- (`process_chat_msg`). When no message comes for a while, `main` of A3/server_main.c removes the
-- members that were silent and the rooms that stood empty: the sweep.
--
-- Files:
--   Base      shared names; Base/Tests the Boolean tests, Base/Lists lists over the native numbers,
--             Base/Bytes C strings and numbers in network byte order
--   Wire      Wire/Header the constants and the control header of A3/defs.h, Wire/Msg the message
--             types
--   Dll       the doubly linked lists of members: the unlinking in `remove_member` and the
--             appending in `process_register_request` and `process_switch_room_request`; Dll/Shape
--             says which addresses a list holds
--   Server/State      the structs and globals of A3/server.h; commands that may fault
--   Server/Reply      send_control_msg_reply
--   Server/Rooms      create_room, remove_room
--   Server/Members    find_member_with_id, remove_member, the moves between rooms
--   Server/Requests   process_create_room_request, process_room_list_request,
--                     process_switch_room_request, process_member_list_request,
--                     process_quit_request
--   Server/Register   process_register_request
--   Server/Dispatch   process_control_msg
--   Server/Chat       process_chat_msg
--   Server/Sweep      the sweep in `main`
--   Server/Loop       one round of the loop in `main`: the table of the connections and the calls
--                     that the reports of `select` lead to
--   Server/Start      init_server: the lists that it clears, and the rooms that it reads from a file
--   Server/Sound      when the memory is well formed, and the session (members, rooms, who is in
--                     which room) that it stands for
--   Server/Ready      the states from which every message is handled, and those that messages and
--                     timeouts reach from the start
--   Server/Chain, Walk, Find, Same, Occupants, Leave, Remove, Enter, Answer and the files below the
--   components hold lemmas. The theorems about whole operations stand in Server/Switch,
--   Server/Create and CreateRequest, Server/Listing and RoomListing, Server/Registration,
--   Server/Chat/Delivery, Server/Sweep/Whole, Server/Loop/Table, Server/Start/Names
--   and Format, and Server/Ready.
--   Client/State      the globals of A3/client_main.c, what the client sends, and how its
--                     connections go
--   Client/Requests   send_ctrl_msg, attempt_request, the handle_*_req functions
--   Client/Names      the names that init_client tries when a name is taken; Client/Names/Retry
--                     follows them from one to the next
--   Client/Connect    init_client, reconnect, heartbeat
--   Client/Commands   handle_command_input, handle_chatmsg_input, handle_input
--   Client/Receiver   init_receiver, handle_received_msg and receive_msgs of A3/client_recv.c; below it
--                     the port, and a message from the sender's keyboard to the others' screens
--   Client/Roundtrip, Client/Ends, Client/Parse and Wire/Roundtrip hold proofs.
--   Kheap/State       the data segment of A2/util/memlib.c (mem_init, mem_sbrk), and the data of
--                     A2/allocators/kheap/kheap.c
--   Kheap/Subpage     allocpageref, freepageref, remove_lists, blocktype, subpage_kmalloc,
--                     subpage_kfree
--   Kheap/Big         big_kmalloc, big_kfree
--   Kheap/Malloc      mm_init, mm_malloc, mm_free
--   Kheap/Sound       when the heap is well formed, with the blocks that are held
--   Kheap/Calls       calls as steps of the heap, and the heaps that they reach; the theorems about
--                     these stand in Kheap/Contract, Kheap/Sizes and Kheap/High, the other files
--                     below Kheap hold lemmas
--   Tests     a sample session, runs and examples
--
-- How the memory is modelled: an address is a number, `NULL` is 0. Each field of a struct is a map
-- from addresses, and `live_member` and `live_room` say which addresses hold an allocated struct.
-- A read or a write through any other address gives `fault`. The globals are fields of `Server`.
-- What is sent is appended to `sent`. The addresses that `malloc` returns, the peer's address, the
-- values of `rand` and the results of `sendto` are arguments.
--
-- In the allocator a list that is linked through its nodes is the list of the addresses of its nodes,
-- and what the blocks hold is not modelled. A failed assertion gives `aborts` (A2/allocators/Makefile
-- compiles with NDEBUG, which makes the assertions nothing; where none fails, that is the same), a
-- call of `exit` gives `exits`, and a request whose arithmetic leaves the range of `int` in
-- `big_kmalloc` gives `overflows`. The memory that `mem_init` gets from `malloc` is an argument.
--
-- Loops over a list have as many rounds as the list's counter says, and one more: enough for a
-- well-formed list, whose length is the counter. A loop that needs more gives `no_fuel`. The search
-- for a free id has one round for each value of `rand` that it is given.
--
-- The client gets how its next connections go as a list, `net`; what lies in its memory behind the
-- buffer of a message is an argument, since its `write` goes on there. `attempt_request` makes the
-- ten attempts of `TCP_RETRIES`, and 101 rounds are enough for the loop of `init_client`. The loop
-- of `reconnect` can start anew without a bound, so it runs on fuel. A name is a text; one of 24
-- characters, which the client does not terminate, is taken to end there.
--
-- A room's name of 24 bytes runs on into the bytes of the pointer that follows it in the struct;
-- the order of those bytes is that of x86-64.
--
-- `init_server` reads the room file with one round for each byte and one more, since each line has a
-- byte. `fgets` and `strtok` are written out as the C library documents them.
--
-- Not modelled: the log file, the server's sockets, host name and arguments, which are system calls;
-- the client's sockets, the queue between its two processes, its input thread, what it prints but for
-- the receiver's messages, and the location server (A3/client_util.c); of A2 the superblock allocator (allocators/a2alloc), the threads'
-- helpers, the wrapper of the C library's malloc and the benchmarks; and the measurements of A1.
pub mod Base
pub mod Wire
pub mod Dll
pub mod Kheap
pub mod Server
pub mod Client
pub mod Tests
