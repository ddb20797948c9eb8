-- ===== src/Lib.antt =====
-- A model of the mbed OS driver for the ST87M01 NB-IoT modem: sockets and their receive buffers, DNS
-- and IP set-up, the modem's HTTP client, PDP contexts, the provisioning of TLS keys and
-- certificates, the start of the device, and the network's registration.
--
-- The parts, and how they meet
--
-- Every class of the driver talks to the modem through mbed's ATHandler, which is not part of this
-- repository. At.antt takes it as a parameter: a `Modem` is a record of answer functions, and each
-- answer may depend on the whole history of calls, a `Trace`. A method is an `Action`, a function of
-- the object's fields and of the trace; the call that it makes is put on the trace, so the order of
-- the AT commands is part of a method's meaning. The theorems hold for every modem, or say what they
-- ask of it.
-- At/Keeps.antt has the rules by which an action keeps an invariant, At/Gives.antt those for what it
-- gives back, At/Later.antt those of the clock, At/Leads.antt those of both with the point of the trace
-- at which it runs, At/Locks.antt those by which it gives back the handler's lock. At/Talk.antt has the grammar of the calls (a command is begun with
-- the lock held and written to its end, then its answer is read to its end; bytes may follow a
-- command that the modem has accepted) as a state that a trace leads to, and one rule for each way
-- to put actions together; the files named Talk, and those below them, use them for each part.
--
-- * Stack.antt and the files under Stack/ are src/ST87M01_CellularStack.cpp and its header:
--   Types the fields and the socket, Slots the receive buffers (SocketRxBuffer,
--   allocate_rx_buffer, free_rx_buffer), Ip ensure_ip_configured, get_ip_address and gethostbyname,
--   Lifecycle create_socket_impl, socket_close_impl, close_all_sockets, reap_orphan_sockets,
--   set_sslctxid and create_tls_socket, Connect query_tcp_status and socket_connect, Send
--   socket_sendto_impl, Receive socket_recvfrom_impl, Events urc_iprecv, urc_socketclosed and
--   txfull_event_timeout, Session open_tcp_session and close_tcp_session, Options setsockopt.
--   Entry lists every way into the stack. Locking is about the handler's lock, Stream the queue of bytes that a TCP socket's buffer
--   implements, Wakeup the timer, Wakeup/Blocked a send that waits for it, Talk the conversations of
--   every entry, Isolation what the operations of one socket leave alone, Lifetime the constructor and
--   the destructor, Lifetime/Returned what the destructor gives back. Slots/Pool counts the
--   blocks of the pool, Valid and its children keep the invariant of the buffers under every
--   operation and under sequences of them, and Guarantees, Polling and Sent have what single
--   operations promise.
-- * Http.antt and Http/ are src/ST87M01_HTTP.cpp: Reply is ST87M01_HTTP::Response and how it is
--   parsed, Session the client's invariant, Outcome what a request reports, Bounds its array,
--   Requests what a request keeps of the client.
-- * Context.antt and Context/ are src/ST87M01_CellularContext.cpp: HTTP sessions over a stack and a
--   client, Choice the ranking of contexts, Select get_context, select_existing_cid and
--   deactivate_context, Calls the context's interface, Rank, Sessions, Consistent and Valid
--   their properties.
-- * Tls.antt and Tls/ are src/ST87M01_TlsProvisioning.cpp: Der and its children read_der_len and
--   parse_rsa_modulus_bits, with encoders that the standards ask for; Input looks_like_pem and the
--   conversion of text and PEM, Keys generate_key, add_key, delete_key and list_keys, Certificates
--   add_certificate_impl with its callers and the deletions, Profiles check_profile and
--   save_to_nvm. Pem, Refusals, HexKeys, Locking and Stateless have their properties. The
--   provisioning has no fields, so its methods are actions on any state.
-- * Device.antt and Device/ are src/ST87M01.cpp: Scan the sscanf of configure, Ready
--   wait_for_app_ready, soft_reset and set_baud_rate, Configure configure, Init init and init_tls,
--   Calls the public operations. Radio, Waits and Talk have their properties. hex_decode is in Codec/Decode.antt.
-- * Network.antt and Network/ are src/ST87M01_CellularNetwork.cpp, Information.antt is
--   src/ST87M01_CellularInformation.cpp.
-- * Codec/Hex.antt is the codec of src/ST87M01_TlsProvisioning.cpp (convert_hex_to_bin,
--   is_hex_string) and of the sender, Hex/Digits and Hex/RoundTrip its properties.
-- * Common.antt and Common/ have what all share; Examples.antt, Conversations.antt, Stack/Trials.antt
--   and the files named Tests run the model.
--
-- How the code is rendered
--
-- A C++ int is an integer without wrap-around, since no value comes near its limits; pending_bytes
-- is the unsigned 32-bit count that it is. A pointer that may be null is an Option. A socket is an
-- object in a store, named by a handle, as the driver and mbed's base class share it. What lies
-- beside an array that the code may read out of range is a parameter.
--
-- Bounds and fuel
--
-- The loops over information lines run on `line_limit`, which stands for more lines than any
-- response has. The polling loop of socket_connect has the polls of 500 ms that fit before its
-- deadline. All other loops recurse on what they run over: 7 ids, 2 attempts, 3 retries, the 30 or
-- 10 probes of the device's waits, a list.
--
-- Parameters
--
-- mbed's base classes (find_socket, socket_open, socket_close, the base class's get_context and
-- constructor, the network's is_active_context), rtos::MemoryPool with the laws of Slots/Pool,
-- read_bytes with the law that it reads at most what was asked for, SocketAddress's parsing, the
-- clock, the event queue's ids, and the build's configuration; malloc and
-- mbedtls_pem_read_buffer, the bytes of a size_t and the byte behind a certificate in memory; of the
-- device's and the network's base classes setup_at_handler, get_network_registering_mode, clear,
-- set_attach and setsockopt.
--
-- Not modelled
--
-- The constructor and the destructor of the device, which only hand on objects, the
-- default instance of the device, and trace output. A handler of an unsolicited result code runs as
-- a step of its own, never inside another operation. MBED_ASSERT is taken to hold, MBED_ERROR to
-- return, and what a failed call leaves in the caller's memory is not kept.
pub mod Common
pub mod At
pub mod Codec
pub mod Stack
pub mod Http
pub mod Context
pub mod Tls
pub mod Device
pub mod Network
pub mod Information
pub mod Examples
pub mod Conversations
