-- ===== src/Lib.antt =====
-- An MQTT client for the ESP8266 (mqtt/, with mqtt/include/ for its types): the ring buffer, the
-- framing and the message queue, the messages of the protocol and the client's state machine.
--
-- The parts, from the bottom up:
-- * RingBuf is mqtt/ringbuf.c: `init`, `put` and `get` are RINGBUF_Init, RINGBUF_Put and
--   RINGBUF_Get. A pointer into the block is its offset. RingBuf/Inv has the invariant,
--   RingBuf/Fifo the contract (a bounded first-in first-out queue of bytes), RingBuf/Contents the
--   refinement.
-- * Proto is mqtt/proto.c: PROTO_Init, PROTO_ParseByte, PROTO_Parse, PROTO_ParseRb, PROTO_AddRb
--   and PROTO_Add. Proto/Frame describes a frame; Proto/Write is about writing one into a ring,
--   Proto/Read and Proto/Stream about parsing bytes, Proto/Ring about parsing out of a ring. The
--   loop of PROTO_ParseRb takes a byte out of the ring in each round, so its fuel is what the ring
--   holds.
-- * Queue is mqtt/queue.c, on both of them: QUEUE_Init, QUEUE_Puts, QUEUE_Gets and QUEUE_IsEmpty.
--   Queue/Spec is the contract (a list of messages whose frames fit in the ring), Queue/Refine and
--   Queue/Run the refinement, call by call and for sequences of calls.
-- * Msg is mqtt/mqtt_msg.c with mqtt/include/mqtt_msg.h: the connection's buffer and what the
--   builders are made of. Msg/Build has mqtt_msg_publish to mqtt_msg_disconnect, Msg/Connect has
--   mqtt_msg_connect, Msg/Read the readers of received bytes. Msg/Packet describes a control
--   packet as the protocol does, with no buffer, and Msg/Connect/Body the body of a CONNECT
--   packet. A builder is a chain of parts that go on or end in fail_message; Msg/Stage says what
--   each part adds to the body, Msg/Finish what a whole builder leaves, Msg/Kept that it leaves a
--   connection fit for the next one, Msg/RoundTrip and Msg/Ids what the readers find in such
--   packets. `assign_id` has two rounds for the loop of append_message_id: after 0xFFFF and 0
--   comes 1. Both protocol names are modelled; which one the program is built with is a parameter.
-- * Utils is mqtt/utils.c: UTILS_IsIPV4, UTILS_StrToIP and UTILS_Atoh. Utils/Addresses describes
--   what UTILS_IsIPV4 accepts, Utils/Dotted is about the addresses that UTILS_StrToIP reads,
--   Utils/Hex about the numerals of UTILS_Atoh.
-- * Client is mqtt/mqtt.c with mqtt/include/mqtt.h, on all of the above. A World is the client and
--   the calls of the system so far (posts, timers, TCP, memory), the latest first; a handler is a
--   function on it. Client/Outbox has MQTT_Publish, MQTT_Subscribe, MQTT_UnSubscribe and
--   MQTT_Ping, Client/Link the TCP connection and the deletion of the client, Client/Recv what
--   comes from the broker, Client/Task MQTT_Task, mqtt_timer, mqtt_send_keepalive and
--   mqtt_tcpclient_sent_cb, and Client/Setup MQTT_InitConnection, MQTT_InitClient, MQTT_InitLWT
--   and the setters of callbacks. Client/Invariant is what they keep of a client, and
--   Client/Invariant/Reach the relation of their calls. The loop that makes room in the queue has
--   one round more than the queue has bytes (Client/Outbox/Evict: `evict_ends`), and `evict` is
--   `none` where they are used up. The loop of mqtt_tcpclient_recv need not end
--   (Client/Recv/Hang), so `recv` takes a number of rounds and is `none` where they are used up.
--
-- * Wifi is modules/wifi.c: WIFI_Connect and wifi_check_ip, which the timer runs (`run`). What the
--   SDK says of the station (the address, and the status each time that it is asked for) is a
--   Reading, and the constants of the SDK are in Sdk.
-- * Uart is driver/uart.c with include/driver/uart.h: uart_config, uart_init and uart_reattach.
--   Uart/Registers is include/driver/uart_register.h, Uart/Send has uart_tx_one_char and the ways
--   to print, Uart/Receive uart0_rx_intr_handler. A Port is UartDev and the accesses to the
--   hardware so far; what stands in a register after them is a parameter. Uart/Config reads the
--   accesses as writes to memory. A loop that waits for the hardware has as many rounds as it is
--   given, and is `none` where they are used up: a UART that sends needs as many as it takes to
--   make room.
-- * App is user/user_main.c on the client, the WiFi module and the UARTs: app_init and the
--   callbacks. App/Laws puts the callbacks in for the client's parameters, App/Laws/Traffic says
--   what they make the client do. RfInit is user/rfinit.c, with the calls of the SDK that
--   user_rf_pre_init makes.
--
-- The system is not under the repository: Env has, as parameters, the status of espconn_send, the
-- port that espconn_port gives, what espconn_gethostbyname leaves at the address given, the user's
-- callbacks (functions on the whole World), and what stands on the stack where a local variable is
-- not initialised. The configuration (mqtt_config.h, user_config.h) is in Env too: SSL, protocol
-- name, buffer and queue sizes, reconnect timeout.
--
-- Numbers are natural numbers with the wrap-around of the code's type written out where it can
-- occur. A read behind the end of a list yields 0, and a write there is dropped: the theorems
-- state the sizes for which neither happens. But what is received is copied into the in buffer
-- whole: where it had no room the list would be longer than the buffer, which the client's
-- invariant excludes. os_zalloc is taken to give its memory (QUEUE_Init is modelled for both
-- results). Log output is left out.
--
-- Not modelled: the headers that only hold type names, a print macro and configuration, and what
-- is printed. Of include/driver/uart.h and include/driver/uart_register.h, what the driver does
-- not use is left out.
pub mod Base
pub mod RingBuf
pub mod Proto
pub mod Queue
pub mod Msg
pub mod Utils
pub mod Client
pub mod App
pub mod RfInit
pub mod Uart
pub mod Wifi
