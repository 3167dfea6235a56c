-- ===== src/Lib.antt =====
-- QuePasa connects WhatsApp accounts ("servers", one for each token) to web hooks, RabbitMQ and a web
-- API. The Go packages stand under src/: library and whatsapp hold shared types and rules, models the
-- servers, their message caches and the dispatching of messages, whatsmeow the connection to WhatsApp,
-- rabbitmq the message queue, sipproxy the bridge for calls, api and form the HTTP interfaces.
--
-- Parts and files:
-- * Prelude, Strings: the shared names; Go strings as lists of bytes, with what the program uses of
--   the package strings (Contains, Split, TrimLeft, ...). Letters and white space are those of ASCII.
-- * Whatsapp/Booleans (src/whatsapp/whatsapp_boolean.go, whatsapp_boolean_extended.go),
--   Whatsapp/Options (src/whatsapp/whatsapp_options_extended.go and the toggles of
--   src/models/qp_whatsapp_extensions.go): settings with three values, stored as Go ints, and which of
--   the global, the local and the default one decides.
-- * Whatsapp/ConnectionState (src/whatsapp/whatsapp_connection_state.go): the states of a connection.
-- * Whatsapp/Endpoint (src/whatsapp/whatsapp_extensions.go, src/library/phone.go, src/library/wid.go):
--   chat ids and phone numbers. Whatsapp/Endpoint/Formatting and Whatsapp/Endpoint/Refusal hold what
--   FormatEndpoint accepts and refuses, Whatsapp/Endpoint/Phones the laws of the numbers.
-- * Cache (src/library/cache.go, src/models/qp_cache.go): the caches of messages, statuses and group
--   titles, over a map whose order is not fixed.
-- * Whatsapp/Message (src/whatsapp/whatsapp_message.go, _type, _status, whatsapp_chat.go,
--   whatsapp_attachment.go): the message that the packages exchange, with its attachment and the fields
--   that the modelled code uses.
-- * Messages (src/models/qp_whatsapp_messages.go): the messages of a server by id and their statuses,
--   over two caches; Messages/Lookup, Messages/Statuses and Messages/Slices hold their laws.
-- * Handler (src/models/dispatching_handler.go, qp_whatsapp_handlers_extensions.go): what an incoming
--   message goes through, up to the handlers that Trigger calls. It uses Messages and Whatsapp/Options;
--   Handler/Flow follows a message, Handler/Registration the list of handlers.
-- * Connection (src/whatsmeow/whatsmeow_connection.go, whatsmeow_connection_extensions+state.go,
--   whatsmeow_status_manager.go): a connection, above the client of the package whatsmeow, which is a
--   parameter with a state of its own.
-- * Server (src/models/qp_whatsapp_server.go, qp_status_manager.go), with Server/Operations for Start,
--   EnsureReady, Stop, Restart, Toggle and Delete: a server above its connection, with the database as
--   a parameter. Server/States, Server/Connecting and Server/Lifecycle hold what its states and its
--   operations come to; Server/Sending is SendMessage.
-- * Dispatching (src/models/qp_data_dispatching.go): the destinations of a server, in memory above
--   their table, whose laws Dispatching/Agreement asks for, on the columns that its statements write.
-- * Routing (src/models/qp_whatsapp_server_extensions.go, qp_dispatching.go): which destinations get a
--   message, and by which way.
-- * RabbitMq (src/rabbitmq/rabbitmq_client.go): the client of a queue. RabbitMq/System sets its two
--   goroutines and its callers side by side as steps in any order; RabbitMq/Drain is one pass of the
--   processor over the cache, RabbitMq/Setup the declaration of exchange and queues.
-- * Delivery (src/models/qp_dispatching.go, qp_whatsapp_server_extensions.go,
--   src/rabbitmq/rabbitmq_defaults.go): the loop over the destinations with the sendings themselves and
--   what they note; the clock, the JSON and HTTP libraries and the broker are the record Outside. It
--   joins Routing, which chooses, and RabbitMq, whose clients it looks up. Delivery/Webhooks,
--   Delivery/Queues and Delivery/Loop hold its laws.
-- * Service, Maps (src/models/qp_whatsapp_service.go, qp_whatsapp_pairing.go): the servers by
--   token and the pairing of a telephone, above Server and the table of servers; Maps holds the
--   laws of a map with strings as keys, which is a list. Service/Lifecycle holds Initialize and
--   Delete, Service/Registration, Service/Found, Service/Numbers and Service/Pairing the laws.
-- * Contacts (src/whatsmeow/whatsmeow_contact_maps.go): the maps between telephone numbers and LIDs;
--   Contacts/Manager (whatsmeow_contact_manager.go) answers from them and from the store of the package
--   whatsmeow, a parameter, and Contacts/Chats (whatsmeow_extensions+chat.go,
--   whatsmeow_group_info_cache.go) makes the chat of a JID.
-- * Incoming (src/whatsmeow/whatsmeow_handlers_message_extensions.go, _list.go, _template.go): how a
--   message of the protocol becomes the message that is passed on. Incoming/Texts and
--   Incoming/Attachments hold the handlers of its parts, Incoming/Conversion the switch between them;
--   Incoming/Frame, Incoming/Refusal and Incoming/Contacts their laws.
-- * Events (src/whatsmeow/whatsmeow_handlers.go, whatsmeow_handlers_events_contact.go): what a connection
--   does with the events of whatsmeow, with its flags and its registration as a record and the calls
--   that leave it as effects. It uses Incoming, Contacts, Messages (for the statuses that receipts
--   raise) and Whatsapp/Options. Events/Settings, Chats, Messages, Receipts, Notices, Reports and Cards
--   hold the handlers of the events, Events/Dispatcher the switch. Events/Frame, Keeping and Reporting
--   show what the handlers leave as it was; Events/Readable and History, SyncPeriod, Reading and
--   Unregistered follow history syncs, the offline sync, receipts and the end of a session.
-- * Conflict (src/models/qp_cache_fuck_unoapi.go): the check of a message whose id is cached, which
--   the Handler takes as a parameter.
-- * Sip (src/sipproxy/sipproxy_transaction_monitor.go, sipproxy_response_handler.go): the open SIP
--   transactions and the goroutines that watch them, as steps in any order; Sip/Responses is the reading
--   of the server's answers.
-- * WakeUp (src/whatsmeow/whatsmeow_wakeup_scheduler.go): the scheduler of the daily wake-up, over the
--   times of its ticks.
--
-- The clock's reading is an argument, in nanoseconds (milliseconds in Sip). A panic is a value:
-- `none`, or `nil_connection` of a server. Goroutines that an operation starts are returned as
-- effects, take steps of their own (RabbitMq, Sip) or run at once (Events); calls that a lock keeps
-- apart run one after the other. No definition needs fuel. Not modelled: the SQL, the HTTP interfaces, how a
-- connection builds the messages that it sends, the events of pairing, media and the rest of the SIP
-- bridge.
pub mod Prelude
pub mod Conflict
pub mod Connection
pub mod Contacts
pub mod Delivery
pub mod Dispatching
pub mod Routing
pub mod RabbitMq
pub mod Server
pub mod Service
pub mod Sip
pub mod WakeUp
pub mod Strings
pub mod Whatsapp
pub mod Cache
pub mod Messages
pub mod Events
pub mod Handler
pub mod Incoming
pub mod Maps
