-- ===== src/Lib.antt =====
-- The KNoT gateway service connects things (nodes) to a cloud. A node speaks the KNOT protocol over
-- a socket; the cloud is reached through a driver (HTTP or WebSocket) that speaks JSON. Between the
-- two stand src/session.c, which holds a session for each node with a channel to the node and one
-- to the cloud, and src/msg.c, to which a session hands the node's data: it answers each message,
-- keeps the credentials of the nodes that are online, and passes what changes in the cloud on to
-- them. Beside them, src/proxy.c and src/device.c show the devices of the radios to D-Bus clients.
-- src/node-serial.c multiplexes things behind a serial line, and src/proto-ws.c keeps a table of
-- the websockets to the cloud; src/proto-http.c is the other driver, on libcurl. src/manager.c
-- starts and stops the parts, on the settings of src/settings.c. This library models these files,
-- how the first two work together, and src/msg.c over the HTTP driver.
--
-- How the files correspond to the code:
--   Common          shared types, lists, queues and integers. Common/Monad is a call: it takes the
--                   state to a result and a state, or ends in undefined behaviour, which is a
--                   `Fault`; Common/Hoare has the postconditions of calls.
--   Env             what src/msg.c takes from outside: json-c (Env/Json), the KNOT protocol headers
--                   (Env/Headers, Env/Messages), the driver behind `struct proto_ops` and the system
--                   calls (Env). All of it is one argument `e : Env` of the definitions, and the
--                   theorems hold for each such `e`.
--   Msg/State       the static variables and the objects that pointers lead to: `trust_map`, the
--                   heap of `struct trust`, node channels (`l_io`), `struct proto_watch`.
--   Msg/Trust       trust_new, trust_ref, trust_unref, trust_map_*, trust_create, the node channel,
--                   the device watch.
--   Msg/Config      queue_concat, config_is_valid, get_changed_config, trust_config_confirm.
--   Msg/Parse       parse_device_info, _schema, _config, _setdata and _getdata.
--   Msg/Cloud       the JSON that is sent, proto_mknode, proto_signin, proto_rmnode, proto_schema,
--                   proto_data.
--   Msg/Register    msg_register, msg_unregister, msg_auth.
--   Msg/Data        msg_schema, msg_data, msg_config_resp, msg_setdata_resp, update_device_*.
--   Msg/Process     msg_process, which takes a node's message to one of the above.
--   Msg/Changed     on_device_changed, msg_config, msg_setdata, msg_getdata, fw_push.
--   Msg/Lifetime    on_node_channel_disconnected and the end of a node channel; below it, the
--                   invariant of the objects and the lemma of each operation that it is kept.
--   Msg/Run         msg_start, msg_stop, and the states that calls into the file can reach.
--   Msg/Hoare, Msg/Quiet   postconditions of a call; calls that change nothing but the world.
--   Msg/Safety, Msg/Refused, Msg/Registered, Msg/SchemaLost, Msg/Configured, Msg/Parsed,
--   Msg/Reported, Msg/Forwarded, Msg/Answered, Msg/Created,
--   Msg/Stopped   the theorems.
--   Msg/Examples    a small service, and the theorems at concrete inputs of it.
--   Session/Driver  what src/session.c takes from outside: the radio behind `struct node_ops`, the
--                   connection of `struct proto_ops` and the callback `on_data`, as a record of
--                   operations, and a record of what they promise.
--   Session/State   the heap of `struct session`, the channels (`l_io`) with the session that each
--                   was given, session_list, the pending timeouts.
--   Session/Channels   session_new, session_ref, session_unref, connect_proto, disconnect_proto and the
--                   handlers of a channel's end.
--   Session/Node    on_node_channel_data, the timeout, session_create, session_destroy_all.
--   Session/Invariant, Session/Steps, Session/Entries, Session/Kept, Session/Handlers   the invariant
--                   of the objects and the lemma of each operation that it is kept.
--   Session/Run     the events that the main loop delivers, and the states that they reach.
--   Session/Safety  the theorems; Session/Examples applies them.
--   Session/Gateway the interface filled with `msg_process`, and calls into both files in any order.
--   Device/Bus      what src/device.c and src/proxy.c take from ELL's D-Bus library.
--   Device/Objects  a device: device_create, device_destroy, device_set_name, device_set_paired,
--                   method_pair and pair_reply.
--   Device/Proxy    the table device_list: added, removed, property_changed, proxy_stop.
--   Device/Invariant, Device/Kept, Device/Watched   the invariant of the devices, over each change and
--                   each operation.
--   Device/Run      the events, and the states that they reach.
--   Device/Safety, Device/Pairing   the theorems; Device/Examples applies them.
--   Serial/Pipes    tty_data_watch and serial_accept, over the system calls in the record `Line`.
--   Serial/Bits     C's `|` as a sum.
--   Serial/Ids, Serial/Forward   the theorems; Serial/Examples applies them.
--   Ws/Table        ws_connect, ws_close, ws_async and timeout_ws, over libwebsockets in the record `Lws`.
--   Ws/Places       the theorems; Ws/Examples applies them.
--   Ws/Service      what the requests take from outside: the callbacks of one `lws_service`, json-c.
--   Ws/Receive      handle_cloud_response, callback_lws_http and handle_response, on the static flags.
--   Ws/Request      ws_mknode, ws_device, ws_signin, ws_rmnode, ws_update and ws_data.
--   Ws/Waited       the loops of a request; Ws/Returned when one ends, Ws/Answers how; Ws/Checks
--                   applies both.
--   Http/Curl       what src/proto-http.c takes from outside: libcurl, json-c, sockets and `l_io`.
--   Http/Fetch      fetch_url with write_cb, and check_json.
--   Http/Driver     http_mknode, _signin, _rmnode, _schema, _data, _setdata, _fetch, http_connect and
--                   http_probe.
--   Http/Watch      http_async, http_async_stop, proto_poll, the timeouts and http_remove.
--   Http/Cloud      `struct proto_ops` filled with these operations, as src/msg.c calls them.
--   Http/Fetched, Http/Watched, Http/Views   lemmas on the answers and on the watches.
--   Http/Events     what happens to the watches, and the watches as a client sees them.
--   Http/Described, Http/Signin, Http/Refine   the theorems; Http/Examples applies them.
--   Start/Settings  settings_parse: the configuration file beside the command line.
--   Start/Servers   node_start and node_stop of src/node.c; get_proto_ops and proto_start of src/proto.c.
--   Start/Parts     manager_start and manager_stop, with the theorem on them.
--   Start/Loaded, Start/Removed   the theorems on src/settings.c and src/node.c; Start/Examples applies
--                   all of them.
--
-- Choices. An address is a number that is never used again, so that a pointer to freed memory is
-- seen for what it is; the channel of a device watch and an entry of a queue that `l_queue_foreach` walks
-- have faults of their own. A queue is a list or NULL, as ELL documents `l_queue`. Memory is never short,
-- but json-c's constructors may return NULL. Logging, and the freeing of memory that nothing points
-- to any more, have no counterpart, but for the reference counts of trusts and sessions; nor has the
-- cloud's socket channel in src/msg.c, which ELL closes with the trust. The driver may answer what it
-- likes and may or may not run a watch's destroy callback inside `async_stop`; it does not call back
-- into src/msg.c from within another operation. `l_io_destroy` may or may not run a channel's
-- disconnect handler before its destroy callback. The number of decimal digits is computed with fuel
-- 10, enough for an `int`; all other loops run over a list. `l_hashmap_insert` puts an entry beside
-- one of the same key, as ELL's tables do. `ws_connect` serves the context until a callback has set one
-- of two flags: which one it is is a result of the record `Lws`. The
-- loops of the websocket requests, which serve the context until a flag is set, take fuel, and give no
-- result where it ends: the theorems state how much is enough. Ws/Table and Ws/Receive have a state
-- each, for the parts of `struct per_session_data_ws` that they use.
--
-- Not modelled: of the start, src/dbus.c and src/main.c, the accept handler of src/node.c, and the
-- functions of src/device.c and src/manager.c that declare D-Bus interfaces and their properties, which
-- are calls of ELL and glib; src/node-tcp.c, src/node-tcp6.c, src/node-unix.c and the opening of the serial
-- line, which are system calls; ws_probe, ws_remove and ws_async_stop of src/proto-ws.c, which make and
-- drop what belongs to libwebsockets and ELL. The tools, the tests and the network bridges stand beside
-- the service.
mod Common
pub mod Env
pub mod Msg
pub mod Session
pub mod Device
pub mod Serial
pub mod Ws
pub mod Http
pub mod Start
