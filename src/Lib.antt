-- ===== src/Lib.antt =====
-- SnapEmu: a server for LoRaWAN devices and for devices with a radio protocol of its own.
--
-- Gateways pass the radio messages of devices to the devices manager. It finds the device of a message,
-- checks and deciphers it, drops the copies that came by other gateways, decodes the sensor values in
-- it, and answers with a message that waits for the device. The crates are devices_manager (all of
-- this), common_define (the identifiers and data types that the crates share), device_info, snap_api
-- (the web server), and smaller ones.
--
-- The files, and the code that they are about:
--   * Base: helpers that all files share. Base/Ends has the ways in which a Rust function ends (`ok`,
--     `err`, `panic`) and indexing and slicing of slices; `stuck` there is not an end of the program's,
--     it marks a modelled loop that has run out of fuel. Base/Loop has loops on fuel, Base/Bytes the
--     conversions of numbers to bytes, Base/Dict hash maps, Base/Lists and Base/Tests lists and tests
--     on native numbers, Base/Int signed numbers.
--   * Ids: the identifiers Eui, LoRaAddr, Key, Id and LoRaDevAddr (common_define/src/db/eui.rs, addr.rs,
--     key.rs, common_define/src/id.rs, lora.rs). `eui_try_from` is `TryFrom<&str>` for Eui,
--     `eui_to_string` its `Display`, and so on. Texts are lists of bytes; the crate `hex` is the record
--     `Hex` of its functions and what its documentation says of them.
--   * Sensor: `up_data_decode` (devices_manager/src/decode.rs) with its loops over the records of a
--     payload (`record_step`) and over the items of a record (`item_step`). Each loop has as fuel one
--     more than the bytes that it walks; every round takes a byte at least, so the fuel does not run
--     out. Floating-point values are kept as their bit patterns.
--   * Snap: `UpData` and `DownloadData` (devices_manager/src/protocol/snap/payload.rs). The AES cipher,
--     the CMAC and base64 are the record `Crypto`. `encode_frame` is `encode_payload` before base64. The
--     messages of errors are constructors of `CustomError`.
--   * Queue: `DownloadDataCache` and `DownloadResponse` (devices_manager/src/man/data.rs). A cache is the
--     counter for ids and a map from EUIs to queues. An interleaving of tasks is a list of calls.
--   * Downlink: `GatewayTimeline`, `dispatch_task`, `dispatch_task_now`, `pull_task` and
--     `repetition_task` (devices_manager/src/man/lora.rs). The loop of `repetition_task` is recursion on
--     the ten rounds that it may take. What other tasks do while it sleeps is a list of calls for each
--     round, and whether a message could be sent is an argument.
--   * Node: `RequestCache`, `DataCache`, `payload_decode` and the test for repetitions
--     (devices_manager/src/service/lorawan_node.rs). Decryption is a function from counters to results.
--     Node/Activation is what it does with the first messages after a join (`decode_enc_payload`,
--     `decode_node_payload` up to the decryption).
--   * Command: the readers and builders of commands for devices with pins and timers
--     (devices_manager/src/man/data.rs). A command's bytes and the array in a builder are lists of bytes.
--   * Gateway: the packets of gateways (devices_manager/src/protocol/lora/source/udp.rs) and
--     GatewayToken (common_define/src/lorawan_bridge.rs), over a reader of JSON.
--   * Join: the session keys and the bytes of a join answer (devices_manager/src/protocol/lora/
--     join_accept.rs, join_request.rs), over a block cipher.
--   * Radio: power, times and frequencies by region (devices_manager/src/protocol/lora/data.rs), over the
--     operations on floating-point numbers.
--   * Redis: the server redis as the program relies on it, as two interfaces with their laws: keys with
--     strings and hashes, and keys that expire. Redis/Hash is the reading and writing of a struct that
--     derives `RedisOps` (hash_name/src/lib.rs), Redis/Memory has an instance of each interface.
--   * Register: the registers of nodes, gateways and snap devices (device_info/src). A struct is the list
--     of its fields with their texts. Register/Managers is the lookup of a node through redis and the
--     database (devices_manager/src/man/lora.rs), Register/Services what the web server does to the
--     register (snap_api/src/man/sync_device.rs, and the end of `update_blue` in
--     snap_api/src/service/lorawan/node.rs).
--   * Account: the codes that are mailed to users (snap_api/src/man/user_status.rs, the functions `reset`
--     and `delete` of service/user/signup.rs) and the tokens of users (service/user/token.rs, login.rs,
--     auth.rs) in Account/Tokens. Times are seconds; what the database, the server of users and the
--     random numbers give is an argument. Account/Passwords is how a password is stored and checked
--     (snap_api/src/utils/passwd.rs, base64.rs), with the salt and the hash `md5` as arguments.
--     Account/Login is the login by name and password (`local_login` in service/user/login.rs).
--     Account/Users has the signup, the first login over the server of users, the reset and the change of
--     a password (`signup` and `reset_password` in service/user/signup.rs, `login` in login.rs, `info` in
--     info.rs) over the tables, with the server of users (snap_api/src/man/user_manager.rs) as an interface.
--     Account/Users/Deletion is the deletion of a user (`delete_user` in signup.rs).
--     Account/Users/Active has what every step of a request leaves as it is, and Account/Users/Requests the
--     requests one after the other, with `verify_active_token` in signup.rs.
--   * Models: the names and units of values (snap_model/src/lib.rs).
--   * Tables: a table of the database as an interface; Tables/Memory is an instance.
--   * Devices: the devices of users (snap_api/src/service/device/device.rs) over the tables: the queries, the
--     change of settings (Devices/Modify) and the deletion (Devices/Deletion), with what they call in
--     snap_api/src/service/snap.rs, mqtt.rs, lorawan/node.rs and lorawan/gateway.rs.
--     Devices/Linking is the change of a group (`update_group` in snap_api/src/service/device/group.rs) and the
--     links and the right that a new device gets (the end of `new_device` in device.rs).
--     Devices/Creation is how a LoRa node gets its settings and keys, and Devices/Creation/Columns,
--     Bluetooth and Insert how it comes into the tables and the register (service/lorawan/node.rs). Random
--     addresses are a list of draws.
--   * Groups: the groups of devices and their order (snap_api/src/service/device/group.rs, order.rs), with
--     the cache of groups, over the tables as an interface. Groups/Memory has instances.
--
-- Numbers are natural numbers; where the source's type wraps, the remainder is written out. Logging is
-- left out everywhere. Not modelled: the other services of the web server, migrations, the MQTT broker
-- (a copy of another project's), the LoRaWAN frames themselves, which the crate `lorawan` reads and
-- makes, sockets, and the glue of the crates serde, redis and sea-orm. Two insertions into the message
-- cache that overlap between taking an id and taking the lock are left out, and so are requests to the
-- web server that overlap.
pub mod Base
pub mod Ids
pub mod Sensor
pub mod Snap
pub mod Queue
pub mod Downlink
pub mod Node
pub mod Command
pub mod Gateway
pub mod Join
pub mod Radio
pub mod Redis
pub mod Register
pub mod Account
pub mod Models
pub mod Groups
pub mod Tables
pub mod Devices
