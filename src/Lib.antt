-- ===== src/Lib.antt =====
-- A messaging backend for phones and devices, in two processes. A `comet` keeps the websocket sessions of
-- phones and the UDP sessions of devices; the `msgbus` knows which comet each user is on and carries the
-- messages from one comet to the next. Both speak the byte format of the package `msgs`.
--
-- Files, with the code that each models:
--   Base, Base/*         shared: numbers, int64 (Int64), `strconv` (Decimal), `fmt` and `strings` (Format), maps as
--                        association lists (Maps), byte slices (Bytes), and the outcome of a call (Run)
--   Msgs/Checksum        msgs/msgs.go `ChecksumHeader` (`checksum_header`)
--   Msgs/Frame           msgs/msgs.go `FrameHeader`, `dataHeader`, `AppMsg` and their `marshalBytes` and
--                        `MarshalBytes` (`frame_marshal_bytes`, `data_marshal_bytes`, `app_marshal_bytes`)
--   Msgs/Inspect         msgs/msgs.go `NewAckMsg`, `IsForwardType`, `ForwardSrcId`, `GetMsgId`
--   Msgs/Status          msgs/body.go `MsgStatus.Marshal` (`status_marshal`)
--   Comet/Ids            comet/session.go `getBlockID`, `isBinded`, `calcDestIds`, the update of a session's
--                        list in `UpdateIds`; comet/util.go `TransId`; comet/udp_session.go `isBinded`,
--                        `CalcDestIds`
--   Comet/Sequence       comet/udp_session.go `VerifySession`
--   Comet/Udp            comet/udp_handler.go `handle`, its checks of a packet
--   Comet/Udp/Store      comet/udp_session.go, comet/redis.go: the sessions of the devices in redis, with their
--                        lockers (`GetSession`, `SaveSession`, `SetDeviceSession`, `GetDeviceSid`); the state
--                        `World` and the environment `Env` of the UDP comet
--   Comet/Udp/Users      comet/redis.go `GetDeviceUsers`, `GetUserDevices`, `PushDevOnlineMsgToUsers`,
--                        `PushDevOfflineMsgToUsers`
--   Comet/Udp/Devices    comet/udp_session.go `GetDeviceAddr`, `PushCommonMsg`, `PushMsg`, `UpdateIds`;
--                        comet/msgbus_man.go `NotifyBindedIdChanged`; comet/redis.go `HandleDeviceUsers`
--   Comet/Udp/Common     comet/redis.go `HandleCommonMsg`, `PushMsg`
--   Comet/Udp/Commands   comet/udp_handler.go `onGetToken`, `onRegister`, `onLogin`, `onRename`,
--                        `onHearBeat`, `onSubDeviceOffline`
--   Comet/Udp/Handler    comet/udp_handler.go `handle`, from the verdict of the checks to the reply
--   Comet/Login          comet/websocket.go `getLoginParams`, `isAuth`, the login of `WsHandler` and one round of
--                        its loop; `md5.Sum` is any function
--   Comet/Login/Connection   comet/websocket.go `WsHandler` between the login and the loop, and after the loop
--   Comet/Connections    comet/websocket.go `WsHandler` of many connections on many comets, interleaved at their
--                        accesses to redis and to the sessions
--   Comet/Sessions       comet/session.go `SessionList`: `AddSession`, `RemoveSession`, `CalcDestIds`,
--                        `UpdateIds`, `PushCommonMsg`, `KickOffline`, `PushMsg`
--   Comet/Sessions/Pushed    comet/client.go `HandleMsg`, its calls of `PushMsg` of the websocket sessions
--   Comet/Sessions/Modified  comet/redis.go `HandleModifiedPasswd`
--   Comet/Buses          comet/msgbus_man.go `Online`, `Offline` and the turns of `Push2Bus`
--   Comet/Report         comet/zk.go `onConnStatus`, `ReportUsage`, `onWriteZkData`
--   Comet/Redis          comet/redis.go: the scripts of `SetUserOnline`, `SetUserOffline`, `SelectMobileId`, and
--                        `ClearRedis`, `ReturnMobileId`
--   Hlist                the interface of the linked list `cloud-base/hlist`, and the loop over it
--   MsgBus/UserMap       msgbus/usermap.go `Load`, `Online`, `Offline`, `OfflineHost`, `GetUserComet`
--   MsgBus/Loading       msgbus/redis.go `LoadUsers`, `GetAllHosts`, `GetAllUsers`
--   MsgBus/Online        msgbus/main.go `handleOnlineEvent`, fed by the messages of Comet/Redis
--   MsgBus/Push          msgbus/usermap.go `PushToComet`
--   MsgBus/Comets        msgbus/comet.go: the connected comets, with the two mutexes
--   MsgBus/Handle        msgbus/handler.go `MainHandle`, `HandleClose`
--   Rates                comet/status.go, msgbus/status.go `statUpdatePerSecond`; the names of the counters are in
--                        Comet/Status and MsgBus/Status
--   Wire                 the stream between the processes: msgbus/comet.go `Push`, comet/msgbus.go `Reciver`,
--                        msgbus/server.go `handleClient`
--   Envelope             the ids in front of a message: comet/msgbus_man.go `Push2Bus` (`push2bus_data`),
--                        msgbus/handler.go `MainHandle` (`main_handle_head`, `down_data`), comet/client.go
--                        `HandleMsg` (`handle_msg`)
--   Forwarding           a message on its way through both processes: msgbus/server.go `login` and `handleClient`
--                        (`serve_client`), and comet/msgbus.go `Send` and `Reciver` with their callers
-- A file below one of these holds the proofs about it; the files Tests hold runs at concrete values.
--
-- How the code is read. A number of Go is a native number, and a result is cut to its width where the code
-- computes in that width; int64 is `ℤ` with the wrap-around in `add64`, `sub64`, `neg64`. A byte slice is a
-- list of numbers; an index out of range is `none` or `panics`. A lock that a function leaves held is a
-- field of the state, and a call that waits for it is `blocks`. A method whose mutex is given back on every
-- path is one step.
--
-- The readers of the stream run on fuel, one round for each message; the round trips state that as much
-- fuel as there are messages is enough. All other functions are total by structure.
--
-- Parameters: the linked list is any one that has the laws in Hlist, among them that a walk from `Front`
-- meets the values and that `Remove` takes the element out; whether `Next` of a removed element is nil is
-- left open. A write to a connection succeeds or fails as any function of what was written before says.
-- `time.Now` and `rand.Intn` are arguments.
--
-- The UDP comet's environment is any `Env`: redis lets each call through or not, as a function of the call and
-- the state, the uuid package and the HTTP API answer as any functions do, and the clock is any function of the
-- state. The JSON text of a session is kept as the fields that it has. A theorem that needs redis to store
-- sessions says so.
--
-- In Comet/Report `onConnStatus` runs between the rounds of the loop. Floating-point numbers are of any type with a
-- zero and a text; zookeeper makes a node or not, as any function of the number of the call and the data does.
--
-- In Forwarding a message is handled to its end before the next one is read, as `handleClient` does; the
-- goroutines of other comets do not run meanwhile.
--
-- In Comet/Sessions and Comet/Buses the linked list is a plain list, and its elements have numbers of their own. In
-- Comet/Buses every write goes out, and a send on a nil connection panics.
--
-- Not modelled: the timeout of a websocket connection and the loop of its reads as a whole
-- (comet/websocket.go), the expiry of keys and lockers in redis, the redis, HTTP, rabbitmq and
-- zookeeper clients, and start-up. The packets of a comet are handled one at a time. The log
-- lines and counters inside the modelled functions are left out.
pub mod Base
pub mod Comet
pub mod Envelope
pub mod Forwarding
pub mod Hlist
pub mod MsgBus
pub mod Msgs
pub mod Rates
pub mod Wire
