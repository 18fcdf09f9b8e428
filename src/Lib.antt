-- ===== src/Lib.antt =====
-- The message consumers and chat servers of go-api-practice.
--
-- The repository holds several small systems in Go. Those modelled here:
--   * Partition, Partition/*: the offset bookkeeping of a Kafka partition,
--     kafka-cdc/pkg/kafka/partition-state.go. `find_latest_to_commit` is FindLatestToCommit, with its
--     loop `scan`, which runs `rounds` times, once for each value of the loop variable: no more fuel
--     is needed, and Partition/Loop holds it against the loop with its guard. Partition/Session puts
--     it together with commitOffsetLoop, with the messages that the broker delivers and with the
--     reports of the handlers, as the steps of a state machine.
--   * ChanPartition, ChanPartition/*: the partition state behind channels,
--     kafka-chans/internal/consumer/partition-state.go, with UpdateState and appendMsgState of
--     consumer.go. `scan_sized` is the loop of FindLatestToCommit, with a round for each value of the
--     loop variable. ChanPartition/Callbacks is the rest of that consumer: assignPrntCB, revokePrtnCB
--     and rebalanceCB.
--   * Consumer, Consumer/*: kafka-cdc/pkg/kafka/consumer.go, the map of partitions behind a
--     sync.RWMutex: UpdateState, appendMsgState, assignPrntCB, revokePrtnCB and rebalanceCB. It uses
--     the functions of Partition on each partition. The broker, confluent-kafka-go, is the record
--     `Broker`, and any of it will do.
--   * Workers, Workers/*: chat/with-workers, a chat server that shares its clients out to workers by
--     a hash of their ids, and starts and stops workers as clients come and go. Workers/Serve is the
--     accept loop as a sequence of events; a handler is an Option, none when it panics.
--   * LoopServer, LoopServer/*: chat/with-loop-per-client/server.go, the chat server whose AcceptLoop
--     takes the joins and leaves, and starts a goroutine for each message. A handler is an Option,
--     none when it panics; each round of AcceptLoop, and each goroutine, is an event. It keeps the
--     messages of a room in a buffer of Ring. LoopServer/Sending is the other side of the clients'
--     channels: writeMsgLoop, readMsgLoop, initPing and the goroutines of sendMsg.
--   * ClientLoop, ClientLoop/*: chat/client-loop/chat-client-loop.go, the chat server whose
--     RegisterLoop registers clients and whose clients have a read loop each. A handler returns,
--     waits for a lock, or panics, as a Run. `step` is one handler of any goroutine;
--     ClientLoop/Parts has JoinRoom, LeaveRoom and Unregister in the parts that hold a lock, and any
--     order of the parts of different clients; ClientLoop/Url is the parsing of URLs.
--   * Ring, Ring/*: chat/with-loop-per-client/ring-buffer.go, the buffer of the last messages of a
--     room.
--   * Transaction, Transaction/Atomic: TxClosure of kafka-outbox/internal/repos/repo-shared, and the
--     one of kafka/internal/repo/event-repo.go. The driver is the record `Driver`.
--   * Inbox, Inbox/*: InboxService.Save of kafka-outbox/internal/service/inbox.service.go, over
--     TxClosure, with the INSERT as a parameter.
--   * Outbox, Outbox/*: handlePending of kafka-outbox/internal/service/outbox.service.go over
--     TxClosure, with GetAllPending and UpdateStatusByIds of internal/repos/event-repo.go. What the
--     driver, sqlx.In, json.Marshal and the producer answer is the record `Io`.
--   * Payment, Payment/*: PaymentService.Save of kafka-outbox/internal/service/payment.service.go over
--     TxClosure, which inserts a payment and the event that Outbox sends later.
--   * AppError: the errors of kafka-cdc/pkg/errors/errors.go and pkg/db/postgres/errors.go, as chains.
--   * Inventory, Inventory/*: the inventory server, kafka-cdc/internal/inventory. Inventory/Router is the
--     way of a message through MsgRouter, ProtoMapper and PaymentHandler to InventoryService.Save, which
--     is in Inventory with the INSERTs. What the decoder, the encoding of numbers and JSON, and the
--     driver answer is the record `Io`; float64 is a type `F`.
--   * PaymentRouter, PaymentRouter/*: the message router of the payment server,
--     kafka-cdc/internal/payment/handlers/msg-router.go, over any handlers.
--   * EventBus, EventBus/*: protocol-playground/data-aggregator/event-bus.go, with the goroutines of
--     processEvent, as events of a state machine. What a goroutine receives is an output of an event; the
--     call of the handler that follows is not modelled.
--   * Prelude, Prelude/*: texts that are split at a character, maps as association lists, sets of
--     names, lists over the native numbers, integers, sync.RWMutex, and calls that may block or panic,
--     as an Option or a Run.
--
-- A call is one step, and orderings are sequences of steps. That is the order of the program where a
-- mutex is held, or one goroutine is at work, during the call. Elsewhere it is an assumption: JoinRoom,
-- LeaveRoom and Unregister of the client loop take the locks of the server, the room and the client one
-- after the other, and another handler can run in between. So what is said of `step` and `steps` of
-- ClientLoop, and of the handlers it composes, is said of runs without such an overlap; ClientLoop/Parts
-- has the overlaps of different clients. The rebalance callbacks, too, stand between the rounds of the
-- other goroutines, and so does a commit in kafka-chans. In Consumer and ClientLoop the state of the
-- mutex is modelled, since one call keeps it. Offsets are integers without a bound; Partition/Loop shows
-- for which MaxReceived the int64 loop variable does the same. The hash of getWorker wraps at 2^32 as in
-- the source.
--
-- Not modelled: what confluent-kafka-go, gorilla/websocket and the databases do; logging and metrics;
-- the set-up of topics and connections; data races on the maps that the chat handlers read without
-- a lock; that a send on a full channel waits, but in EventBus and LoopServer/Sending. The other parts
-- of the repository (the rate limiter, the service of kafka-cdc's payment server, the services of the
-- protocol playground, the variants of the partition state that are benchmarked) are not modelled.
pub mod Prelude
pub mod Partition
pub mod ChanPartition
pub mod Consumer
pub mod Workers
pub mod Ring
pub mod Transaction
pub mod Inbox
pub mod Outbox
pub mod Payment
pub mod AppError
pub mod Inventory
pub mod PaymentRouter
pub mod EventBus
pub mod LoopServer
pub mod ClientLoop
