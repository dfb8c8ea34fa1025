-- ===== src/Lib.antt =====
-- An SMS gateway: an HTTP API takes messages, a queue hands each one to a GSM modem of a pool, the
-- outcome is kept in a database and reported to the caller's URL.
--
-- Parts, in the order in which a message passes them:
--   * utils/modem-config.js reads from the environment which modems there are; utils/serialize.js is
--     the lock under which a driver sends, reads and runs sessions.
--   * router/router.js validates a request, logs it and queues it.
--   * config/bull.config.js takes a job from the queue, chooses a modem of utils/pool.js, waits until
--     it is connected, sends through it, and files the outcome in store/log-store.js.
--   * utils/modem.js, the driver of a serial modem, measures and splits the message by
--     utils/sms-encoding.js and builds one PDU per part by utils/pdu.js.
--   * utils/zte-http.js is the driver of a modem with a web API, utils/adb.js that of an Android
--     device.
--   * utils/modem.js also reads the messages that came in and deletes them when they are saved.
--   * config/ussd.config.js queues USSD sessions, whose requests are kept by store/ussd-store.js.
--   * config/webhook.config.js with utils/webhook.js queues and delivers a callback for each change
--     of status.
--
-- Files:
--   * Prelude: shared names, Boolean tests on the native numbers, lists, texts, association lists and
--     the bit operations as arithmetic. A text is the list of its UTF-16 code units, as in
--     JavaScript.
--   * Encoding: utils/sms-encoding.js. Charset has the alphabets and costs (GSM7_CODES, gsm7Cost,
--     PHONE_RE), Split has splitGsm7, splitUcs2, analyzeMessage and splitMessage, Hex has ucs2Hex and
--     ucs2Decode; Septets, Parts, Capacity, Pairs, Message and Hex.RoundTrip prove.
--   * Pdu: utils/pdu.js. Address has hex and encodeAddress, Pack has gsm7Septets and packSeptets, Build
--     has buildSubmitPdu and buildConcatPdus. Reader decodes a PDU the way a modem does, by the
--     layout of 3GPP TS 23.040 and independently of the builder; the other files prove.
--   * Store: Table and Query are the interface to the database, LogStore is store/log-store.js with its
--     lists in LogStore.Lists, InboxStore is store/inbox-store.js.
--   * Webhook: Url and Payload are utils/webhook.js, Sender is config/webhook.config.js, Queue is the
--     interface to the job queue.
--   * Pool: utils/pool.js.
--   * Worker: Wait and Send are config/bull.config.js; Send.Life follows one job through its attempts,
--     Send.Lifecycle sets them beside the abstract machine of the status in Send.Machine, and
--     Send.Filing tells which status a failure gets.
--   * Serial: utils/modem.js. Connection has connect, scheduleReconnect and close as a step relation.
--     Lines has handleData, handleLine, settleCurrent and the timers, with the settled promises as a
--     list of events, on the text that Utf8 decodes; Lines.Quiet has the wait of transact for a late
--     reply. Session has transact, submitBody, sendSingle,
--     sendMultipart and sendSMS as actions that consume the modem's replies and keep a log of what
--     was written, initModem and ping. Listing parses the answer to AT+CMGL, Inbox has getMessages,
--     Inbox.Sync utils/inbox-sync.js on it and the inbox table. Ussd has runUssd, taken on by the events
--     of the port. Session.Honest, Session.Audit, Inbox.Spec, Inbox.Listed, Inbox.Laws and the children of Lines and Ussd prove.
--   * Zte: utils/zte-http.js. Settings has what createZteModem sets up, smsTime and analyzeUcs2, Base64
--     the encoding of the password, Session has request, login and setCmd as actions that consume the
--     modem's replies, Send has sendSMS and ping, Inbox has getMessages, Ussd has runUssd. Added,
--     Send.Stage, Send.Verdict, Send.Rounds, Inbox.Listed, Inbox.Order, Ussd.Fresh and Ussd.Rounds prove.
--   * Adb: utils/adb.js. Adb itself has sendOne, sendSMS and refreshState as actions on a log of
--     commands, Shell has shQuote and the command, Bridge has getMessages with the files on the
--     device. Words is a POSIX shell's reader of words, written from the standard and independently
--     of shQuote; it, Parts and Bridge.Kept prove.
--   * Router: router/router.js. Validate has validateSend, Send has the handlers of POST /send and
--     GET /status/:id, Messages that of GET /messages, Queries those of the lists, the metrics and the
--     health, Ussd runUssdNow, the stored values and queueUssdRefresh.
--   * Server: index.js. The access checks and the shutdown.
--   * Ussd: Store is store/ussd-store.js, Worker is config/ussd.config.js, and Poll is its
--     job that looks into the inbox of a serial modem.
--   * ModemConfig: utils/modem-config.js. Serializer: utils/serialize.js, as a step relation.
--   * Tests: runs on concrete inputs.
--
-- Parameters. The database is a table with a text primary key (Store.Table), a BullMQ queue is a list
-- of jobs to which a job is added or refused (Webhook.Queue), and the rule by which BullMQ tries a
-- job again is a function with its documented rule as hypothesis. URL parsing, lower-casing, HMAC and
-- JSON are functions, most of them fields of the record Platform. The answers of a modem, the times
-- and the connection of each modem are given step by step. Tests.Tables has instances that satisfy the laws.
--
-- Bounds and fuel. The shifts of packSeptets keep JavaScript's 32-bit wrap-around. waitForModem runs
-- on fuel for 61 polls, and a poll takes 500 ms of the 30 seconds allowed. handleData has the length of
-- its buffer as fuel, of which each line takes a character. The polling loops of zte-http.js have 40
-- rounds for each segment of an SMS and 20 for a USSD reply; a round takes at least 1500 ms.
--
-- Not modelled: console output, the texts of refusals, the schema and the migrations of
-- store/db.js, the wiring of express, Redis and the process,
-- the timer that polls an Android device, the HTTP headers and the JSON quoted in errors of the ZTE
-- driver, numbers in its JSON that are not natural, and the Android application, which is Java.
pub mod Prelude
pub mod Encoding
pub mod Pdu
pub mod Store
pub mod Webhook
pub mod Pool
pub mod ModemConfig
pub mod Worker
pub mod Serial
pub mod Serializer
pub mod Router
pub mod Ussd
pub mod Zte
pub mod Adb
pub mod Server
pub mod Tests
