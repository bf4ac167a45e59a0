-- ===== src/Lib.antt =====
-- NexShell, a terminal workbench with SSH sessions, file transfer and an operations assistant.
--
-- Six parts of the program are modelled. The assistant and the executor stand on the database, the
-- others on their own.
--
-- File transfer, internal/transfer/zmodem, in Zmodem. The codec (codec.go) reads and writes frames on
-- a byte stream. Its state, `Codec`, holds the bytes that the peer will still send, the error behind
-- them, and what was written. Zmodem/Wire has that state, the errors of the package and the raw reads;
-- Crc the two checksums; Escape and Hex the two encodings of bytes; Headers `WriteHeader`,
-- `ReadHeader` and `Cancel`; Data `WriteData` and `ReadData`. The two ends (transfer.go) are
-- Zmodem/Send (`Send`, `sendFile`) and Zmodem/Receive (`Receive`, `readResumeCRC`): actions on a state
-- that return a value or an error. Files has the names and metadata, Disk the directory. A call of the
-- operating system or of `ctx.Err` takes its answer from a list in the state, so that every one may
-- fail. Transfer and Agree join the two ends: the output of each is the input of the other. Wire/Reads
-- and Data/Reads, Headers/Reads have the rules on what a read does to the state, Receive/Quiet, Keeps,
-- Files, Session and Loop the invariant of a session, Handles and Exits the file handles that are
-- open, Lean and Fuel the bounds of the loops, and Transfer and Whole, below both ends, the run of a
-- complete transfer.
--
-- The router, internal/transfer/router.go, in Router: what `pump` holds back of the terminal's output
-- because it may begin a frame, and in Router/Pump its whole loop with `Write`, on the reader of the
-- codec. Pump/Plain has the rounds on output without a frame, Frames and Starts those up to a header.
-- A transfer in it is a parameter, an action on the codec, as `Send` and `Receive` are.
--
-- The assistant, internal/agent, in Agent. Types has the records of internal/domain/types.go, Paths
-- the tests on paths of internal/localfiles/files.go, References `ResolveReference` (references.go
-- there), Policy `Evaluate`, `EvaluateLocal` and `ApprovedFor` (policy.go), Gate the decision of
-- `executeTool` (tools.go) with `checkKnownResults` (verification.go) and `attachedFile`
-- (attachments.go). What `executeTool` loads from the store is a record of answers, `World`. Verify is
-- the rest of verification.go: which execution counts as evidence, and when a task has all of it.
-- Around the calls of the model and of its tools, Retry is `retryModelCall` (model_retry.go), Recovery
-- the answers to mistaken calls (tool_recovery.go) and to those of tools that there are not
-- (tools.go), History the completion of a history (history_recovery.go).
--
-- Service, in Agent, is the state machine of service.go, whose state joins the database of Store, the
-- documents of the other kinds, the runs and the mark that the application exits. Service/Start is
-- `start` with `prepareVersion` (runtime_version.go); Create `NewTask`, `NewConversation`
-- (conversation.go) and `CanonicalRoots`; Control `Submit`, `SubmitFiles` (attachments.go), `Resume`,
-- `Decide`, `Cancel` and `Stop`; Turn what the loop of a run calls, `GenInput`, `GenResume` and
-- `consumeEvents` (events.go); Finish the goroutine at the end of a run. A call runs from its start to
-- its end before the next one begins: the source guarantees this for what it does under its lock,
-- which leaves out the loads and stores of a task in `Submit`, `Resume` and `Cancel`. Steps lists all
-- that may happen, in any order: the calls, what a run does during a turn, its end, and what the
-- executor writes to the database. Frames and Fixed have the lemmas on the actions that leave tasks
-- and runs, or approvals, alone, Begin those on what `start` tests before it adds a run, Keeps,
-- Stopping, Invariants and Quiet those on invariants of the state; Active, Closing, Done, Grants,
-- Renewal and Decisions have the properties.
--
-- The database, internal/store/store.go, in Store: `Claim`, `Finish`, `Recover` and `Put` of a task,
-- and in Store/Queries `Results` and `Load` of a task. A row holds the value whose JSON text the
-- source stores; each statement may fail. Store/Changes has the subscribers of a task (changes.go).
-- Store/Once has the steps of the database between two claims, Recovery what a restart leaves,
-- Changes/Safety and Changes/Waking what the subscribers get.
--
-- The executor, internal/remote/executor.go, in Remote. Command is `BuildCommand` with `Quote`
-- (connection.go) and `replaceQuotes` (session.go); Command/Quoting has a reader of words as a POSIX
-- shell reads them. Executor is `capture.Write` and `Execute`, on the database of Store, for the
-- requests that `executeTool` lets run: its state adds the events, the requests that were carried out
-- and the capture. Pieces and Tame have the lemmas on the writes that an operation is made of, Once
-- and Outcome the properties.
--
-- The terminal's input queue, internal/terminal/input.go, in Terminal. Each operation holds its lock
-- from start to end, so that every interleaving of the two sides is a list of calls.
--
-- Bounds and fuel. The source's loops with a bound (65536 skipped bytes, 1 MiB of data, 5 repeats, 20
-- and 10 tries, 32 bytes at the end) recurse on that bound. Those without one recurse on a number of
-- rounds that is one more than the length of the input, which every round shortens; they take what to
-- do when the rounds are spent as an argument, and it is never reached. Offsets are 32 bits wide:
-- `advance` wraps, and positions are the four bytes of a header. Numbers parsed from metadata keep the
-- limits of 64 and of 32 bits.
--
-- The turn of the agent recurses on the list of events that the framework delivers, the completion of
-- a history on the history, and the retries on their three rounds. `pump` of the router returns
-- `spent` when its rounds are used up.
--
-- Parameters. `Encoders` are the JSON text of a value and SHA-256; `Json` what encoding/json reads and
-- writes; `Files` what the system says of a path and net/url of a URL. `Env` is what a call of the
-- service finds: the clock, new identifiers, the stored hosts and model profiles, whether the model
-- and its tools can be set up, and whether a loop takes an input. The inputs and events that the
-- agent's framework delivers, the outcome of a tool, the replies of the model, what a server does of a
-- request (`Manager`), the lock of a server, the cancelling of a context and the identifier that a
-- claim draws are arguments.
--
-- Not modelled: the SSH and SFTP connections, the emulator and the user interface, which are input,
-- output and calls of libraries; the assistant's memory, its skills and the wiring of its framework;
-- and the parts of the store for events and checkpoints. Texts in Chinese stand as short English ones.
-- `Seek` and the short reads of a regular file are those of a file whose content stays the same while
-- it is sent. Paths are those of Unix.
pub mod Prelude
pub mod Zmodem
pub mod Router
pub mod Agent
pub mod Store
pub mod Remote
pub mod Terminal
