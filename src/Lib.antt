-- ===== src/Lib.antt =====
-- mqtt2prometheus turns MQTT messages into Prometheus metrics. A configuration is checked and compiled
-- to sources, each a topic filter with rules; every message of a source is put to each of its rules,
-- whose results are written to a store of samples; a scrape reads a snapshot of the store.
--
-- The parts and their files, with paths from the root of the repository:
--   internal/config/config.go     Config.antt: the structs, as records
--   internal/config/load.go       Load.antt: expandEnv, dedupe; Load/Files.antt: Load, decodeFile
--   internal/config/labels.go     Config/Template.antt, Config/Labels.antt: TemplateRefs,
--                                 ExpandTemplate, LabelNames, CaptureNames
--   internal/config/validate.go   Config/Problems.antt, Config/Fields.antt, Config/Metrics.antt,
--                                 Config/Validate.antt: one function for each check, and Validate
--   internal/store/store.go       Store.antt: Set, observeCounter, Snapshot, Len, flatten, identity
--   internal/rules/payload.go     Rules/Payload.antt: NewPayload, parse, walk
--   internal/rules/value.go       Rules/Value.antt: newExtractor, extract
--   internal/rules/label.go       Rules/Label.antt: newLabelExtractor, resolve, CompileLabels, Resolve
--   internal/rules/rule.go        Rules/Rule.antt: Compile, Apply, resolveLabels
--   internal/app/source.go        Source.antt: compileSources, topicPrefix, owns, apply, metricNames;
--                                 Source/Writes.antt: apply as the list of its calls of Set
--   internal/app/router.go        Router.antt: Dispatch, Start, Stop, consume, handle, Subscriptions;
--                                 Router/Threads.antt: the same with each write as a step
--   internal/app/listen.go        Listen.antt: the emitter, drainLines, topicFilter
--   internal/app/discover.go      Listen.antt: observe, known, prefixOf
--   internal/app/capture.go       Listen.antt: observe, captureLine
--   internal/app/verify.go        Report.antt: redactURL, redact, countRules, the lines of Verify
--   internal/broker/paho.go       Client.antt: onConnectionUp, onConnectError, onClientError,
--                                 subscribeOptions, reportSubscriptions; App.antt: clientConfig, Run
--   internal/app/app.go           App.antt: Run, runComponents, connect, load; Client.antt: Connected,
--                                 Reconnected, ready; Command.antt: parseLevel
--   internal/app/http.go          Http.antt: newServer, writePlain; App.antt: serve
--   internal/app/healthcheck.go   Http.antt: Healthcheck, healthURL
--   internal/exporter/            Exporter.antt: Collect, NewSelf, Register, SetConnected
--   internal/app/command.go       Command.antt: dispatch, flagUsage; Command/Flags.antt: parse and the
--                                 checks of discover and capture; Command/Execute.antt: the subcommands
--   cmd/mqtt2prometheus/main.go   Command/Execute.antt: run, exitCode
-- Outcome.antt has the errors that these functions pass on.
-- The modules below these hold the specifications and the proofs; Base has texts, maps and sorting;
-- Tests has runs at concrete data.
--
-- A text is the list of its bytes, a Go map an association list in which `insert` keeps each key once,
-- a pointer that may be nil an Option. State is passed on: the maps `seen` and `shapes` of Validate,
-- the store, the memo of a payload, and the variables of a loop, which are the arguments and results of
-- the functions. A method of the store holds its mutex from the first access to the last, so it is one
-- step. The texts of the problems that Validate reports and of the errors of a rule are constructors
-- with what the texts mention. An index out of range or a nil pointer is a value of its own, so that
-- its absence can be stated. Every loop is a recursion on the list it ranges over: no fuel is needed.
--
-- Floats with strconv, the package regexp and the decoder of encoding/json are the fields of the record
-- Platform (Platform.antt), a parameter of all that uses them. So are the file system and the YAML decoder
-- (Files), the environment, the package flag and the writers (World), the MQTT client and the registry
-- (Outside), the addresses and the probe (Net), and the constructors of the Prometheus client library
-- (ClientLibrary). What a theorem needs of them is a hypothesis of its own.
--
-- The goroutines of the router appear as schedules: lists of what happens in the order in which it
-- happens, so that a theorem on all schedules covers every interleaving. In Router.antt a handled message
-- is one step; in Router/Threads.antt each call of Set is one, so that the writes of several sources, a
-- scrape, the end of the context and a Stop can come between any two writes of a message. The two
-- goroutines of runComponents and those of follow are their results, in the order in which the code looks
-- at them.
--
-- Not modelled: logs, signals, timeouts and the window of time of discover and capture, the server of
-- net/http and promhttp, and the connection that the MQTT client keeps.
pub mod Base
pub mod Platform
pub mod Store
pub mod Config
pub mod Rules
pub mod Source
pub mod App
pub mod Client
pub mod Command
pub mod Exporter
pub mod Http
pub mod Listen
pub mod Load
pub mod Outcome
pub mod Report
pub mod Router
pub mod Tests
