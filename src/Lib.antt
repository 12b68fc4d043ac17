-- ===== src/Lib.antt =====
-- A model of juno-agent, the agent of the Juno platform, and theorems about it.
--
-- The agent runs on a host and holds several plug-ins together. The cron worker (pkg/job) reads
-- jobs from etcd, parses their cron expressions (pkg/job/parser) and schedules their commands; the
-- engine (pkg/core) keeps caches of the programs, processes and clients that scanners and proxies
-- report.
--
-- Base holds what the files share: lists, texts as lists of bytes, Go maps as association lists,
-- 64-bit words, decimal numbers, and outcomes (a value, an error, a panic, a loop without end).
--
-- Parser is pkg/job/parser. Parser.Types has the data (ParseOption, bounds, SpecSchedule);
-- Parser.Bits getBits; Parser.Range getRange and getField; Parser.Fields normalizeFields;
-- Parser.Descriptor parseDescriptor; Parser.Parse NewParser, Parse and ParseStandard; Parser.Delay
-- Every and At with their Next. Parser.Calendar has the civil times that SpecSchedule.Next computes
-- with, and Parser.Next its loops, the passes between the jumps to WRAP, and the search.
--
-- Job is pkg/job. Job.Types has Job, Timer and Cmd; Job.Keys the etcd keys; Job.Worker the tables
-- of the worker with addJob, modJob, delJob, addCmd, modCmd and delCmd, and below it what its
-- watches do at an event; Job.Process Start and Stop of a process; Job.Run Job.Run, Cmd.Run and
-- immediatelyScheduler; Job.Skip skipIfStillRunning. Job.Worker.Sync.History follows a worker
-- through any sequence of events, and Job.EtcdWatch is the watch that brings them, of
-- pkg/job/etcd/watch.go. Job.Delivery joins the two, and Job.Chain is wrappedJob of pkg/job/cron.go
-- inside skipIfStillRunning.
--
-- ConfProxy is pkg/proxy/confProxy with the values and nodes of pkg/structs/conf_node.go:
-- ConfProxy.Update what a changed key does, ConfProxy.Values the reading of a configuration,
-- ConfProxy.Listen the registry of the applications that wait, ConfProxy.Steps its interleavings as
-- a step relation, ConfProxy.Watch the loop of the watch and the answers, and ConfProxy.Report the
-- report. Programs is the scanners of pkg/pmt/supervisor and pkg/pmt/systemd with their way into
-- the engine's cache, and Health pkg/check/healthCheck.go with checkServiceNodes of
-- pkg/core/engine.go and, in Health.Dsn, the data source names of pkg/check/impl/mysql, in
-- Health.Dsn.Indexed the method on indices. RegProxy is Put of pkg/proxy/regProxy/proxy.go, and
-- RegProxy.Prometheus the files of targets of etcd/prometheus.go beside it. Nginx is
-- pkg/nginx/scanner.go with startNginxConfScanner, and Processes the scan of
-- pkg/process/process.go. Health.Kinds is the four kinds of checks of pkg/check/impl, and Batches
-- batchMessages of pkg/mbus/rocketmq/mq.go. Api is the handlers of pkg/core/api.go, which bring the
-- parts together.
--
-- Engine is the caches of pkg/core/program.go and pkg/core/engine.go, Engine.Startup NewEngine with
-- the functions that it starts in turn, ConfKey the keys of pkg/structs/conf_node.go, Padding
-- util/encrypt.go, Files the reading of a directory in util/file.go, and Commands GenCommand of
-- pkg/pmt/exec.go.
--
-- Fuel. The loop of getBits has a round for every value up to the maximum; its step and its bounds
-- are small enough that no sum wraps. A loop of Next has one round more than its field has values.
-- The search has a round for every second up to the end of the last year that it looks at, on a
-- scale on which every month has 31 days, since each pass ends at a later second.
--
-- Parameters. time.LoadLocation, time.ParseDuration, time.ParseInLocation and Time.In,
-- json.Unmarshal, the scheduler of robfig/cron, the etcd lock, the AES block mode and base64, the
-- ini library, the parser of nginx's language, the output of ps, what etcd holds, files, bash, the
-- network of the health checks, the answers to a ping, those of the plug-ins at the start and
-- Startup of jupiter are arguments. The laws that are asked of the scheduler (Job.Worker.IsCron),
-- of the cipher (Padding.IsCrypto), of etcd (ConfProxy.Report.IsEtcd) and of Startup
-- (Engine.Startup.Startup) are what their documentation says.
--
-- Not modelled. Zones whose offset changes; the order in which Go ranges over a map, which is that
-- of an association list, but for modJob (Job.Worker.Sync.AnyOrder); goroutines, channels and
-- timeouts but for the token of skipIfStillRunning, the channels of the configuration proxy, of the
-- health checks and of a watch; logging; JSON texts; the set-up of the watches of files, the routes
-- of the HTTP interface, the reports of the agent's status and the clients of message queues. A job
-- is known to its commands by its id in place of a pointer. Instants of a list of times lie between
-- 1970 and 2262. Texts are ASCII where letters are lowered or blanks trimmed.
pub mod Base
pub mod Parser
pub mod Job
pub mod Engine
pub mod Programs
pub mod Nginx
pub mod Processes
pub mod Health
pub mod ConfKey
pub mod ConfProxy
pub mod RegProxy
pub mod Padding
pub mod Commands
pub mod Batches
pub mod Files
pub mod Api
mod Examples
