-- ===== src/Lib.antt =====
-- nsg-parser reads the logs that Azure writes of network security groups and application gateways
-- into blobs, turns their records into CEF events, and sends these to syslog or writes them into
-- files. It remembers how far it has read each blob.
--
-- The parts, the code that they model, and how they meet:
--   * Nsg (parser/event_record.go): the record, its names read out of the resource id (InitRecord),
--     the conversion of the flow tuples (Nsg/Flow), GetCEFList with its recover (Nsg/Events). The
--     module Nsg/Flow/Expected describes the events of a record by a table of its own; Nsg/Instance
--     fits the records to what a log file asks of AzureEventRecord.
--   * AppGw (parser/appgw_access_record.go, parser/appgw_firewall_record.go): the same for the two
--     kinds of record of an application gateway; their modules Instance fit them to AzureEventRecord.
--     Slice has Swap of the slices of all three types of record.
--   * Cef (parser/cef.go, formatMac of parser/common.go): the event, its text, escaping, and what the
--     formatter of the syslog connection makes of the text (Cef/Formatter).
--   * LogFile, Calendar, FileName (parser/event_log_file.go, getLoggedResourceName of
--     parser/common.go): the log file of a blob, for any type of record: GetRecords, the ranges,
--     loading, and the time and the resource that the blob's name holds. LogFile/Kinds makes the log
--     file of a blob by its container (CrreateAzureLogFile of parser/job.go, with the constructors
--     of parser/appgw_access_log_file.go and parser/appgw_firewall_log_file.go).
--   * Client (ProcessAzureLogFile of parser/cef.go and of parser/file_client.go): loading,
--     collecting, sending or writing, and the marks on the log file.
--   * Status, Job (parser/common.go, parser/job.go, RunJob of parser/client.go): the status of the
--     log files, their selection, the run, the sink, saving and loading.
--   * LogFile/Interface (the interface AzureLogFile of parser/common.go): what is read of a log file,
--     what is recorded on it and what loads it, with the laws of the setters; AppGw/Access/LogFile
--     and AppGw/Firewall/LogFile are the log files of application gateways behind it
--     (parser/appgw_access_log_file.go, parser/appgw_firewall_log_file.go).
--   * SourceName (getSourceFileName of the three types of record, New...LogFileFromEventLog and
--     ShortName of the three types of log file): the name that a record gives to its blob, and the
--     log file of an event log that came from elsewhere.
--   * Azure (parser/client.go): the client with its registry of jobs, and a poll by a new job. Job is
--     what such a job does; Azure/Polls follows one poll after the other, Azure/Names keeps the
--     status files of two jobs apart.
--   * Serve (parser/serve.go): the status page, made from the client that the polls leave, and in
--     Serve/Schedule the orders in which the server and its requests run beside the polls;
--     Serve/Messages and Process/Counter follow the counter of events to the page.
--   * Process (cmd/process_commands.go, Initialize of parser/cef.go and of parser/client.go): the
--     settings and the clients (Process/Setup), the switch and the loop of the process command;
--     Process/Flags has the flags that are bound, Process/BeginTime reads the begin_time,
--     Process/Rounds follows the rounds of a daemon, Process/Options says what the options come to,
--     Process/Service is the service (cmd/service_commands.go). Process/TestSend is the command that
--     sends a sample event (cmd/test_commands.go).
--   * Startup (cmd/root.go): what runs in front of each command, from the configuration file to the
--     proxy; Startup/Commands has the tree of the commands, Startup/Elsewhere follows a command to
--     another directory, Startup/Version is the version command with main (cmd/version.go, main.go).
--     FilePath cleans and joins the paths, FilePath/Join tells joined names apart.
--   * Install (cmd/service_commands.go): the commands that install, uninstall and run the service,
--     over a service manager whose laws are in Install/Managers; Install/Whole joins the start and
--     the run of the process command and of the service.
--   * Pool (pool/pool.go): the schedules of the worker pool, as a step relation. A job makes a pool of
--     one worker, and its run in Job is a loop over the tasks; Pool/Single joins the two.
--   * Json, Dict, Time, Strconv, Regex, Outcome, Resource: what the parts use of Go and its standard
--     library: decoded JSON, maps, times, ParseInt, regular expressions with leftmost greedy
--     matches and groups that do not nest, panics and exits as values, and the pattern of the
--     resource ids.
--
-- A Go function that returns a value and an error gives a pair; a panic is an outcome of its own,
-- and recover turns it into the zero values of the results. A string is its list of code points. An
-- int64 is an integer with its wrap-around written out. A time is its seconds, nanoseconds and
-- location. A range over a map may meet the entries in any order. The variable of a range loop is
-- one variable for the whole loop, as in the versions of Go that the repository is built with, so
-- an event log has cells and its slice of pointers holds their numbers. Every loop runs over a
-- list, but for that of a daemon, which has no end: its first n rounds are a definition, for each
-- n. No definition runs out of fuel.
--
-- Parameters: the storage service (Source, list_blobs), encoding/json on bytes (Source, Services,
-- marshal), the conversion of a float64 and %v (AppGw), the format of a time (Cef/Syslog;
-- Cef/Formatter/Clock has the one of the source), files and the clock (Services), and the work of a
-- task (Pool). A job is generic in its client, and the command takes what is outside a job for each
-- of its two clients. Job/Saved assumes that the JSON of a status whose times have years of four
-- digits is read back with the same entries and instants, and a file as written. The commands take
-- what viper answers (Settings), whether storage.NewBasicClient accepts an account, whether
-- syslog.Dial succeeds, the first page of a container's blobs (Listing), the storage emulator's
-- account, and the offset of the local time zone. The start of a command takes viper's calls
-- (Viper), the working directory, the folders as they are seen from it, and whether rotatelogs.New
-- takes a pattern (System), and which PersistentPreRun cobra finds for a command; the installation
-- takes the service library (ServiceManager).
--
-- Prelude has what the parts share over the native numbers: texts, lists, integers, sorting. Tests
-- has concrete inputs.
--
-- Not modelled: the connection to syslog and logging; the mutexes, and what a request for the
-- status page sees in the middle of a poll. Paths are those of Unix. A time has no zone but UTC and
-- the local one. The formats of a time are those of the names and of the syslog messages.
mod Prelude
pub mod Time
pub mod Outcome
pub mod Dict
pub mod Json
pub mod Cef
pub mod Regex
pub mod Strconv
pub mod Resource
pub mod Nsg
pub mod AppGw
pub mod Calendar
pub mod FileName
pub mod LogFile
pub mod Status
pub mod Client
pub mod Job
pub mod Pool
pub mod Azure
pub mod Slice
pub mod SourceName
pub mod Serve
pub mod Process
pub mod FilePath
pub mod Startup
pub mod Install
mod Tests
