-- ===== src/Lib.antt =====
-- microservice_common: a library of parts that microservices share. This development models the
-- parts that keep what a service did and stored, and those that take its commands.
--
-- The parts and how they interact. A WriteAheadLogger (system/wal.cpp) records client operations,
-- child processes and user registrations through an interface, IWALPersistenceService
-- (common/ms_common_types.h). The SystemEnvironmentFacade (system/system_environment_facade.cpp)
-- implements that interface by calls of a DatabaseManagerBase (storage/database_manager_base.cpp),
-- which keeps the records in collections of a MongoDB database, beside the payload of persistence
-- sets and the descriptions of their sessions. A ProcessLauncher (system/process_launcher.cpp) starts
-- the child processes whose pids the log records, and watches over them. A ThreadPool
-- (system/thread_pool.cpp) runs tasks in threads of its own, and the ThreadedMultitaskService
-- (system/threaded_multitask_service.cpp) calls its clients in turn. A CommunicationGatewayFacade
-- (communication/communication_gateway_facade.cpp) opens the networks of a service, of which the
-- Shell (communication/shell.cpp) is one, over a domain socket, and queues the commands that a factory
-- makes of the requests they bring, those that the log found interrupted among them.
--
-- The files:
--   Base      tests, lists, counting, integers over the native numbers, 32-bit and 64-bit words,
--             numbers as texts.
--   Common    common/ms_common_types.h: the records; and what a call ends in (a value, a failed
--             assert, undefined behaviour). Common.Persistence holds the metadata of persistence sets
--             and their conversions to and from texts (common/ms_common_utils.h).
--   Mongo     the driver (mongo-c-driver), which is not in the repository: a record of operations
--             with their documented laws, a parameter of all that uses it. Mongo.Memory is one
--             driver that meets the laws, for the tests. Mongo.Encoded and Mongo.Steps hold the
--             lemmas on collections of encoded items and on groups by logic step.
--   Database  storage/database_manager_base.cpp: State for its collections, Operations, Events and
--             Registrations for those of the log, Descriptions for session descriptions, Payload for
--             trajectories, Sessions for what is computed from a payload. A method `doThis` is the
--             function `do_this` from the state to the new state and the result. Metadata has the
--             reading of the sets' metadata, Metadata.Writing the methods that make a set, and
--             Metadata.Deleting those that delete a set's metadata, or the data of a context.
--   Wal       system/wal.cpp: Logger for its methods, Service for the interface with the laws that
--             the log relies on, Journal for the abstract contents, History for sequences of calls.
--   Environment  system/system_environment_facade.cpp: the interface filled by the database;
--             Environment.Starting has init, which cleans the journal or kills the child processes
--             that were left. What the lock file and the database answer is an argument.
--   Launcher  system/process_launcher.cpp: the launcher of child processes, its observers, its queue
--             of launch tasks and a turn of its monitoring thread, as steps of one state. What the
--             operating system gives (the result of fork, which processes run) is an argument.
--   ThreadPool  system/thread_pool.cpp: the pool as a relation of what callers and workers do in turn.
--             A worker's loop is cut at its lock and at each assignment that others can see.
--   Locks     system/process_launcher.cpp: getLock and releaseLock over named semaphores.
--   Multitask  system/threaded_multitask_service.cpp: the clients of the thread that dumps to the
--             database.
--   Gateway   communication/communication_gateway_facade.cpp: the queue of commands and the networks'
--             records; Gateway.Connections has init and the methods that make, find and close
--             connections, and Gateway.Parts tells what the settings ask for. What a network answers when it is started is an argument.
--   Shell     communication/shell.cpp: a server's turn, its descriptors and its observers;
--             Shell.Framing has the messages with their size before them, over a stream that is a
--             parameter.
--   SystemMonitor  system/system_monitor.cpp: which video card a video server is given.
--   Utilities common/ms_common_utils.h: addresses and texts.
--   Tests     each theorem applied at a concrete input.
--
-- Numbers: a TPid, a session number and a logic step are integers of the width that BSON keeps, and
-- no arithmetic is done on them but the step after a step, so that no bound is written. A context and
-- a mission are 32-bit words, which are stored as signed ones, and a set's number is cut to 32 bits
-- where the code asks for it as such. A double is its 64 bits. Loops run over the documents of a
-- cursor, or over another list, and end with it. The digits of a number are computed on fuel, one more
-- than the number, which has fewer digits. Uninitialised memory that the code reads is a parameter
-- `stale`, by turn for the events and the trajectories, and what an unset filter holds `leftover`.
-- The generators of task and client numbers are int32: counting past the last value is undefined.
-- The generator of connection numbers is int64 and is taken not to reach its end. The timeouts of the
-- networks are int32. A size before a message is four bytes on a little-endian machine, and one of
-- 2 ^ 31 or more, or for which the stack has no room, is undefined.
--
-- Not modelled: logging and memory management; the connection and the indexes of the database, where
-- the index of a new set's collection is an argument; concurrent calls (the methods and the turns of a
-- thread are modelled as run one at a time); the pipes of the launcher; the shell's client threads
-- apart from the loop over a payload; the AMQP client, the web server, the web socket and HTTP clients
-- and the object representation, of which the facade's model takes what they answer; the reader of the
-- configuration; what the monitor reads of processes and cards; files, times and signals. A payload
-- collection is taken to belong to one persistence set.
pub mod Base
pub mod Common
pub mod Mongo
pub mod Database
pub mod Wal
pub mod Environment
pub mod Launcher
pub mod ThreadPool
pub mod Locks
pub mod Multitask
pub mod Tests
pub mod Gateway
pub mod SystemMonitor
pub mod Utilities
pub mod Shell
