-- ===== src/Lib.antt =====
-- A model of MZNTApp, the program of a GNSS monitoring node: it records the samples of an FPGA front
-- end to files, watches the AGC levels of its RF chip, and uploads parts of the files on request.
--
-- How the parts interact. src/HardwareManager.cpp sets the FPGA and the RF chip up and runs two
-- threads: HWThread moves each block that the FPGA has filled into the next of 494 slots of a memory
-- ring and queues its address; WriterThread pops the addresses and writes the blocks to files.
-- src/ThreadSafeQueue.cpp is the bounded queue between them, and between src/HTTPClient.cpp and the
-- worker threads of src/ThreadPool.h. src/LoggerController.cpp owns these parts: its main thread
-- samples the AGC levels, and the MQTT client calls it for each message.
--
-- The files.
-- Base, Io: lists, texts and numbers; programs that call what lies outside, which an environment
--   answers, so that a theorem for every environment is one for every behaviour of the hardware, the
--   operating system, the libraries and the other threads.
-- Hardware.Calls, Hardware.Dma: HWThread. Each function is a part of the loop's body in the source's
--   order; `hw_thread` is the thread. Dma.Rounds and Dma.Order follow the log of its calls, Dma.Ledger
--   what becomes of each interrupt, Dma.Lively an FPGA that always answers, and Lively.Ends the
--   thread's end beside it; Dma.Refines reads the log, with what other threads do between the calls,
--   as steps of the ring.
-- Hardware.Ring: the slots as HWThread, WriterThread and Stop share them, one access at a time.
-- Hardware.Writer: WriterThread; `run` takes the popped addresses and `m_writeOn`. Writer.Sizes,
--   Writer.Names and Writer.Content: the sizes, the names and the contents of its files; Writer.Cache:
--   its calls for the cache; Writer.Breaks: how many files it has finished; Writer.Paces and
--   Writer.Pauses: where it stands while it records, and while it does not.
-- Hardware.Pipeline: HWThread, the queue and WriterThread together.
-- Delivery: WriterThread and the uploads together, from the memory to the server; Delivery.Requests:
--   an upload from the position at a request on. Delivery.Bytes, Delivery.Blocks and Delivery.Files:
--   the bytes of a recorded file, its blocks, and its place among the files of its channel.
-- Hardware.Spi, Hardware.Conf, Hardware.Nt1065, Hardware.Fpga, Hardware.Mapping: GetAGCData,
--   ParseNTConfig, ConfigureNT1065, ConfigureFPGASettings, and the functions that map memory, enable
--   interrupts and synchronise the cache. Nt1065.Steps and Nt1065.Sends: what is sent to the chip.
-- Hardware.Manager: the constructor, the accessors, and the members that the other parts read.
-- Hardware.Life: InitializeHardware, Start, Stop and the destructor. Life.Quiet, Life.Maps, Life.Init
--   and Life.Serves follow the initialisation, Life.Ends follows Stop.
-- Hardware.Shutdown: Stop, HWThread and WriterThread as steps of threads, from the start to the end.
-- Queue: `push`, `pop_front` and `size` as steps of any number of threads; Queue.Atomic: the queue as
--   its callers see it.
-- Pool: the workers, AddTask and the destructor of src/ThreadPool.h as steps of threads, where `push`
--   and `pop_front` are one step each; Pool.Thread: ThreadInstance and the calls of pthread.
-- Http: HTTPClient::upload, the busy test of the pool, and the callback that libcurl reads through;
--   Http.Sends and Http.Ends: what libcurl is given, and the end of it, where each callback has come
--   through its wait; Http.Waits: the callbacks with their waits; Http.Task: UploadTask::Run.
-- Logger: the constructor and MQTT_Callback, which Logger.Recorded puts beside the writer.
--   Logger.Answers, Logger.Requests and Logger.Events follow a request to its uploads, Logger.Paced
--   beside a writer that records and Logger.Paused beside one that does not. Logger.Sound and
--   Logger.Malformed: the payloads that it cannot read. Logger.Update: Update; Update.Alerts: what it
--   tells the leader; Update.Levels: the levels that it publishes; Logger.Start: Start and Stop.
-- Mqtt: src/MQTTController.cpp and MQTTController.h over the answers of the Paho client.
-- Serial: src/SerialManager.cpp over the answers of the system; nothing in the program uses it.
-- Main: the options of src/main.cc, its main loop, and how the program ends, where a call of Start,
--   Update or Stop may also throw or never come back; Main.Sizes: the messages
--   that reach the controller made from the options.
--
-- Numbers. `unsigned long` has 32 bits on the target; wrap-around is written out. A busy wait of
-- the hardware takes fuel, and a program whose fuel runs out is `hung`: it is a prefix of a run that
-- waits longer, so a safety theorem for all fuel covers runs of any length. Undefined behaviour and
-- an exception that nothing catches end in `faulted`.
--
-- Not modelled: console output; failures of fopen and fwrite in WriterThread, which it does not test;
-- the destructor of the queue; the messages that src/LoggerController.cpp has commented out and the
-- constants that no code uses; the `double` of the milliseconds per block, which is only printed;
-- libcurl, the Paho client and the other headers under src/lib, whose calls of this code are taken to
-- come in any number and with any arguments.
pub mod Base
pub mod Io
pub mod Hardware
pub mod Delivery
pub mod Queue
pub mod Http
pub mod Pool
pub mod Logger
pub mod Mqtt
pub mod Serial
pub mod Main
