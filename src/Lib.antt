-- ===== src/Lib.antt =====
-- Yori: a daemon that queues jobs and runs each on one GPU of a host.
--
-- A client submits a job specification. The daemon validates it, writes a queued record to the state
-- store, and lists the job in a queue derived from the store. A scheduling round picks the first
-- job of the queue's scan window that has a device, and starts it with one write that moves the
-- record to `starting` and leases the device. The store accepts a write only if every record, every
-- transition and the whole matrix of jobs and leases stay legal.
--
-- Files and the code they model:
--   Common         `std::string` as bytes, `std::map` as its entries in key order (Common/Map), early
--                  returns as a result type (Common/Results), signed times (Common/Int).
--   Job            include/yori/job/job.hpp, src/job/job.cpp: Job/Spec the data, Job/Validate
--                  `validate`, Job/State `can_transition`, `Job::create`, `Job::transition_to`.
--   Gpu            include/yori/gpu, src/gpu/gpu_provider.cpp: observations and their `validate`.
--   Process        the part of include/yori/process/process_supervisor.hpp that records hold.
--   Store          Store/Types and Store/Execution: include/yori/store/state_store.hpp,
--                  src/store/state_store.cpp; Store/Mutation: `apply_mutation` of
--                  src/store/mutation_core.cpp, one function per loop; Store/Memory: the adapter of
--                  src/testing/in_memory_state_store.cpp, faults included.
--   Queue          include/yori/queue/job_queue.hpp, src/queue/job_queue.cpp: Queue/Types the data,
--                  Queue/Operations `create`, `admit`, `remove`, `restore`, `front`, `contains`.
--   Scheduler      include/yori/scheduler/scheduler.hpp, src/scheduler/scheduler.cpp:
--                  Scheduler/Types the data, Scheduler/Select the choice of a device and the
--                  reasons to wait, Scheduler/Queued the comparison of queue and records,
--                  Scheduler/RunOnce `run_once` over any store (the record `StateStore` of
--                  Store/Types); Scheduler/InMemory takes the adapter for it.
--   Recovery       include/yori/recovery/job_recovery.hpp, src/recovery/job_recovery.cpp: the
--                  decisions and `plan` of a restart, its writes in Recovery/Recover, the
--                  verification in Recovery/Verify; the clock and /proc are arguments.
--   Ipc            include/yori/ipc/ipc_protocol.hpp, src/ipc/ipc_protocol.cpp: Ipc/Wire `Writer` and
--                  `Reader`, Ipc/Payload the frame, Ipc/Request, Ipc/Response and Ipc/Stream the
--                  messages, with their parts in Ipc/Submit, Ipc/Listing, Ipc/Device, Ipc/Inspect.
--   Service        include/yori/ipc/ipc_service.hpp, src/ipc/ipc_service.cpp: Service/Handle `handle`,
--                  and one module for each group of handlers. The store's records, the devices, the
--                  last schedule and the log files are what the record `IpcService` holds; the job
--                  control is any implementation of the record `JobControl`.
--   Job/Names and the other modules Names hold the `to_string` functions; Tests the concrete runs.
--
-- A client's request reaches the service as the bytes of a payload, with the user that the socket
-- names. The service reads the store, refuses or answers, and leaves every change to the job control.
-- A writer takes the buffer and returns it longer, or fails; a reader takes the bytes that remain.
--
-- A mutated object is passed on and returned: an operation on a queue or a store returns the new
-- one with its result. A loop is a structural recursion over what is left to visit; the loop over
-- the components of a log directory runs on fuel, the length of the path and one more, and every
-- step shortens the path, so that the fuel is enough. The loop over the entries of a device list
-- runs on the number of entries that may still follow, the limit at which the code gives up, and
-- `std::to_string` of 32 bits on ten digits. 64-bit counters wrap at 2 ^ 64, where the code adds
-- without a check; sizes of containers are natural numbers. A set or map that is only asked for
-- membership is a list. `std::sort` is insertion sort, whose result is the same since the order is
-- strict on distinct ids. Allocation failure and values outside an enumeration are left out.
--
-- Not modelled: the SQLite adapter and the NVML provider (calls of those libraries), sockets,
-- files, pipes and processes, the executor and its task runners,
-- and the two programs; the reader of log files, the transport of the protocol, the job and GPU
-- managers and the logs.
pub mod Common
pub mod Gpu
pub mod Job
pub mod Process
pub mod Store
pub mod Queue
pub mod Scheduler
pub mod Recovery
pub mod Ipc
pub mod Service
mod Tests
