-- ===== src/Lib.antt =====
-- pget, a command-line downloader: a resource is cut into chunks, which parallel workers fetch by range
-- requests and write to a file in any order, or to a stream in order; a sidecar file next to the
-- destination remembers the finished chunks, so that a later process can resume.
--
-- The command line (internal/cli) becomes an execution plan. For each URL the runner (internal/job)
-- asks the HTTP adapter (internal/adapter/http) for the size, a validator and whether ranges work; the
-- planner (internal/chunk) cuts the size; the scheduler (internal/schedule) gives chunks to workers
-- and takes their reports; the workers hand the bytes to a sink (internal/sink), which keeps the
-- sidecar (internal/sidecar) up to date.
--
--   Base      lists, texts and numbers: Int64 is Go's int64 as its bit pattern below 2^64, with the
--             wrap-around and the signed order of Go; Int is a counter that may become negative; Text
--             is what the code uses of the packages strings and strconv, on bytes; Decimal prints numbers.
--   Chunk     internal/chunk/chunk.go: Planner.Plan is `plan`, Planner.ChunkCount `chunk_count`.
--             Tiling is about what Plan computes.
--   Schedule  internal/schedule: State is Scheduler and New, Stats stats.go, Assign NextAssignment and
--             what it calls, Report MarkComplete, MarkFailed, OnPressure, OnAdmissionFailure and
--             OnWorkerSuccess, Hedge the speculative duplicates. The other modules are proofs:
--             Counts, Invariant, Preserve, Steps and Assignment on all runs, Evolve and Tally on calls
--             without discipline, Dispatched, Sweep and Waiting on why a worker waits, Attempts on how
--             often a chunk is tried, Resume, Backoff, Masked.
--   Sink      internal/sink: Stream is stream.go, each critical section of its mutex a function; Order
--             and Delivery are about all interleavings of Submit, Reserve, Close and writeLoop. File is
--             WriteChunk of file.go, with Placement and AnyOrder on where bytes come to stand; Finalize is
--             NewFileSink and Finalize, as the list of calls of the operating system that succeed.
--   Sidecar   internal/sidecar/sidecar.go: Bitmap is EncodeBitmap and DecodeBitmap, on Base64; Manager
--             is the manager's operations; Marks is about marking and reading back; Hash is
--             HashURL and HashURLList.
--   Cli       internal/cli: the plan (plan.go), Options the table, Size parseSize, Setting setOption,
--             Parser parseOptions and the long and short forms, Parse validate and Parse. Sound, Handlers,
--             Validity and Spelling are proofs.
--   Http      internal/adapter/http/adapter.go: Filename, Probe, Range and Sequential are what the adapter
--             makes of a response, Request and Redirect what it sends; Accepts and Answered are about
--             an honest server.
--   Ftp       internal/adapter/ftp/adapter.go: Address is resolveAddr, dial and Probe, Range the reader of
--             a range with io.ReadFull on it; the connection is a parameter that keeps to io.Reader.
--   Job       internal/job/runner.go: Naming the names and labels, Exit the exit codes, Route runOneJob,
--             Sequential downloadSequential. Worker is workerLoop, as moves from one access to shared
--             state to the next; Run is runWorkers, a step relation in which any worker may move; its
--             modules Delivered to Safety carry an invariant from the moves to all reachable
--             states; Kind and Frame are about what no worker touches, Attempts about retries.
--             Download is downloadParallelFile and downloadParallelStream: File is about the whole of
--             the one, NewSidecar the sidecar it begins with, Outside the bytes
--             around it, Tries its attempts; Stream adds the writer as a further process, and its
--             modules are about the other.
--             Output is Run with one file for all URLs, Concatenated and Continued what the file holds in the
--             end, Created what runOneJob makes of a file that Run has created. Main is cmd/pget/main.go,
--             background.go and Run up to its loop.
--   Progress  internal/progress/progress.go: the bar's state and its line; Layout is about its width.
--   Version   internal/version/version.go: init, String and what they take from the build information.
--
-- The panic of a division by zero or of a negative length is `none`, and so is an index or a slot of -1;
-- errors are values of a data type per component. The clock is an argument of the operations that read
-- it. All functions are structurally recursive. Two have fuel: io.ReadFull in Ftp.Range, where one
-- more than the reads that the connection can answer is enough, and the printing of a number, where
-- one more than the number is. A rune of a group of short options
-- is decoded as Go does it; upper case and white space are those of ASCII.
--
-- Not modelled: the requests of net/http, TLS and OpenSSL, the FTP client library, the terminal, the start
-- of a background process, the sum of SHA-256, and floating point numbers.
-- What the operating system answers to a read, a write or a rename is an argument. A worker's request
-- and the reading of its body are one step; the ticker of the progress bar has no definition.
pub mod Base
pub mod Chunk
pub mod Cli
pub mod Http
pub mod Job
pub mod Ftp
pub mod Progress
pub mod Version
pub mod Schedule
pub mod Sink
pub mod Sidecar
