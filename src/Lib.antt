-- ===== src/Lib.antt =====
-- The engineering platform API: its release control plane, and the stores that keep it safe.
--
-- The program (Python, src/eng_platform_api) accepts release and deployment requests, runs quality
-- builds on GitHub Actions or Cloud Build, and publishes releases. Its services keep documents in
-- Firestore, or in a module's dict under a lock where no collection is configured; every operation
-- is one transaction that reads a document, checks it and updates that version.
--
-- Base.antt          names of the libraries, tests on numbers and texts
-- Python/            Python data: values of a document and their ==, truth value, str and int
--                    (Value), dicts (Dict), exceptions and the process around a call (Raise),
--                    collections of documents and how a call changes them (Store, Store/Lift)
-- Release/           src/eng_platform_api/services/release_executions.py: the status machine
--                    (Status), the checks of a write (Validate), writes by a provider and engine
--                    events (Admission), fingerprint and reservation (Reserve), handoff, submission,
--                    build binding and publication (Claims), tokens (Tokens), planner recovery
--                    (Planner), the one-time quality bootstrap (Bootstrap), all operations as data
--                    and histories of them (Ops)
-- Release/Spares, Silent, Evolution, Identity, Settled, Dispatch, Exclusive, Binding, Events
--                    the proofs about release executions
-- Deployment/        src/eng_platform_api/services/deployment_executions.py: its operations
--                    (Executions), histories of them (Ops), and the proofs about the locked
--                    provider, dispatch, reservation and events (Locked, Once, Reserved, Events)
-- Circuit/           src/eng_platform_api/services/executor_circuits.py: the circuit, its opening
--                    and usage alerts (State), health probes (Probe), their reports and the closing
--                    (Recovery), histories (Ops), and the proofs (Unproven, Requests, Replay,
--                    Alerts)
-- LogBudget/         src/eng_platform_api/services/log_budget.py: the document and its validation
--                    (Record), what reserve and finish do to it (Permits), the compare-and-swap loop
--                    with other clients around it (Swap), histories (History), and the proofs
--                    about the loop (Atomic), the documents that calls write (Valid, Queue,
--                    Invariant, Writes), and the order and spacing of permits (Turn, Grants,
--                    Pending)
-- DatabaseSort/      src/eng_platform_api/services/database_sort.py: records and their order (Order),
--                    the heap merge (Merge), keys and limits of a row (Rows), runs, levels and
--                    compaction (Runs), the whole sort (Output), and the proofs about its output
--                    (Sorted, Merged, Kept, Steps, Grown, Delivered, Ordered), its errors (Errors,
--                    Refused), and its runs and memory (Tidy, Deleted)
-- Tests/             the theorems at concrete documents
--
-- Documents are finite dicts from texts to JSON values; numbers in them are naturals. The order of
-- the keys of a dict is never read by the program and is not modelled. A status is a text or absent:
-- the TypeError that Python raises for a list or a dict in `status in {...}` is a refusal here, and
-- the TypeError or AttributeError for a field of another type than the code stores in it is not
-- modelled. A call reads its clock once. Times, digests, json.dumps, the repr of a container and the
-- grammar of int() are parameters (Env). A Firestore transaction and the process lock both make a
-- call atomic; stage_planner_retry and reconcile_submission_absent read first, so that read is of a
-- store of its own, which may be any older or other one; record_probe does the same.
-- In LogBudget times are natural numbers of microseconds, and a document whose keys or types are not
-- those of a budget is the one constructor `malformed`, since its validation refuses each of them. The
-- document's update time stands as a revision that every write changes; a Round says what other
-- clients write before the read and before the write of a try, where the deadline is found expired,
-- and whether the write's reply is lost. The arithmetic of the deadline itself and the document's
-- coordinates are not modelled.
-- In DatabaseSort the callbacks of the storage are parameters: `write_run` answers a reference and
-- `read_run` its lines; the theorems ask that what was written is read back (IsDurable). Keys are
-- compared by a weak order (KeyOrder), the decimal and temporal keys being parameters; lengths of JSON
-- texts are parameters too. `list.sort` and `heapq` are an insertion sort and an ordered list. The
-- deadline and authorization checks, which can only end the sort, are left out, and so are the chunks
-- in which a run is read. `add` has a unit of fuel for each run of the levels and one more, `shrink`
-- one for each run, `drain` one for each record, which is enough, since each compaction replaces eight runs by one.
-- Python's recursion over its own data is structural here and needs no fuel; the search for the last
-- separator of an image name takes the length of the name, one unit for each separator.
--
-- Not modelled: HTTP routes, request models, configuration, provider clients, executors in
-- containers, regular expressions over logs, and the read-only queries over collections.
pub mod Base
pub mod Python
pub mod Release
pub mod Deployment
pub mod Circuit
pub mod LogBudget
pub mod DatabaseSort
mod Tests
