-- ===== src/Lib.antt =====
-- OSBench: a model of the logic of the benchmark harness in src/osbench and tools.
--
-- The harness keeps a corpus of Contracts (YAML documents under contracts/), validates it, draws a
-- capability graph from it, runs the cases of the Contracts on a reference system and on a
-- candidate, compares what the two show, and scores the candidate by the Contracts that pass. The
-- minimizers cut a failing sequence of operations down. Validation feeds the graph and the oracle;
-- the oracle's case results feed the aggregates and the scores. The cases are generated from the
-- Contracts, with random draws, into a dataset; a target that the oracle asks can be a guest in
-- QEMU, which is started for the first case, asked over a serial socket, and stopped.
--
-- Which file models which part:
--   Contracts/Model      the fields of a Contract that the program reads, and contracts_by_id
--   Contracts/Cycles     _cycle_nodes (src/osbench/contracts.py), a depth-first search on a state of
--                        visiting, visited and the stack; below it what its results mean
--   Contracts/Validate   _validate_contracts_uncached: the scan of the files, the checks of the
--                        links, and the cycle check; Validate/Corpus says what a sound corpus is
--   Graph/Adjacency, Graph/Closure, Graph/Queries, Graph/Frontier
--                        _adjacency, _closure, prerequisites, unlocked_by, contracts_for_workload,
--                        workloads_for and frontier of src/osbench/graph.py
--   Graph/Topology       build_graph and _topology (Kahn's algorithm) with its invariant
--   Graph/Outputs        _workload_matrix and write_graph_outputs, whose files are values
--   Minimization         minimize_sequence (src/osbench/minimization.py) and ddmin
--                        (tools/minimization/minimize.py): one loop with two chunk sizes
--   Oracle/Manifest      _verify_public_dataset of src/osbench/oracle.py
--   Oracle/Selection     _case_shard and select_cases of src/osbench/oracle.py
--   Oracle/Comparison    compare (src/osbench/comparators.py) and _compare_observations
--   Oracle/Aggregate     aggregate_contract_results
--   Oracle/Run           evaluate of src/osbench/oracle.py: Run/State its variables, what it writes and
--                        persist; Run/Cases the loop over the cases, one definition per passage of
--                        its body; Run/Evaluate the checks before the run, _target, the opening and
--                        closing of the targets, the handler of an exception and the result
--                        document. Run/Steps says what a round can do, Run/Accounts and Run/Loop
--                        hold the invariant, Run/Ends the ways a run ends, Run/Correct and
--                        Run/Failure what follows, Run/Closing the openings and closings of the
--                        targets, and Run/Whole evaluate from the corpus to the document. The
--                        definition run_targets is the run where the closings return;
--                        run_selected has them as well
--   Reference            src/osbench/reference.py: Reference/Documents, Report and Shop the documents
--                        and what is found on disk; Reference/Preflight preflight_reference, with
--                        Preflight/Ready what a ready report means and Preflight/Due when which
--                        action is named; Reference/Calibrate calibrate_unsynced_outcomes, its counts
--                        and how the preflight reads it; Reference/Realize realize_lock and its
--                        helpers, with Realize/Ready how the preflight reads the realized lock
--   Generators           generic_case of src/osbench/generators.py
--   Dataset              src/osbench/dataset.py: validate_dataset; Dataset/Generate the schedule of the
--                        families and generate_cases, Dataset/Build build_dataset, with
--                        Dataset/Schedule, Generated and RoundTrip on what they give
--   Qemu                 src/osbench/qemu.py: Qemu/Profile and Qemu/Command the profile and the command
--                        line, Qemu/Options what QEMU reads in it; Qemu/Machine the state of a guest
--                        and the methods that end it, Qemu/Serial and Qemu/Agent what goes over the
--                        serial socket, Qemu/Control start and boot_check, Qemu/Qmp the control
--                        socket; Qemu/Stopping, Hearing, Listening, Waiting, Replying, Answering,
--                        Starting and Booting what these come to, and Session what qmp reads
--   Targets              LocalTarget.supports and, in Targets/Guest, QemuTarget of
--                        src/osbench/targets.py, with Targets/Ownership on what it holds
--                        and Targets/Stopped on a guest that did not boot in time
--   Payload              stage_payload and validate_payload_tree of src/osbench/payload.py
--   Utilities            sha256_tree, _atomic_write and jsonl_iter of src/osbench/util.py
--   SelfTest             run_full_local_selftest of src/osbench/full_selftest.py
--   Trajectory           result_metrics of src/osbench/trajectory.py
--   Scoring              src/osbench/scoring.py: the scores of Contracts, the gates and the depth
--   Results              validate_results and merge_results of src/osbench/results.py
--   Normalization        normalize_observation of src/osbench/normalization.py, on JSON trees
--   Precedence           topological orders and closed walks, to which both searches are held
--   Common               lists, sets, mappings, sorting, grouping and results
--   Samples              the theorems at concrete inputs
--
-- How the program is read. A Python string is a text, a mapping an association list with a missing
-- key written out, a set a list without repeats, an exception a value of Common/Result. Reading a
-- file gives a value: what the YAML parser and the JSON schema validator yield is an input, and so
-- are the test that a minimizer runs, the number that SHA-256 gives for a case id, Python's
-- equality, str and float on observations, the normalization of an observation, and the
-- floating-point comparison of a quotient with the depth threshold. Quotients of counts are kept
-- as the two counts.
--
-- A target of a run is a parameter: which cases it supports, what it gives for a case, as a
-- function of the queries made so far, and what its close comes to at the end. Each file of a run
-- is the list of what was written to it; run ids, times, host data, paths and the progress lines
-- on stderr are left out, and so are exceptions of the writing itself.
--
-- The reference component reads JSON members as the values Field, files as sizes and digests, and
-- a command that is named as an Action. A text may be compared with a digest; a list or an object
-- in the place of a digest is taken for unequal. The generator of trial cases, the target of the
-- trials, the check of a profile name and the format of a trial number are parameters.
--
-- The guest is a record of its process, its log handles, the sockets open to it and the buffer of
-- the method that reads. The host is a parameter: by moment, what the clock shows, whether the
-- process is found to have exited, what connect, recv, sendall and Popen come to, whether the
-- directory, the copy of the variables, the logs, run.json and the serial log can be made, and
-- whether the process ends after terminate and after kill. A log that a start opened and no run
-- refers to is counted as stray. The questions of one round of a loop are of one
-- moment; times are in nanoseconds, exact where the code has floats. A method returns or raises
-- with a state, and a finally runs on both. The random draws, the shuffle and the digests of the
-- generator are functions, of the seed and of what is digested. The self-test starts from the ends
-- of its shards, in the order in which they end.
--
-- Loops that are not structural run on fuel: the polling loops of the guest on rounds, for which
-- one more than there are in their time is shown to be enough, the search for cycles on two more
-- than the number of keys, the closure on the starts and the values of the adjacency, Kahn's loop
-- on the number of nodes, the minimizers on a sum that bounds the reductions and refinements.
--
-- Not modelled: hashing, parsing and caching; the probes and their workers, which are system
-- calls; the scripts that build, boot, inventory and export the reference; what is in the files
-- that a start of the guest writes; the closing of the target of a calibration; the thread pool
-- of the self-test; the command line; the summaries of results documents; the weighted mean of
-- the scores and the native thresholds.
pub mod Common
pub mod Precedence
pub mod Contracts
pub mod Graph
pub mod Minimization
pub mod Oracle
pub mod Scoring
pub mod Results
pub mod Reference
pub mod Dataset
pub mod Generators
pub mod Utilities
pub mod Payload
pub mod SelfTest
pub mod Qemu
pub mod Targets
pub mod Normalization
pub mod Trajectory
pub mod Samples
