-- ===== src/Lib.antt =====
-- Transport Matters is a proxy between coding agents and their providers. It parses each request
-- into one internal model, lets stored overrides rewrite it, can pause it for an edit by hand, tells
-- the clients of a run what happens, sorts the exchanges of a run into tracks of agents, and derives
-- the turns of a Codex session from its messages. This library models those parts of the Python
-- backend, in api/src/transport_matters.
--
-- Ir: ir.py, the requests, responses and blocks; Ir/Value holds the JSON values inside of them, with
-- Python's `dict` as the list of its fields in insertion order. Canonical: canonicalization.py, the
-- canonical text whose length the audits count.
--
-- Override: the overrides. Override/Targets is override_targets.py, the target texts and the shift
-- of indices; Override/Model the `Override` of overrides.py; Override/Store override_state.py;
-- Override/Audit override_audit.py; Override/Messages and Override/Blocks override_ops_messages.py;
-- Override/Metadata override_ops_metadata.py; Override/Apply and Override/Pipeline the steps and
-- `apply_overrides` of overrides.py. A step takes the `Context` and gives its result and the next
-- context. Override/Survivors is the list theory of removals at original indices.
--
-- Breakpoint: breakpoint.py, the armed mode and the table of paused flows, one function per
-- coroutine. Breakpoint/Session: pause_session.py with the comparisons of request_diff.py. The
-- tasks, their cancellation or failure, the routes of the API and the timeout are the steps of a
-- relation on the table, the serializer lock and the tasks' phases, so every interleaving is a path
-- of steps.
--
-- Broadcast: broadcast.py, the queues of the subscribers.
--
-- Track: track_manager.py. Track/Response observes a response, Track/Request resolves the tool
-- results of a request, Track/Assign chooses its track and records an exchange. A KeyError is
-- `none`.
--
-- RequestPipeline: `run_pipeline` of request_pipeline.py, which assigns a request to its track and
-- applies the overrides of that track's scope to it.
--
-- Codex: the turns of a Codex session over a WebSocket, from codex/. Codex/Protocol and
-- Codex/OpenTexts are protocol.py and json_utils.py, Codex/Events events.py, Codex/Contract
-- derivation_contract.py, Codex/EventData derivation_events.py, and Codex/Engine, Codex/Advancing
-- and Codex/Derive derivation_engine.py: a turn's events and summary are derived from its messages,
-- by a replay from the start or by an advance from the cursor of an open turn. Codex/Update is
-- exchange_derivation.py and its use in exchange.py. A ValueError is `raises`, a None `absent`. The
-- other files of Codex hold the proof that the two ways agree: the state of an advance is that of
-- the replay without the earlier events and with its open texts sorted.
--
-- SharedProxy: the proxy that runs share, from shared_proxy/. SharedProxy/Payloads is models.py and
-- the bindings of binding.py, SharedProxy/Manager manager.py: the tables of the runs, of their ports
-- and of the overrides, whose calls hold one lock and so follow one another. The subprocess, its
-- control channel and the timed wait for it are a `Proxy`, which tells of each request whether it
-- raises, and whether that was the cancellation of the call.
--
-- Prelude has the shared helpers. A `str` is the list of its code points, an `int` is an integer of
-- Prelude/Int, a `dict` an association list of Prelude/Dict. Tests runs the code on concrete data.
--
-- Loops are structural recursion. `print_from` of Prelude/Decimal alone has fuel: one more than the
-- number that it prints, which has no more digits than that. Parameters stand for `json.loads`, for `json.dumps`, for
-- the equality of requests, for the adapter that writes a request as text, and in the pipeline for
-- the exceptions of `apply_overrides` that Python's own functions raise.
-- Numbers with a fraction are held as their canonical text, since Python's float printing is not
-- modelled. Logging, the mitmproxy objects, authentication headers, the background count of tokens
-- and the limits of memory are left out, as are the frames, the HTTP derivation and the repair of
-- codex/. The remaining packages (session, storage, index, space, cli, api, adapters, harnesses),
-- the rest of shared_proxy and the processes that the run manager supervises are not modelled: most
-- of what they do is input and output.
pub mod Prelude
pub mod Ir
pub mod Canonical
pub mod Override
pub mod Breakpoint
pub mod Broadcast
pub mod Track
pub mod RequestPipeline
pub mod Codex
pub mod SharedProxy
pub mod Tests
