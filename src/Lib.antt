-- ===== src/Lib.antt =====
-- The engine of the park's agent harness: a loop that asks a model, runs the tool calls that a
-- gate allows, and commits each iteration to a conversation store.
--
-- The parts, and how they interact. `run_loop` (src/agent_loop/loop.py) owns a conversation and a
-- budget that is shared with its tools. One iteration repairs the message sequence
-- (src/agent_loop/repair.py), checks interrupt and budget (src/agent_loop/budget.py), assembles the
-- prompt, compacts it where a compactor says so, calls the model, sorts the calls of the turn by the
-- gate's verdict (src/agent_loop/gate.py, src/agent_tools/gate.py), runs the allowed ones by the
-- executor (src/agent_loop/dispatch.py), checks what ran by the verifier (src/agent_loop/verify.py),
-- and commits messages and boundary to the store (src/agent_loop/conversation.py). A call that waits
-- for a confirmation is frozen by the control capability (src/agent_loop/control.py), and the next
-- call of `run_loop` resolves the batch.
--
-- The files.
--   Base, Exec       shared lists, text and maps; actions that change a state and may raise.
--   Json             argument values, src/agent_loop/messages.py `dict`.
--   Message          messages.py and pending.py.
--   Repair           repair.py; Repair/Legal says what a legal sequence is.
--   Budget           budget.py and config.py.
--   Plan             plan.py: `PlanState.replace` and `derive_plan`.
--   Tools            tools.py, `Boundary` and `Conversation`, and agent_context/principal.py.
--   Gate             gate.py, and catalog.py, gate.py and loader.py of src/agent_tools.
--   Dispatch         dispatch.py and verify.py.
--   Store            the in-memory store of conversation.py.
--   Loop             loop.py: Prompt and Turn are the two halves of an iteration, Batch the calls of
--                    a turn, Watch the watchdogs, Run the entry, the main loop and the exits.
--   Loop/Ledger      what a run promises of any transactional store; Loop/Memory is one.
--   Proposal         src/agent_tools/proposal.py; Proposal/Capability is `ProposalControlCapability` of
--                    proposal_control.py, Proposal/Backend its `_execute`, Proposal/Ledger the ledger
--                    that it writes ahead, with the statements of src/agent_loop/pg_store.py,
--                    and Proposal/Interleaved approvals that overlap.
--   Control          `FakeControlCapability` of src/agent_loop/control.py.
--   Subagent         src/agent_loop/subagent.py: a loop as a tool of another loop.
--   Audit            src/agent_loop/audited_store.py.
--   Codec            src/agent_loop/codec.py.
--   RedisStore       src/agent_loop/redis_store.py, over a server given by its commands.
--   History          src/agent_context/history.py: what a view leaves out of the log.
--   PlanTool         the tool of src/agent_loop/plan.py and its plain rendering.
--   PlanView         src/agent_context/plan_view.py: the plan as text, the log without plan calls.
--   Compaction       the parts of history.py on summaries, and tokens.py; Compaction/Compactor is
--                    src/agent_context/compactor.py.
--   Memory           src/agent_context/memory.py; Memory/Scrubber is its scrubber of streamed text.
--   SystemPrompt     src/agent_context/system_prompt.py.
--   Assembler        src/agent_context/assembler.py, and the wrapping of knowledge.py.
--   Identity         src/agent_tools/identity.py, and the facade of src/agent_tools/runtime.py.
--   Ground           src/agent_tools/grounding.py; Ground/Control is `ground_control`.
--   Propose          src/agent_tools/propose.py.
--   Examples         a scripted model, two tools and the in-memory store, at concrete inputs.
--
-- State. The loop's state is `Machine`: the messages, and the `Host` that the seams see, with the
-- shared budget, the plan and a world `W` of any type (stores, devices, model, clock, interrupt
-- flag). A seam is a function on that state which may raise where its failure reaches the loop, so a
-- model, an assembler or a store is any such function; a handler may change the budget and the
-- world. Tasks that are gathered run one after the other in the order of the calls. What was
-- written before a raise stays written. The gate and the verifier are functions that do not raise.
--
-- Fuel. `main_loop` takes the number of iterations it may run; more than `max_iterations` is
-- enough, because each iteration that goes on has taken one of the loop's own steps.
--
-- The ledger. `IsLedger` is the interface between the loop and a store: a transaction is done as a
-- whole or not at all, and no other seam writes to the thread. The in-memory store satisfies it, and
-- so does the audited one over any store that does.
--
-- The context. `assemble` lays the system prompt, the view of the log, the plan and the note on the
-- window out, and repairs the sequence. The view is a chain of functions of src/agent_context: the
-- summary in place of what it covers, results of answered tasks shortened, plan calls left out, old
-- turns cut, results wrapped. Text functions that the language gives (lower case, the text of a
-- value, the parsing of numbers) are parameters; a result of `none`, or an error of `Assembled`, is
-- what the source raises. The assembler is one of the functions that the loop takes as its seam.
--
-- Controls. `propose_control` finds the device and calls `ground_control`, which reads the backend's
-- dictionary of parameters; a proposal that it registers is what `freeze` of the control capability
-- takes later. The backend's reads are functions of the ids.
--
-- The Redis store. A server is a type of states with six commands, and `IsRedis` says what they do to
-- lists. The state mirrors the store in memory if each thread's lists are its encoded log and
-- boundaries. Time does not pass in that model, so that nothing expires, and a time to live is
-- positive. The loops of the scrubber run on the length of the text, of which each round takes a tag
-- off.
--
-- Messages are values here. The source merges user messages, also for the nudge in a prompt, by
-- writing to a message object that the conversation, the prompt and a log in memory may share, so
-- that their contents change too. The theorems on the repair are about the list that is repaired,
-- and those on a run say nothing of the contents of users' messages in the conversation or the log.
--
-- The ledger of controls. `resolve` is one function on the store, the ledger and the world; its runs
-- follow each other. Proposal/Interleaved cuts an approval at its statements instead, each of which is
-- atomic, and lets any number of approvals take them in any order and end early, as a process that
-- crashes or a guard that stops does. The database does not fail in either.
--
-- Logins. `login` compiles the backend's codes to the permissions of a principal, which the loader and
-- the gate of the catalog read. The mapper is any function on lists of codes.
--
-- Not modelled: the pauses between attempts, log text, the HTTP and database clients, the vector
-- store and the model services, the retrieval package (a copy of another project's), and the parts that
-- the manifest lists as not modelled.
mod Base
pub mod Json
pub mod Message
pub mod Repair
pub mod Exec
pub mod Budget
pub mod Plan
pub mod Tools
pub mod Gate
pub mod Dispatch
pub mod Store
pub mod Subagent
pub mod History
pub mod Identity
pub mod Memory
pub mod SystemPrompt
pub mod Assembler
pub mod Ground
pub mod Propose
pub mod RedisStore
pub mod Compaction
pub mod PlanTool
pub mod PlanView
pub mod Loop
pub mod Proposal
pub mod Audit
pub mod Codec
pub mod Control
pub mod Examples
