-- ===== src/Lib.antt =====
-- FMAN, an HTTP client that runs plans of requests with assertions on their responses.
--
-- A plan is a text in a small language. The lexer (src/dsl/dsl_lexer.c) cuts it into tokens, the parser
-- (src/dsl/dsl_parser.c) builds a RunPlan from them, the engine sends the plan's requests to workers, and
-- the assertions (src/core/assertion.c) are evaluated on the responses. The queue (src/core/queue.c) carries
-- requests to the workers and responses back; a dispatcher hands responses to the database's worker, and the engine
-- finds them in the database (src/core/db_manager.c). Modelled are the path from a plan's text to the plan, the
-- engine's run of a plan over its services, the threads and their queues, the database's functions, the evaluation
-- of an assertion and what is printed of it. All paths below start at the repository's root.
--
-- Prelude     shared names: tests, lists with indices, texts as lists of byte codes, integers.
-- Models      include/core/models.h and assertion.h: Response, Value, Assertion, AssertionResult.
--             Models/Create has src/core/models.c: create_request and its like, with the buffers that they
--             allocate and give back. Its Copied is about these, Holds about what a request holds.
-- Assertion   src/core/assertion.c. `eval_assertion` stands in Assertion, `bytes_contains` in
--             Assertion/Search, `header_contains` in Assertion/Header. Assertion/Header/Trim, Cut, Colon and
--             Lines are about the header search, Assertion/Eval is about `eval_assertion`.
-- RunPlan     include/core/run_plan.h and src/core/run_plan.c: the plan, init_run_plan, free_run_plan,
--             which answers with the buffers that it gives back. RunPlan/Frees is about these. RunPlan/Results
--             has the results of a run, init_run_result and free_run_result.
-- Dsl/Token   include/dsl/dsl_token.h.
-- Dsl/Lexer   src/dsl/dsl_lexer.c, a function for each function of the source. Dsl/Lexer/View sees a
--             lexer as the text read and the text left; Spelling, Scan, Raw and Next are about tokens.
--             Dsl/Lexer/Tokens has `dsl_lexer_get_tokens`; its Gathers is about the array.
-- Dsl/Parser  src/dsl/dsl_parser.c: helpers and assertions; statements, the loop and the entry point are
--             in Dsl/Parser/Program. A parser function takes parser and plan and gives back its Boolean
--             with both. Ensures has the rules for one function after another; Fits, Expect and
--             Program/Bounds are about the plan, Program/Progress and Program/Ends about the loop's end.
--             Tokens has the tokens that a parser holds and gives back.
-- Dsl/File    src/dsl/dsl.c: a plan from a file. The file system is a parameter, the bytes of a path's file.
-- Queue       include/core/queue.h and src/core/queue.c, on a heap of nodes. What runs under the lock
--             is one step, and a wait that cannot end is an answer, so several threads are one sequence of
--             calls. Queue/Chain is about the nodes, Queue/Fifo about each operation, Queue/Runs about
--             sequences of calls, Queue/Destroy about the end.
-- Cli         include/cli/cli_parser.h and src/cli/cli_parser.c: the options of a command line; Cli/Hex has
--             `parse_hex_bytes`, Cli/Output src/cli/cli_output.c, whose functions answer with the bytes that they
--             write: its Hexadecimal, Marks and Numbers are about bytes, ticks and numbers. `atoi` is a parameter here, since
--             any argument may reach it.
-- Worker      src/core/worker.c. Worker/Buffer has write_callback and header_callback on blocks of memory:
--             Grow is about a block that grows, Chunks about one call, Transfer about all calls of a
--             transfer, Keeps about the request's id. Worker/Headers has parse_headers, Worker/Curl the
--             options that a request sets, Worker/Http a round of http_worker_routine, as the list
--             of what it does to the things that it owns. Rounds lists the ways through a round, Owned is about
--             what is given back, Answers about the response. libcurl, realloc, malloc and the
--             response queue are parameters: `Env`, `Realloc`.
-- Database    src/core/db_manager.c over SQLite, a parameter: `Sqlite`. Save and Load have the functions that write and
--             read rows, Connect the rest. Statements is about the statements that are open, Transaction about
--             db_get_next_pending_request, History about a response that is saved and loaded; Tables says what
--             SQLite does with the rows of the responses.
-- Engine      src/core/engine.c: run_plan over `Services`, the operations of the database, the runtime and
--             the constructors on a state of the world. Passes is about the loop that collects the
--             responses, Exit about the exit code, Later about the worlds that a run comes to, Answers about the
--             requests that the responses answer, Keeps about what the services keep. Connected has the services
--             by Database, Models and Orchestrator, with what the other threads do as a parameter: Polls is
--             about wait_for_response, Answers about the rows that responses are read from, Closes about what
--             is left behind a run.
-- Orchestrator src/core/orchestrator.c: create_runtime, destroy_runtime and wait_for_response. Closes is about
--             what is made and given back, Waits about the order of the end and the polls. Dispatch has
--             dispatcher_routine and db_worker_routine, each on the list of what it pops. Pipeline has the threads
--             over their queues as steps in any order: Kept is about what they lose.
-- Commands    src/cli/commands.c: the commands get and run, over the file system and the engine's services. A
--             command answers with its exit code, the result that it prints and what it gives back.
--             Copies is about the copies of the assertions, Exit about the exit code. Commands/Main has
--             src/cli/main.c and `free_cli_options`, Ends is about what the program leaves, Commands/Print has
--             print_run_result and print_usage.
-- Witnesses   the theorems at concrete inputs; several modules have their own. Tests of the models are in Tests
--             modules beside them.
--
-- A `char *` is an optional list of byte codes up to the terminator. A size is a natural number and an int an
-- integer: nothing modelled comes near the bounds of their types but `atoi`, which the parser calls on a
-- run of digits and which C leaves undefined beyond an int. A double is its bit pattern. Pointers
-- into a text are the rest of the text. An allocation asks the environment: `DslLexer.allocs` lists its
-- answers, true for memory, and behind the list's end every allocation succeeds. Reading and writing of
-- fixed arrays is by index in lists of the array's length.
--
-- Fuel: `dsl_lexer_next_token` calls itself only behind a comment, which ends at a newline or the end,
-- so depth 2 is enough. `header_loop` reads a byte or more in each round and gets one round more than
-- there are bytes. `parse_program` gets two rounds more than the source has bytes, and returns `none` if
-- they run out.
--
-- The engine's loops and those of the worker count their rounds; the loop of parse_headers reads a byte at
-- least in each round and gets one round more than there are bytes.
--
-- `gather` gets two rounds for each byte of the source and two more: a token takes a byte at least, but for a raw body
-- behind its keyword, and the last.
--
-- `poll` and `poll_db` get as much fuel as the timeout, and use up 100 in each round.
--
-- Not modelled: sockets, what SQLite does with a statement, and what is written to stderr; threads that stop
-- while others go on; log lines; the freeing of the records of lexers and parsers; the benchmark below tools.
pub mod Prelude
pub mod Models
pub mod Assertion
pub mod RunPlan
pub mod Dsl
pub mod Queue
pub mod Cli
pub mod Worker
pub mod Orchestrator
pub mod Database
pub mod Engine
pub mod Commands
pub mod Witnesses
