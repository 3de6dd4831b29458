-- ===== src/Lib.antt =====
-- 9sh: a shell whose language, kyu, works on values, files of a namespace and jobs.
--
-- The program's parts. The REPL (replui/) reads a line, asks kyu/parser whether its brackets are
-- closed, and hands the text to kyu/lexer, kyu/parser and kyu/eval. An external command becomes a job
-- of job/, which finds its program with pathresolve/ and is controlled through a tree of files; other
-- shells reach that tree over remote/. session/ records what happens.
--
-- What is modelled, file by file.
--   Prelude.antt, Prelude/   Boolean tests, lists and integers over the native numbers, and texts
--   Std.antt, Std/           the functions of Go's strings, path and filepath that the code calls
--   Kyu/Token.antt           kyu/token/token.go: Kind, Token, the keyword table, LookupIdent, String
--   Kyu/Lexer.antt, Kyu/Lexer/Scan.antt
--                            kyu/lexer/lexer.go: the whole lexer. A text is a list of code points, and
--                            a cursor is its unread suffix with the line and the column; `src[a:b]` is
--                            taken between two suffixes. The lexX methods keep their names; the last
--                            switch of Next is `operator` with `emit_op`.
--   Kyu/Lexer/, the others   how the cursor moves, what a call of Next reads, whole streams, strings
--   Kyu/Ast.antt             kyu/ast/ast.go: the nodes; an expression that is nil is `missing`
--   Kyu/Parser.antt, Kyu/Parser/
--                            kyu/parser/parser.go: the whole parser. State has the tokens, the errors and
--                            the monad of a method that may run out of fuel; Compound, Braces, Control,
--                            Operand and Statement have the methods under their names, over the record
--                            `Rules` of the methods that they call back; Whole ties the knot on fuel.
--                            strconv.ParseFloat and time.ParseDuration are the parameter `Literals`.
--   Kyu/Parser/Total.antt, Kyu/Parser/Total/
--                            termination of the methods
--   Kyu/Brackets.antt        BracketDepth of kyu/parser/parser.go
--   Kyu/Value/Record.antt    Record of kyu/value/value.go: its keys, index and two maps, with Get, Set,
--                            SetField, SetBacking, Clone and RecordFrom. What a live field reads and
--                            writes is a parameter over a state of the world.
--   Kyu/Value/Data.antt      the values of kyu/value/value.go, with Kind, Truthy, IsTable, Equal and
--                            Compare. A record stands there as its keys with what Get reads of each
--                            at the moment of the call; a float64 is a parameter with == and <.
--   Kyu/Times.antt           humanizeDuration and pluralUnit of kyu/eval/timefmt.go; the decimal digits
--                            of a number are a parameter
--   Kyu/Eval/Operators.antt  the operators of kyu/eval/eval.go: evalArith, nsUnion, evalComparison and the
--                            switches of evalBinary and evalUnary, on the values of the operands
--   Kyu/Eval/Collections.antt
--                            range and zip of kyu/eval/collections.go
--   Kyu/Eval/Scopes.antt     Env of kyu/eval/env.go, with NewEnv, Define, Get, Set, Delete and Names, and
--                            unset of kyu/eval/vars.go. An *Env is a number in a store of scopes, so
--                            that scopes share their parents; a value is a parameter there.
--   Kyu/Machine.antt, Kyu/Machine/
--                            the evaluator: evalStmt, evalExpr and the functions around them of
--                            kyu/eval/eval.go, call and callClosure of kyu/eval/callable.go, and evalInNS of
--                            kyu/eval/inns.go. The state has the scopes, the records, callDepth,
--                            lastExitCode and the namespace; a record or a scope is a number. Values has
--                            Equal over such records, Host what is read from the state and the parameter
--                            `Host`, Calls the statements and calls, Forms and Control the expressions, over
--                            the record `Rules` of the functions that they call back; Whole ties the knot
--                            on fuel.
--   Kyu/Machine/Straight.antt, Cycles.antt
--                            fuel: programs with a bound, and programs without an end
--   Kyu/Machine/Depth.antt, Kyu/Machine/Depth/
--                            callDepth over the whole evaluator
--   Kyu/Machine/Closures.antt, Namespaces.antt
--                            calls of closures, and in_ns
--   Kyu/Builtins.antt, Kyu/Builtins/Rows.antt
--                            fourteen builtins of kyu/eval/builtins.go over the evaluator's values and state:
--                            biTake and the others on lists, biWhere and biEach with the calls that they
--                            make, biUniq with its comparisons, and `builtin_of`, which finds them by name
--   Kyu/Builtins/, the others
--                            take and skip, and uniq
--   Std/Int64.antt           Go's int64 and its operators
--   PathResolve.antt         pathresolve/pathresolve.go: LookPath, Names, lookupEnv
--   Job/Buffer.antt          job/growbuf.go: Write, Close and Read, each a function of the buffer
--   Job/State.antt           the types of job/job.go
--   Job/Control.antt, Job/Control/Ending.antt
--                            the methods of Job in job/job.go, with their effects in order. The answers
--                            of the operating system, and json.Marshal, are the fields of `Host`.
--   Job/Steps.antt           one job under interleaving: a step is a critical section of a method, with
--                            what it does right behind it, or the end of a goroutine's wait. The calls
--                            of start and signal that are under way are part of the state, so that
--                            other methods run between their sections.
--   Job/Manager.antt         Manager of job/job.go: the table of jobs, their ids, Get and List
--   Job/Files.antt           the file tree of job/fs.go: walks, qids and the configuration
--                            files over the Manager
--
-- Bounds and fuel. Qids are taken modulo 2^64, and the negation of a time span wraps in 64 bits.
-- The ints of kyu are taken modulo 2^64 too, behind every operator and every step of range. Elsewhere
-- a number is a natural number or an integer without bound, as no arithmetic of the modelled code
-- comes near the bounds of int. The lexer's stream is computed on fuel, and 2n + 1
-- calls of Next are enough for a text of n runes: each call either reads a rune, or is the one
-- NEWLINE between two such calls, or is the EOF. BracketDepth needs the same fuel. The parser's
-- methods run on 4n + 1 units: a method uses one unit for a call back into another, at most two calls
-- back fall on one token, and there are 2n tokens at most. A walk from a scope to the root takes the
-- number of the scope and one, as a parent has a smaller number than its child. The evaluator runs on
-- fuel without a bound in general, since programs of kyu need not end: a unit is used for each call of
-- evalExpr, call, a round of a loop or Equal inside another, and an evaluation out of fuel is no outcome.
--
-- What is not modelled. The conversion of UTF-8 to code points, as which a text comes in; the
-- texts of error messages; writeStdin and WaitFor of job/job.go; the listings, the clone file's
-- text and the refusals of job/fs.go; the builtins but those named above, a parameter of the
-- evaluator, as are external commands, jobs, remote hosts, bind, unbind and the reads of live
-- fields, which may block; an Equal that blocks on such a read; evaluations that run at the same
-- time; and the parts that are input and output: namespace commands, the other 9P trees, the
-- terminal interface, the network and the session's store. The file system, the processes and time
-- are parameters.
mod Prelude
pub mod Std
pub mod PathResolve
pub mod Job
pub mod Kyu
