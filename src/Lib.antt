-- ===== src/Lib.antt =====
-- EssaDB: the lexer, the parser, the values, the built-in functions, the tables, the statements that define,
-- change and query data, and the allocator of its on-disk heap.
--
-- EssaDB is an SQL database in C++. A client's text goes through the lexer and the parser
-- (db/sql/Lexer.cpp, db/sql/Parser.cpp) to statements (db/sql/ast), which run on a database of tables
-- (db/core/Database.cpp, db/core/Table.cpp); a table holds rows of values (db/core/Tuple.cpp,
-- db/core/Value.cpp) in memory or in a file of blocks (db/storage). The statements evaluate
-- expressions (db/sql/ast/Expression.cpp) on rows, and a table evaluates its checks in the same way.
--
-- Which file models which part:
--   Prelude            shared names: tests on native numbers, lists, 32-bit integers, byte strings, and
--                      results, which are `ok`, `err`, or `undefined`. `undefined` stands for what
--                      C++ leaves undefined and for an assertion or a MUST that ends the program.
--   Lexer              db/sql/Lexer.cpp, Lexer.hpp. Token: tokens and keywords; Scan: the loop of `lex` with one
--                      function for each branch; Ends, Words, Parts, Rounds,
--                      Tiled: proofs.
--   Parser             db/sql/Parser.hpp, Parser.cpp. Reply: the state, which is the tokens from `m_offset` on,
--                      and the moves over it; Operator: the tables of operators; Simple: identifiers
--                      and literals; Expression, Query, Table, Statement: the functions `parse_...`;
--                      Safe with its children, Levels, Precedence: proofs.
--   Sql                db/sql/SQL.cpp: `run_query`, from a text to what it does to a database.
--                      Kept, Valid, Others, Unchanged: proofs.
--   Value              db/core/Value.hpp, Value.cpp. Types: the values and the run time they take (floats
--                      and the calendar, a parameter of which nothing is assumed); Number: decimal
--                      numbers (std::stoi, std::to_string); DateText: dates in ISO 8601; Convert,
--                      Operators, Compare: the members and operators of Value; RoundTrip, Order,
--                      Arithmetic: proofs.
--   Row                db/core/Tuple.hpp, Tuple.cpp, Column.hpp.
--   Aggregate          db/sql/ast/Function.cpp: the aggregate functions, over any kind of rows. Bounds:
--                      proofs.
--   Expression         db/sql/ast/Expression.hpp, Expression.cpp: `evaluate` of every expression. How an
--                      identifier resolves, the rows of a group, the built-in functions and
--                      std::regex_match are fields of `Context`. Like: the matcher of
--                      LIKE; Liked, Typed: proofs; Check: the rules of a table, with their laws in
--                      Check/Laws; Columns: referenced_columns; Print: to_string and
--                      contains_aggregate_function.
--   Function           db/sql/ast/Function.cpp: the built-in functions by name. Arguments: ArgumentList;
--                      Letters, Search: the loops of the functions on text and what they take from
--                      std::string; Text, Numbers: the functions, with the C library's mathematics,
--                      clock and random numbers as the parameter `CLibrary`; Found, Charindex,
--                      Trimmed, Replaced: proofs.
--   Table              db/core/Table.cpp, IndexedRelation.hpp, Relation.cpp. State: a table and its keys and
--                      counters; Fill: generated and default values; Checks: the integrity checks;
--                      Insert: `Table::insert`; Valid, Inserted, Appended, Referenced: proofs.
--   Database           db/core/Database.cpp, TupleFromValues.cpp. Action: calls that change the database and
--                      may fail; Tables: creating, finding and dropping tables; Restructure:
--                      `restructure_table`; Laws, Valid, Others: proofs.
--   Csv                db/storage/CSVFile.cpp, and the export and import of db/core/Table.cpp and
--                      Database.cpp. Read: the values of a line; Import: the whole file, and IMPORT;
--                      Ends, ReadBack, Keeps: proofs.
--   Statement          db/sql/ast/Statement.cpp and INSERT of values of db/sql/ast/Select.cpp. Rows: the
--                      passes over the rows; Manipulate: DELETE, UPDATE, INSERT; Define: CREATE, DROP,
--                      TRUNCATE and ALTER TABLE; Queries: SELECT, UNION, SHOW and INSERT of a query;
--                      Session: statements one after the other; Deleted, Deletion, Updated,
--                      Assigned, Insertion, Others: proofs.
--   Query              db/sql/Select.cpp, db/sql/ast/TableExpression.cpp, SelectColumns.cpp, Select.cpp:
--                      queries. Table: what a query reads from, its options, and how identifiers
--                      resolve; Join: the joins; Scope: the frame of a query as a `Context`; Group:
--                      `collect_rows`; Order: DISTINCT, ORDER BY and TOP; Query itself: `execute`,
--                      `evaluate` of a table expression and UNION; Print: `to_string` of
--                      a query; Answer: db/core/ResultSet.cpp; Filtered, Sorted, Above, Ordered, Kept,
--                      Unions, Joined, Unchanged: proofs.
--   Heap               db/storage/edb/Heap.cpp. Memory: the bytes of a block; Block: `HeapBlock`; Chain: the
--                      list of cells that the bytes stand for; Split, Alloc, Free, Region: proofs. File: the
--                      blocks of a file, `expand` and `allocate_block` of EDBFile.cpp; Blocks: `Heap`
--                      over the list of heap blocks; Linked: what that list stands for; Allocated, Grown,
--                      Allocation, Outcome, Freed: proofs.
--   Tests              runs on small inputs, and each result at one of them.
--
-- State is passed explicitly: a statement maps a database to a result and a database, so what it
-- changed before it failed is kept. A table in memory is a record whose rows are a list; a pointer to
-- a table is its name, and a write through it replaces the table of that name. Strings are lists of
-- bytes. A message of an error is a constructor of `DbError`, one for each message of the source.
--
-- `HeapBlock::alloc` is on fuel, one more than the bytes of the block: every round goes at least
-- eight bytes on, and on a chain of headers this fuel is never used up. `Heap::alloc` is on fuel, a
-- round for each block of the file, which a list of blocks with rising indices never uses up.
-- `Lexer::lex` is on fuel, one more than the bytes of the text, and every round takes one at least.
-- The loop of REPLACE is on fuel, one round for each byte of the text, since a round that finds
-- something steps over a byte at least; `read_line` of a CSV file on one more than the bytes of the
-- line.
--
-- The functions of the parser that call each other are the fields of a record `Calls`; `calls n` nests
-- them to the depth n. Two levels for each token are enough: each function takes a token before it
-- calls another, or is a loop that calls one which does. The other loops of the parser have a round
-- for each token. The contents of files are a parameter.
--
-- A SELECT within an expression is parsed, but expressions have no constructor for it: what stands for it
-- is a parameter of the parser, a function into expressions. In the program it is a query that may have
-- an INTO of its own and so change the database, which the evaluation of an expression here cannot. So
-- the results about the texts that `run_query` is given are about those in which no SELECT stands within
-- an expression, and on databases whose checks have none, as all databases here are.
--
-- The check of a table is an object that tables may share: `address` tells one from another, CREATE
-- TABLE takes a new one, TRUNCATE and `restructure_table` hand theirs on, and a change to a check is
-- seen by every table that holds it. Sizes in the allocator are a `size_t`, and those in its headers a
-- `uint32_t`; both wrap.

--
-- A query has one frame, so its `Context` is what that frame holds at a row; the frame that an
-- aggregate pushes differs in the row alone. `stable_sort` and `insert_entry` stand for what the C++
-- library promises of a stable sort and of a multimap where the comparison is a strict weak order.
-- Letters and white space are those of the C locale.
--
-- Not modelled: the evaluation of a SELECT inside an expression, INTO included, std::regex, the rows and the
-- header of EDB files and the tables that read them, the REPL, the graphical and MySQL clients.
-- They are input and output, layouts of bytes in a file, or layers that call what is modelled here.
-- ALTER TABLE and UPDATE are modelled; `run` leaves them out, because UPDATE checks no constraint
-- and ALTER TABLE may set a key on a table that has rows.
pub mod Parser
pub mod Prelude
pub mod Value
pub mod Query
pub mod Row
pub mod Expression
pub mod Table
pub mod Aggregate
pub mod Csv
pub mod Database
pub mod Sql
pub mod Statement
pub mod Lexer
pub mod Function
pub mod Heap
pub mod Tests
