-- ===== src/Lib.antt =====
-- A verification library of Beadloom, of the parts that decide whether services which are declared in
-- several repositories fit together, of the rules that an architecture is checked against, of the diff of two
-- graphs, and of the context that is collected around a node.
--
-- An export of a repository holds nodes and edges, and an edge can carry a contract. The hub names every node
-- and endpoint after its repository, judges each edge by what the union holds, folds the edges that carry a
-- contract into contracts, compares in each what producers expose with what consumers use, and hands the
-- verdicts to a gate. The files follow these parts.
--
-- - Base and the files below it: Python's tests, lists, `dict`, texts and sorts, each with its lemmas.
-- - Json: the values of a payload, with `dict.get`, `str(x)`, the truth of a value and `a or b`.
-- - Graph/GraphqlBreaking: src/beadloom/graph/graphql_breaking.py. `_parse_wrapped` is `parse_wrapped`, with
--   the same steps on each text; the recursion on the inner text runs on fuel, one more than the length of
--   the text, which shrinks by two at each step. A surface is an association list in the order of the `dict`.
-- - Graph/AmqpBody: src/beadloom/graph/amqp_body.py. `BodySchema` is a tree of which properties and items are
--   lists of their own; `_diff`, `_diff_node` and `_diff_items` are one mutual recursion on the consumer.
--   The sets of required names and enum values are lists that are only asked for membership or sorted.
-- - Graph/Refs: src/beadloom/graph/federation/refs.py, with an exception as a result, and the resolution of
--   endpoints of reconcile.py.
-- - Graph/Edge: the edge that `_resolve_edge` of src/beadloom/graph/federation/reconcile.py builds.
-- - Graph/Contracts: src/beadloom/graph/contracts.py: the `Contract`, its breaks, `classify`, the keys and the
--   groups; Graph/Contracts/Reconcile: `reconcile_contracts`, whose loop passes the `dict` of contracts on.
--   The source shares one mutable `Contract` with that `dict`; here the contract is written back under its group.
-- - Graph/Federation: the passes of src/beadloom/graph/federation/reconcile.py over the edges of the union:
--   `_assign_verdicts` and `_mark_undeclared`.
-- - Graph/Federation/Aggregate: `aggregate_exports`, which composes the passes: it names nodes, resolves edges,
--   normalizes the surfaces of contracts, judges, reconciles, marks and sorts.
-- - Graph/Federation/Gate: src/beadloom/graph/federation/gate.py. The report of a contract is read off the
--   contract as `to_report_dict` writes it.
-- - Graph/Diff: src/beadloom/graph/diff.py: `compute_diff_from_snapshot`, on the rows that the snapshot and the
--   database hold. A `source` that is null is none, and the two tables of rows are association lists.
-- - Graph/Rules: src/beadloom/graph/rules. Types has the matchers, rules and violations of types.py, Database the
--   tables that the rules read, with the queries as functions on lists of rows, and Externals the functions that
--   the evaluators call and do not implement, as a record of parameters: `fnmatch`, LIKE, floats, the files on disk.
--   Deny, Require, ForbidEdge, ImportBoundary, Layers, Cardinality and Modules are the functions of evaluators.py;
--   a loop that appends to `violations` is `concat_map`. Evaluate is `evaluate_all` of __init__.py with the hints.
--   Loader is `load_rules` of loader.py with the parsers in Blocks and Limits, on the value that the YAML reader gives;
--   Result has what they return, a `ValueError` as its message, and References is `validate_rules`. The conversions
--   `int` and `float` are parameters, a record as well.
--   Conformance states what each kind of rule asks of the tables, in the words of the tables.
-- - Graph/Rules/Cycles: src/beadloom/graph/rules/cycles.py. The stack is explicit, as in the source, and the loop
--   runs on fuel: a path of l nodes can gain max_depth - l more, each in at most as many ways as the graph has
--   edges, and `cost` sums that tree. The rows that the query returns for the kinds of a rule are a parameter.
-- - Graph/Diff: `compute_diff_from_snapshot` of src/beadloom/graph/diff.py, on the rows that its queries return; the
--   `extra` of a row is decoded already, to the list of its tags, and a missing summary or source is empty text.
-- - Context: src/beadloom/context_oracle/builder.py. Context/Distance is `_levenshtein` on the characters of the
--   texts, Context/Suggest is `suggest_ref_id` on the names of all nodes, and Context/Subgraph is `bfs_subgraph`,
--   whose result here holds all its locals. Its loop runs on fuel, one for each node that may be visited, because
--   a name enters the queue only when it is visited for the first time. Context/Bundle has parts of `build_context`.
-- The theorems about a part stand in the files below it, and its runs at small inputs in its file Tests.
--
-- Bounds: a number of a payload stands as the text that `str` prints for it. `lower` changes ASCII letters only
-- and `repr` takes characters beyond ASCII to be printable; the names and verdicts that the program compares
-- are ASCII. Python's bound on recursion is not modelled. The set of tags of a node is a list, in the order in which
-- it is walked, and a depth of a cycle rule that is below zero acts as zero. An entry of a
-- typed surface whose `args` is null or a number makes `_typed_fields` raise; here it has no arguments.
-- Annotations of a symbol that are JSON but no mapping make `_get_file_node` raise; here they are skipped.
--
-- Not modelled: the extraction of surfaces and of the graph (parsers of third parties and the file system), the
-- database, git, the rendering of reports and sites, and the command line. Of the union, the
-- records of repositories with the ages of their exports need a clock and are left out.
pub mod Base
pub mod Json
pub mod Context
pub mod Graph
