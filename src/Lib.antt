-- ===== src/Lib.antt =====
-- PowerGSLB is a DNS global server load balancer: PowerDNS asks it for the records of a name, and
-- it answers with those that the client may see, that are up, and that the rrset's policy
-- chooses. The records are edited through an admin interface, which audits every write.
--
-- How a lookup runs (src/powergslb/server/http/handler/powerdns.py). The rows of the name are
-- keyed by query type. For each type the view rules are matched against the client, the records
-- whose content is down are held back, the first tier of candidates that has a record is taken,
-- and the routing policy of the rrset selects the answers. Each answer carries the prefix length
-- up to which a resolver may share it. The health statuses are written by one check thread for
-- each monitored content; the monitor reconciles the threads with the database.
--
-- How an admin request runs (src/powergslb/server/http/handler/admin.py). The credentials are
-- looked up in the users' table, the query is parsed, and its command reads, saves or deletes
-- rows of the table that its token names. A read composes its searches, sorts and page into SQL
-- with bound parameters. A write runs in one transaction with the audit row that records it.
--
-- Files and code:
--   Server/PowerDns, Server/PowerDns/Lookup: powerdns.py, function for function. `Setting` holds
--     the libraries that the handler calls and the health registry; `in_view` and
--     `select_records` pass on the client's context, whose geolocation is looked up once.
--   Routing/Tiers, Routing/Weighted, Routing/Sticky, Routing/Policies:
--     src/powergslb/routing/base.py (`highest_tier`, `select`, `network_prefix`),
--     weighted_random.py, sticky_hash.py, round_robin.py.
--   Routing/Create: the validators, `create` and `resolve` of routing/base.py.
--   View/Rule, View/Geo, View/Codes, View/Split: src/powergslb/view/rule.py and view/geoip.py,
--     and what they use of Python's strings.
--   Client: src/powergslb/client/context.py and client/geo.py.
--   Monitor/Status, Monitor/CheckThread, Monitor/Check: src/powergslb/monitor/status.py,
--     monitor/check/thread.py, and the checks of monitor/check as data.
--   Monitor/Create: `Check.create` and the dataclasses of src/powergslb/monitor/check.
--   Monitor/Desired: `_desired_checks`, `build_check`, `_parse` and `_substitute` of
--     src/powergslb/monitor/monitor.py.
--   Monitor/Reconcile, Monitor/Manager: `_reconcile`, `_stop_threads`, `task` and `shutdown` of
--     src/powergslb/monitor/monitor.py.
--   Server/Request: src/powergslb/server/http/handler/request.py.
--   Server/Admin: the commands of admin.py, on the operations of a `Database`;
--     Server/Admin/Identity and Server/Admin/Login: `_is_authorized` and `_handle_route`;
--     Server/Admin/Posted: what is made of the posted values; Server/Admin/Masked:
--     `_masked_query`; Server/Admin/Encoding: `_accepted_encodings` and `_encode_body`.
--   Server/QueryParser: the keys of src/powergslb/server/http/handler/queryparser.py.
--     Server/QueryParser/Nested: the nested dict of `parse_query`, and `_normalize`; a dict in it
--     has a first entry by its type.
--   Password: src/powergslb/system/password.py.
--   Database/Connection: src/powergslb/database/mysql/database.py, on the list of the connector's
--     calls; an answer of the connector may depend on all the calls before it.
--     Database/Connection/Programs: the tables' methods as blocks of its transactions.
--   Database/Names, Database/Records: `zone_suffixes` and `gslb_records` of
--     src/powergslb/database/mysql/powerdns.py, on the join of the tables.
--   Database/Statement: `join_operation` and `_unwrap_params` of database.py, and
--     database/mysql/masked.py.
--   Database/Page: src/powergslb/database/page.py.
--   Database/Program: the `Selector` and `Executor` of src/powergslb/database/mysql/tables.py. A
--     method of a table is the program of the statements that it runs, each with what follows for
--     every answer; `run` runs it on an executor.
--   Database/Table: tables.py. The class of a table object is a field, `Kind`, on which the
--     methods that a subclass overrides branch. Its children: Search (`_search` and its clauses),
--     Paging (`_limit`, `_order`, `_read`), Keys and Reading (`get` of each class), Accounts
--     (`Users`), Trail (`AuditRow`, `Audit.record`), Writing (`save`, `written_recid`, `remove`),
--     Registry (the tables).
--   Database/W2ui: src/powergslb/database/mysql/w2ui.py. `delete_data` and `save_data` give the
--     block that the transaction runs.
--   Server/Manager: `HTTPServerManager` of src/powergslb/server/http/server.py, as a step
--     relation on what its thread and the thread that stops it share.
--   System/Service: src/powergslb/system/service.py. What the supervisor reads of the process at
--     each look is a stream, and what it does is the list of its calls.
--   System/Config, System/Config/Items: `Config`, its sections and `coerce_env` of
--     src/powergslb/system/config.py, on the parsed files and the environment.
--   Row: a row of `gslb_records` (src/powergslb/database/mysql/powerdns.py).
--   Numerals: what the code uses of Python's `int`, `strip` and `split`.
--   Random: what the policies use of Python's `random`, on a stream of raw draws.
--   Base: texts as lists of code points, results with the class of the exception, dictionaries as
--     association lists in insertion order, bytes and sorting.
--   Tests: each theorem at a concrete input, with concrete functions for the libraries.
--
-- The other files hold proofs, and are named for what they prove.
--
-- Parameters: netaddr's parsing and membership, Python's case mappings, the GeoIP database, whose
-- reads raise nothing that `lookup` lets through where rules are matched, the JSON parser and
-- writer, `re.compile` and `urlsplit`, blake2b, crypt(3), base64, the raw random draws, the
-- database connector, the server's answers to statements, its comparison of texts, and Python's
-- `str` of a value, `int` of a float, `float` and `date`. The one law that is assumed of them
-- everywhere is that a network of prefix length 0 holds every address of its family
-- (View.Matching.SpansFamily); what a theorem on pages needs of the server's answers stands among
-- its hypotheses. Python's `int` is read for ASCII digits, and a key column is an integer.
--
-- Loops run over lists or count down the answers that are left to draw. Fuel is used for the keys
-- of a query, where the key's length and one more are enough, and for the rounds of the
-- supervisor, where the number of the first round that must stop, and one more, are enough.
--
-- Not modelled: sockets, threads' timing, most of the logging, static files, the MySQL server,
-- the program's arguments and wiring. Exceptions are known by their class; messages are not kept.
-- A posted field that bears the name of a method's own parameter `db` is not told apart.
pub mod Base
pub mod Client
pub mod Row
pub mod Random
pub mod Password
pub mod Routing
pub mod View
pub mod Numerals
pub mod Monitor
pub mod Server
pub mod Database
pub mod System
pub mod Tests
