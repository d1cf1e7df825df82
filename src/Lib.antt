-- ===== src/Lib.antt =====
-- Deltix-Server: the core of the server as state, operations and theorems on them.
--
-- A client logs in (auth), asks for a transfer ticket for one operation on one repo (transfer), and
-- pushes or pulls under that ticket; a push leaves a file on the staging disk and a transfer job,
-- which a background worker copies to the NAS and verifies (storage). Repositories of the Dolt
-- database, their branches, commits and the tables that a push takes are versioning's. A license is
-- checked at start-up (licensing) and says which add-ons may load (add-ons); a limiter guards the
-- bootstrap of certificates (tls-discovery).
--
--   Common.antt    shared types, Boolean tests, lists and results
--   Table.antt     an SQL table as a list of rows, with the statements that the stores issue; Keys is
--                  a table under its primary key, Order is ORDER BY
--   Auth           src/contexts/auth
--     Roles        RepoRole of types.ts and its rank
--     Limiter      login-rate-limiter.ts; Bounds counts what it lets through
--     Sessions     libsql-session-store.ts, session-manager.ts; Window is the sliding expiry
--     Users        libsql-user-store.ts, the tables users and repo_roles
--     Service      auth.service.ts, password-authenticator.ts; Monad is the shape of a method, Accounts
--                  has the methods on accounts, set-up and roles, Login, Setup and Grants their theorems
--     Router       the routes of auth.router.ts that manage accounts
--     SessionRouter  its routes for set-up, login and sessions; Origin is who is refused
--   Transfer       src/contexts/transfer
--     Types        types.ts and errors.ts
--     Store        libsql-ticket-store.ts, one function for each statement
--     Service      ticket.service.ts; Consume, Renew and Issue have the theorems
--     Race         requests that interleave, as histories of store calls
--     Router       the handlers of transfer.router.ts
--   Storage        src/contexts/storage
--     Types        types.ts
--     Jobs         libsql-transfer-job-store.ts; Claim, Race and Retries have the theorems
--     Sync         nas-sync.service.ts and nas-sync.worker.ts; Laws is one round, Drain is the loop
--     Push         push-session-handler.ts; Laws is what a session stages, Ticket what opens one
--     Pull         pull-session-handler.ts
--     Stream       the Push call of grpc-transfer-server.ts; Laws is what it answers
--   Versioning     src/contexts/versioning
--     Names        the regular expressions and string functions; Safe is what they keep out
--     Types        types.ts and errors.ts
--     Repos        libsql-repo-store.ts, repo-provisioning.service.ts
--     Closure      computeClosure of sync-preference.service.ts; Scan is a round, Reachable the loop
--     Preferences  sync-preference.service.ts; Plan is what a plan adds, Laws what is stored, Push
--                  what a push is allowed
--     Cli          requireRepo and translateErrors of the services
--     Branches     branch.service.ts; Survive is its histories
--     History      log.service.ts, diff.service.ts, merge.service.ts
--     Mutex        repo-branch-mutex.ts; Order and Progress are its histories
--     Imports      commit-import.service.ts, commit-export.service.ts, commit.service.ts
--     Router       versioning.router.ts; Serve and Listing have the routes, Guarded who gets
--                  through, Creation what POST /repos leaves behind
--   Licensing      src/contexts/licensing; Key and Payload are license-parser.ts, Validator the
--                  service and anti-tamper.ts
--   Addons         src/contexts/addons; Breaker is addon-circuit-breaker.ts, Loader addon-loader.ts,
--                  addon-signature.ts and addon-discovery.ts, Trust libsql-addon-trust-store.ts and
--                  addons.router.ts
--   TlsDiscovery   src/contexts/tls-discovery/bootstrap-rate-limiter.ts
--
-- State and operations. A table is a list of records with the fields of its rows, a function per
-- method of the store takes and returns the table, and names are those of the source in snake
-- case. A service method of transfer or storage takes the tables and returns a reply beside them;
-- one of auth is an action on AuthState, which holds the limiter's map, the sessions and the user
-- store; one of versioning is an action on the table of repositories, or on the world that its
-- commands change. An error class is a constructor. Every SQL statement is one atomic step, which
-- is what the stores rely on. Several requests at once are histories of such steps in the order
-- the database runs them; in the routes that demote an administrator or create a repository, what
-- other requests do between two statements is a function on the accounts. A method of versioning
-- that takes the mutex of a repository is one step, as it is while the mutex is held.
--
-- Parameters. Each reading of the clock is an argument, a natural number of milliseconds; so are
-- random ids, tokens and salts. Hashing and checking passwords, signing tokens, the verifier of a
-- repo role, the NAS, SHA-256, the paths of files and the hook before a push are functions that
-- the definitions take. A file sink's content reaches the file when the sink is ended. So are the
-- commands of the dolt program, which read and change a world of any type, Ed25519, base64url,
-- JSON's grammar, Date.parse, the schema of a manifest, the key that the loader finds trusted, URL
-- and import. What a theorem asks of the commands is a record,
-- Versioning.Branches.Survive.Documented.
--
-- Bounds. The claim of a job tries five times over five candidates, as the code does. The drain of
-- the queue is recursion on a number of rounds: one more than the sum, over the jobs that can
-- still be claimed, of two for each retry that is left and two more is enough. The loop of
-- computeClosure is recursion on a number of rounds, that of the requested tables and the foreign
-- keys together: each round takes a table off the queue, and a table joins the queue only when it
-- is first resolved, as the target of a foreign key.
--
-- Not modelled: the command line of Dolt and the parsing of its output, the routes that stream
-- commits, the admin pages, the parsing of requests, the gRPC server but for its Push call,
-- configuration, start-up, the command line and logs. They are wiring, input and output, or wait
-- on external programs. The order of the rows that listRepoRoles answers with is left out, and so
-- are the messages of errors, except that a failed copy keeps its own and a failed command's are
-- read.
pub mod Common
pub mod Table
pub mod Auth
pub mod Transfer
pub mod Storage
pub mod Versioning
pub mod Licensing
pub mod Addons
pub mod TlsDiscovery
