-- ===== src/Lib.antt =====
-- A verification library of RepoKarta's core logic: definitions translated from the Go sources, and
-- theorems about them.
--
-- Parts. The search box's text is parsed by internal/querylang, which also completes it. The
-- coordinator of internal/search takes repositories from the store (internal/store), has each
-- indexed, records the outcome, and hands it to the workers that build derived indexes. The
-- processors of internal/telemetry batch spans and logs for an exporter. internal/identity holds the
-- roles and what they permit, internal/access the viewer that a request acts for. internal/graph reads
-- the structural artifact that internal/analysis made, and reports which declarations are reachable.
-- internal/codeintel turns the filters of a parsed query into sets of repositories for the search.
-- internal/security lets a request through, with a principal that internal/identity resolves, and keeps
-- the administrator's sessions and failed logins; internal/scim provisions the users and groups that
-- the identity store holds. internal/dependencies matches the versions of dependencies against OSV
-- advisories. internal/graph reads a repository's CODEOWNERS file, by which internal/codeintel filters
-- the matches of a search. internal/maintenance takes stock of the data directory and removes from it
-- what a plan has shown.
--
-- Files.
--   Common: the shared names, Boolean tests, lists over the native numbers, strings (Common/Text)
--     and decimal numbers (Common/Decimal, with the number and one more as fuel for its digits). A
--     string is a list of code points; a byte b that is no valid encoding is the number 0x110000 +
--     b, so that each Go string has exactly one such list, and the functions that count bytes write
--     out each code point's width. unicode.ToLower beyond ASCII is a parameter `wide`.
--   Query (internal/querylang/query.go, complete.go): Fields, Token and Parse are the grammar
--     (fieldAliases, tokenize, Parse); Caret, Values, Quote and Complete are the completions
--     (byteOffsetForUTF16, activeTokenBounds, completionValues, quoteCompletionValue, Complete).
--     tokenize runs on fuel, the length of the text and one more.
--     The proofs are in Reading, RoundTrip, Inserted, Total, Sound and Offsets.
--   Search (internal/search/coordinator.go, internal/store/store.go, internal/catalog/catalog.go):
--     Queue is queueIndexed, nextIndexed and the workers as steps of goroutines: a section under the
--     mutex, a channel operation, or the return of an observer; proofs in Wakeups, Progress and
--     Tracked. Indexing is indexPending, indexRepository and UpdateIndexState over a table of rows;
--     proofs in Rounds and Ends. Which database calls succeed and what the engine answers are
--     parameters. The fuel of index_pending counts rounds of its outer loop.
--   Telemetry (internal/telemetry/batch.go, status.go): Delivery is the counters, Batch both
--     processors over a parameter for their items, as steps: a producer's check, its send, Shutdown's
--     request, each case of the select in run up to its drain, and each turn of drain. The
--     exporter is the list of batches it was given. Proofs in Conservation, Limits and Stop.
--   Identity (internal/identity/identity.go): Users is the data, Roles is NormalizeRole, RoleRank,
--     MaxRole, Allows and Permissions; proofs in Matrix.
--   Access (internal/access/access.go): Viewer is WithViewer's normalization and IdentityID; proofs in
--     Normal.
--   Filters (internal/codeintel/query_language.go; Scope of internal/search/search.go): Ids is the sets
--     of identifiers and applyQueryRepositoryFilters, Compile and Resolve are compileQueryFilters (the
--     loop over the filters, and what follows it). The listing of
--     repositories and the table of strings.EqualFold beyond ASCII are parameters. Proofs in Sets,
--     Gathered, Stands and Accepts.
--   Graph (internal/graph/reachability.go; types of internal/graph/graph.go and
--     internal/analysis/analysis.go): Structure is the artifact, Names the classification of names and
--     kinds, Edges the declarations and their edges, Visit the search, Report buildReachability up to
--     the sorting of its lists. Declarations are indices of one list, as in the source. visit runs on
--     fuel for each declaration and one round more, trail on the length of the list of parents. Proofs
--     in Paths, Closed, Start, Bounds, Reached, Witness, Verdict and Outcome.
--   Owners (internal/graph/codeowners.go, internal/codeintel/ownership.go; types of
--     internal/codeintel/service.go): Patterns is codeownersPatternMatches, Places codeownersPath, Rules
--     parseCODEOWNERS and ResolveOwners, Filter ownershipFilters and applyOwnership. The regular
--     expression that a pattern is turned into is the list of its pieces, with a matcher for them.
--     Proofs in Globs, Spelled, Matches, Parsed, Last, Named and Kept.
--   Maintenance (internal/maintenance/maintenance.go): Paths is pathContains, for absolute paths;
--     Artifacts and Items what the walk makes of each file, Retention classifyMapRetention with the
--     rest of Inventory, Cleanup Plan and Execute. The file system is a function from paths, the
--     walk a list of entries; HMAC and SHA-256 are parameters, which Previewed takes to be
--     hexadecimal; a time counts nanoseconds from a point that is a multiple of 2^64 of them before
--     1970, so that UnixNano is its rest, read as an int64. Proofs in Planned, Removed, Loop, Executed, Stamps, Identified, Previewed, Latest and Newest.
--   Security (internal/security/security.go, http.go): Attempts is AdminLoginRetryAfter and
--     RecordAdminLogin, Sessions the administrator's sessions, Gate Middleware and servePrincipal. Times
--     are nanoseconds from the zero time, as natural numbers; the maps are the functions that look a key
--     up; SHA-256 is a parameter `digest`, and the random tokens are arguments. The boundary check, the
--     two providers and the identity store are arguments of Gate. Resolver puts the store of Accounts
--     behind it. Proofs in Backoff, Streaks, Lifetime, Granted and Suspended.
--   Advisories (internal/dependencies/advisories.go): Events is affectedVersion with the evaluation of
--     ranges and nearestFixed, Findings the counters of buildFindings, Pages its paging. The comparison
--     of versions of deps.dev/util/semver is a parameter for each system, which the theorems take to be
--     a total preorder, where they need that. slices.SortStableFunc and SortFunc
--     are insertion sort (Common/Insertion), which package slices runs on lists of up to 12 elements;
--     SortFunc may leave equal elements of longer ones in another order. Proofs in Order, Evaluation,
--     Loop, Affects, Nearest and Honest.
--   Scim (internal/scim/scim.go; the paging of internal/store/identity.go): Members, Resources and
--     Patches are the conversions and patches, Listing the filters and pages. What encoding/json makes
--     of a raw value, for each type that is asked for, comes with the value. allUsers has fuel for 21
--     turns, since it refuses more than 10000 rows. Proofs in Membership, Paths,
--     Numbers, Changes, UserChanges and Pages.
--   Accounts (internal/store/identity.go; schemaV12 of internal/store/store.go): Tables is the rows with
--     SaveUser and DeleteUser, Resolve is ResolveIdentity. A table is the list of its rows, an SQL
--     statement the function on lists that it stands for, and the database's `lower` a parameter. The
--     time and the new random identifiers are arguments. Calls of the database that fail are left out,
--     but for the unique indexes. Proofs in Effective and Refused.
--   Tests: runs at concrete inputs, and the theorems at concrete inputs.
--
-- Not modelled: cancellation of contexts, logging and spans; SQL, files, git, HTTP and agents, which
-- are I/O; Zoekt, tree-sitter and OpenTelemetry, which are third-party code.
pub mod Common
pub mod Filters
pub mod Graph
pub mod Owners
pub mod Maintenance
pub mod Query
pub mod Security
pub mod Telemetry
pub mod Identity
pub mod Access
pub mod Accounts
pub mod Advisories
pub mod Scim
pub mod Search
mod Tests
