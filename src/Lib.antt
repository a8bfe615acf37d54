-- ===== src/Lib.antt =====
-- Vivi: the review of a local workspace in the browser.
--
-- A server reads the workspace and git, and the browser shows files in panes and tabs, the changes
-- as diffs, and comments on them. The files here model the TypeScript code that decides what is
-- shown and kept:
--
-- Layout (ui/src/state/editor-layout.ts): the tree of panes. splitEditorPane, closePaneIfEmpty and
--   setPaneActivePath are split_editor_pane, close_pane_if_empty and set_pane_active_path on a
--   record of the tree, the active pane and the next number; Panes lists the panes of a tree.
-- Tabs (ui/src/state/tabs.ts): the open tabs of all panes as a list; each exported function has its
--   name in snake case. FsNode is the payload of a file that a tab opens.
-- LineDiff (server/typescript/domain/change-review.ts): buildInterleavedLineDiff. lcs_table is the
--   Uint16Array, walk the three loops, interleave the loop over replacement runs.
-- ChangeReview (the same file): parseGitPorcelainStatus and the writers of a unified diff. They
--   call LineDiff.
-- DiffView (ui/src/state/git-review.ts): parseUnifiedDiff and buildDiffStat, with the rows of
--   buildSideBySideDiffRows in SideBySide; it reads what ChangeReview writes.
-- Comments (server/typescript/domain/comments.ts): comments and buildCommentThreads. CommentFields,
--   CommentAnchors and CommentInput are the checks of a payload in the same file: an exception is
--   the value err of its message, and a payload is a JSON value.
-- Sessions (ui/src/state/comment-input-session.ts): the reducer of comments that are being written;
--   Restore stores and restores them.
-- CommentActivity (ui/src/state/comment-activity.ts): the activities of threads that the browser keeps.
--   addCommentActivity is add_comment_activity, on a state with a dictionary of threads; the receipt of
--   a thread is comment_thread_review_receipt.
-- CommentStore (server/typescript/infrastructure/node-comment-store.ts): comments, drafts and events
--   of threads. Jsonl reads and writes a file as a text, Jobs are the jobs of the write queue, Threads
--   is listThreads, Activities has the activities and read receipts; Refinement compares the files with
--   the lists that they hold. Formats is a concrete way to write records, for the tests.
-- ReviewLedger (server/typescript/infrastructure/node-review-ledger-store.ts): the ledger of what has
--   been reviewed; compactSnapshot is compact_snapshot, on rows that are JSON values.
-- ViewerService (server/typescript/application/viewer-service.ts): what the service does with
--   comments. Creating and Publishing are about its steps on the store, Requests has the requests
--   of clients with their checks and what subscribers are told, Updating is about a change of a comment.
--   It uses CommentInput, CommentStore and a function that reads files.
-- PathPolicy (server/typescript/domain/path-policy.ts): paths of requests and exclude patterns.
-- FileSystem (server/typescript/infrastructure/node-file-system.ts): scanDirectory and walkFiles are
--   scan_directory and walk_files on a Disk, which is what readdir, stat and realpath answer. Queries
--   has the searches by name and by text, Resolving the paths of requests, Reading what a file is
--   read as, Depth the trees that are cut off; Matches and Searching compare the search by text with
--   the lines of all files. It uses PathPolicy, ViewerKind and Search.
-- ViewerKind (server/typescript/domain/viewer-kind.ts): classifyViewer.
-- Search (server/typescript/domain/search.ts): searchFilePayload and the excerpts of long lines.
-- Watcher (server/typescript/infrastructure/node-watcher.ts): the watcher as a state. Each method
--   and each answer that it waits for is a function, and Step, in Steps, says which of them can come
--   next, so that answers of stat come in any order.
-- ReviewAttention (ui/src/state/review-attention.ts): when a path was last looked at.
-- ReviewQueue (ui/src/state/review-queue.ts): the way through the files to review.
-- Tree (ui/src/state/tree-expansion.ts and tree-navigation.ts): the rows of the file tree and its
--   keys. It splits paths as PathPolicy does.
-- Base: strings as lists of UTF-16 units, JavaScript's array methods over the native numbers, its
--   stable sort (Sorting), Map (Dict), decimal numbers, integers, JSON values and lines, with their
--   lemmas.
--
-- Numbers are natural numbers; what JavaScript rounds beyond 2^53 is exact. A cell of the line diff
-- wraps at 2^16; at most 2,000,000 cells keep every length below that. The loops of the diff that
-- skip a run of entries are recursive on fuel, one more than the length of the list, and every turn
-- takes one entry at least; the theorems on them are about the functions with that fuel, so that they
-- would fail if it ran out. Numbers are printed with fuel above the number, which halts each division
-- by ten in time. All other loops are structural: over a list, a tree, the entries of a directory, or
-- the number of bytes that are still to be tried as UTF-8.
--
-- Requests of the service and jobs of the store are run one at a time, as its queue runs them; the
-- steps of the watcher are the one place where calls overlap. The disk does not change while a tree
-- is walked. New ids and the time of a call are arguments.
--
-- Parameters stand for what is not in the repository's code: localeCompare, toLowerCase, extname,
-- path.relative, realpath, JSON.stringify and JSON.parse (in CommentStore, ReviewLedger and Sessions),
-- the decoder of UTF-8, SHA-256 and base64, the parsing of dates, the reading of a file (in
-- ViewerService), and the test of a compiled regular expression in PathPolicy. Where a theorem relies
-- on them, it says on what: that localeCompare gives an order, or that JSON reads back what it has
-- written.
--
-- Not modelled: the HTTP server with its routes and GraphQL, the code in Go, the calls of git, the
-- React components, the events of the review queue with their renames, the merge of git and watcher
-- changes, the building of the review queue from comments and activity, the navigation over search
-- results, the widths of the workbench, the check of stored sessions, the compilation of glob
-- patterns, the cache of the file index and the counters of searches, errors of the disk other than
-- a missing file, failures of the service's store other than a missing record, failures of its
-- subscribers, and the fields of records that the modelled functions neither read nor write.
pub mod Base
pub mod Layout
pub mod FsNode
pub mod Tabs
pub mod LineDiff
pub mod Comments
pub mod CommentFields
pub mod CommentAnchors
pub mod CommentInput
pub mod ChangeReview
pub mod DiffView
pub mod PathPolicy
pub mod Sessions
pub mod ReviewQueue
pub mod Tree
pub mod Watcher
pub mod CommentStore
pub mod ViewerService
pub mod ReviewAttention
pub mod ViewerKind
pub mod ReviewLedger
pub mod CommentActivity
pub mod Search
pub mod FileSystem
