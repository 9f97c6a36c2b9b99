-- ===== src/Lib.antt =====
-- The verification library of the JMAP bridge (src/jmap_bridge), a server that answers JMAP
-- requests from IMAP, SMTP, CalDAV and CardDAV servers and keeps no database of its own.
--
-- A request is a list of method calls. The dispatcher (src/jmap_bridge/dispatch.py) runs them in
-- order: it resolves references to the results of earlier calls, replaces the creation ids of
-- objects that earlier calls made, looks the method up, and turns what the handler returns or
-- raises into a response. The handlers reach their servers through a request context: mail goes
-- through a pool of IMAP connections (pool.py), uploads through a cache of blobs (blob_cache.py),
-- and ids of renamed objects through a table of redirects (id_redirect.py).
--
-- - Base: the names that all modules share, equality tests as instances, Python dicts in
--   insertion order, integers, texts.
-- - Json: the values of `json.loads`; an object is a list of fields in insertion order.
-- - Errors (errors.py): the two families of exceptions as records, and the result type of code
--   that raises.
-- - Dispatch (dispatch.py): Python has what the runtime gives (texts of values and messages, as a
--   parameter; which values can be keys of a dict); BackReferences is _resolve_path,
--   resolve_backref and resolve_args; CreationIds is substitute_created_ids and
--   _record_created_ids; SetResponses is _normalize_set_response; Registry is the decorator
--   `method`; Run is dispatch_request, whose loop carries the record Batch, and whose outcome
--   says whether an exception left it.
-- - IdRedirect (id_redirect.py): IdRedirectCache with `record` (here record', since record is a
--   keyword) and `resolve`. The loop of `resolve` runs on fuel, one more than the entries of the
--   table.
-- - BlobCache (blob_cache.py): the cache with put, get and the sweep of expired entries. The
--   clock's readings and the fresh token are arguments.
-- - Pool (pool.py): what the pool keeps under one key, and each section of code that runs under
--   the lock as a function. Pool.Steps is the interleaving of many checkouts as a step relation:
--   the lock makes each section one step, and a login is the time between two of them.
-- - Snapshots (backends/imap/modseq_state.py, backends/caldav/sync_state.py,
--   backends/carddav/sync_state.py): Mail is the cursors of mailboxes, diff_mailbox_state and
--   verify_no_missing_destroys; WebDav is the cursors and diffs of calendars and address books.
--   The order in which Python enumerates a set is a parameter.
-- - Effects: actions over a state that return or raise, with the rules for what holds when they
--   return.
-- - Encoding (state.py, session.py, backends/imap/mailbox_map.py): base64 without padding and the
--   ids that are made of a name. Base64, UTF-8, JSON texts and `int` of a text are the record
--   Libraries.
-- - State (state.py, and the mail state of backends/imap/modseq_state.py): encode_state and
--   decode_state, encode_mail_state and decode_mail_state. What is asked of the libraries is
--   State.Codec.IsLossless.
-- - Auth (config.py, auth.py): the configuration of the domains, the domain of an address, and
--   authenticate_request. Base64, `lower` and `strip` are the record Runtime.
-- - Context (context.py): how imap_parallel_map shares the entries of a sweep among connections;
--   the work on an entry is a function.
-- - Imap (backends/imap/client.py): the operations of an IMAP connection as a record over the
--   state of the server, and a sweep over several connections, which run one after the other
--   here: their interleaving is left out.
-- - Requests (context.py): what a handler is given and the state that it changes, the request
--   cache, require_account. The calls of a request run one after the other, so its locks are
--   always free.
-- - Mailboxes (backends/imap/mailbox_map.py, types/mailbox.py): Mapping is the mapping of a LIST
--   response, Sweeping the status of all mailboxes, and Get, Changes, Query and Set are the four
--   methods. Arguments and results of the methods are typed records in place of dicts; a
--   delimiter NIL is an empty text.
-- - Emails (types/email.py, backends/imap/email_map.py): Filter is the filter of Email/query and
--   its translation into IMAP search criteria. Filter.Server is what an IMAP server makes of
--   search criteria (RFC 3501), as a machine that reads them from left to right; Filter.Meaning
--   is what a filter asks of a message in its mailbox, and Filter.Scope is about the one mailbox
--   that a query selects. Ids is the codec of Email ids (backends/imap/modseq_state.py). Sort is
--   the check of the sort keys, their IMAP criteria, and the sort by several keys. Update is one
--   update and one destroy of Email/set: Update.Events is a log of what can lose a message,
--   written by an arbitrary server, Update.NoLoss and Update.Moved are about it. Query is
--   Email/query, with the searches of a mailbox and of all mailboxes. Changes is Email/changes,
--   with what happened to a mailbox as an independent description in Changes.Arrived.
-- - Threads (types/thread.py, and the thread ids of backends/imap/email_map.py): Thread/get.
--   Threads.Criteria reads its search with the machine of Emails.Filter.Server;
--   Threads.Get.Members says when an Email belongs to a thread.
-- - Collections (types/calendar.py, types/address_book.py, backends/caldav/calendar_map.py,
--   backends/carddav/addressbook_map.py, webdav_common/href.py): get and set of calendars and of
--   address books, over an abstract DAV server. The source has the same code twice;
--   Collections.Objects has the two instances.
-- - Push (push.py): a watcher of one account, which polls its mailboxes and puts state changes
--   into the queues of its streams; Push.Registry is the registry of watchers, with
--   Registry.Sessions for the orders in which streams open and close, and with what the registry
--   stands for. A round is a function of the server as it is then; Members.Run is the order of
--   rounds, subscriptions and ends of subscriptions; Ended is a watcher whose task an exception
--   has ended. The event streams themselves are left out.
--
-- Numbers in JSON are integers. Not modelled are the clients of the servers, which are calls of
-- libraries over the network, the HTTP application, and so far the handlers of the other data
-- types and the mappings between the servers' formats and JMAP objects.
pub mod Base
pub mod Json
pub mod Errors
pub mod Effects
pub mod Encoding
pub mod Dispatch
pub mod IdRedirect
pub mod BlobCache
pub mod Pool
pub mod Snapshots
pub mod State
pub mod Auth
pub mod Context
pub mod Imap
pub mod Requests
pub mod Mailboxes
pub mod Emails
pub mod Push
pub mod Threads
pub mod Collections
