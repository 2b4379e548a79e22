-- ===== src/Lib.antt =====
-- A model of the ERPNext app erpnext_whatsapp_connection, which sends documents and reports of a
-- site by WhatsApp. A user queues a delivery, a worker takes it from the queue, checks it again
-- and hands it to a transport, which is the bundled gateway (another process, reached over a
-- socket) or the sender of another app. A job that runs each minute queues failed deliveries again
-- and reads the gateway's events. A company may also have one WhatsApp group that receives a copy
-- of what is sent.
--
-- Files and what they model:
--
-- - Base, Py: shared names; the parts of Python that the sources use. An exception is a value
--   (Py/Result), a statement an action on the site's state that keeps the state when it raises
--   (Py/Action), a dynamic value is a Value (Py/Value), `==` on these is Py/Equality, and a text
--   is the native string, with Python's white space and decimal digits written out (Py/Unicode,
--   Py/Text).
-- - Site: the rows that the DocTypes declare (Records, from
--   erpnext_whatsapp_connection/erpnext_whatsapp_connection/doctype), the interface to Frappe and
--   the rest (Frappe), and the site's state (World): deliveries, settings, the user of the
--   session, queued jobs, and a log of what has left the site.
-- - Number: `_normalize_number` of erpnext_whatsapp_connection/api.py; Source: the checks of a
--   document and of a report in the same file.
-- - Recipients: `_add_number` and `_customer_numbers` of the same file.
-- - Sending: the rest of api.py. Context has what a message may name, Offer the message templates,
--   ReportPage and ReportPdf the rendering of a report, Store `_store_delivery`, Queue and Calls
--   `queue_document` and `queue_report`, Dialog the dialogs and previews. Written, Stored, Delivered
--   and Queued say what a call leaves when it ends well, step by step; Fresh, Copies and Attempts what
--   the worker makes of that, Limit how often; Escaped is about the texts of a report's page,
--   Chosen, Prepared and Offered about what a dialog offers; Checks and Approved say what was checked before.
-- - Connection: erpnext_whatsapp_connection/settings_api.py.
-- - History, Settings: the controllers of the delivery history and of the settings, and the saves
--   that run them.
-- - Templates: the controller of message templates.
-- - Install: erpnext_whatsapp_connection/install.py. Roles and Added say what its steps leave,
--   Repeated what a migration does after an installation.
-- - Gateway: erpnext_whatsapp_connection/gateway_client.py, with its errors in Gateway/Errors. Transport: transports.py beside it.
--   Permissions: permissions.py. Adapters: adapters.py. Datetime: datetime_utils.py.
-- - Groups: company_groups.py. Identity has the grammar of group identities, Config the configured
--   group of a company, Rules the check of the settings, Copy the check of a copy before it is
--   sent and the release of copies; Checked, Release and Renamed have what these establish.
-- - Outbound: outbound.py. Snapshot reads the PDF, Worker is `process_outbound_message`, Scheduler
--   the jobs. Frame says what a delivery leaves alone, Outcome and Retry what an attempt leaves of
--   a row, Total puts these together for a run of the worker, Sends counts what leaves the site,
--   and Events follows the identity of the last event. Budget is what counts the attempts of a
--   delivery; Kept and Runs say which steps leave it alone, and Limit adds up the sends of a run of
--   the site, a sequence of steps of which each is a worker's run, the minute's job or anything
--   else that leaves the delivery's budget alone. Life is the abstract machine of a delivery.
--   Due and Requeued follow a failed delivery through `retry_due_messages`.
-- - Acceptance: what the app's own acceptance run brings. Peer and Handler are `ProtocolPeer` of
--   erpnext_whatsapp_connection/group_acceptance.py, which stands for the gateway there, Environment
--   its `captured_gateway`, Jobs its `worker_once` and `run_worker`; Installed is
--   erpnext_whatsapp_connection/acceptance.py; Url, Browser and Commands are from
--   erpnext_whatsapp_connection/group_browser_acceptance.py, `diagnostic_path` and the reader and the
--   commands of `Browser`. Answered puts the gateway's client and the peer together, Replay, Tallies
--   and Captured follow the peer through a sequence of requests, Restored, Finished and Preserved are
--   about the next three, Shown, Clean and Redacted about the browser's reader.
-- - Release: Evidence is scripts/verify-native-group-evidence.py, and Accepted says what it accepts;
--   Manifest is scripts/build-release-manifest.py, and Listed says what it lists.
-- - Tests: a concrete site, and the theorems at inputs that meet their conditions.
--
-- What is outside the app's sources is a parameter, the record Frappe of Site/Frappe: the table of
-- deliveries, permissions, other documents, files, hooks, the queue, hashes, encodings, the clock
-- and the answers of the gateway, which may differ from call to call. The queue may refuse a plain
-- job, and, since it is asked at once, also a job with deduplicate=True. IsLawful names the
-- documented behaviour of it that theorems use: a row that was written is read back, a query
-- returns the rows that its filter selects and adds none when it orders them, json.dumps is never
-- empty, a new row gets a name that no row has, and a stored file is read back and stays when
-- others are added. RQ's queue, ERPNext's presets and base64 decoding are parameters of the
-- acceptance run's parts. The model needs no fuel: every loop runs over a list, or a number of
-- rounds that the source gives.
--
-- Simplifications: dates are numbers on the site's clock; statuses are a data type with a case for
-- any other text; the password field of the recipient is a plain field; the order in which Python
-- visits a set is that of the first occurrences; the timeouts of a request are left out, the peer
-- of the acceptance run gets a request's body whole, and the time stamp of a request is read from
-- the site's clock. A run of the worker is one step: two workers on one row at the same time are
-- not modelled, nor is the rollback by which Frappe undoes what a failed request or job wrote: a
-- theorem about a run that raises is about the rows as the run leaves them.
--
-- Not modelled: the rest of the acceptance run, which inserts fixed rows of ERPNext and asserts on a
-- running site and browser; the scripts that scan the history and check a tag; the gateway's own
-- program under gateway; and the scripts of the browser.
pub mod Base
pub mod Py
pub mod Install
pub mod Number
pub mod Site
pub mod History
pub mod Gateway
pub mod Transport
pub mod Permissions
pub mod Adapters
pub mod Source
pub mod Settings
pub mod Datetime
pub mod Outbound
pub mod Acceptance
pub mod Release
pub mod Tests
pub mod Groups
pub mod Recipients
pub mod Connection
pub mod Templates
pub mod Sending
