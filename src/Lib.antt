-- ===== src/Lib.antt =====
-- Verification of the core of the NITRIS student bot: the parts that decide who may talk to the
-- university's portal and when, what runs in the background, and which notifications go out.
--
-- The parts and their files:
--   * Gateway (app/nitris/gateway.py, class NitrisGateway): every request to the portal passes acquire(),
--     which the model splits at its locks: admit is one pass of its locked loop, begin_request and leave
--     are what follows, release_slot and reacquire_slot are the slot hand-over of a paced login.
--     Gateway/State has the fields and the quarantine guard, Adaptive the circuit breaker and the
--     adaptive limits, Admission the slots, Pacing the token bucket, Login the three login paths. Breaker,
--     Probe, Slots, Turns and Dispatched prove. Times are in milliseconds, tokens in millionths, rounded
--     down at a refill.
--   * AuthGate (app/nitris/auth_gate.py): the quarantine of credentials in the table of users, the guard
--     of the gateway, and the notices to the user. A failure and a renewal are each a transaction and
--     what follows it, and Calls lets other calls run between the two. The second logins of
--     app/services/attendance_service.py and attendance_details_service.py, which call _do_login and do not
--     ask the guard, are not modelled. Notices and Guarded prove.
--   * JobQueue (app/nitris/job_queue.py, class NitrisJobQueue): State has jobs, futures and the two lanes,
--     Enqueue the single entry, Worker the lanes, _run_job and _schedule_retry. Lanes, Order, Bounds,
--     SingleFlight, Retries and Reach prove.
--   * Dispatcher (app/services/event_dispatcher_service.py): Table is the table of events and its SQL
--     statements, Send is _send_with_retry, Cycle is _dispatch_once with all that it calls. Claims, Ends,
--     Groups, Delivery, Attempts and Failures prove.
--   * Scheduler (app/services/scheduler_service.py): Rows is the table of schedules and its statements,
--     Cycle a turn of run_scheduler_loop, which puts its jobs into the queue of JobQueue. The SELECT and the
--     UPDATE of update_schedule_failure are one step: nothing else is taken to write the same row between
--     them. Claims, Backoff and Refusals prove.
--   * QPaper (app/services/qpaper_service.py, the columns in app/db/models.py): the shared cache of
--     question papers. Row has a row and its statements, Acquire what follows a claim, for a request and
--     for a pre-warm, Deliver the routing, the waiting and the sending. Lifecycle, Contention and
--     Sending prove.
--     A statement names its row by the id, so the state is one row.
--   * RateLimiter (app/nitris/rate_limiter.py, class OperationCooldown): the cooldowns per user and
--     operation. Entries and Cooldown prove. Times are in milliseconds.
--   * SessionPool (app/nitris/session_pool.py): the authenticated sessions that the jobs of a user share.
--     enter is with_pooled_session up to its lock, leave its end. Drops, Places, Evictions, Locked and
--     Stale prove. close() of a client does not suspend, so each of these is one step. Times are in
--     seconds.
--   * Holidays (app/services/holidays_service.py): the institute's holiday calendar. Pages has the pages
--     and their JSON, Months the months and labels, Cache the caches and the file on the disk, Fetch the
--     walk and fetch_user_holidays; of navigate_holidays_month (app/nitris/client.py) it has the choice of the
--     link and the ValueError of a page without it, and the postback is a parameter. Transport, Labels, Walk, Navigation, Restart and Stray prove. The
--     walk has 24 rounds, as the code has. Years have at most nine digits, the fuel of their printing.
--   * AttendanceHealth (app/services/attendance_health.py): Numbers parses, Subject has the health of a
--     course and the line of an alert, Summary the summary. Limits, Alerts and Worst prove. Letters and
--     digits are those of ASCII.
--   * Snapshots (app/services/snapshot_service.py, app/services/event_service.py): Numbers parses the
--     counts, Events has the events between two snapshots, Store the table and create_snapshot_if_changed.
--     Parsing, Detection and History prove.
--   * Client (app/nitris/client.py, app/nitris/aspnet.py): the attendance workflow. Http has the portal
--     with its HTTP client and HTML functions, as a parameter, and the state; Postback submit_postback,
--     Options the orders of the dropdowns, Resolve the cache of resolved URLs, Attendance
--     fetch_attendance. Orders, Payload, Probes, Outcomes, Table and Hints prove. Digits and letters are
--     those of ASCII.
--   * NowNext (app/services/now_next_service.py): Slots has the rows of a timetable by day, Resolve
--     resolve_now_and_next. Order, Earliest and Last prove. A moment is a day of the week with a time in
--     microseconds; the weekdays of the rows are below 7, as the keys of the code's dictionary are.
--   * ClassEnd (app/services/class_end_sync.py): Sync has the cycle that syncs the attendance after the
--     last class of a day; Once and Batch prove. The job queue is a parameter.
--   * Examples runs the theorems at concrete inputs; Prelude has what all share.
--
-- How they interact: AuthGate changes the guard that Gateway reads; Scheduler asks the depth of the
-- queue of JobQueue and calls its enqueue; both keep their own tables, whose rows are claimed by an
-- atomic UPDATE and are free again after a stale time.
--
-- Conventions: a section under a lock, or an SQL statement, is one function on the state; interleavings
-- are sequences of these (Gateway/Slots, JobQueue/Reach, AuthGate/Calls). Telegram, the portal, the
-- clock and random draws are parameters. Loops are structural; the token dispatch has the length of its
-- queue as fuel, of which each round uses one with a waiter less, so it cannot run out.
--
-- Not modelled: the HTTP client and the parsers (third-party libraries), the bot's handlers and texts,
-- the ORM (its columns are fields of the records), start-up and shutdown of tasks, logging and metrics.
pub mod Prelude
pub mod Gateway
pub mod AuthGate
pub mod JobQueue
pub mod Dispatcher
pub mod Scheduler
pub mod QPaper
pub mod RateLimiter
pub mod SessionPool
pub mod Holidays
pub mod AttendanceHealth
pub mod Snapshots
pub mod Client
pub mod NowNext
pub mod ClassEnd
pub mod Examples
