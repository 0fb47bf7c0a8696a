-- ===== src/Lib.antt =====
-- The alerting, the agent updates and the sign-in limit of the backend, and the activity tracker of the
-- agent.
--
-- The system is a backend (backend/), which keeps its data in PostgreSQL, and an agent on every
-- monitored machine (instanceEnd/), which sends samples to the backend over a WebSocket.
--
-- Alerts models backend/src/alerts.rs. Alerts/Model has the tables of `ensure_schema` as one record
-- `Db`, and the rows that the functions read. A function that runs a transaction is a function from
-- `Db` to `Db`, with an SQL UPDATE as `update_where`, a WHERE clause as a Boolean test and ON
-- CONFLICT as a search in the table; an error is a value and leaves the tables as they were. The
-- time that `now_ts()` gives, and whether an agent is connected, are arguments.
--   Alerts/Observation: what a sample says of a rule (`metric_value` to `pending_should_fire`).
--   Alerts/Lifecycle: `suppression_reason_tx`, `insert_delivery_tx`, `enqueue_event_lifecycle_tx`.
--   Alerts/Resolution: `resolve_event_tx`, `resolve_rule_events_tx`, `resolve_instance`,
--     `reset_metric_pending_states`, `acknowledge_event_tx`, `refresh_active_suppression_states`.
--   Alerts/Evaluation: `process_rule_observation`, one function for each of its parts.
--   Alerts/Sampling: `observe_metric`, `observe_offline_at`, `observe_expiration_at`,
--     `observe_connection`, and a round of `alert_evaluation_loop`.
--   Alerts/Delivery: `claim_delivery`, `start_delivery_attempt`; Alerts/Completion:
--     `release_delivery_claim`, `mark_delivery_suppressed`, `finish_delivery_attempt`,
--     `reset_failed_delivery_tx`.
--   Alerts/Sound is the invariant of the tables; Alerts/History has every order of the transactions
--     above, and any change of the configuration. The test message of a channel, which belongs to
--     no event, and the deletion of old rows are not among them.
--   Alerts/Leases, Alerts/Schedule, Alerts/Firing, Alerts/Recovery, Alerts/Resolution/Closing and
--     Alerts/Evaluation/Ignored are about deliveries, durations and the end of events;
--     Alerts/Fixtures and the Tests have a rule, an instance and a channel at work.
-- A transaction is taken as one step: the rows on which it decides are locked, and what it reads
-- without a lock (maintenance windows, links to channels) is read at that step. `claim_delivery` is
-- apart: the deliveries of its subqueries come from a snapshot of its own, `seen`, which can be any
-- tables, and the rows that it locks from the present ones.
-- Identifiers are numbers; `Uuid::new_v4` is any sequence, and where two identifiers must differ the
-- sequence does not repeat (`Distinct`). The `f64` of a metric is a value of any type with the
-- operations of `F64`. Times are integers; a time plus a constant does not overflow, and where the
-- code saturates at the bounds of `i64`, so does the model.
--
-- Activity models instanceEnd/src/activity.rs: every atomic access is one step, and a schedule is
-- any list of such steps of workers, waiters and the updater. tokio's `Notify` is a parameter.
--
-- FileFrames models the codec of binary frames, `encode_chunk_frame` and `decode_chunk_frame` of
-- instanceEnd/src/file_manager.rs and of backend/src/files.rs, with the `uuid` crate as a parameter.
--
-- Updates models backend/src/updates.rs. Updates/Model has the tables of backend/src/db.rs that it
-- uses as one record `Fleet`. A function that runs a transaction is a function from `Fleet` to an
-- `Answer`, that is, new tables or the error that the handler returns; what the handler reads before
-- its transaction comes from tables of its own, `seen`. The `semver` crate is a parameter, `Versions`.
--   Updates/Status: the statuses of an attempt; Updates/Eligibility: `target_matches`,
--     `rollout_ineligibility_reason`, `select_update_candidate` and the functions that they call.
--   Updates/Attempts: `record_update_status_for_attempt`, `record_connection_rollback_status`,
--     `confirm_update_version`, `expire_restart_attempts`.
--   Updates/Rollback: `queue_upgrade_attempt`, `queue_rollback_for_upgrade`,
--     `reconcile_release_rollback`.
--   Updates/Rollout: `set_rollout_paused`, `admin_promote_agent_rollout`,
--     `admin_rollback_agent_release`, `admin_publish_agent_release`.
--   Updates/Offering: `active_upgrade_offer`; Updates/Polls: `find_update_for_instance`,
--     `find_rollback_for_instance`.
--   Updates/Instances: `admin_add_agent_rollout_targets`, `admin_rollback_agent_instance`,
--     `admin_reupgrade_agent_instance`, `admin_retry_agent_update`.
--   Updates/Releases: the catalogue, `admin_create_agent_release` to `store_artifact`.
--   Updates/Sound is the invariant of the tables, with a child for each group of transactions;
--     Updates/Steps lists them, with the statements that write outside a transaction, and
--     Updates/History has every order of those. Updates/Transitions and Updates/Lifecycle are about
--     the order of the statuses; Updates/Accepted and Updates/Repeated are about reports;
--     Updates/Settled and Updates/Confirmed are about the timeout, the start of a rollback and the
--     confirmation; Updates/Candidates, Updates/Offers and Updates/Retries are about the choice of a
--     new upgrade, and Updates/Served about the offer.
-- The advisory lock of `ensure_no_other_controlled_release` makes the transactions that take it
-- follow one another, so that each is one step.
--
-- Auth models the limit on failed attempts to sign in of backend/src/admin_auth.rs
-- (`record_auth_failure_locked` and the functions around it). A map is the list of its entries, in the
-- order in which it is iterated; `u32` wraps around, and a time plus a constant does not overflow.
-- Auth/Proxy models `resolved_client_ip` and what it calls, with the reading of headers and addresses
-- as a parameter; Auth/Hops is about it, and Auth/Limiter is the limit:
--   Auth/Bounded, Auth/Blocking, Auth/Held and Auth/Release are about every order of the events of
--   such a map. The handlers that ask it are not modelled: a sign-in verifies a one-time password
--   before it consults the limit of the account, so that a valid one passes in spite of a block.
--
-- Base has the numbers, lists, rows and integers that the others share.
--
-- Not modelled: the web front-end, the handlers that parse requests and render pages, encryption
-- and the sending of notifications (`send_webhook`), whose outcome is an argument; the remaining
-- modules of the backend and of the agent (sessions and passwords, file transfers beyond their frames,
-- jobs, terminal, remote desktop); of the updates, the upload and the download of packages, the
-- signatures of offers, and what the agent does with them (instanceEnd/src/update.rs).
-- No definition has fuel: all recursion is on lists, or on the number of bytes of a number.
pub mod Base
pub mod Activity
pub mod Alerts
pub mod FileFrames
pub mod Updates
pub mod Auth
