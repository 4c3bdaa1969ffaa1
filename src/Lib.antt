-- ===== src/Lib.antt =====
-- Albedo runs a subnet on which miners submit models and the best one is king. The repository is a
-- set of services on one PostgreSQL database: the submissions pass validation, sanity checks and an
-- evaluation against the lead king; the set-reign worker makes a winner the lead of a new reign; the
-- weight setter puts the weights of the reign on the chain.
--
-- What is modelled, and where:
--   Tables    schema.sql: the tables as lists of rows, with the columns that the workers here use
--   Reign     src/set_reign_worker/service.py
--     Plan      build_reign_plan, weight_bps_for_member_count, weight_epoch_payload, _retired_members
--     Claim     promote_next_winner up to the claim of a submission, with _next_attempt_number and
--               _record_event
--     Checks    its checks, in their order, up to the model manifest
--     Promote   its writes, _mark_retryable, _weight_hash, and the method as a whole
--   Weights   src/weight_setter/service.py
--     Payload   build_weight_payload, validate_weight_payload
--     Epochs    the queries of claim_next_epoch, _create_periodic_refresh_epoch_inside_tx
--     Claim     claim_next_epoch
--     Setter    mark_success, mark_failed, active_reign_members, run_once
--     NewReign  the weight setter on what the set-reign worker has written
--   Sampling  src/albedo_eval_service/shared/sampling.py: the loop of multi_source_manifest_sample_ids
--             over a pool, with the generator's choices as a parameter
--     Manifest  _normalized_sources, _normalized_shards
--     Quotas    _apportion, _family_grid
--   Remote    src/albedo_eval_service/remote/state.py and the handlers of remote/api.py that use it
--     Prefetch  prefetch_model and _prefetch_model_artifact
--   Private   src/private_store/: the registrations, and what the steps share
--     Contracts   contracts.py: model_prefix, parse_model_prefix
--     Intake      intake.py
--     Controller  controller.py: _credential, _revoke, _verify, tick; cloudflare.py: create_parent_token
--     Sweep       controller.py: the sweeps
--     Steps       all of them in any order, as a relation
--     Freeze, Rows  what every step keeps
--   Evals     src/albedo_eval_service/control/repository.py: its view of the tables
--     Claim     claim_next_eval
--     Finish    mark_eval_succeeded, mark_eval_failed, heartbeat_attempt, set_remote_run_id
--     Queue     sweep_abandoned_eval_attempts, queue_pre_eval_passed, requeue_retryable_evals,
--               record_remote_event, peek_next_challenger_model_uri
--     Steps     the transactions in any order, as a relation
--   Chain     src/chain_reader/, src/chain_guard/: the tables as the chain reader sees them;
--             chain_guard/db.py, find_swaps, confirm_swaps
--     Insert      insert_new_commits, _reject_reused_commit, and what run does with a block
--
-- How the source corresponds to the model: a method that is one transaction is a function from the
-- tables before it to the tables after it, and an exception gives back the tables before. A query is
-- a function of Prelude.Queries: `select` for WHERE, `update` for UPDATE, `first_by` for ORDER BY with
-- LIMIT 1, `max_of` for MAX, and `sort_by` for the stable sort of Python. A UUID is a number, and
-- those that a call draws are fields of its argument, as are the clock in seconds, the answer of the
-- advisory lock, the rows that SKIP LOCKED passes over, and the digest of json and hashlib. ORDER BY
-- with a tie may return any of the rows in PostgreSQL; the model returns the first, and no theorem
-- relies on which. A weight is its basis points, so that the Decimal 1 is 10000. `run_once` takes as
-- arguments what other workers write between its transactions, and the chain as a record of calls
-- that may raise.
--
-- An INSERT that violates a unique index of schema.sql raises. Modelled are the indexes that a write
-- here can violate: one active attempt of a stage in the claims of Reign and Weights, one submission of
-- a chain commit in Chain, and the keys of every ON CONFLICT. Where `claim_next_epoch` raises, it
-- answers `none` on the tables as they were. In Evals a violated index is left out: it would leave the
-- tables as they were.
--
-- What is not modelled: logging, the texts of events and JSON columns, the polling loops, and the
-- other services, which call LLMs, the chain, S3 and subprocesses.
pub mod Prelude
pub mod Tables
pub mod Reign
pub mod Weights
pub mod Sampling
pub mod Remote
pub mod Private
pub mod Evals
pub mod Chain
