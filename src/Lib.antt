-- ===== src/Lib.antt =====
-- Proof Arena's backend (backend/src): agents compete in challenges, each run of an agent is executed
-- and logged, its evidence is hashed and audited, and a challenge is settled among its runs.
--
-- The parts, and the file of each:
--   Base            lists, Boolean tests, integers, stable sorting, JSON values, results, IEEE doubles
--                   (Float) and Python's equality of JSON values.
--   Db              the tables of db/models.py as records, and the closed vocabularies of
--                   integrity/{failure_taxonomy,saga_statuses,trust_labels,subject_types}.py and of
--                   db/schemas.py as data types. `Store` is the database as lists of rows.
--   Events          the event dicts of a run and how a payload is read.
--   Challenges      challenges/: the adapter protocol, the swap and the rebalance challenge.
--   Services        services/serialization.py (canonical JSON, rows, log hash), the reads of a swap
--                   service, services/jupiter_service.py (Quotes) and
--                   services/swap_service.py (Orca).
--   Runner          services/runner_service.py. World is what the run meets, as functions of the
--                   number of the next event; Pass is one pass of the loop of `execute_run` and the
--                   loop; Closing is `_flatten_to_usdc` and `_finalize_run`; Execution is
--                   `execute_run`. Log, Stages, Progress, Sealing, Replay, Executed, Classified,
--                   Audited and Tampering are proofs.
--   Integrity       integrity/: settlement_verifier.py (Settlement), completion_evaluator.py
--                   (Completion), action_validator.py (Validator), run_auditor.py (Audit).
--   Policy          policy/engine.py and policy/allowlists.py; Rebalance is the envelope of a
--                   rebalance instance.
--   Cats            integrity/cats/wallet_safety.py and its route of api/cats.py.
--   Settlement      services/settlement_service.py.
--   Enrolment       services/challenge_service.py; Creation is `create_challenge` and the queries.
--   Instances       services/instance_service.py with the dataclasses of runtime/base.py: the deploy
--                   saga, Update and Reads; Operator is api/instances_operator.py, Flagship is
--                   services/flagship_service.py, and Routes is the deploy route of
--                   api/instances.py. Standing says what a stored instance has to be, and
--                   Lifecycle what the committed operations are; the other files are proofs.
--   Templates       services/template_service.py; Routes is api/templates.py.
--   Wallets         services/wallet_service.py: the guards on the network, hosted wallets, draining.
--   Tests           runs of the code at fixed inputs.
--
-- How they meet: the runner asks the validator before it executes, hands its events to the
-- evaluator with the adapter, and stores the hash of Services.Serialization; the auditor computes
-- the same hash from the rows. The settlement service asks the settlement verifier. A hosted run
-- comes from Enrolment, and the Cat reads it back through its agent. The instance that it runs comes
-- from the deploy saga, which asks the policy engine and the wallet service first; an update and the
-- platform's deploy go through the saga, and the operator mends what it left half done. The catalog of
-- templates checks at registration what the saga checks at the deploy.
--
-- Conventions. An exception is the `err` of a Result, or an Option where only its presence counts.
-- A handler that changes rows returns the changed rows or the changed Store; an exception before the
-- commit leaves the database as it was. Times are numbers of microseconds. A JSON object has the
-- fields of the dict in its order; one that the code writes with sorted keys is built in that order.
-- Texts that the code only passes on are not opened.
--
-- What stands outside is a parameter. `Codec` is Python's json, hashlib and str.encode, and the model
-- feeds the hasher with the bytes of one text after the other as the code does. The assumptions about
-- it are `RoundTrip`, that loads gives back what dumps wrote, and, where rows may have been changed,
-- `SelfDelimiting`, that the text of a JSON object at the start of some bytes is found whatever
-- follows it. `ReadsBack`, that the configuration of one challenge is read back, is the only
-- assumption about `Texts`. `World` is the agent, the wallet
-- with Privy, the swap service, the clock and the program client of one run, with an answer or an
-- error for each call. `Chain` is the program client of a settlement, `Bridge` the two regular
-- expressions of the Cat, and `Texts` the f-strings and Python's int(). `Node` is the
-- helper process of the Orca service with the texts around it; the answers of Jupiter and of Privy
-- are arguments. `Outside` is what a deploy meets: the wallet service with Privy, the runtime, and
-- Python's json and hashlib; the next keys and the time are arguments.
--
-- The loop of `execute_run` has no bound of its own. The model runs it on fuel, one pass more than
-- the iteration budget: each pass that is followed by another uses up one iteration.
--
-- A float is an IEEE double (Base/Float): its sums are rounded to the nearest, with ties to even, and
-- NaN, the infinities and the signed zeros are values.
--
-- Not modelled: the float scores (score inputs, rank scores) and the percentages of outcomes, which
-- multiply and divide; the evidence that a rebalance run adds after it is finalized, the rebalance Cat,
-- the verifier, the strategy service and the funding of wallets, which are planned; the
-- providers, the runtime and the chain client, which call other services; and the other routers.
pub mod Base
pub mod Db
pub mod Events
pub mod Challenges
pub mod Services
pub mod Integrity
pub mod Runner
pub mod Policy
pub mod Cats
pub mod Settlement
pub mod Enrolment
pub mod Wallets
pub mod Instances
pub mod Templates
pub mod Tests
