-- ===== src/Lib.antt =====
-- The decision core of Sampark, a service that mediates between recovery agents: agents ask for
-- permission to contact a customer about a risk item (a grant request), and the service grants,
-- denies or defers, within contact caps and margin budgets.
--
-- How the parts interact. The registry (sampark/registry/) checks that a request was signed by an
-- active agent and is within its capability scope, and counts strikes. The hard policy
-- (sampark/policy/hard/) runs eleven rules on a candidate; the hard filter
-- (sampark/mediation/hard_filter.py) hands what they admit to the allocator (sampark/allocator/),
-- which scores and ranks a customer's candidates and asks the issuer (sampark/budget/store.py) for a
-- grant, until one is issued. The mediation service (sampark/mediation/service.py) runs a window of
-- all these: it checks the scope of new requests, adds the candidates carried forward, and turns every
-- outcome into a decision. The issuer reserves margin in a merchant pool and a customer pool and
-- claims the customer's window. The lifecycle (sampark/mediation/lifecycle.py) then executes,
-- confirms, rolls back or expires the grant, which settles or releases the margin. Every event goes
-- into a hash-chained log (sampark/audit/chain.py). The policy compiler (sampark/policy/compiler/)
-- checks a proposed rule and makes a function of it that can be appended to the hard rules. Attribution
-- (sampark/attribution/) estimates from held-out customers what would have been recovered anyway, and
-- credits a grant with the rest. Before any of this, identity resolution (sampark/identity/resolution.py)
-- puts the signals that share a hashed phone number or address into one customer.
--
-- Files:
--   Base            shared names, tests, lists, exceptions as values, integers, dicts, sorting
--   Contracts       sampark/contracts/*.py and the reason codes
--   Budget          sampark/budget/: Windows (windows.py), Margin (margin.py), Contact (contact.py),
--                   Ledger, Pools, Claims and Issuance (store.py: InMemoryMediationLedger and
--                   InMemoryGrantIssuer.issue_grant), Expiry (expiry.py); Backing and Consistency
--                   hold the ledger's invariant
--   Allocator       candidate.py, scoring.py and scorer.py (the interface), outcomes.py and greedy.py
--   Registry        store.py (the in-memory repositories), scope.py, strikes.py
--   Policy          policy/types.py (Verdict), policy/hard/*.py (Hard) and policy/compiler/ (Compiler:
--                   ir.py, validate.py and generate_rule_function of generate.py)
--   Mediation       lifecycle.py (Lifecycle), hard_filter.py (HardFilter) and service.py (Service)
--   Audit           audit/chain.py
--   Identity        sampark/identity/resolution.py: UnionFind and Resolution (resolve_customer_ids);
--                   Roots is about forests in general
--   Attribution     baseline.py (Baseline) and credit.py (Credit)
--   Tests           concrete inputs, to which the theorems are applied
--
-- How state and operations correspond. A method that mutates its object takes the state and returns
-- the new one; an exception is an `err` with the exception's class. A dict is an association list in
-- insertion order, a defaultdict or setdefault is written out. Where the source reaches one record
-- object through two dicts, the second dict refers to the first, so that a change shows through both.
-- Reading a margin pool creates it, as in the source.
--
-- Numbers. Paise amounts, basis points and counters are natural numbers, as the pydantic models and
-- database checks demand; the reserved and spent sums of a pool are integers. An instant is a number
-- of microseconds since 1970-01-01T00:00:00Z, a date a number of days, and Asia/Kolkata is UTC+05:30.
-- Python integers are unbounded, so nothing wraps. Identifiers are numbers, compared for equality
-- and order only. Every loop runs over a list and is structural recursion, but for the search of the
-- union-find, which takes the node as fuel: every step of it leads to a smaller node.
--
-- Parameters: `uuid.uuid5` (IdScheme) and with `uuid.uuid4` the ids of decisions (DecisionIds),
-- Ed25519 verification and the canonical bytes (SignatureScheme), floating-point numbers (Floats) and
-- the scorer, the issuer that the allocator calls, SHA-256 of an event's canonical bytes (HashScheme),
-- what Python's `str.isdigit` and `int` know of a character (Digits), the quotient of two counts as a
-- float, the rounding of a rate to basis points (CreditScheme), the node strings of identity
-- resolution, numbered in their order, and the digest of a sorted set of them (Names). The parameters
-- of a compiled rule are JSON values without fractions.
--
-- Not modelled: the Postgres-backed ledger, issuance and repositories (SQL), the emission, export
-- and explanation of audit events, the attribution store (SQL), the canonical forms of phone
-- numbers and addresses, the learned models and the value formula (floating point), the parsing of
-- a proposed rule from JSON, the validators of the pydantic models but that of a decision (a risk
-- item's amount may be zero here, and a grant's expiry after its start is not checked, though
-- issue_grant always sets it so), the errors that canonical bytes raise for naive times and
-- unsupported payloads (the hash of an event always exists here), the program text and English that
-- the compiler renders, its language model, integrations, demo, simulator and scripts.
pub mod Base
pub mod Contracts
pub mod Allocator
pub mod Budget
pub mod Registry
pub mod Policy
pub mod Mediation
pub mod Audit
pub mod Attribution
pub mod Identity
pub mod Tests
