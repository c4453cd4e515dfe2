-- ===== src/Lib.antt =====
-- A verification library of the liquidator's backend, the TypeScript program under src/ of the
-- repository: it watches the users of a lending protocol, keeps a queue of the positions that can be
-- liquidated, and liquidates the most profitable one at a time.
--
-- The parts, and the files that model them:
--   Config, Zone: the constants of src/config/index.ts, the networks of src/database/Network.ts, and
--     the zones of health factors of src/utils/zone.ts with the queries of `getUsers`
--     (src/database/UserAccount.ts) that must agree with them.
--   State: the rows of the tables under src/database, the jobs of the worker, the clock, and the
--     chain behind the contracts as an opaque `world`. State/Monad: a call over that state returns or
--     throws, and what it wrote stays written after a throw. State/Preserves: invariants of calls.
--   Estimate: `getEstimatedLiquidateDataWithMaxRevenue`, which collateral to seize for which debt.
--     Estimate/Whole has the reference in whole numbers, Estimate/Profit and Estimate/Best the search
--     over the collaterals, Estimate/Choice the search over the debts, Estimate/Flaws its faults.
--   Reserves: `getUserReserves`, the deposits and debts of a user, which the estimate starts from.
--   Liquidator: `tryLiquidate`; its reads and writes are the interface of Services.
--   Contracts: the writes themselves, of src/contract/utils (erc20.ts, lp.ts, uniswapRouter.ts, and
--     `sendAndWaitRawTx` of web3.ts), over an interface of the node.
--   Queue, Enqueue: `addOrUpdateLiquidate` (src/database/Liquidate.ts) and `updateUserAccountData`
--     (src/database/UserAccount.ts), how a position gets into the queue and out of it.
--   Worker: `liquidate-check-queue` and `liquidate` of src/jobs, with `updateLiquidateQueue`.
--   Events: the ranges of blocks of `lpGetPastEvents` (src/contract/utils/lp.ts), and the users of
--     the events (src/listener/handle/collect-users.ts). Listeners: `confirmedBlock` of that file,
--     `getListeners` (src/database/Listener.ts), and `initLendingPoolListeners` (src/listener/index.ts),
--     which takes up the events of the past.
--   Monitoring: the refresh of the users of a zone (src/utils/monitoring.ts, src/monitoring/index.ts).
--   Tokens: src/database/Token.ts, from `fillTokens` to `convertToken`.
--   Networks: `initNetworks` and `getNetworks` of src/database/Network.ts.
--   Jobs: the query that `addJob` composes (src/jobs/utils/index.ts).
--   Auth: the tokens and passwords of src/auth/jwt.ts and src/auth/basic.ts.
--   Reads: the reads of contracts that remember their answers (src/contract/utils/lp-address-provider.ts,
--     price-oracle.ts, and `getReservesList` of lp.ts).
--   Program: one step of the backend, a job, a callback or something outside, and the states that
--     steps reach. Backend: the Services made of Tokens, Contracts, Reserves and Listeners, and
--     `createServer` (src/server/index.ts) with the life of the backend over several starts.
--   Base: names of the libraries, tests and lists over the native numbers, integers, results.
-- A file named Tests has runs on concrete inputs, and the theorems applied to them.
--
-- How they interact: an event or a job refreshes a user (Enqueue), which saves the account, and by
-- its health factor queues the position after a dry run of the liquidation (Liquidator, Estimate), or
-- cancels it. The check of the queue (Worker) refreshes all queued users, sets the best pending
-- position to work and adds a job, which runs the liquidation and marks the row.
--
-- How the code is read. A function of the source keeps its name in the spelling of this language; an
-- `async` function that changes tables or the chain is an Action, one that only reads is a function
-- of the state into a Result. A `Promise.all` over reads, or over users, is taken in the order of the
-- list. Logging is left out, as are the branches of the test mode. A `try` with a `catch` that logs
-- is `catch` with a handler that returns. An object keyed by symbols is the list of its entries.
--
-- Interfaces, for code that is not the repository's: BigNumber is the package bignumber.js, with
-- the laws of its documentation on numbers that are exact or rounded (BigNumber/Exact fills it with
-- decimals and takes `Number` of a text as exact); BigNumber/Bigint is the database's cast of a
-- column to 64 bits, which throws out of its range; Orm is the package sequelize (Orm/Memory fills
-- it with lists), where the row that `findOne` picks among several is left open; Jwt is the package
-- jsonwebtoken, whose law is that what was signed is decoded with the same secret while it lasts;
-- Node, TokenReads, ReserveReads, BlockReads and NetworkReads are the answers of the node and of
-- the contracts. Services is what the liquidation needs of the rest, which Backend fills; whether
-- the database takes a job, a deletion of jobs or an update of the listeners is a parameter there
-- too, since the source goes on after those errors. What was a text of digits in the source is a
-- number of BigNumber; a health factor that is stored has two decimal places and is an integer of
-- hundredths; a token of jsonwebtoken is of a type of the interface.
--
-- `Number` of a configuration is the double closest to it (Base/Double).
--
-- Fuel: the loop of `lpGetPastEvents` may take as many rounds as there are blocks, where each round
-- passes a thousand of them; the digits of a configuration may be as many as its value, which has no
-- more digits than that; a configuration has 256 bits, 203 more than a double.
--
-- Not modelled: the registration of plugins, schedules and sockets with the server, logging, the
-- client of the node with its formatters (src/contract/utils/web3.ts), the package that polls the
-- node for blocks, and the sqlite branches of the test mode. The folder protocol has a copy of the
-- lending protocol with its deployment scripts and tests, code of another project. Interleavings of
-- jobs on one database are not modelled: a job, a callback or a start runs to its end, and two jobs
-- that write at once are outside of what is shown. Other failures of the database are not modelled.
-- The other parts take the reads that remember their answers as reads of the state.
pub mod Base
pub mod BigNumber
pub mod Orm
pub mod Config
pub mod Zone
pub mod Estimate
pub mod State
pub mod Services
pub mod Liquidator
pub mod Queue
pub mod Enqueue
pub mod Worker
pub mod Events
pub mod Reserves
pub mod Contracts
pub mod Listeners
pub mod Tokens
pub mod Monitoring
pub mod Program
pub mod Backend
pub mod Jobs
pub mod Networks
pub mod Auth
pub mod Reads
