-- ===== src/Lib.antt =====
-- The interface library of LasseCash (api/src): the TypeScript code between the contract on MAGI and
-- the site. The part modelled here is that which turns chain data into figures:
--
-- * Amount (api/src/amount.ts). `toUnits`, `fromUnits` and the functions on them. An amount is a text
--   of code units, a `bigint` an integer, and a call that throws answers `err`. The regular expression
--   is read as a split at the dots. `toLocaleString` is a parameter.
-- * Market (api/src/market.ts, with `canonicalAction` of types.ts and `PoolLedgerEntry` of backend.ts).
--   Market/Entry reads one pool call (`parseLedgerEntry`), Market/Replay replays the ledger
--   (`buildMarketTrades`), Market/Ticker makes the 24-hour figures (`marketTicker`), Market/Rows and
--   Market/Shapes make the listings (`tradeRows`, `gecko*`, `cmc*`), Market/Supply the supply figures.
--   The loops are recursions on the list, with the variables of a loop in a record. `Date.parse` is a
--   parameter that answers an integer; a date that does not parse (NaN) is not modelled.
-- * Settle (api/src/settle.ts). `settleIsDue` and `currentMonthEpoch`, whose date is given as its year
--   and month in UTC.
-- * Indexer (api/src/indexer.ts). Indexer/Store has the interface `IndexStore` with what its comments
--   promise as laws, Indexer/Sync has `syncIndex` over any such store, Indexer/Memory has
--   `MemoryIndexStore` as one such store. The number of pages that may still be read is the
--   fuel of both loops, as `maxPages` bounds them in the code. A page is a function of the number of
--   pages read so far and the offset; every page is taken to be answered. `Number` of a stored offset
--   is read as the digits that `String` wrote.
-- * Activity (api/src/activity.ts). `hideSpentAllowances` and `groupPoolClaims`, whose map of groups
--   is a list in the order of its keys.
-- * Positions (api/src/position-history.ts). What the contract answered to the calls of a position:
--   `parseClaimed`, `parseLiquidity`, `reservesAt` and `trancheStory`. The sort by age is an insertion
--   that keeps the order of equal heights.
-- * NativePool (api/src/native-pool.ts). `nativePrice`, `milliToHbd` and `unitsToMilli`, on amounts
--   that are not negative.
-- * Nodes (api/src/magi-nodes.ts). `magiFetch` over the three public nodes or a private one. What a node
--   answers within its time is a parameter, asked once for each node; the error's text is the list of
--   what was tried. `pickFastestNode` is left out.
-- * Signer (api/src/aioha-signer.ts, with constants of backend.ts). Signer/Tables has the tables by
--   entrypoint, Signer/Sizing `sizeRc` and what it calls, Signer/Bundle `submit`, up to what it hands to
--   the wallet, Signer/Batch `claimAllOf`, Signer/Reason `hiveReason` and Signer/Wallet the operations
--   and replies of the wallet program. The record `Wallet` holds what the node, the wallet and the user
--   answer; the meter counts whole credits. `claimAllOf` runs on one unit of fuel for each call, as each
--   round sends at least one. A factor of 0.6 or 1.3 rounded up is written as a division of integers,
--   which the code's numbers agree with, as they are off by less than the rounding of a product.
-- * Replies (api/src/magi-backend.ts). `visibleHiveReplies` with `isBotCommandsOnly`, whose first regular
--   expression is a machine in Replies/Bots. The loop to a fixed point runs on one unit of fuel more than
--   there are replies.
-- * Ledger (api/src/magi-backend.ts). Ledger/Outputs has `resultsByOp`, Ledger/Paging the two ways of
--   reading pages, Ledger/Calls the pool's calls and their ledger, Ledger/Discovery `discoveredCalls`,
--   Ledger/Account `accountOps` and Ledger/Tally `activity`. A page is a function of its offset; the fuel
--   of a walk is its limit, as each page moves the offset by a hundred. Maps are lists of pairs, with a
--   key's entry in its first place. The pages of outputs are read one by one, where the code reads four
--   at a time and leaves those behind the last.
-- * Client (api/src/client.ts). Client/Pool has `poolTrades`, whose engine is a record of functions that
--   may throw; Client/Calls the arguments of `transfer`, the settlements that ride along and the slices
--   of `catchUp`.
-- * Links (api/src/magi-backend.ts, api/src/hive-metadata.ts). `permlinkFor`, with the choice that
--   `publish` makes between the author's link and the title, and `commentPermlink`. The permlink of a
--   title is one pass over code units; a character of two units is dropped as its units are.
--   `toLowerCase` and `toISOString` are parameters.
-- * Feed (api/src/magi-backend.ts, with `PostView` of types.ts). `mergeTagged`, `hiveMeta` and `isoUtc`. The
--   rows are read one after the other with the keys known so far; a record holds the functions of the
--   language and of the engine that it calls. An author's shares are a function of the name.
-- * LegacyPrice (api/src/legacy-price.ts). `scaled`, `toDecimal` and `usdValue`, on amounts that are
--   not negative.
-- * Snapshot (api/src/snapshot-check.ts). `selfSigned` and `shardOf`, with `Shard` of
--   node/migtree/migtree.go, its constant and its loop, for comparison, on names of ASCII characters. `cleanName`, which needs the
--   lower case of Unicode, is left out.
--
-- Signer bundles the calls that Ledger reads back; Ledger makes the entries that Market replays and the
-- rows that Activity groups. Market and Positions use Amount to render their figures, Settle uses it to read a balance; Activity
-- and Positions read answers with the patterns of Market/Entry; the other parts stand alone.
-- Prelude has the numbers, lists, texts and results that all of them share: decimal printing with
-- enough fuel (a number has no more digits than its value and one), and `BigInt` of a text.
--
-- Not modelled: `cmcAssets` and `SUPPLY_KEYS` (constants), `MemoryIndexStore.all` (a listing for
-- tests), `mintStory` (floating-point percentages), the network, wallet and rendering code, and the
-- contract, whose language is Go.
pub mod Prelude
pub mod Amount
pub mod Market
pub mod Settle
pub mod Indexer
pub mod Activity
pub mod Positions
pub mod NativePool
pub mod Nodes
pub mod Signer
pub mod Replies
pub mod Ledger
pub mod Client
pub mod Links
pub mod Feed
pub mod LegacyPrice
pub mod Snapshot
