-- ===== src/Lib.antt =====
-- A verification library for sia-satellite, a service that forms and keeps file contracts with Sia
-- hosts on behalf of renters.
--
-- The program has a host database (modules/manager/hostdb), a contractor that forms, renews, watches
-- and judges contracts (modules/manager/contractor), a wallet that pays for them (modules/wallet), a
-- portal for the users (modules/portal) and a provider that serves the renters (modules/provider) over
-- encrypted sessions (modules/rpc.go). Files are laid out over hosts by internal/object. The library
-- models the parts that decide, which host, which contract, which outputs, which attempts, and the
-- parts that must not lose data: the layout of files, and the messages.
--
-- Prelude            shared names; Prelude/Tests, Lists, Options and Maps hold the Boolean tests, the
--                    lists, the chains of partial steps and the finite maps.
-- Currency           types.Currency of go.sia.tech/core, as a parameter with the laws it documents, and
--                    the 128-bit arithmetic that satisfies them.
-- HostTree           modules/manager/hostdb/hosttree/hosttree.go and sort.go. HostTree/Nodes has the
--                    node and its methods createNode, recursiveInsert, nodeAtScore and remove: a tree
--                    is a data type, and a pointer to a node is the path to it, which no method
--                    changes. HostTree has New, Insert, Remove, Modify, SetFiltered,
--                    SetScoreFunction, Select and All. Nodes/Scores, Balance, Entries and Selection
--                    prove what the nodes keep; Agreement, Refinement, Methods, Modify and Reachable
--                    prove that the tree is a map from keys to hosts. HostTree/Random has
--                    SelectRandom, with the filter of addressfilter.go; its loop runs on as much fuel
--                    as the tree has hosts, since each draw takes one out. Filters, Addresses,
--                    Removed, Draws, Selected and Selections prove what it returns and what
--                    it leaves of the tree.
-- Gouging            modules/gouging.go. Gouging has the allowance, the host settings, the price table
--                    and the checks of settings; Gouging/PriceTables those of price tables, and
--                    CheckGouging. Fair, FairTables, Costs and Verdict state what an accepted host
--                    has promised.
-- Utility            modules/manager/contractor/maintenancechecks.go and uptime.go. Utility/Marking
--                    and MinScores have managedMarkContractUtility, managedMarkContractsUtility and
--                    managedFindMinAllowedHostScores of utility.go. It calls CheckGouging of Gouging.
--                    Usable, Critical, Marked and Outcome state what the verdicts mean.
-- Protect            modules/portal/protect.go: the statistics of attempts and their pruning; Limits and
--                    Prune are about one attempt, and one round of pruning.
-- Wallet             modules/wallet/money.go, and nextAddress of seed.go. Selection, Inputs, Funds and
--                    Reservations are about the outputs that are selected, spent and marked.
-- ContractSet        modules/manager/contractor/contractset/contract.go and contractset.go. Both maps of
--                    the set refer to the objects of a store, so that what an update changes is seen
--                    in both. Revisions, Lifecycle and Outdated are about the revisions taken over,
--                    the way of a contract through the set, and the deletion of old contracts.
-- ThreadGroup        internal/sync/threadgroup.go, as a step relation on the state that goroutines
--                    share: Invariant, Steps and Safety prove what Stop promises.
-- TryMutex           internal/sync/trymutex.go, in the same way.
-- Wire               the encoder and decoder of core that messages are written with: a decoder that has
--                    failed reads zero values. The layout of a value in bytes is a parameter with
--                    the laws of WireLaws; Wire/Concrete has a layout that satisfies them.
-- Messages           modules/provider/encoding.go, the types of modules/provider.go that it writes, the
--                    stored records of modules/manager.go and the header of contractset/contract.go.
--                    Terms, Contracts, Settings, Files, Metadata, Uploads and Stored have the messages
--                    with EncodeTo and DecodeFrom; Requests has the dispatch of threadedHandleConn
--                    (modules/provider/network.go) on the kind of a request. Each RoundTrip is about the
--                    file it stands under.
-- Session            modules/rpc.go: the frames, requests, responses and errors of a session, over a
--                    cipher, a nonce and a hash that are parameters. Session/Handshake is the handshake
--                    of modules/provider/network.go. Frames, Requests and Responses state what is read
--                    of what was written, and what is refused.
-- Object             internal/object/slab.go and object.go. Object/Stripes has stripedSplit and
--                    stripedJoin; Object has SectorRegion and Recover, which use them, and the
--                    encryption of shards; Splits has SplitSlabs and SingleSlabs; Keys the keys as text;
--                    Streams the encryption of objects, which changes the nonce on the way. The
--                    Reed-Solomon code and chacha20 are parameters.
-- Watchdog           modules/manager/contractor/watchdog.go: the contracts that are monitored, and the
--                    two maps between them and the outputs that they depend on. Watchdog/Sets has the
--                    sets, Spends findDependencySpends, and Blocks the monitoring of a contract and the
--                    scan of a new block, and Reverted that of a reverted one, whose queue runs for
--                    any number of rounds. Dependencies, Loops, Pruned, Monitored and Applied state how
--                    the maps change, and that they agree.
-- Examples (in each) the theorems at concrete inputs.
--
-- A panic, of a currency operation or of a missing value, is the value none of an Option; an error is
-- a value of the result. Currency values and machine integers are natural numbers, with every
-- wrap-around of 64 bits written out. Keys, identifiers and addresses are numbers. A Go map is an
-- association list, and no theorem depends on its order; where the order of iteration decides a
-- result, as for equal scores or values, it is the order of the list. Every loop is a structural
-- recursion on the list, tree or path that it walks, so no fuel is needed but for SelectRandom, whose
-- draws are a function that stays below its bound, and for the loops of stripedSplit and stripedJoin:
-- these run on as much fuel as a shard or a downloaded region has leaves of 64 bytes, since each round
-- takes one leaf of every shard. The database, the network, the resolver of names and core are parameters or fields of an environment that holds their answers. Locks, logging and
-- error messages are left out: each method is one step, which is what its lock makes of it, except in
-- ThreadGroup and TryMutex, where a method is as many steps as others can come between.
--
-- Not modelled: the SQL layers, the connections of the network protocols, HTTP handlers and command
-- line, which only move data; the floating-point host scores of hostdb and the health of slabs;
-- internal/smux, which is a copy of a library. Contract formation and renewal, what the watchdog does
-- about contracts that are late, the handlers of provider/rpc.go, and the signing and
-- sending of transactions are not modelled either.
mod Prelude
pub mod Currency
pub mod Wire
pub mod Watchdog
pub mod Messages
pub mod Session
pub mod Object
pub mod HostTree
pub mod Gouging
pub mod Utility
pub mod Protect
pub mod Wallet
pub mod ThreadGroup
pub mod TryMutex
pub mod ContractSet
