-- ===== src/Lib.antt =====
-- prov-go: a client of the Provenance blockchain.
--
-- The program is a library of Go packages. `ProvenanceClient` (pkg/provenance) signs transactions
-- with one key and keeps the sequence number of its account; around it stand paginated queries and
-- the adding of attributes. pkg/demoprime/contract sends messages for one CosmWasm contract, and
-- pkg/demoprime/pool is the client of the lending pool: it builds the contract's JSON messages,
-- sends them through the client, and reads the response from the events of the executed transaction
-- and from the block that holds it. examples/registry loads registry entries in slices, and waits
-- for each transaction; the other programs of examples print what they get.
--
-- Which file is about which code:
--   Base, Base/...   shared helpers: lists, Go's errors (`fmt.Errorf` with %w), int64, maps, texts,
--                    base64
--   Platform         what the client takes from the Cosmos SDK and the node: a parameter
--   Config           pkg/provenance/config.go
--   Stream/...       the goroutine and the gathering loop of the five paginated queries:
--                    pkg/provenance/bank.go, attribute.go, staking.go. Channel is the goroutine, Collect
--                    its caller, Fetched what the pages hold, Queries the five queries, Watch
--                    the loop of examples/bank that prints what comes over the channels
--   Client/Monad     methods of the client, as functions of its fields and the node's state
--   Client/Mutex, Locked, Kept, Interleaved   what prov.go does under the client's mutex: NextSequence,
--                    ResetSequence and the accessors of the query clients, one statement a step
--   Client/Defs      pkg/provenance/prov.go (NextSequence, ResetSequence, GetAccountInfo, SignTx,
--                    BroadcastTx, WaitOnTx) and simulate.go (SimulateTx)
--   Client/Submit    pkg/demoprime/contract/base_client.go (RequireSigner, BroadcastMsgs)
--   Client/Setup     pkg/provenance/prov.go (NewProvenanceClient, connect), grpc.go, keys.go
--   Client/Transact  the end of the methods that send one transaction and do not wait for it
--   Client/Balance   pkg/provenance/bank.go (GetBalance)
--   Client/Services  pkg/provenance/node.go, tendermint.go; Close and ContextWithBlockHeight of prov.go;
--                    Codec and NewTxConfig of grpc.go
--   Marker/...       pkg/provenance/marker.go. Account is what one balance gives, Valuation the goroutines
--                    of GetAccountValue, around the goroutine of Stream/Channel
--   Metadata/...     pkg/provenance/metadata.go, types.go, group.go
--   Attributes/...   pkg/provenance/attribute.go (AddAttributes). Defs is what each goroutine computes,
--                    System the two with their channels, Renderer the progress display
--   Pool/Json, Messages, Requests, Exec   pkg/demoprime/pool/messages.go
--   Pool/Text, Bytes             the text and the base64 of a JSON value
--   Pool/Reader/...              a reader of JSON texts, for what json.Marshal prints
--   Pool/Sent, Settings, Bodies, Received   what that reader finds in the messages
--   Pool/Forward                 pkg/demoprime/pool/cw20_withdraw.go, and the payloads of messages.go
--   Pool/QueryTypes, Queries     pkg/demoprime/pool/query_types.go, and the queries of client.go
--   Pool/Events, Block           pkg/demoprime/pool/events.go, and blockInfoFromBlock of responses.go
--   Pool/Types, Metadata, Responses   pkg/demoprime/pool/responses.go
--   Pool/Wasm, Methods           pkg/demoprime/pool/client.go
--   Pool/Calls, Kinds            the 24 methods of the pool client as one type of calls, and the kind of
--                                response of each
--   Contract/Base    pkg/demoprime/contract/base_client.go and the pool's client.go (the constructors)
--   Contract/Grants  pkg/demoprime/contract/authz_query.go
--   Contract/Granting, Height    pkg/demoprime/contract/grants_tx.go, base_client.go (the heights)
--   Contract/Attrs, Store        pkg/demoprime/contract/txattrs.go, store_instantiate.go
--   Cw20             pkg/cw20
--   Registry/...     examples/registry/loader.go and pkg/provenance/registry.go. Slices cuts the entries,
--                    Update sends and awaits each slice, Files is the rest of the two commands, Main
--                    the program
--   Examples/...     examples/bank, connect, tendermint, tx
-- The other files hold lemmas and theorems; Tests and its children hold runs at concrete inputs.
--
-- How the code corresponds. A method of the client is a function of a `World`, the client's fields
-- and the node's state, to a result and the world after it: a value, an error, or a panic. The node
-- is a record of functions that may answer anything and change the node's state in any way, so
-- every theorem holds for every node. A paginated query is a relation with one step for each
-- channel operation; the context may be cancelled between any two steps, and the `select` of the
-- caller takes any case that is ready. So are the goroutines of AddAttributes, whose caller
-- receives from both channels, and those that share a client: there a step is one statement, and
-- the mutex is a field of the state. Elsewhere a call of `NextSequence` is one action. An error
-- that comes with a nil or zero value is the error alone. A panic ends the program at once: the
-- deferred calls that Go runs before are left out. The query of a paginated query is a function of
-- the page key.
--
-- Bounds. Sequence numbers are uint64 and wrap around at 2^64; the fee is an int64. `poll` is a
-- recursion on the rounds that are left of the ten in `WaitOnTx`. The reader of JSON is given three
-- times the length of its text. `slices` is given as many rounds as there are entries, which is
-- enough since each round takes at least one, and so is the loop of the loader. `digits_of` is
-- given the number itself as the bound of its digits. `all_grants` is given a number of rounds, and
-- a round takes one page. All other functions recurse on their lists. In the model of
-- AddAttributes, GetAttributes gives the same for an attribute at any moment, and the caller
-- receives from both channels until they are closed.
--
-- Hypotheses about code outside the repository: that the registry module's codec reads what it
-- writes, that the JSON parser splits an array of such values, and that a file is read as it was
-- written. What unpacks from an authorization is a parameter. The terminal of the progress display
-- obeys its two escape sequences. The pool of workers of GetAccountValue is taken to recover the
-- panic of a job, and its answers to depend on the scope alone.
--
-- Not modelled: the codec, the signatures, the hash, the decoding of JSON and the parsing of flags,
-- which are parameters; the options of gRPC calls; the usage text of the registry loader;
-- parseCollateralMapJSON, which nothing calls; the getters of the settings, which are the fields of
-- a record. A program's log lines are kept where examples print a result, and left out elsewhere.
pub mod Base
pub mod Platform
pub mod Config
pub mod Stream
pub mod Client
pub mod Marker
pub mod Metadata
pub mod Pool
pub mod Contract
pub mod Cw20
pub mod Attributes
pub mod Registry
pub mod Examples
pub mod Tests
