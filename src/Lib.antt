-- ===== src/Lib.antt =====
-- go-eth2-client: a client library for Ethereum beacon nodes.
--
-- The program has a client of one node over HTTP (package `http`), a client over several nodes that
-- fails over from one to the next (package `multi`), the types of the API (package `api`) and those of
-- the consensus layer (packages under `spec`). A method of the client over several nodes calls the
-- same method of its active clients in turn, through interfaces; the client of one node turns a
-- method into a request, and the response, decoded and checked, into its result.
--
-- What stands where:
--   Prelude        lists, texts, errors and numbers that all parts share. An error is its text; a
--                  function that may panic ends in `Ending`.
--   Codec          `strconv`, `encoding/hex` and `big.Int` as the code uses them (Decimal, Hex, Big), the
--                  way in which `UnmarshalJSON` reads a field (Fields) and what execution payloads and
--                  their headers share (Payload).
--   Spec           spec/: the data version (spec/dataversion.go), the structures of blocks
--                  (spec/phase0, altair, bellatrix, capella) and the accessors of a block of any fork
--                  (spec/versionedbeaconblock.go, spec/versionedsignedbeaconblock.go).
--   Json           the JSON of the types of api/v1 and spec/*, in groups of one module each:
--                  for a type `X` the structure `XJson` of texts, `marshal_x` and `unmarshal_x` with
--                  each test and error of `MarshalJSON`, `UnmarshalJSON` and `unpack`.
--   Api            api/v1/validatorstate.go: the states of a validator; api/v1/event.go: the topics
--                  and the data of events; api/versionedblindedbeaconblock.go and
--                  api/versionedsignedblindedbeaconblock.go: blinded blocks.
--   Http           http/: Service has the client's state and the shape of a method, `M`; Get is
--                  http/http.go; Static the values that are kept; Spec the specification
--                  (http/spec.go); Forks the fork at an epoch and domains (http/domain.go); New the
--                  constructor (http/service.go with http/parameters.go); Chunks the requests for
--                  many validators; Blocks blocks and proposals; Blinded blinded proposals; Queries
--                  the requests that check their results; Plain those that do not; Submit the
--                  submissions; Duties the duties and state identifiers; Events the topics and
--                  messages of the event stream (http/events.go).
--   Clients        service.go: the interfaces of a client; testclients/: clients that fail or delay the
--                  calls of another (Erroring, Sleepy), and what happens if they wrap each other
--                  (Stacks).
--   Multi          multi/: Pool has the lists of active and inactive clients (multi/client.go,
--                  `activateClient` and `deactivateClient`); Call is `doCall`, `recheck` and `ping`;
--                  Providers are the methods, one for each file; New is multi/service.go with
--                  multi/parameters.go; Events is multi/events.go.
-- Theorems stand in child modules named for what they show; tests and examples in Tests, Answers
-- and Runs.
--
-- How the code is modelled. A uint64 is a natural number, and its wrap-around is written out where
-- the code computes. An array of bytes is a list of them, of the length that a theorem asks for where
-- it matters. A pointer is an Option; where the code follows a nil pointer the model panics. In
-- Multi a panic is `none`: the ping of a client that answers with a nil sync state panics, and with it
-- `recheck`, `doCall` and `New`. `strings.ToLower` is that of ASCII and of the two letters beyond it
-- whose lower case is in ASCII; other letters are kept, which no comparison of the code can tell. A
-- client of a node, and the node itself with the network, are parameters: functions from a state of
-- the world, of any type, to an answer and the next state. So the theorems hold for any node, one that
-- answers differently each time included. Decoders of JSON (`encoding/json` on the types of the API)
-- and hash tree roots (generated on top of `fastssz`) are parameters too. In Json, `encoding/json` lies
-- between the text and the structure of texts and is left out, but for what it does with a value
-- within another one: that value is read by its own method first, in the order of the fields, and its
-- error is wrapped. What is decoded into is a new value.
--
-- Fuel and bounds. The loop that prints a number has fuel for one more digit than the number's value,
-- and that which writes it as bytes likewise.
-- The loop over chunks has fuel for the length of the list, and each chunk takes one element at
-- least. `Validators` and `chunkedValidators` call each other, and so do their likes: the model goes
-- two calls deep, where the second call gets a chunk, which is not larger than the size.
--
-- Not modelled: locks, since the methods of one client run one after the other (the moves between the
-- lists of clients are taken in any order); contexts, timeouts and the timers that call `recheck` and
-- the refresh; logging; the JSON of states, genesis, head events, committees,
-- registrations and blocks (but for the payloads in them); the YAML and SSZ of the types; the rest of
-- the text of an error of `hex.DecodeString` and that of url parsing. A client that lacks an
-- interface that a method asserts is left out: the code would panic there.
pub mod Prelude
pub mod Codec
pub mod Spec
pub mod Json
pub mod Api
pub mod Http
pub mod Multi
pub mod Clients
