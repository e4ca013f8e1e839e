-- ===== src/Lib.antt =====
-- IBC-Solidity, checked: the messages that the chains exchange, the commit seals of an IBFT 2.0 block,
-- the keys of a relayer, its calls of the contracts and their events, and the channels and packets of
-- the contracts themselves.
--
-- The relayer of pkg/testing drives two chains. It signs with keys from a mnemonic
-- (pkg/wallet), reads blocks and receipts through pkg/client, takes the commit seals of a Besu
-- block from its header (pkg/chains), puts headers, client states, connection and channel ends and
-- packets into protobuf messages (pkg/ibc), and looks up commitments (pkg/testing/types.go). The
-- parts meet in the bytes that they hand over: each is a function on bytes and records here.
--
-- Prelude: lists, Boolean tests, errors, decimal numbers and bit operations over native numbers.
--   Prelude/Decimal is `strconv.Atoi` and the format %v of a number.
-- Wire: the code that the codecs of pkg/ibc/*/*.pb.go repeat, modelled once, from
--   pkg/ibc/channel/Channel.pb.go. Writer is `MarshalToSizedBuffer`, `encodeVarint…`, `sov…` and
--   `Size`: a buffer is its free bytes' number and the bytes behind, none is a panic. Reader is
--   the varint loop, the length-delimited block, `skip…` and the loop of `Unmarshal`. Format is
--   the wire format written forwards; the other files are the laws of the two halves.
-- Channel, Connection, Ibft2, MockClient, App: one file for each message of
--   pkg/ibc/channel/Channel.pb.go, pkg/ibc/connection/Connection.pb.go,
--   pkg/ibc/client/ibft2/IBFT2.pb.go, pkg/ibc/client/mock/MockClient.pb.go and
--   pkg/ibc/app/App.pb.go: its record, `marshal_to` (`MarshalToSizedBuffer`), `marshal`
--   (`Marshal`), `size` (`Size`), `switch` (`switch fieldNum`) and `unmarshal` (`Unmarshal`).
-- Wallet: pkg/wallet/wallet.go. Path is `HDPathLevel`, its parser and printer; Derive is
--   `GetPrvKeyFromHDWallet` and `GetPrvKeyFromMnemonicAndHDWPath`, with hdkeychain and bip39 as
--   parameters; DeriveLaws also has the path of `Chain.prvKey` (pkg/testing/chains.go).
-- Chains: pkg/chains. Header is `ParsedHeader`, `ParseHeader` and the header's encodings; Seals is
--   `RecoverCommitterAddressesVals`, `ECRecoverAddress` and `ValidateAndGetCommitSeals`. The
--   packages of go-ethereum are two records of operations, with no law assumed of them.
-- Contract: the bindings under pkg/contract, one directory for each contract. Structs are its structs;
--   Caller, Transactor and Events are the methods of its …Caller, …Transactor and …Filterer. Bound is
--   what they share: go-ethereum's `BoundContract`, and `abi.ConvertType` at each type as a record
--   `Boxed`. Iterator is `Next`, `Error` and `Close` of an event iterator, with the
--   Filter and Parse methods, Watch the loop of a Watch method, from
--   pkg/contract/ibchandler/ibchandler.go; a select is a Boolean or a list that says what it takes.
--   Iterator/Run interleaves an iterator's calls of Next and Close with the node that sends the
--   logs. Addresses is pkg/consts/contract.go.
-- Core: contracts/core, the contracts that the bindings call. Store is the storage of IBCHost, Host
--   its getters and setters with the keys of IBCIdentifier, Clients is `getClient` and the `verify…`
--   functions, Channel the handlers of the channel handshake and Packet those of packets, of
--   IBCChannel. A handler is a function from a store to a store or a revert; Run is the stores that
--   calls reach. Reads runs the getters by name, as a call of the binding does. The light clients, the
--   hashes, the encoders and the string library are parameters.
-- Commitment: `uint64ToBigEndian`, `commitPacket` and `commitAcknowledgement` of
--   pkg/testing/types.go, with sha256 as a parameter.
-- Client: pkg/client. Proof is proof.go (`GetETHProof`, `getProof`, `encodeRLP`) and State is
--   contract.go (`GetContractState` and its two cases), with the node and the packages json, hex and
--   rlp as records of operations; RevertReason is `parseRevertReason` of besu.go. Receipt is the
--   receipts of eth.go and besu.go, with their JSON form in Receipt/Json, Wait is
--   `WaitForReceiptAndGet` and TxOpts is `MakeGenTxOpts`, of chain.go.
-- Relay: Any is `PackAny`, `UnpackAny`, `MarshalWithAny` and `UnmarshalWithAny` of
--   pkg/testing/types.go. A generated message enters it as an instance of the record `Message`,
--   whose law is the message's round trip; the codec of Any itself is a parameter, faithful by a
--   named hypothesis. UpdateClient is `GetIBFT2ClientState` and `ConstructIBFT2MsgUpdateClient`, and
--   FindPacket is `FindPacket` and `GetLastSentPacket`, and CallData is `packetToCallData`, of
--   pkg/testing/chains.go.
-- Tests: the definitions at concrete inputs, and the theorems applied to them.
--
-- Integers are natural numbers with their wrap-around written out; a negative int is a number from
-- 2 ^ 63 on, an enum is the 32 bits of its int32. A string is the list of its bytes. `Unmarshal` runs
-- on fuel, one unit for each byte of its input, `skip…` on one more: every round takes a byte at
-- least, so neither runs out. In the decoders a read at a negative index panics, and a slice between
-- bounds that are negative, in the wrong order or past the end, where a slice's capacity is taken to
-- be its length; `iNdEx` wraps around at 64 bits. A varint has ten bytes at most, which bounds `sov…`
-- and `encode_varint`, and a uint64 twenty digits, which bounds the two loops of uint2str.
--
-- Not modelled: of contracts/core, IBCClient but for `getClient`, the connection handshake, the callbacks
-- of IBCHandler and the light clients; the ICS-20 contracts; the handshakes of pkg/testing that call
-- them. Of the bindings, the session types and the New and Raw functions, which forward their
-- arguments to the modelled ones. The getters, printers and descriptors of the generated messages, and
-- the constructors of the clients, which only dial.
pub mod Prelude
pub mod Wire
pub mod Channel
pub mod Connection
pub mod Ibft2
pub mod MockClient
pub mod App
pub mod Wallet
pub mod Chains
pub mod Commitment
pub mod Contract
pub mod Core
pub mod Client
pub mod Relay
pub mod Tests
