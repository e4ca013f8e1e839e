-- ===== src/Tests/Reading.antt =====
-- pkg/contract/ibchost: a node that runs the getters of a host.
use yui_ibc_solidity.Prelude.{ℕ, ◌≡◌, refl, Bytes, List, [], ◌∷◌, Bool, Option, none, some, codes}
use yui_ibc_solidity.Prelude.Try.{Try, ok, err}
use yui_ibc_solidity.Contract.Bound.{Boxed, Basic, BoundContract}
use yui_ibc_solidity.Contract.Ibchost.Structs.{ChannelData, ConnectionEndData, PacketData, Structs}
use yui_ibc_solidity.Contract.Ibchost.Caller as Binding
use yui_ibc_solidity.Core.Host as Host
use yui_ibc_solidity.Core.Reads.{run_getter, AllConvert, IsHostAt, ibchost-reads}
use yui_ibc_solidity.Tests.Packetflow.{chain, store}

data Value : Type 0 where
  text : Bytes → Value
  number : ℕ → Value
  flag : Bool → Value
  texts : List Bytes → Value
  packet : PacketData → Value
  channel : ChannelData → Value
  connection : ConnectionEndData → Value

abbrev to_text : Value → Option Bytes
to_text (text b) = some b
to_text _ = none

abbrev to_number : Value → Option ℕ
to_number (number n) = some n
to_number _ = none

abbrev to_flag : Value → Option Bool
to_flag (flag b) = some b
to_flag _ = none

abbrev to_texts : Value → Option (List Bytes)
to_texts (texts b) = some b
to_texts _ = none

abbrev to_packet : Value → Option PacketData
to_packet (packet p) = some p
to_packet _ = none

abbrev to_channel : Value → Option ChannelData
to_channel (channel c) = some c
to_channel _ = none

abbrev to_connection : Value → Option ConnectionEndData
to_connection (connection c) = some c
to_connection _ = none

abbrev boxed_text : Boxed Value Bytes
boxed_text = record { box = text; convert = to_text }

abbrev boxed_number : Boxed Value ℕ
boxed_number = record { box = number; convert = to_number }

abbrev boxed_flag : Boxed Value Bool
boxed_flag = record { box = flag; convert = to_flag }

abbrev basic : Basic Value
basic = record {
  string = boxed_text;
  bytes = boxed_text;
  bytes32 = boxed_text;
  address = boxed_number;
  uint8 = boxed_number;
  uint64 = boxed_number;
  big = boxed_number;
  bool = boxed_flag;
  strings = record { box = texts; convert = to_texts };
}

abbrev structs : Structs Value
structs = record {
  packet_data = record { box = packet; convert = to_packet };
  channel_data = record { box = channel; convert = to_channel };
  connection_end_data = record { box = connection; convert = to_connection };
}

abbrev or_revert : Option (List Value) → Try ℕ (List Value)
or_revert none = err 0
or_revert (some out) = ok out

abbrev node : BoundContract ℕ Value (Unit {0}) (Unit {0}) (Unit {0})
node = record {
  call = λ opts name args. or_revert (run_getter basic structs chain (store 1) name args);
  transact = λ opts name args. err 0;
  transfer = λ opts. err 0;
}

node-IsHostAt : IsHostAt node tt basic structs chain (store 1)
node-IsHostAt name args out h = rw (h) refl

all_convert : AllConvert basic structs
all_convert =
    ((λ t. refl), (λ t. refl), (λ t. refl), (λ t. refl), (λ t. refl), (λ t. refl), λ t. refl)

-- A method with a parameter too many reverts.
arguments_test : node.call tt (codes "getClientType") (text [] ∷ text [] ∷ []) ≡ err 0
unfolding run_getter
arguments_test = refl

ibchost-reads_example :
    (Binding.get_channel basic structs node tt (1 ∷ []) (1 ∷ [])
      ≡ ok (Host.get_channel (store 1) (1 ∷ []) (1 ∷ [])))
    × (Binding.get_connection basic structs node tt [] ≡ ok (Host.get_connection (store 1) []))
    × (Binding.get_client_impl basic structs node tt [] ≡ ok (Host.get_client_impl (store 1) []))
    × (Binding.get_client_type basic structs node tt [] ≡ ok (Host.get_client_type (store 1) []))
    × (Binding.get_next_sequence_send basic structs node tt (1 ∷ []) (1 ∷ [])
        ≡ ok (Host.get_next_sequence_send (store 1) (1 ∷ []) (1 ∷ [])))
    × (Binding.get_next_sequence_recv basic structs node tt (1 ∷ []) (1 ∷ [])
        ≡ ok (Host.get_next_sequence_recv (store 1) (1 ∷ []) (1 ∷ [])))
    × (Binding.get_next_sequence_ack basic structs node tt (1 ∷ []) (1 ∷ [])
        ≡ ok (Host.get_next_sequence_ack (store 1) (1 ∷ []) (1 ∷ [])))
    × (Binding.has_packet_receipt basic structs node tt (1 ∷ []) (1 ∷ []) 1
        ≡ ok (Host.has_packet_receipt (store 1) (1 ∷ []) (1 ∷ []) 1))
    × (Binding.get_packet_commitment basic structs node tt (1 ∷ []) (1 ∷ []) 1
        ≡ ok (Host.get_packet_commitment chain (store 1) (1 ∷ []) (1 ∷ []) 1))
    × (Binding.get_packet_acknowledgement_commitment basic structs node tt (1 ∷ []) (1 ∷ []) 1
        ≡ ok (Host.get_packet_acknowledgement_commitment chain (store 1) (1 ∷ []) (1 ∷ []) 1))
ibchost-reads_example =
    ibchost-reads basic structs node tt chain (store 1) (1 ∷ []) (1 ∷ []) [] 1 all_convert
      node-IsHostAt
