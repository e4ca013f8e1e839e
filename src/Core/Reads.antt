-- ===== src/Core/Reads.antt =====
-- pkg/contract/ibchost and contracts/core/IBCHost.sol: the read methods of the binding against the getters of the contract.
use yui_ibc_solidity.Prelude.{
  ℕ, ◌≡◌, refl, Bytes, List, [], ◌∷◌, Option, none, some, if◌then◌else◌, same_string, codes,
}
use yui_ibc_solidity.Prelude.Try.{Try, ok, ◌>>=◌}
use yui_ibc_solidity.Contract.Bound.{Boxed, Basic, BoundContract, called, output}
use yui_ibc_solidity.Contract.Ibchost.Structs.{Structs}
use yui_ibc_solidity.Contract.Ibchost.Caller as Binding
use yui_ibc_solidity.Core.Store.{Store, Chain}
use yui_ibc_solidity.Core.Host as Host

-- A Go type whose conversion gives back what was boxed.
abbrev pub Converts : {Value T : Type 0} → Boxed Value T → Type 0
Converts b = (t : _) → b.convert (b.box t) ≡ some t

module _ {Value : Type 0} where
  -- A function of two or three parameters on a list of values that are converted to them.
  abbrev pub on_one :
      {A : Type 0} → Boxed Value A → (A → List Value) → List Value → Option (List Value)
  on_one a run (x ∷ []) = elim (a.convert x) [ none ↦ none | some p ↦ some (run p) ]
  on_one a run _ = none

  abbrev pub on_two :
      {A B : Type 0}
      → Boxed Value A
      → Boxed Value B
      → (A → B → List Value)
      → List Value
      → Option (List Value)
  on_two a b run (x ∷ args) = elim (a.convert x) [ none ↦ none | some p ↦ on_one b (run p) args ]
  on_two a b run [] = none

  abbrev pub on_three :
      {A B C : Type 0}
      → Boxed Value A
      → Boxed Value B
      → Boxed Value C
      → (A → B → C → List Value)
      → List Value
      → Option (List Value)
  on_three a b c run (x ∷ args) = elim (a.convert x) [
    | none ↦ none
    | some p ↦ on_two b c (run p) args
  ]
  on_three a b c run [] = none

  abbrev pub one : {A : Type 0} → Boxed Value A → A → List Value
  one a x = a.box x ∷ []

  abbrev pub two : {A B : Type 0} → Boxed Value A → Boxed Value B → A × B → List Value
  two a b x = a.box x.0 ∷ b.box x.1 ∷ []

-- The getters by their Solidity names, with the types of their signatures.
unfoldable pub run_getter :
    {Value : Type 0}
    → Basic Value
    → Structs Value
    → Chain
    → Store
    → Bytes
    → List Value
    → Option (List Value)
run_getter basic structs chain s name args =
    if same_string name (codes "getChannel")
    then on_two basic.string basic.string
        (λ p c. two structs.channel_data basic.bool (Host.get_channel s p c)) args
    else if same_string name (codes "getConnection")
    then on_one basic.string
        (λ c. two structs.connection_end_data basic.bool (Host.get_connection s c)) args
    else if same_string name (codes "getClientImpl")
    then on_one basic.string (λ t. two basic.address basic.bool (Host.get_client_impl s t)) args
    else if same_string name (codes "getClientType")
    then on_one basic.string (λ c. one basic.string (Host.get_client_type s c)) args
    else if same_string name (codes "getNextSequenceSend")
    then on_two basic.string basic.string
        (λ p c. one basic.uint64 (Host.get_next_sequence_send s p c)) args
    else if same_string name (codes "getNextSequenceRecv")
    then on_two basic.string basic.string
        (λ p c. one basic.uint64 (Host.get_next_sequence_recv s p c)) args
    else if same_string name (codes "getNextSequenceAck")
    then on_two basic.string basic.string
        (λ p c. one basic.uint64 (Host.get_next_sequence_ack s p c)) args
    else if same_string name (codes "hasPacketReceipt")
    then on_three basic.string basic.string basic.uint64
        (λ p c n. one basic.bool (Host.has_packet_receipt s p c n)) args
    else if same_string name (codes "getPacketCommitment")
    then on_three basic.string basic.string basic.uint64
        (λ p c n. two basic.bytes32 basic.bool (Host.get_packet_commitment chain s p c n)) args
    else if same_string name (codes "getPacketAcknowledgementCommitment")
    then on_three basic.string basic.string basic.uint64
        (λ p c n.
          two basic.bytes32 basic.bool (Host.get_packet_acknowledgement_commitment chain s p c n))
        args
    else none

module _ {E Value : Type 0} where
  read_one :
      {A : Type 0} (a : Boxed Value A) (x : A) (r : Try E (List Value))
      → Converts a
      → r ≡ ok (one a x)
      → (called r >>= λ out. output out 0 a >>= λ y. ok y) ≡ ok x
  unfolding output
  read_one a x r c e = rw (e, c x) refl

  read_two :
      {A B : Type 0} (a : Boxed Value A) (b : Boxed Value B) (x : A × B) (r : Try E (List Value))
      → Converts a
      → Converts b
      → r ≡ ok (two a b x)
      → (called r >>= λ out. output out 0 a >>= λ y. output out 1 b >>= λ z. ok (y, z)) ≡ ok x
  unfolding output
  read_two a b x r c d e = rw (e, c x.0, d x.1) refl

module _ {Value : Type 0} where
  on_one-box :
      {A : Type 0} (a : Boxed Value A) (run : A → List Value) (x : A)
      → Converts a
      → on_one a run (a.box x ∷ []) ≡ some (run x)
  on_one-box a run x c = rw (c x, on_one) refl

  on_two-box :
      {A B : Type 0} (a : Boxed Value A) (b : Boxed Value B) (run : A → B → List Value) (x : A)
      (y : B)
      → Converts a
      → Converts b
      → on_two a b run (a.box x ∷ b.box y ∷ []) ≡ some (run x y)
  on_two-box a b run x y c d = rw (c x, on_two) (on_one-box b (run x) y d)

  on_three-box :
      {A B C : Type 0} (a : Boxed Value A) (b : Boxed Value B) (c : Boxed Value C)
      (run : A → B → C → List Value) (x : A) (y : B) (z : C)
      → Converts a
      → Converts b
      → Converts c
      → on_three a b c run (a.box x ∷ b.box y ∷ c.box z ∷ []) ≡ some (run x y z)
  on_three-box a b c run x y z f g h = rw (f x, on_three) (on_two-box b c (run x) y z g h)

-- The conversions of the types that the getters pass.
abbrev pub AllConvert : {Value : Type 0} → Basic Value → Structs Value → Type 0
AllConvert basic structs =
    Converts basic.string
    × Converts basic.bool
    × Converts basic.uint64
    × Converts basic.address
    × Converts basic.bytes32
    × Converts structs.channel_data
    × Converts structs.connection_end_data

-- The contract at an address is the host with a store: a call of a getter by its name, with values that convert to its
-- parameters, returns its results.
abbrev pub IsHostAt :
    {E Value CallOpts TransactOpts Tx : Type 0}
    → BoundContract E Value CallOpts TransactOpts Tx
    → CallOpts
    → Basic Value
    → Structs Value
    → Chain
    → Store
    → Type 0
IsHostAt contract opts basic structs chain s =
    (name : Bytes) (args out : List _)
    → run_getter basic structs chain s name args ≡ some out
    → contract.call opts name args ≡ ok out

module _ {E Value CallOpts TransactOpts Tx : Type 0} (basic : Basic Value) (structs : Structs Value)
    (contract : BoundContract E Value CallOpts TransactOpts Tx) where
  -- Where values of Go types convert back to themselves, and the contract at the address is the host with a store, each of ten
  -- read methods of the binding returns, without an error or a panic, what the getter of the host returns on that store for
  -- the same parameters.
  pub ibchost-reads :
      (opts : CallOpts) (chain : Chain) (s : Store) (port channel id : Bytes) (n : ℕ)
      → AllConvert basic structs
      → IsHostAt contract opts basic structs chain s
      → (Binding.get_channel basic structs contract opts port channel
          ≡ ok (Host.get_channel s port channel))
        × (Binding.get_connection basic structs contract opts id ≡ ok (Host.get_connection s id))
        × (Binding.get_client_impl basic structs contract opts id ≡ ok (Host.get_client_impl s id))
        × (Binding.get_client_type basic structs contract opts id ≡ ok (Host.get_client_type s id))
        × (Binding.get_next_sequence_send basic structs contract opts port channel
            ≡ ok (Host.get_next_sequence_send s port channel))
        × (Binding.get_next_sequence_recv basic structs contract opts port channel
            ≡ ok (Host.get_next_sequence_recv s port channel))
        × (Binding.get_next_sequence_ack basic structs contract opts port channel
            ≡ ok (Host.get_next_sequence_ack s port channel))
        × (Binding.has_packet_receipt basic structs contract opts port channel n
            ≡ ok (Host.has_packet_receipt s port channel n))
        × (Binding.get_packet_commitment basic structs contract opts port channel n
            ≡ ok (Host.get_packet_commitment chain s port channel n))
        × (Binding.get_packet_acknowledgement_commitment basic structs contract opts port channel n
            ≡ ok (Host.get_packet_acknowledgement_commitment chain s port channel n))
  unfolding run_getter Binding.get_channel Binding.get_connection Binding.get_client_impl
      Binding.get_client_type Binding.get_next_sequence_send Binding.get_next_sequence_recv
      Binding.get_next_sequence_ack Binding.has_packet_receipt Binding.get_packet_commitment
      Binding.get_packet_acknowledgement_commitment
  ibchost-reads opts chain s port channel id n
        (string, bool, uint64, address, bytes32, channels, connections) host =
      let string1 = λ (run : Bytes → List Value). on_one-box basic.string run id string in
      let string2 = λ (run : Bytes → Bytes → List Value).
        on_two-box basic.string basic.string run port channel string string in
      let packet = λ (run : Bytes → Bytes → ℕ → List Value).
        on_three-box basic.string basic.string basic.uint64 run port channel n string string
          uint64 in
      (
        read_two structs.channel_data basic.bool _ _ channels bool (host _ _ _ (string2 _)),
        read_two structs.connection_end_data basic.bool _ _ connections bool
            (host _ _ _ (string1 _)),
        read_two basic.address basic.bool _ _ address bool (host _ _ _ (string1 _)),
        read_one basic.string _ _ string (host _ _ _ (string1 _)),
        read_one basic.uint64 _ _ uint64 (host _ _ _ (string2 _)),
        read_one basic.uint64 _ _ uint64 (host _ _ _ (string2 _)),
        read_one basic.uint64 _ _ uint64 (host _ _ _ (string2 _)),
        read_one basic.bool _ _ bool (host _ _ _ (packet _)),
        read_two basic.bytes32 basic.bool _ _ bytes32 bool (host _ _ _ (packet _)),
        read_two basic.bytes32 basic.bool _ _ bytes32 bool (host _ _ _ (packet _)),
      )
