-- ===== src/Relay/UpdateClient.antt =====
-- pkg/testing/chains.go: `GetIBFT2ClientState` and `ConstructIBFT2MsgUpdateClient`; the call of the contract IBCHost is a
-- parameter.
use yui_ibc_solidity.Prelude.{Bytes, [], Bool, not, if◌then◌else◌, Option, none, some, codes, map}
use yui_ibc_solidity.Prelude.Try.{Try, ok, err, ◌>>=◌}
use yui_ibc_solidity.Wire.Format.{IsLength}
use yui_ibc_solidity.Ibft2.Header as HeaderCodec
use yui_ibc_solidity.Ibft2.Header.{unmarshal-marshal_ibft2_header}
use yui_ibc_solidity.Ibft2.ClientState as ClientStateCodec
use yui_ibc_solidity.Ibft2.ClientState.{ClientState, unmarshal-marshal_ibft2_client_state}
use yui_ibc_solidity.Chains.Header.{ParsedHeader, Rlp, get_sealing_header_bytes}
use yui_ibc_solidity.Client.State.{ContractState, eth, ibft2}
use yui_ibc_solidity.Relay.Any.{
  AnyCodec, Message, AnyError, panic, marshal_with_any, unmarshal_with_any,
}

-- The registered names of IBFT2.pb.go, with its codecs.
abbrev pub header_message : Message HeaderCodec.Header
header_message = record {
  message_name = codes "ibc.lightclients.ibft2.v1.Header";
  marshal = HeaderCodec.marshal;
  unmarshal = λ bs. HeaderCodec.unmarshal bs HeaderCodec.empty;
  Fits = λ m. HeaderCodec.IsValid m × IsLength (HeaderCodec.size m);
  round_trip =
      λ m (v, fits). let (bs, e1, e2, e3) = unmarshal-marshal_ibft2_header m v fits in (bs, e1, e3);
}

abbrev pub client_state_message : Message ClientState
client_state_message = record {
  message_name = codes "ibc.lightclients.ibft2.v1.ClientState";
  marshal = ClientStateCodec.marshal;
  unmarshal = λ bs. ClientStateCodec.unmarshal bs ClientStateCodec.empty;
  Fits = λ m. ClientStateCodec.IsValid m × IsLength (ClientStateCodec.size m);
  round_trip = λ m (v, fits).
      let (bs, e1, e2, e3) = unmarshal-marshal_ibft2_client_state m v fits in (bs, e1, e3);
}

-- A nil seal is an empty slice to the codec.
abbrev pub or_empty : Option Bytes → Bytes
or_empty none = []
or_empty (some s) = s

-- `MsgUpdateClient` of the binding ibchandler.
pub record MsgUpdateClient : Type 0 where
  pub client_id : Bytes
  pub header : Bytes

-- `if err != nil { panic(err) }`
abbrev pub must : {D E A : Type 0} → Try D A → Try (AnyError E) A
must (ok a) = ok a
must (err e) = err panic

-- `IBFT2ContractState.SealingHeaderRLP` and `ChainHeaderRLP` panic on an error.
module _ {E Header Vote Stream : Type 0} (codec : AnyCodec E) (rlp : Rlp E Header Vote Stream) where
  unfoldable pub sealing_header_rlp : ParsedHeader Header Vote → Try (AnyError E) Bytes
  sealing_header_rlp parsed = must (get_sealing_header_bytes rlp parsed)

  -- `IBCHost.GetClientState`: the bytes and whether they were found.
  module _ (get_client_state : Bytes → Try E (Bytes × Bool)) where
    unfoldable pub get_ibft2_client_state : Bytes → Try (AnyError E) ClientState
    get_ibft2_client_state client_id = do
      (bz, found) ← must (get_client_state client_id)
      if not found then err panic else must (unmarshal_with_any codec client_state_message bz)

    -- The counterparty's `LastContractState` must be an IBFT 2.0 state: the type assertion panics on another.
    unfoldable pub construct_ibft2_msg_update_client :
        ContractState Header Vote → Bytes → Try (AnyError E) MsgUpdateClient
    unfolding get_ibft2_client_state sealing_header_rlp
    construct_ibft2_msg_update_client (eth h proof) client_id =
        get_ibft2_client_state client_id >>= λ _. err panic
    construct_ibft2_msg_update_client (ibft2 parsed proof seals) client_id = do
      trusted ← get_ibft2_client_state client_id
      sealing ← sealing_header_rlp parsed
      bz ← must (
          marshal_with_any codec header_message (record {
            besu_header_rlp = sealing;
            seals = map or_empty seals;
            trusted_height = trusted.latest_height;
            account_state_proof = proof.account_proof_rlp;
          }))
      ok (record { client_id = client_id; header = bz })
