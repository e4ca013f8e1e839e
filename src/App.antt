-- ===== src/App.antt =====
-- pkg/ibc/app: the message of App.pb.go.
pub mod FungibleTokenPacketData
