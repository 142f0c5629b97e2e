-- ===== src/Network/Tests.antt =====
-- Runs of Network.cpp on node 1 of two, and on a client.

use hawk_txn.Common.{◌≡◌, refl, true, false, some, [], ◌∷◌}
use hawk_txn.Message.{NetworkMessage, wfg_report, blank}
use hawk_txn.Network.{convert_to_proto_message, convert_from_proto_message}
use hawk_txn.Network.Codec.{carried, round_trip}
use hawk_txn.Network.Send.{Network}

abbrev zone_message : NetworkMessage
zone_message = record blank {
  type = wfg_report;
  sender_id = 1;
  receiver_id = 2;
  wfg_data = (5, 6 ∷ []) ∷ (6, 5 ∷ 7 ∷ []) ∷ [];
}

round_trip_example :
    convert_from_proto_message (convert_to_proto_message zone_message)
    ≡ carried wfg_report zone_message
round_trip_example = round_trip zone_message (refl, (refl, tt))

abbrev client : Network
client = record {
  node_id = 0;
  num_nodes = 0;
  is_client = true;
  peer_stubs = [];
  client_to_server_stub = some 1;
  server = false;
  incoming_queue = [];
}
