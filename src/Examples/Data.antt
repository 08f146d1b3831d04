-- ===== src/Examples/Data.antt =====
-- Peers, lists and surroundings for the examples.
use bt_server.Prelude.{[], ◌∷◌, true, false}
use bt_server.Prelude.Int.{pos}
use bt_server.Peers.{Peer, PeerStore}
use bt_server.Peers.Redistribute.{Grants}
use bt_server.Clean.{PeerList}
use bt_server.Tracker.{Env, empty_list}

abbrev pub seeder : Peer
seeder = record { key = 0x7f0000011ae1; flag = 0x80; time = 3 }

abbrev pub leecher : Peer
leecher = record { key = 0x7f0000021ae1; flag = 0; time = 40 }

abbrev pub finisher : Peer
finisher = record { key = 0x7f0000021ae1; flag = 0xc0; time = 0 }

abbrev pub two_peers : PeerStore
two_peers = record {
  has_buckets = false;
  lists = record { items = seeder ∷ leecher ∷ []; space = 2 } ∷ [];
}

abbrev pub two_peer_list : PeerList
two_peer_list = record {
  base = pos 100;
  seed_count = 1;
  peer_count = 2;
  down_count = 0;
  peers = two_peers;
}

abbrev pub all_grants : Grants
all_grants = record { new_list = true; bucket = λ b. true; grow = λ k. true }

abbrev pub env : Env
env = record {
  now = 110;
  torrent_alloc = λ n. true;
  list_alloc = true;
  peer_alloc = λ n. true;
  grants = all_grants;
  stale_torrent = record { hash = 0; peer_list = empty_list };
  stale_peer = record { key = 0; flag = 0; time = 0 };
  hash_is_valid = λ h. true;
}
