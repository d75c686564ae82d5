-- ===== src/Tests/Peers.antt =====
-- Runs of the peer muxer and the peer manager, and of the signatures.
use fnd.Base.{
  ◌+◌, ◌-◌, ◌≤◌, ◌≡◌, ◌≢◌, ◌↔◌, refl, arith, true, false, [], ◌∷◌, ◌++◌, List, Option, none, some,
  ok, ◌==◌, if◌then◌else◌, Distinct,
}
use fnd.Base.Bytes.{Bytes, bytes_dec}
use fnd.Base.GoMap.{get}
use fnd.Base.Text.{codes}
use fnd.Blob.Consts.{Hash, zero_hash}
use fnd.Crypto.{Curve, Recovers, sign, verify_sig_pub, verify_sig_hashed_pub, hash_pub, verify-sign}
use fnd.Store.Ints.{must_decode_time}
use fnd.Store.Types.{Signature}
use fnd.Store.Peers.{is_banned}
use fnd.P2p.Muxer.{
  inbound, outbound, PeerObjects, PeerMuxer, new_peer_muxer, peer_count, peer_ids, remove_ref,
}
use fnd.P2p.Muxer.Tally.{tally}
use fnd.P2p.Muxer.Removal.{remove_ref-once}
use fnd.P2p.Muxer.Runs.{Call, opens, closes, run, run-counts}
use fnd.P2p.Manager.{
  Options, PeerManager, accept_begin, accept_end, dial_end, gate_outbound_peer, max_pending_inbound,
  max_pending_outbound,
}
use fnd.P2p.Manager.Bounds.{here, next, accepts, Reach-IsBounded}
use fnd.P2p.Manager.Gates.{accept_end-frees, dial_end-bans}
use fnd.Tests.Memory.{Disk, memory, memory-IsHealthy, plain_text}

remove_ref-once_example :
    remove_ref 3 ((1 ∷ (2 ∷ [])) ++ (3 ∷ (4 ∷ []))) ≡ ok ((1 ∷ (2 ∷ [])) ++ (4 ∷ []))
remove_ref-once_example = remove_ref-once (1 ∷ (2 ∷ [])) 3 (4 ∷ []) (omega arith) (omega arith)

-- The objects 1 and 2 are inbound, of one address; the others are outbound.
abbrev objects : PeerObjects
objects = record {
  direction = λ r. if r == 1 then inbound else if r == 2 then inbound else outbound;
  remote_ip = λ r. if r == 1 then 9 ∷ [] else if r == 2 then 9 ∷ [] else r ∷ [];
  remote_addr = λ r. 0 ∷ (r ∷ []);
}

abbrev id_1 : Hash
id_1 = 1 ∷ []

abbrev id_2 : Hash
id_2 = 2 ∷ []

abbrev id_3 : Hash
id_3 = 3 ∷ []

abbrev calls : List (Call objects)
calls =
    opens id_1 1
    ∷ (opens id_2 2 ∷ (opens id_3 3 ∷ (opens id_3 4 ∷ (closes id_1 ∷ (closes id_1 ∷ [])))))

run-counts_example :
    (mux : PeerMuxer) × (run objects new_peer_muxer calls ≡ ok mux)
    × (peer_count mux ≡ (tally objects inbound mux.peers, tally objects outbound mux.peers))
    × Distinct (peer_ids mux.peers)
run-counts_example = run-counts objects calls (omega arith)

abbrev options : Options
options = record {
  max_inbound = 1;
  max_outbound = 1;
  listen_host = codes "127.0.0.1";
  peer_id = zero_hash;
}

abbrev idle : PeerManager Disk
idle = record {
  mux = new_peer_muxer;
  db = [];
  in_held = 0;
  out_held = 0;
  pending_inbound = [];
  pending_outbound = [];
}

-- Two connections begin while none is complete.
abbrev one_begun : PeerManager Disk
one_begun = (accept_begin memory plain_text objects options 10 (0 ∷ (1 ∷ [])) (9 ∷ []) idle).1

abbrev two_begun : PeerManager Disk
two_begun = (accept_begin memory plain_text objects options 10 (0 ∷ (2 ∷ [])) (9 ∷ []) one_begun).1

Reach-IsBounded_example :
    (two_begun.in_held ≤ max_pending_inbound)
    × (two_begun.out_held ≤ max_pending_outbound)
    × (two_begun.mux.inbound_count ≤ options.max_inbound + 11)
    × (two_begun.mux.outbound_count ≤ options.max_outbound + 4)
unfolding new_peer_muxer
Reach-IsBounded_example =
    Reach-IsBounded memory plain_text objects options {s = idle} {t = two_begun} refl refl refl refl
      (next (next here (accepts 10 (0 ∷ (1 ∷ [])) (9 ∷ []))) (accepts 10 (0 ∷ (2 ∷ [])) (9 ∷ [])))

accept_end-frees_example :
    (get bytes_dec
        (0 ∷ (1 ∷ []))
        (accept_end memory plain_text objects options 12 1 (some id_1) one_begun).1.pending_inbound
      ≡ none)
    × ((accept_end memory plain_text objects options 12 1 (some id_1) one_begun).1.in_held
        ≡ one_begun.in_held - 1)
accept_end-frees_example =
    accept_end-frees memory plain_text objects options 12 1 (some id_1) one_begun refl

-- The state after a failed dial, when an inbound connection is being made.
abbrev after_failure : PeerManager Disk
after_failure =
    record (dial_end memory plain_text objects options 10 id_3 (3 ∷ []) true none idle).1 {
      in_held = 7;
    }

dial_end-bans_example :
    (gate_outbound_peer memory plain_text objects options 500 id_3 (3 ∷ []) after_failure).0 ≢ ok tt
unfolding is_banned get must_decode_time
dial_end-bans_example =
    dial_end-bans memory memory-IsHealthy plain_text objects options 10 500 id_3 id_3 (3 ∷ []) true
      false false none idle after_failure tt (omega arith) (omega arith) refl refl refl

-- A curve whose signatures name their key.
abbrev pub toy_curve : Curve
toy_curve = record {
  PrivateKey = Bytes;
  sign_compact = λ pk h. some (7 ∷ pk);
  pub_key = λ pk. 2 ∷ pk;
  recover_compact = λ s h. recover s;
  blake2b = λ b. b;
}
  where
    recover : Signature → Option Bytes
    recover [] = none
    recover (b ∷ pk) = some (2 ∷ pk)

pub toy_curve-Recovers : Recovers toy_curve
toy_curve-Recovers = record { recover-sign = λ pk h e. recovers pk e }
  where
    recovers :
        (pk : Bytes) {s : Signature}
        → ◌≡◌ {A = Option Signature} (some (7 ∷ pk)) (some s)
        → toy_curve.recover_compact s (1 ∷ []) ≡ some (2 ∷ pk)
    recovers pk e = cc

verify-sign_example :
    ((verify_sig_pub toy_curve (2 ∷ (5 ∷ [])) (7 ∷ (5 ∷ [])) (some (1 ∷ [])) ≡ true)
      ↔ (2 ∷ (5 ∷ []) ≡ toy_curve.pub_key (5 ∷ [])))
    × ((verify_sig_hashed_pub toy_curve (9 ∷ []) (7 ∷ (5 ∷ [])) (some (1 ∷ [])) ≡ true)
        ↔ (9 ∷ [] ≡ hash_pub toy_curve (toy_curve.pub_key (5 ∷ []))))
unfolding sign
verify-sign_example =
    verify-sign toy_curve toy_curve-Recovers (5 ∷ []) (some (1 ∷ [])) (2 ∷ (5 ∷ [])) (9 ∷ []) refl
