-- ===== src/P2p/Muxer.antt =====
-- p2p/peer_muxer.go. A Peer is a pointer, here a number; what its methods Direction and RemoteIP
-- answer never changes. Each method holds the mutex, so it is one step. The counts are ints in the
-- source; the invariant shows that none is lowered at zero.
pub mod Removal
pub mod Tally
pub mod Invariant
pub mod Runs
use fnd.Base.{
  ℕ, zero, suc, ◌+◌, ◌-◌, Bool, true, false, Option, none, some, List, [], ◌∷◌, ◌++◌, Outcome, ok,
  err, panicked, if◌then◌else◌, ltb, leb, holds, length, take, drop, get_elem?, ℕ_discrete, ◌==◌,
}
use fnd.Base.Bytes.{Bytes, bytes_dec}
use fnd.Base.GoMap.{Map, get, put, delete}
use fnd.Base.Text.{codes}
use fnd.Blob.Consts.{Hash}
use fnd.Crypto.{hash_string}
use fnd.Util.Cache.{Entries, get_value, set_value}

abbrev pub Ref : Type 0
Ref = ℕ

pub data Direction : Type 0 where
  inbound outbound : Direction

pub record PeerObjects : Type 0 where
  pub direction : Ref → Direction
  pub remote_ip : Ref → Bytes
  pub remote_addr : Ref → Bytes

pub data MuxError : Type 0 where
  already_connected not_found send_failed : MuxError

-- What is emitted to the observers.
pub data Event : Type 0 where
  opened closed message : Hash → Event

pub record PeerMuxer : Type 0 where
  pub gossip_timeout_ms : ℕ
  pub outbound_peers_by_ip : Map Bytes Ref
  pub inbound_peers_by_ip : Map Bytes (List Ref)
  pub peers : Map Hash Ref
  pub gossip_filter : Entries Bytes Bool
  pub inbound_count : ℕ
  pub outbound_count : ℕ
  pub bytes_tx : ℕ

-- `NewPeerMuxer`
unfoldable pub new_peer_muxer : PeerMuxer
new_peer_muxer = record {
  gossip_timeout_ms = 300_000;
  outbound_peers_by_ip = [];
  inbound_peers_by_ip = [];
  peers = [];
  gossip_filter = [];
  inbound_count = 0;
  outbound_count = 0;
  bytes_tx = 0;
}

abbrev pub is_some {ℓ} : {A : Type ℓ} → Option A → Bool
is_some none = false
is_some (some a) = true

-- `m[k]` on a map of slices: nil where the key is missing.
abbrev pub or_nil : Option (List Ref) → List Ref
or_nil none = []
or_nil (some l) = l

abbrev pub inbound_at : Bytes → PeerMuxer → List Ref
inbound_at ip mux = or_nil (get bytes_dec ip mux.inbound_peers_by_ip)

-- `PeerCount`, `HasPeerID`, `HasOutboundPeerIP`
unfoldable pub peer_count : PeerMuxer → ℕ × ℕ
peer_count mux = (mux.inbound_count, mux.outbound_count)

unfoldable pub has_peer_id : Hash → PeerMuxer → Bool
has_peer_id id mux = is_some (get bytes_dec id mux.peers)

unfoldable pub has_outbound_peer_ip : Bytes → PeerMuxer → Bool
has_outbound_peer_ip ip mux = is_some (get bytes_dec ip mux.outbound_peers_by_ip)

abbrev to_list : Option Ref → List Ref
to_list none = []
to_list (some r) = r ∷ []

-- `PeersByIP`
unfoldable pub peers_by_ip : Bytes → PeerMuxer → List Ref
peers_by_ip ip mux = inbound_at ip mux ++ to_list (get bytes_dec ip mux.outbound_peers_by_ip)

-- `PeerIDs`, in the order of the association list; Go's order is any.
unfoldable pub peer_ids : Map Hash Ref → List Hash
peer_ids [] = []
peer_ids ((id, r) ∷ m) = id ∷ peer_ids m

-- `PeerByID` and `PeerByIP`
abbrev pub or_not_found : Option Ref → Outcome MuxError Ref
or_not_found none = err not_found
or_not_found (some r) = ok r

unfoldable pub peer_by_id : Hash → PeerMuxer → Outcome MuxError Ref
peer_by_id id mux = or_not_found (get bytes_dec id mux.peers)

unfoldable pub peer_by_ip : Bytes → PeerMuxer → Outcome MuxError Ref
peer_by_ip ip mux = or_not_found (get bytes_dec ip mux.outbound_peers_by_ip)

-- `gossipKey`, of the hash of the message.
abbrev pub gossip_key : Hash → Hash → Bytes
gossip_key peer_id hash = hash_string peer_id ++ (codes ":" ++ hash_string hash)

-- The loop of `GossipPeerIDs`; Has drops an entry that has expired.
unfoldable pub gossip_loop :
    ℕ → Hash → List Hash → Entries Bytes Bool → List Hash × Entries Bytes Bool
gossip_loop now hash [] filter = ([], filter)
gossip_loop now hash (id ∷ ids) filter =
    let looked = get_value bytes_dec now (gossip_key id hash) filter in
    let rest = gossip_loop now hash ids looked.0 in
    (if is_some looked.2 then rest.0 else id ∷ rest.0, rest.1)

-- `GossipPeerIDs`
unfoldable pub gossip_peer_ids : ℕ → Hash → PeerMuxer → List Hash × PeerMuxer
gossip_peer_ids now hash mux =
    let found = gossip_loop now hash (peer_ids mux.peers) mux.gossip_filter in
    (found.0, record mux { gossip_filter = found.1 })

abbrev pub points_to : Option Ref → Ref → Bool
points_to none peer = false
points_to (some r) peer = r == peer

-- `append(l[:i], l[i+1:]...)` on the array behind a slice of length `len`.
unfoldable pub shift : ℕ → ℕ → List Ref → List Ref
shift i len arr = take i arr ++ (take (len - (i + 1)) (drop (i + 1) arr) ++ drop (len - 1) arr)

-- The loop of `removeInboundPeerByIP`. The range keeps the length of the slice that it began with,
-- and reads its array, which every append shifts; `len` is the length of the slice in the map.
unfoldable pub remove_loop : ℕ → ℕ → Ref → List Ref → ℕ → Outcome MuxError (List Ref)
remove_loop zero i peer arr len = ok (take len arr)
remove_loop (suc n) i peer arr len = elim (points_to (get_elem? arr i) peer) [
  | true ↦ if ltb i len then remove_loop n (i + 1) peer (shift i len arr) (len - 1) else panicked
  | false ↦ remove_loop n (i + 1) peer arr len
]

unfoldable pub remove_ref : Ref → List Ref → Outcome MuxError (List Ref)
unfolding remove_loop shift
remove_ref peer l = remove_loop (length l) 0 peer l (length l)

module _ (P : PeerObjects) where
  abbrev pub with_list :
      Bytes → Outcome MuxError (List Ref) → PeerMuxer → Outcome MuxError PeerMuxer
  with_list ip (ok l) mux =
      ok (record mux { inbound_peers_by_ip = put bytes_dec ip l mux.inbound_peers_by_ip })
  with_list ip (err e) mux = err e
  with_list ip panicked mux = panicked

  abbrev pub remove_from : Ref → Bytes → List Ref → PeerMuxer → Outcome MuxError PeerMuxer
  remove_from peer ip [] mux = ok mux
  remove_from peer ip (r ∷ l) mux = with_list ip (remove_ref peer (r ∷ l)) mux

  -- `removeInboundPeerByIP`
  unfoldable pub remove_inbound_peer_by_ip : Ref → PeerMuxer → Outcome MuxError PeerMuxer
  remove_inbound_peer_by_ip peer mux =
      remove_from peer (P.remote_ip peer) (inbound_at (P.remote_ip peer) mux) mux

  abbrev pub forget : Hash → Outcome MuxError PeerMuxer → Outcome MuxError (PeerMuxer × List Event)
  forget id (ok mux) = ok (record mux { peers = delete bytes_dec id mux.peers }, closed id ∷ [])
  forget id (err e) = err e
  forget id panicked = panicked

  -- Taking a peer out of the maps by address.
  abbrev pub unfile : Direction → Ref → PeerMuxer → Outcome MuxError PeerMuxer
  unfile inbound peer mux =
      remove_inbound_peer_by_ip peer (record mux { inbound_count = mux.inbound_count - 1 })
  unfile outbound peer mux = ok (record mux {
    outbound_count = mux.outbound_count - 1;
    outbound_peers_by_ip = delete bytes_dec (P.remote_ip peer) mux.outbound_peers_by_ip;
  })

  abbrev pub close_found : Hash → Option Ref → PeerMuxer → Outcome MuxError (PeerMuxer × List Event)
  close_found id none mux = ok (mux, [])
  close_found id (some peer) mux = forget id (unfile (P.direction peer) peer mux)

  -- `handlePeerClose` and `ClosePeer`
  unfoldable pub handle_peer_close : Hash → PeerMuxer → Outcome MuxError (PeerMuxer × List Event)
  handle_peer_close id mux = close_found id (get bytes_dec id mux.peers) mux

  -- Filing a new peer under its address.
  abbrev pub file : Direction → Ref → PeerMuxer → PeerMuxer
  file inbound peer mux = record mux {
    inbound_count = mux.inbound_count + 1;
    inbound_peers_by_ip =
        put bytes_dec (P.remote_ip peer) (inbound_at (P.remote_ip peer) mux ++ (peer ∷ []))
          mux.inbound_peers_by_ip;
  }
  file outbound peer mux = record mux {
    outbound_count = mux.outbound_count + 1;
    outbound_peers_by_ip = put bytes_dec (P.remote_ip peer) peer mux.outbound_peers_by_ip;
  }

  abbrev pub enter : Hash → Ref → PeerMuxer → PeerMuxer
  enter id peer mux = record mux { peers = put bytes_dec id peer mux.peers }

  abbrev pub open_found :
      Hash → Option Ref → Ref → PeerMuxer → Outcome MuxError (PeerMuxer × List Event)
  open_found id (some old) peer mux = err already_connected
  open_found id none peer mux =
      ok (enter id peer (file (P.direction peer) peer mux), opened id ∷ [])

  -- `handlePeerOpen`
  unfoldable pub handle_peer_open :
      Hash → Ref → PeerMuxer → Outcome MuxError (PeerMuxer × List Event)
  handle_peer_open id peer mux = open_found id (get bytes_dec id mux.peers) peer mux

-- `handlePeerMessage`, of a message with a hash.
unfoldable pub handle_peer_message : ℕ → Hash → Hash → PeerMuxer → PeerMuxer × List Event
handle_peer_message now id hash mux = (
  record mux {
    gossip_filter =
        set_value bytes_dec now (gossip_key id hash) true mux.gossip_timeout_ms mux.gossip_filter;
  },
  message id ∷ [],
)

-- `Send`. `deliver` is what the peer does with the envelope: the bytes that it wrote, or an error.
abbrev pub send_to : Option Ref → (Ref → Option ℕ) → PeerMuxer → Outcome MuxError PeerMuxer
send_to none deliver mux = err not_found
send_to (some peer) deliver mux = elim (deliver peer) [
  | none ↦ err send_failed
  | some n ↦ ok (record mux { bytes_tx = mux.bytes_tx + n })
]

unfoldable pub send : Hash → (Ref → Option ℕ) → PeerMuxer → Outcome MuxError PeerMuxer
send id deliver mux = send_to (get bytes_dec id mux.peers) deliver mux

-- The loop over recipients, with an error or none for each.
abbrev pub sent : Outcome MuxError PeerMuxer → PeerMuxer → Option MuxError × PeerMuxer
sent (ok mux) old = (none, mux)
sent (err e) old = (some e, old)
sent panicked old = (some send_failed, old)

unfoldable pub send_all :
    List Hash → (Ref → Option ℕ) → PeerMuxer → List (Option MuxError) × PeerMuxer
send_all [] deliver mux = ([], mux)
send_all (id ∷ ids) deliver mux =
    let r = sent (send id deliver mux) mux in
    let rest = send_all ids deliver r.1 in (r.0 ∷ rest.0, rest.1)

-- `BroadcastAll` and `GossipAll`: the recipients, their errors and the muxer.
unfoldable pub broadcast_all :
    (Ref → Option ℕ) → PeerMuxer → List Hash × List (Option MuxError) × PeerMuxer
broadcast_all deliver mux =
    let recips = peer_ids mux.peers in let r = send_all recips deliver mux in (recips, r.0, r.1)

unfoldable pub gossip_all :
    ℕ → Hash → (Ref → Option ℕ) → PeerMuxer → List Hash × List (Option MuxError) × PeerMuxer
gossip_all now hash deliver mux =
    let found = gossip_peer_ids now hash mux in
    let r = send_all found.0 deliver found.1 in (found.0, r.0, r.1)
