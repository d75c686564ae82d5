-- ===== src/P2p/Manager.antt =====
-- p2p/peer_manager.go. A connection is made in two steps: the semaphore and the gate, and, after
-- the dial and the handshake, its completion; other steps come between them. What time.Now, the
-- dial and the handshake answer are arguments. An error of the store is logged where the source
-- logs it.
pub mod Bounds
pub mod Gates
use fnd.Base.{
  ℕ, ◌+◌, ◌-◌, ◌*◌, Bool, true, false, Option, none, some, List, [], ◌∷◌, Outcome, ok, err,
  panicked, if◌then◌else◌, ltb, leb, holds, ◌||◌,
}
use fnd.Base.Bytes.{Bytes, bytes_dec}
use fnd.Base.GoMap.{Map, get, put, delete}
use fnd.Blob.Consts.{Hash}
use fnd.Store.Interface.{DbError}
use fnd.Store.Json.{JsonText}
use fnd.Store.Leveldb.{Leveldb}
use fnd.Store.Peers.{is_banned, ban_outbound_peer, set_peer}
use fnd.P2p.Muxer.{
  Ref, Direction, inbound, outbound, PeerObjects, MuxError, PeerMuxer, Event, has_peer_id,
  has_outbound_peer_ip, handle_peer_open, handle_peer_close,
}

abbrev pub max_pending_inbound : ℕ
max_pending_inbound = 12

abbrev pub max_pending_outbound : ℕ
max_pending_outbound = 5

abbrev pub hour : ℕ
hour = 3600

abbrev pub year_ban : ℕ
year_ban = 365 * (24 * hour)

pub data ManagerError : Type 0 where
  max_outbound_reached max_inbound_reached already_connecting peer_id_mismatch self_dial :
      ManagerError
  already_connected peer_banned inbound_busy outbound_busy dial_failed handshake_failed :
      ManagerError

pub record Options : Type 0 where
  pub max_inbound : ℕ
  pub max_outbound : ℕ
  pub listen_host : Bytes
  pub peer_id : Hash

pub record PeerManager (Db : Type 0) : Type 0 where
  pub mux : PeerMuxer
  pub db : Db
  pub in_held : ℕ
  pub out_held : ℕ
  pub pending_inbound : Map Bytes Bool
  pub pending_outbound : Map Bytes Bool

-- `m[k]` on a map of Booleans.
abbrev pub is_set : Option Bool → Bool
is_set none = false
is_set (some b) = b

abbrev pub Step : Type 0 → Type 0
Step Db = PeerManager Db → Outcome ManagerError (Unit {0}) × PeerManager Db

module _ {Db : Type 0} where
  -- `cleanupInboundPeer` and `cleanupOutboundPeer`
  unfoldable pub cleanup_inbound_peer : Bytes → PeerManager Db → PeerManager Db
  cleanup_inbound_peer addr s = record s {
    pending_inbound = delete bytes_dec addr s.pending_inbound;
  }

  unfoldable pub cleanup_outbound_peer : Bytes → PeerManager Db → PeerManager Db
  cleanup_outbound_peer ip s = record s {
    pending_outbound = delete bytes_dec ip s.pending_outbound;
  }

  -- The last test of a gate, and what it sets: a ban that cannot be read does not refuse.
  abbrev pub unless_banned :
      Outcome DbError (Bool × Bool) → ((Bool × Bool) → Bool) → PeerManager Db → Step Db
  unless_banned (ok bans) pick entered s =
      if pick bans then (err peer_banned, s) else (ok tt, entered)
  unless_banned (err e) pick entered s = (ok tt, entered)
  unless_banned panicked pick entered s = (panicked, s)

  -- A semaphore that is given back when the call ends.
  abbrev pub give_in :
      Outcome ManagerError (Unit {0}) × PeerManager Db
      → Outcome ManagerError (Unit {0}) × PeerManager Db
  give_in (r, s) = (r, record s { in_held = s.in_held - 1 })

  abbrev pub give_out :
      Outcome ManagerError (Unit {0}) × PeerManager Db
      → Outcome ManagerError (Unit {0}) × PeerManager Db
  give_out (r, s) = (r, record s { out_held = s.out_held - 1 })

  -- A gate that refuses ends the call.
  abbrev pub in_if_refused :
      Outcome ManagerError (Unit {0}) × PeerManager Db
      → Outcome ManagerError (Unit {0}) × PeerManager Db
  in_if_refused (ok u, s) = (ok u, s)
  in_if_refused (err e, s) = give_in (err e, s)
  in_if_refused (panicked, s) = give_in (panicked, s)

  abbrev pub out_if_refused :
      Outcome ManagerError (Unit {0}) × PeerManager Db
      → Outcome ManagerError (Unit {0}) × PeerManager Db
  out_if_refused (ok u, s) = (ok u, s)
  out_if_refused (err e, s) = give_out (err e, s)
  out_if_refused (panicked, s) = give_out (panicked, s)

module _ (L : Leveldb) (J : JsonText) (P : PeerObjects) (o : Options) where
  -- `gateInboundPeer`
  unfoldable pub gate_inbound_peer : ℕ → Bytes → Bytes → Step L.Db
  gate_inbound_peer now addr ip s =
      if holds (bytes_dec ip o.listen_host)
      then (err self_dial, s)
      else if is_set (get bytes_dec addr s.pending_inbound)
      then (err already_connecting, s)
      else if leb o.max_inbound s.mux.inbound_count
      then (err max_inbound_reached, s)
      else unless_banned (is_banned L s.db now ip) (λ bans. bans.0)
          (record s { pending_inbound = put bytes_dec addr true s.pending_inbound }) s

  -- `gateOutboundPeer`
  unfoldable pub gate_outbound_peer : ℕ → Hash → Bytes → Step L.Db
  gate_outbound_peer now peer_id ip s =
      if holds (bytes_dec ip o.listen_host)
      then (err self_dial, s)
      else if is_set (get bytes_dec ip s.pending_outbound)
      then (err already_connecting, s)
      else if leb o.max_outbound s.mux.outbound_count
      then (err max_outbound_reached, s)
      else if has_peer_id peer_id s.mux || has_outbound_peer_ip ip s.mux
      then (err already_connected, s)
      else unless_banned (is_banned L s.db now ip) (λ bans. bans.1)
          (record s { pending_outbound = put bytes_dec ip true s.pending_outbound }) s

  -- `banOutboundPeer`
  unfoldable pub ban_for : ℕ → Bytes → ℕ → PeerManager L.Db → PeerManager L.Db
  ban_for now ip duration s = record s { db = (ban_outbound_peer L s.db now ip duration).1 }

  abbrev pub ban_if_dialed : Direction → ℕ → Bytes → PeerManager L.Db → PeerManager L.Db
  ban_if_dialed inbound now ip s = s
  ban_if_dialed outbound now ip s = ban_for now ip year_ban s

  -- What follows AddPeer: the peer is saved, with errors logged only.
  abbrev pub added : ℕ → Hash → Ref → Bool → Outcome MuxError (PeerMuxer × List Event) → Step L.Db
  added now id ref verify (ok (mux, events)) s =
      (ok tt, record s { mux = mux; db = (set_peer L J s.db now id (P.remote_ip ref) verify).1 })
  added now id ref verify (err e) s = (err already_connected, s)
  added now id ref verify panicked s = (panicked, s)

  abbrev pub clean : Direction → Ref → PeerManager L.Db → PeerManager L.Db
  clean inbound ref s = cleanup_inbound_peer (P.remote_addr ref) s
  clean outbound ref s = cleanup_outbound_peer (P.remote_ip ref) s

  -- After the pending entry is gone: the test for a connection to oneself, and AddPeer.
  unfoldable pub enlist : ℕ → Hash → Ref → Bool → Step L.Db
  enlist now id ref verify s =
      if holds (bytes_dec o.peer_id id)
      then (err self_dial, ban_if_dialed (P.direction ref) now (P.remote_ip ref) s)
      else added now id ref verify (handle_peer_open P id ref s.mux) s

  -- `completeConnection`
  unfoldable pub complete_connection : ℕ → Hash → Ref → Bool → Step L.Db
  complete_connection now id ref verify s = enlist now id ref verify (clean (P.direction ref) ref s)

  -- `AcceptPeer` up to its gate.
  unfoldable pub accept_begin : ℕ → Bytes → Bytes → Step L.Db
  accept_begin now addr ip s =
      if ltb s.in_held max_pending_inbound
      then in_if_refused (gate_inbound_peer now addr ip (record s { in_held = s.in_held + 1 }))
      else (err inbound_busy, s)

  -- `AcceptPeer` from the handshake on, which answers an id or fails.
  unfoldable pub accept_end : ℕ → Ref → Option Hash → Step L.Db
  accept_end now ref (some id) s = give_in (complete_connection now id ref false s)
  accept_end now ref none s =
      give_in (err handshake_failed, cleanup_inbound_peer (P.remote_addr ref) s)

  -- `DialPeer` up to its gate.
  unfoldable pub dial_begin : ℕ → Hash → Bytes → Step L.Db
  dial_begin now peer_id ip s =
      if ltb s.out_held max_pending_outbound
      then out_if_refused
          (gate_outbound_peer now peer_id ip (record s { out_held = s.out_held + 1 }))
      else (err outbound_busy, s)

  -- A dial that fails bans the address for an hour.
  abbrev pub punish : ℕ → Bytes → ManagerError → Step L.Db
  punish now ip e s = (err e, cleanup_outbound_peer ip (ban_for now ip hour s))

  abbrev pub shaken : ℕ → Hash → Bytes → Bool → Ref → Option Hash → Step L.Db
  shaken now peer_id ip verify ref none s = punish now ip handshake_failed s
  shaken now peer_id ip verify ref (some id) s =
      if verify
      then if holds (bytes_dec peer_id id)
        then complete_connection now id ref verify s
        else punish now ip peer_id_mismatch s
      else complete_connection now id ref verify s

  -- `DialPeer` from the dial on: it fails, or gives a peer whose handshake answers an id or fails.
  unfoldable pub dial_end : ℕ → Hash → Bytes → Bool → Option (Ref × Option Hash) → Step L.Db
  dial_end now peer_id ip verify none s = give_out (punish now ip dial_failed s)
  dial_end now peer_id ip verify (some (ref, shake)) s =
      give_out (shaken now peer_id ip verify ref shake s)

  abbrev pub set_mux :
      Outcome MuxError (PeerMuxer × List Event) → PeerManager L.Db → PeerManager L.Db
  set_mux (ok (mux, events)) s = record s { mux = mux }
  set_mux (err e) s = s
  set_mux panicked s = s
