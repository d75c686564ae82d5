-- ===== src/P2p/Manager/Bounds.antt =====
-- p2p/peer_manager.go: how many peers can be connected, with connections being made side by side.
use fnd.Base.{
  ℕ, ◌+◌, ◌-◌, ◌≤◌, ◌<◌, ◌≡◌, Bool, true, false, Option, none, some, List, [], ◌∷◌, arith, Outcome,
  ok, err, panicked, holds, Bool-cases, inl, inr,
}
use fnd.Base.Bytes.{Bytes, bytes_dec}
use fnd.Base.GoMap.{get}
use fnd.Blob.Consts.{Hash}
use fnd.Store.Json.{JsonText}
use fnd.Store.Leveldb.{Leveldb}
use fnd.P2p.Muxer.{
  Ref, Direction, inbound, outbound, PeerObjects, MuxError, PeerMuxer, Event, handle_peer_open,
  handle_peer_close, open_found, close_found, forget, unfile, remove_inbound_peer_by_ip,
  remove_from, with_list, inbound_at, remove_ref,
}
use fnd.P2p.Muxer.Tally.{same_direction, one_if}
use fnd.P2p.Manager.{
  Options, PeerManager, gate_inbound_peer, gate_outbound_peer, cleanup_inbound_peer,
  cleanup_outbound_peer, ban_for, added, ban_if_dialed, enlist, complete_connection, accept_begin,
  accept_end, dial_begin, shaken, dial_end, set_mux, max_pending_inbound, max_pending_outbound,
}

-- The counts grow by one at most, in the direction of a peer, and no semaphore is moved.
record Grows {Db : Type 0} (d : Direction) (s t : PeerManager Db) : Type 0 where
  in_grows : t.mux.inbound_count ≤ s.mux.inbound_count + one_if (same_direction d inbound)
  out_grows : t.mux.outbound_count ≤ s.mux.outbound_count + one_if (same_direction d outbound)
  in_kept : t.in_held ≡ s.in_held
  out_kept : t.out_held ≡ s.out_held

module _ (L : Leveldb) (J : JsonText) (P : PeerObjects) (o : Options) where
  added-Grows :
      (now : ℕ) (id : Hash) (ref : Ref) (verify : Bool) (s : PeerManager L.Db) (d : Direction)
      (old : Option Ref)
      → P.direction ref ≡ d
      → Grows d s (added L J P o now id ref verify (open_found P id old ref s.mux) s).1
  added-Grows now id ref verify s d (some r) e = ground arith
  added-Grows now id ref verify s inbound none e = rw e (ground arith)
  added-Grows now id ref verify s outbound none e = rw e (ground arith)

  enlist-Grows :
      (now : ℕ) (id : Hash) (ref : Ref) (verify : Bool) (s : PeerManager L.Db) (d : Direction)
      → P.direction ref ≡ d
      → Grows d s (enlist L J P o now id ref verify s).1
  unfolding enlist handle_peer_open ban_for
  enlist-Grows now id ref verify s d e = elim (Bool-cases (holds (bytes_dec o.peer_id id))) [
    | inl y ↦ rw y (self d e)
    | inr n ↦ rw n (added-Grows now id ref verify s d (get bytes_dec id s.mux.peers) e)
  ]
    where
      self :
          (d : Direction)
          → P.direction ref ≡ d
          → Grows d s (ban_if_dialed L J P o (P.direction ref) now (P.remote_ip ref) s)
      self inbound e = rw e (ground arith)
      self outbound e = rw e (ground arith)

  complete-Grows :
      (now : ℕ) (id : Hash) (ref : Ref) (verify : Bool) (s : PeerManager L.Db) (d : Direction)
      → P.direction ref ≡ d
      → Grows d s (complete_connection L J P o now id ref verify s).1
  unfolding complete_connection cleanup_inbound_peer cleanup_outbound_peer
  complete-Grows now id ref verify s inbound e = rw e (
      ground (
        arith,
        enlist-Grows now id ref verify (cleanup_inbound_peer (P.remote_addr ref) s) inbound e,
      ))
  complete-Grows now id ref verify s outbound e = rw e (
      ground (
        arith,
        enlist-Grows now id ref verify (cleanup_outbound_peer (P.remote_ip ref) s) outbound e,
      ))

  -- The semaphores admit twelve inbound and five outbound connections in the making, and what is
  -- connected or in the making stays below what the options allow and those.
  pub record IsBounded (s : PeerManager L.Db) : Type 0 where
    pub in_fits : s.in_held ≤ max_pending_inbound
    pub out_fits : s.out_held ≤ max_pending_outbound
    pub in_bound : s.mux.inbound_count + s.in_held ≤ o.max_inbound + 11
    pub out_bound : s.mux.outbound_count + s.out_held ≤ o.max_outbound + 4

  accept_begin-IsBounded :
      (now : ℕ) (addr ip : Bytes) (s : PeerManager L.Db)
      → IsBounded s
      → IsBounded (accept_begin L J P o now addr ip s).1
  unfolding accept_begin gate_inbound_peer
  accept_begin-IsBounded now addr ip s v = ground arith

  dial_begin-IsBounded :
      (now : ℕ) (id : Hash) (ip : Bytes) (s : PeerManager L.Db)
      → IsBounded s
      → IsBounded (dial_begin L J P o now id ip s).1
  unfolding dial_begin gate_outbound_peer
  dial_begin-IsBounded now id ip s v = ground arith

  accept_end-IsBounded :
      (now : ℕ) (ref : Ref) (shake : Option Hash) (s : PeerManager L.Db)
      → P.direction ref ≡ inbound
      → 0 < s.in_held
      → IsBounded s
      → IsBounded (accept_end L J P o now ref shake s).1
  unfolding accept_end cleanup_inbound_peer
  accept_end-IsBounded now ref none s e h v = ground arith
  accept_end-IsBounded now ref (some id) s e h v =
      ground (arith, complete-Grows now id ref false s inbound e)

  shaken-Grows :
      (now : ℕ) (peer_id : Hash) (ip : Bytes) (verify : Bool) (ref : Ref) (shake : Option Hash)
      (s : PeerManager L.Db)
      → P.direction ref ≡ outbound
      → Grows outbound s (shaken L J P o now peer_id ip verify ref shake s).1
  unfolding cleanup_outbound_peer ban_for
  shaken-Grows now peer_id ip verify ref none s e = ground arith
  shaken-Grows now peer_id ip true ref (some id) s e =
      ground (arith, complete-Grows now id ref true s outbound e)
  shaken-Grows now peer_id ip false ref (some id) s e = complete-Grows now id ref false s outbound e

  dial_end-IsBounded :
      (now : ℕ) (peer_id : Hash) (ip : Bytes) (verify : Bool) (ref : Ref) (shake : Option Hash)
      (s : PeerManager L.Db)
      → P.direction ref ≡ outbound
      → 0 < s.out_held
      → IsBounded s
      → IsBounded (dial_end L J P o now peer_id ip verify (some (ref, shake)) s).1
  unfolding dial_end
  dial_end-IsBounded now peer_id ip verify ref shake s e h v =
      ground (arith, shaken-Grows now peer_id ip verify ref shake s e)

  dial_failed-IsBounded :
      (now : ℕ) (peer_id : Hash) (ip : Bytes) (verify : Bool) (s : PeerManager L.Db)
      → IsBounded s
      → IsBounded (dial_end L J P o now peer_id ip verify none s).1
  unfolding dial_end cleanup_outbound_peer ban_for
  dial_failed-IsBounded now peer_id ip verify s v = ground arith

  -- Closing a peer raises no count.
  abbrev Shrinks : PeerManager L.Db → Outcome MuxError (PeerMuxer × List Event) → Type 0
  Shrinks s r =
      ((set_mux L J P o r s).mux.inbound_count ≤ s.mux.inbound_count)
      × ((set_mux L J P o r s).mux.outbound_count ≤ s.mux.outbound_count)
      × ((set_mux L J P o r s).in_held ≡ s.in_held)
      × ((set_mux L J P o r s).out_held ≡ s.out_held)

  listed-Shrinks :
      (id : Hash) (s : PeerManager L.Db) (ip : Bytes) (l : Outcome MuxError (List Ref))
      → Shrinks s (
          forget P id (with_list P ip l (record s.mux { inbound_count = s.mux.inbound_count - 1 })))
  listed-Shrinks id s ip (ok l) = omega arith
  listed-Shrinks id s ip (err e) = omega arith
  listed-Shrinks id s ip panicked = omega arith

  removed-Shrinks :
      (id : Hash) (s : PeerManager L.Db) (r : Ref) (ip : Bytes) (l : List Ref)
      → Shrinks s (
          forget P id
            (remove_from P r ip l (record s.mux { inbound_count = s.mux.inbound_count - 1 })))
  removed-Shrinks id s r ip [] = omega arith
  removed-Shrinks id s r ip (x ∷ l) = listed-Shrinks id s ip (remove_ref r (x ∷ l))

  unfiled-Shrinks :
      (id : Hash) (s : PeerManager L.Db) (r : Ref) (d : Direction)
      → Shrinks s (forget P id (unfile P d r s.mux))
  unfolding remove_inbound_peer_by_ip
  unfiled-Shrinks id s r inbound =
      removed-Shrinks id s r (P.remote_ip r) (inbound_at (P.remote_ip r) s.mux)
  unfiled-Shrinks id s r outbound = omega arith

  closed-Shrinks :
      (id : Hash) (s : PeerManager L.Db) (old : Option Ref) → Shrinks s (close_found P id old s.mux)
  closed-Shrinks id s none = omega arith
  closed-Shrinks id s (some r) = unfiled-Shrinks id s r (P.direction r)

  close-IsBounded :
      (id : Hash) (s : PeerManager L.Db)
      → IsBounded s
      → IsBounded (set_mux L J P o (handle_peer_close P id s.mux) s)
  unfolding handle_peer_close
  close-IsBounded id s v = omega (arith, closed-Shrinks id s (get bytes_dec id s.mux.peers))

  -- What a peer manager can go through, in any order: calls of AcceptPeer and DialPeer begin and
  -- end, peers close, and the database changes.
  pub data Move (s : PeerManager L.Db) : PeerManager L.Db → Type 0 where
    accepts : (now : ℕ) (addr ip : Bytes) → Move s (accept_begin L J P o now addr ip s).1
    accepted :
        (now : ℕ) (ref : Ref) (shake : Option Hash)
        → P.direction ref ≡ inbound
        → 0 < s.in_held
        → Move s (accept_end L J P o now ref shake s).1
    dials : (now : ℕ) (id : Hash) (ip : Bytes) → Move s (dial_begin L J P o now id ip s).1
    dialed :
        (now : ℕ) (id : Hash) (ip : Bytes) (verify : Bool) (ref : Ref) (shake : Option Hash)
        → P.direction ref ≡ outbound
        → 0 < s.out_held
        → Move s (dial_end L J P o now id ip verify (some (ref, shake)) s).1
    fails :
        (now : ℕ) (id : Hash) (ip : Bytes) (verify : Bool)
        → Move s (dial_end L J P o now id ip verify none s).1
    closes : (id : Hash) → Move s (set_mux L J P o (handle_peer_close P id s.mux) s)
    stores : (db : L.Db) → Move s (record s { db = db })

  pub data Reach (s : PeerManager L.Db) : PeerManager L.Db → Type 0 where
    here : Reach s s
    next : {t u : PeerManager L.Db} → Reach s t → Move t u → Reach s u

  Move-IsBounded : {s t : PeerManager L.Db} → Move s t → IsBounded s → IsBounded t
  Move-IsBounded {s} (accepts now addr ip) v = accept_begin-IsBounded now addr ip s v
  Move-IsBounded {s} (accepted now ref shake e h) v = accept_end-IsBounded now ref shake s e h v
  Move-IsBounded {s} (dials now id ip) v = dial_begin-IsBounded now id ip s v
  Move-IsBounded {s} (dialed now id ip verify ref shake e h) v =
      dial_end-IsBounded now id ip verify ref shake s e h v
  Move-IsBounded {s} (fails now id ip verify) v = dial_failed-IsBounded now id ip verify s v
  Move-IsBounded {s} (closes id) v = close-IsBounded id s v
  Move-IsBounded {s} (stores db) v = omega arith

  -- However connections are made side by side and closed, from a manager with no peer and no
  -- connection in the making: at most twelve inbound and five outbound ones are in the making at a
  -- time, and there are at most MaxInbound + 11 inbound and MaxOutbound + 4 outbound peers, since
  -- the gates do not count the connections in the making.
  pub Reach-IsBounded :
      {s t : PeerManager L.Db}
      → s.in_held ≡ 0
      → s.out_held ≡ 0
      → s.mux.inbound_count ≡ 0
      → s.mux.outbound_count ≡ 0
      → Reach s t
      → (t.in_held ≤ max_pending_inbound)
        × (t.out_held ≤ max_pending_outbound)
        × (t.mux.inbound_count ≤ o.max_inbound + 11)
        × (t.mux.outbound_count ≤ o.max_outbound + 4)
  Reach-IsBounded {s} {t} a b c d r = omega (arith, bounded r)
    where
      bounded : {t : PeerManager L.Db} → Reach s t → IsBounded t
      bounded here = omega arith
      bounded (next q m) = Move-IsBounded m (bounded q)
