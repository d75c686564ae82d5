-- ===== src/P2p/Manager/Gates.antt =====
-- p2p/peer_manager.go: what a gate lets pass, what an attempt leaves behind, and that an address
-- whose dial failed is not dialed again for an hour.
use fnd.Base.{
  ℕ, ◌+◌, ◌-◌, ◌≤◌, ◌<◌, ◌≡◌, ◌≢◌, refl, ap, ◌∙◌, Bool, true, false, Option, none, some, [], ◌∷◌,
  arith, Outcome, ok, err, panicked, lt→ltb,
}
use fnd.Base.Bytes.{Bytes, bytes_dec}
use fnd.Base.GoMap.{get, get-delete_at}
use fnd.Blob.Consts.{Hash}
use fnd.Store.Interface.{DbError}
use fnd.Store.Json.{JsonText}
use fnd.Store.Keys.{whitelist_prefix}
use fnd.Store.Ints.{max_int64}
use fnd.Store.Leveldb.{Leveldb, IsHealthy}
use fnd.Store.Peers.{is_banned, ban_outbound_peer}
use fnd.Store.Peers.Bans.{is_banned-ban_outbound}
use fnd.P2p.Muxer.{Ref, inbound, PeerObjects, handle_peer_open}
use fnd.P2p.Manager.{
  Options, PeerManager, unless_banned, gate_outbound_peer, hour, cleanup_inbound_peer,
  cleanup_outbound_peer, ban_for, enlist, complete_connection, accept_end, dial_end,
}

module _ (L : Leveldb) (J : JsonText) (P : PeerObjects) (o : Options) where
  -- A ban that the gate reads: none where the store cannot be read.
  abbrev pub read_ban : Outcome DbError (Bool × Bool) → Bool
  read_ban (ok bans) = bans.1
  read_ban (err e) = false
  read_ban panicked = true

  refused-banned :
      (r : Outcome DbError (Bool × Bool)) (i : Bool) (entered s : PeerManager L.Db)
      → r ≡ ok (i, true)
      → (unless_banned r (λ bans. bans.1) entered s).0 ≢ ok tt
  refused-banned r i entered s e = rw e (λ q. cc)

  gate-refuses :
      (now : ℕ) (id : Hash) (ip : Bytes) (s : PeerManager L.Db) (i : Bool)
      → is_banned L s.db now ip ≡ ok (i, true)
      → (gate_outbound_peer L J P o now id ip s).0 ≢ ok tt
  unfolding gate_outbound_peer
  gate-refuses now id ip s i e q = ground arith

-- The dial failed, or the handshake did.
abbrev pub HasFailed : Option (Ref × Option Hash) → Type 0
HasFailed none = Unit {0}
HasFailed (some (ref, none)) = Unit {0}
HasFailed (some (ref, some id)) = ⊥

module _ (L : Leveldb) (J : JsonText) (P : PeerObjects) (o : Options) where
  dial_end-db :
      (now : ℕ) (id : Hash) (ip : Bytes) (verify : Bool) (dial : Option (Ref × Option Hash))
      (s : PeerManager L.Db)
      → HasFailed dial
      → (dial_end L J P o now id ip verify dial s).1.db ≡ (ban_outbound_peer L s.db now ip hour).1
  unfolding dial_end ban_for cleanup_outbound_peer
  dial_end-db now id ip verify none s f = refl
  dial_end-db now id ip verify (some (ref, none)) s f = refl
  dial_end-db now id ip verify (some (ref, some id')) s f = absurd f

  enlist-keeps :
      (now : ℕ) (id : Hash) (ref : Ref) (verify : Bool) (t : PeerManager L.Db)
      → ((enlist L J P o now id ref verify t).1.pending_inbound ≡ t.pending_inbound)
        × ((enlist L J P o now id ref verify t).1.in_held ≡ t.in_held)
  unfolding enlist handle_peer_open ban_for
  enlist-keeps now id ref verify t = ground arith

  -- When AcceptPeer ends, after a handshake of either outcome, its address is no longer pending and
  -- its share of the semaphore is given back.
  pub accept_end-frees :
      (now : ℕ) (ref : Ref) (shake : Option Hash) (s : PeerManager L.Db)
      → P.direction ref ≡ inbound
      → (get bytes_dec (P.remote_addr ref) (accept_end L J P o now ref shake s).1.pending_inbound
          ≡ none)
        × ((accept_end L J P o now ref shake s).1.in_held ≡ s.in_held - 1)
  unfolding accept_end complete_connection cleanup_inbound_peer
  accept_end-frees now ref none s e =
      (get-delete_at bytes_dec (P.remote_addr ref) (P.remote_addr ref) s.pending_inbound refl, refl)
  accept_end-frees now ref (some id) s e = rw e (
      enlist-frees (cleanup_inbound_peer (P.remote_addr ref) s)
        (get-delete_at bytes_dec (P.remote_addr ref) (P.remote_addr ref) s.pending_inbound refl))
    where
      enlist-frees :
          (t : PeerManager L.Db)
          → get bytes_dec (P.remote_addr ref) t.pending_inbound ≡ none
          → (get bytes_dec (P.remote_addr ref) (enlist L J P o now id ref false t).1.pending_inbound
              ≡ none)
            × ((enlist L J P o now id ref false t).1.in_held - 1 ≡ t.in_held - 1)
      enlist-frees t g =
          let (p, q) = enlist-keeps now id ref false t in
          (ap (get bytes_dec (P.remote_addr ref)) p ∙ g, ap (λ n. n - 1) q)

module _ (L : Leveldb) (H : IsHealthy L) (J : JsonText) (P : PeerObjects) (o : Options) where
  -- On a disk that does not fail: after a dial that failed, or whose handshake failed, and until an
  -- hour is over, the gate of a dial refuses the address in every state whose store answers about the
  -- bans of the address as it did after the failed dial, if the address was not whitelisted, its bans
  -- could be read, and the end of the hour is a time that fits an int64.
  pub dial_end-bans :
      (now later : ℕ) (id id' : Hash) (ip : Bytes) (verify i out : Bool)
      (dial : Option (Ref × Option Hash)) (s t : PeerManager L.Db)
      → HasFailed dial
      → now + hour ≤ max_int64
      → later < now + hour
      → L.has s.db (whitelist_prefix (ip ∷ [])) ≡ ok false
      → is_banned L s.db later ip ≡ ok (i, out)
      → is_banned L t.db later ip
        ≡ is_banned L (dial_end L J P o now id ip verify dial s).1.db later ip
      → (gate_outbound_peer L J P o later id' ip t).0 ≢ ok tt
  dial_end-bans now later id id' ip verify i out dial s t failed fits soon listed before same =
      gate-refuses L J P o later id' ip t i (
        same
        ∙ ap (λ d. is_banned L d later ip) (dial_end-db L J P o now id ip verify dial s failed)
        ∙ (is_banned-ban_outbound L H s.db now hour ip fits listed later i out before).0
        ∙ ap (λ b. answer b) (lt→ltb later (now + hour) soon))
    where
      answer : Bool → Outcome DbError (Bool × Bool)
      answer b = ok (i, b)
