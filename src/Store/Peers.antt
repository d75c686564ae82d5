-- ===== src/Store/Peers.antt =====
-- store/peers.go: peers, their bans by address, and the whitelist. `now` is what time.Now answers,
-- in seconds.
pub mod Bans
pub mod Passing
use fnd.Base.{
  ℕ, ◌+◌, Bool, true, false, not, ◌&&◌, ◌||◌, Option, none, some, List, [], ◌∷◌, Outcome, ok, err,
  panicked, if◌then◌else◌, ltb,
}
use fnd.Base.Bytes.{Bytes}
use fnd.Base.Stateful.{Stateful, continue, ◌>>=◌, pure, lift}
use fnd.Blob.Consts.{Hash}
use fnd.Crypto.{hash_string}
use fnd.Store.Types.{Time, Peer}
use fnd.Store.Interface.{DbError, not_found, failed}
use fnd.Store.Keys.{
  peers_prefix, peer_data_prefix, peer_in_ban_prefix, peer_out_ban_prefix, whitelist_prefix,
}
use fnd.Store.Ints.{encode_time, must_decode_time}
use fnd.Store.Json.{JsonText, peer_document, must_marshal_json, read_peer}
use fnd.Store.Leveldb.{Leveldb}
use fnd.Store.Transactions.{with_tx}
use fnd.Store.Headers.{delete_keys}

-- `Time.After`: the zero time is before every other.
abbrev pub after : Time → ℕ → Bool
after none now = false
after (some t) now = ltb now t

-- `(*Peer).IsBanned`
unfoldable pub peer_is_banned : Peer → ℕ → Bool
peer_is_banned p now =
    not p.whitelisted && (after p.inbound_banned_until now || after p.outbound_banned_until now)

-- A value that is missing is nil.
abbrev pub nil_if_missing : Outcome DbError Bytes → Outcome DbError (Option Bytes)
nil_if_missing (ok res) = ok (some res)
nil_if_missing (err not_found) = ok none
nil_if_missing (err failed) = err failed
nil_if_missing panicked = panicked

abbrev pub both_after :
    Outcome DbError Time → Outcome DbError Time → ℕ → Outcome DbError (Bool × Bool)
both_after (ok a) (ok b) now = ok (after a now, after b now)
both_after (ok a) (err e) now = err e
both_after (ok a) panicked now = panicked
both_after (err e) b now = err e
both_after panicked b now = panicked

abbrev pub bans_until :
    ℕ
    → Outcome DbError (Option Bytes)
    → Outcome DbError (Option Bytes)
    → Outcome DbError (Bool × Bool)
bans_until now (ok a) (ok b) = both_after (must_decode_time a) (must_decode_time b) now
bans_until now (ok a) (err e) = err e
bans_until now (ok a) panicked = panicked
bans_until now (err e) b = err e
bans_until now panicked b = panicked

abbrev pub unless_listed :
    Outcome DbError Bool → Outcome DbError (Bool × Bool) → Outcome DbError (Bool × Bool)
unless_listed (ok true) bans = ok (false, false)
unless_listed (ok false) bans = bans
unless_listed (err e) bans = err e
unless_listed panicked bans = panicked

abbrev pub with_bans :
    Peer → Outcome DbError Time → Outcome DbError Time → Bool → Outcome DbError Peer
with_bans p (ok a) (ok b) listed =
    ok (record p { inbound_banned_until = a; outbound_banned_until = b; whitelisted = listed })
with_bans p (ok a) (err e) listed = err e
with_bans p (ok a) panicked listed = panicked
with_bans p (err e) b listed = err e
with_bans p panicked b listed = panicked

abbrev pub fill_in :
    Outcome DbError (Option Bytes)
    → Outcome DbError (Option Bytes)
    → Outcome DbError Bool
    → Peer
    → Outcome DbError Peer
fill_in (ok a) (ok b) (ok listed) p = with_bans p (must_decode_time a) (must_decode_time b) listed
fill_in (ok a) (ok b) (err e) p = err e
fill_in (ok a) (ok b) panicked p = panicked
fill_in (ok a) (err e) listed p = err e
fill_in (ok a) panicked listed p = panicked
fill_in (err e) b listed p = err e
fill_in panicked b listed p = panicked

module _ (L : Leveldb) where
  -- `BanOutboundPeerTx` and `BanInboundPeerTx`
  unfoldable pub ban_outbound_peer_tx : ℕ → Bytes → ℕ → Stateful L.Tx DbError (Unit {0})
  ban_outbound_peer_tx now ip duration =
      L.tx_put (peer_out_ban_prefix (ip ∷ [])) (encode_time (now + duration))

  unfoldable pub ban_inbound_peer_tx : ℕ → Bytes → ℕ → Stateful L.Tx DbError (Unit {0})
  ban_inbound_peer_tx now ip duration =
      L.tx_put (peer_in_ban_prefix (ip ∷ [])) (encode_time (now + duration))

  -- `BanOutboundPeer` and `BanInboundPeer`
  unfoldable pub ban_outbound_peer : L.Db → ℕ → Bytes → ℕ → Outcome DbError (Unit {0}) × L.Db
  ban_outbound_peer db now ip duration = with_tx L db (ban_outbound_peer_tx now ip duration)

  unfoldable pub ban_inbound_peer : L.Db → ℕ → Bytes → ℕ → Outcome DbError (Unit {0}) × L.Db
  ban_inbound_peer db now ip duration = with_tx L db (ban_inbound_peer_tx now ip duration)

  abbrev delete_if : Bytes → Bool → Stateful L.Tx DbError (Unit {0})
  delete_if k true = L.tx_delete k
  delete_if k false = pure tt

  -- `UnbanOutboundPeerTx`, `UnbanInboundPeerTx` and `UnwhitelistPeerTx`
  unfoldable pub unban_outbound_peer_tx : Bytes → Stateful L.Tx DbError (Unit {0})
  unban_outbound_peer_tx ip tx =
      continue (L.tx_has tx (peer_out_ban_prefix (ip ∷ [])))
        (delete_if (peer_out_ban_prefix (ip ∷ []))) tx

  unfoldable pub unban_inbound_peer_tx : Bytes → Stateful L.Tx DbError (Unit {0})
  unban_inbound_peer_tx ip tx =
      continue (L.tx_has tx (peer_in_ban_prefix (ip ∷ [])))
        (delete_if (peer_in_ban_prefix (ip ∷ []))) tx

  unfoldable pub unwhitelist_peer_tx : Bytes → Stateful L.Tx DbError (Unit {0})
  unwhitelist_peer_tx ip tx =
      continue (L.tx_has tx (whitelist_prefix (ip ∷ []))) (delete_if (whitelist_prefix (ip ∷ [])))
        tx

  -- `WhitelistPeerTx`
  unfoldable pub whitelist_peer_tx : Bytes → Stateful L.Tx DbError (Unit {0})
  whitelist_peer_tx ip = L.tx_put (whitelist_prefix (ip ∷ [])) (1 ∷ [])

  -- `IsBanned`: inbound and outbound.
  unfoldable pub is_banned : L.Db → ℕ → Bytes → Outcome DbError (Bool × Bool)
  is_banned db now ip = unless_listed (L.has db (whitelist_prefix (ip ∷ []))) (
      bans_until now (nil_if_missing (L.get db (peer_in_ban_prefix (ip ∷ []))))
        (nil_if_missing (L.get db (peer_out_ban_prefix (ip ∷ [])))))

  -- `TruncatePeerStore`
  unfoldable pub truncate_peer_store : L.Db → Outcome DbError (Unit {0}) × L.Db
  truncate_peer_store db =
      with_tx L db (λ tx. delete_keys L (L.tx_prefix_keys tx (peers_prefix [])) tx)

  -- `StreamPeers`: the values that the iterator will pass.
  unfoldable pub stream_peers : L.Db → List Bytes
  stream_peers db = L.prefix_values db (peer_data_prefix [])

  module _ (J : JsonText) where
    -- `SetPeerTx`
    unfoldable pub set_peer_tx : ℕ → Hash → Bytes → Bool → Stateful L.Tx DbError (Unit {0})
    set_peer_tx now id ip verify = do
      b ← lift (
          must_marshal_json J (
            peer_document (record {
              id = id;
              ip = ip;
              last_seen = some now;
              verify = verify;
              inbound_banned_until = none;
              outbound_banned_until = none;
              whitelisted = false;
            })))
      L.tx_put (peer_data_prefix (hash_string id ∷ [])) b

    -- `SetPeer`
    unfoldable pub set_peer : L.Db → ℕ → Hash → Bytes → Bool → Outcome DbError (Unit {0}) × L.Db
    set_peer db now id ip verify = with_tx L db (set_peer_tx now id ip verify)

    abbrev fill_read : L.Db → Outcome DbError Peer → Outcome DbError Peer
    fill_read db (ok p) =
        fill_in (nil_if_missing (L.get db (peer_in_ban_prefix (p.ip ∷ []))))
          (nil_if_missing (L.get db (peer_out_ban_prefix (p.ip ∷ []))))
          (L.has db (whitelist_prefix (p.ip ∷ []))) p
    fill_read db (err e) = err e
    fill_read db panicked = panicked

    -- One round of `(*PeerStream).Next`: the stored peer with its bans.
    unfoldable pub filled : L.Db → Bytes → Outcome DbError Peer
    filled db b = fill_read db (read_peer J b)

    -- What the round does with the peer: it is passed, or the rest is searched.
    abbrev pub next_or :
        Bool
        → ℕ
        → Outcome DbError Peer
        → List Bytes
        → Outcome DbError (Option Peer × List Bytes)
        → Outcome DbError (Option Peer × List Bytes)
    next_or include_banned now (ok p) rest more =
        if not include_banned && peer_is_banned p now then more else ok (some p, rest)
    next_or include_banned now (err e) rest more = err e
    next_or include_banned now panicked rest more = panicked

    -- `(*PeerStream).Next`: `none` at the end.
    unfoldable pub next_peer :
        Bool → ℕ → L.Db → List Bytes → Outcome DbError (Option Peer × List Bytes)
    next_peer include_banned now db [] = ok (none, [])
    next_peer include_banned now db (b ∷ rest) =
        next_or include_banned now (filled db b) rest (next_peer include_banned now db rest)
