-- ===== src/Store/Peers/Bans.antt =====
-- store/peers.go on a disk that does not fail: what IsBanned answers after each change.
use fnd.Base.{
  ℕ, ◌+◌, ◌≤◌, ◌≡◌, ◌≢◌, refl, sym, ap, ◌∙◌, Option, none, some, Bool, false, Outcome, ok, err,
  panicked, arith, ltb, [], ◌∷◌,
}
use fnd.Base.Bytes.{Bytes}
use fnd.Store.Types.{Time}
use fnd.Store.Interface.{DbError}
use fnd.Store.Keys.{Key, key_bytes, peer_in_ban, peer_out_ban, whitelist, whitelist_prefix}
use fnd.Store.Ints.{encode_time, must_decode_time, must_decode_time-encode_time, max_int64}
use fnd.Store.Leveldb.{Leveldb, IsHealthy, found, is_some}
use fnd.Store.Transactions.{with_tx}
use fnd.Store.Views.{
  at, get-at, has-at, put_runs, tx_at-put_self, tx_at-put_other, tx_at-begin, at-commit,
  with_tx-ends,
}
use fnd.Store.Peers.{
  nil_if_missing, both_after, bans_until, unless_listed, ban_outbound_peer_tx, ban_inbound_peer_tx,
  ban_outbound_peer, ban_inbound_peer, is_banned,
}

-- The answer of IsBanned from the three values that are stored for an address.
abbrev pub answer : ℕ → Option Bytes → Option Bytes → Option Bytes → Outcome DbError (Bool × Bool)
answer now listed inbound outbound =
    unless_listed (ok (is_some listed))
      (bans_until now (nil_if_missing (found inbound)) (nil_if_missing (found outbound)))

replace_out :
    (now t : ℕ) (a b : Outcome DbError Time) (i o : Bool)
    → both_after a b now ≡ ok (i, o)
    → both_after a (ok (some t)) now ≡ ok (i, ltb now t)
replace_out now t (ok a) (ok b) i o e = ground arith
replace_out now t (ok a) (err x) i o e = cc
replace_out now t (ok a) panicked i o e = cc
replace_out now t (err x) b i o e = cc
replace_out now t panicked b i o e = cc

replace_in :
    (now t : ℕ) (a b : Outcome DbError Time) (i o : Bool)
    → both_after a b now ≡ ok (i, o)
    → both_after (ok (some t)) b now ≡ ok (ltb now t, o)
replace_in now t (ok a) (ok b) i o e = ground arith
replace_in now t (ok a) (err x) i o e = cc
replace_in now t (ok a) panicked i o e = cc
replace_in now t (err x) b i o e = cc
replace_in now t panicked b i o e = cc

-- A value that is found or missing is decoded as a time.
until-found :
    (now : ℕ) (x y : Option Bytes)
    → bans_until now (nil_if_missing (found x)) (nil_if_missing (found y))
      ≡ both_after (must_decode_time x) (must_decode_time y) now
until-found now none none = refl
until-found now none (some y) = refl
until-found now (some x) none = refl
until-found now (some x) (some y) = refl

-- The answer after one of the two values was replaced by the end of a ban.
answer-out :
    (now t : ℕ) (listed x y : Option Bytes) (i o : Bool)
    → t ≤ max_int64
    → is_some listed ≡ false
    → answer now listed x y ≡ ok (i, o)
    → answer now listed x (some (encode_time t)) ≡ ok (i, ltb now t)
answer-out now t none x y i o fits l e =
    until-found now x (some (encode_time t))
    ∙ ap (λ b. both_after (must_decode_time x) b now) (must_decode_time-encode_time t fits)
    ∙ replace_out now t (must_decode_time x) (must_decode_time y) i o
        (sym (until-found now x y) ∙ e)
answer-out now t (some w) x y i o fits l e = cc

answer-in :
    (now t : ℕ) (listed x y : Option Bytes) (i o : Bool)
    → t ≤ max_int64
    → is_some listed ≡ false
    → answer now listed x y ≡ ok (i, o)
    → answer now listed (some (encode_time t)) y ≡ ok (ltb now t, o)
answer-in now t none x y i o fits l e =
    until-found now (some (encode_time t)) y
    ∙ ap (λ a. both_after a (must_decode_time y) now) (must_decode_time-encode_time t fits)
    ∙ replace_in now t (must_decode_time x) (must_decode_time y) i o (sym (until-found now x y) ∙ e)
answer-in now t (some w) x y i o fits l e = cc

module _ (L : Leveldb) (H : IsHealthy L) where
  pub is_banned-at :
      (d : L.Db) (now : ℕ) (ip : Bytes)
      → is_banned L d now ip
        ≡ answer now
            (at L H d (whitelist ip))
            (at L H d (peer_in_ban ip))
            (at L H d (peer_out_ban ip))
  unfolding is_banned
  is_banned-at d now ip =
      rw (has-at L H d (whitelist ip))
        (rw (get-at L H d (peer_in_ban ip)) (rw (get-at L H d (peer_out_ban ip)) refl))

  -- A put and a delete under one key, in a transaction of their own.
  pub at-put_self :
      (d : L.Db) (k : Key) (v : Bytes)
      → at L H (with_tx L d (L.tx_put (key_bytes k) v)).1 k ≡ some v
  at-put_self d k v =
      rw (with_tx-ends L H d (L.tx_put (key_bytes k) v) _ (put_runs L H (H.begin d) k v))
        (at-commit L H _ k ∙ tx_at-put_self L H (H.begin d) k v)

  pub at-put_other :
      (d : L.Db) (k j : Key) (v : Bytes)
      → k ≢ j
      → at L H (with_tx L d (L.tx_put (key_bytes k) v)).1 j ≡ at L H d j
  at-put_other d k j v ne =
      rw (with_tx-ends L H d (L.tx_put (key_bytes k) v) _ (put_runs L H (H.begin d) k v))
        (at-commit L H _ j ∙ tx_at-put_other L H (H.begin d) k j v ne ∙ tx_at-begin L H d j)

  -- `IsBanned` reads the three keys of its address and no other.
  pub answer_kept :
      (d e : L.Db) (time : ℕ) (ip : Bytes)
      → at L H e (whitelist ip) ≡ at L H d (whitelist ip)
      → at L H e (peer_in_ban ip) ≡ at L H d (peer_in_ban ip)
      → at L H e (peer_out_ban ip) ≡ at L H d (peer_out_ban ip)
      → is_banned L e time ip ≡ is_banned L d time ip
  answer_kept d e time ip p q r =
      is_banned-at e time ip ∙ (λ i. answer time (p i) (q i) (r i)) ∙ sym (is_banned-at d time ip)

  unlisted :
      (d : L.Db) (ip : Bytes)
      → L.has d (whitelist_prefix (ip ∷ [])) ≡ ok false
      → is_some (at L H d (whitelist ip)) ≡ false
  unlisted d ip e = unwrap (sym (has-at L H d (whitelist ip)) ∙ e)
    where
      unwrap : {a b : Bool} → ◌≡◌ {A = Outcome DbError Bool} (ok a) (ok b) → a ≡ b
      unwrap q = cc

  -- After BanOutboundPeer an address that is not whitelisted is banned outbound exactly until the
  -- ban ends, whatever ban it had, and its inbound ban is as before; the answers for every other
  -- address are as before.
  pub is_banned-ban_outbound :
      (d : L.Db) (now duration : ℕ) (ip : Bytes)
      → now + duration ≤ max_int64
      → L.has d (whitelist_prefix (ip ∷ [])) ≡ ok false
      → (time : ℕ) (inbound outbound : Bool) → is_banned L d time ip ≡ ok (inbound, outbound)
      → (is_banned L (ban_outbound_peer L d now ip duration).1 time ip
          ≡ ok (inbound, ltb time (now + duration)))
        × ((other : Bytes)
            → ip ≢ other
            → is_banned L (ban_outbound_peer L d now ip duration).1 time other
              ≡ is_banned L d time other)
  unfolding ban_outbound_peer ban_outbound_peer_tx
  is_banned-ban_outbound d now duration ip fits listed time i o before = (
    is_banned-at e time ip
        ∙ (λ k.
            answer time (same (whitelist ip) (λ p. cc) k) (same (peer_in_ban ip) (λ p. cc) k)
              (put k))
        ∙ answer-out time (now + duration) _ _ _ i o fits (unlisted d ip listed)
            (sym (is_banned-at d time ip) ∙ before),
    λ other ne.
        answer_kept d e time other (same (whitelist other) (λ p. cc))
          (same (peer_in_ban other) (λ p. cc)) (same (peer_out_ban other) (λ p. ne (cc))),
  )
    where
      e : L.Db
      e = (with_tx L d (L.tx_put (key_bytes (peer_out_ban ip)) (encode_time (now + duration)))).1

      put : at L H e (peer_out_ban ip) ≡ some (encode_time (now + duration))
      put = at-put_self d (peer_out_ban ip) (encode_time (now + duration))

      same : (j : Key) → peer_out_ban ip ≢ j → at L H e j ≡ at L H d j
      same j = at-put_other d (peer_out_ban ip) j (encode_time (now + duration))

  -- After BanInboundPeer the same holds with the directions exchanged.
  pub is_banned-ban_inbound :
      (d : L.Db) (now duration : ℕ) (ip : Bytes)
      → now + duration ≤ max_int64
      → L.has d (whitelist_prefix (ip ∷ [])) ≡ ok false
      → (time : ℕ) (inbound outbound : Bool) → is_banned L d time ip ≡ ok (inbound, outbound)
      → (is_banned L (ban_inbound_peer L d now ip duration).1 time ip
          ≡ ok (ltb time (now + duration), outbound))
        × ((other : Bytes)
            → ip ≢ other
            → is_banned L (ban_inbound_peer L d now ip duration).1 time other
              ≡ is_banned L d time other)
  unfolding ban_inbound_peer ban_inbound_peer_tx
  is_banned-ban_inbound d now duration ip fits listed time i o before = (
    is_banned-at e time ip
        ∙ (λ k.
            answer time (same (whitelist ip) (λ p. cc) k) (put k)
              (same (peer_out_ban ip) (λ p. cc) k))
        ∙ answer-in time (now + duration) _ _ _ i o fits (unlisted d ip listed)
            (sym (is_banned-at d time ip) ∙ before),
    λ other ne.
        answer_kept d e time other (same (whitelist other) (λ p. cc))
          (same (peer_in_ban other) (λ p. ne (cc))) (same (peer_out_ban other) (λ p. cc)),
  )
    where
      e : L.Db
      e = (with_tx L d (L.tx_put (key_bytes (peer_in_ban ip)) (encode_time (now + duration)))).1

      put : at L H e (peer_in_ban ip) ≡ some (encode_time (now + duration))
      put = at-put_self d (peer_in_ban ip) (encode_time (now + duration))

      same : (j : Key) → peer_in_ban ip ≢ j → at L H e j ≡ at L H d j
      same j = at-put_other d (peer_in_ban ip) j (encode_time (now + duration))
