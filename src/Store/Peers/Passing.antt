-- ===== src/Store/Peers/Passing.antt =====
-- store/peers.go: what a stream of peers passes.
use fnd.Base.{
  ◌∙◌, ◌<◌, ◌⊎◌, Bool, ltb→lt, arith, ap, sym, subst, All, ℕ, ◌≡◌, refl, Option, none, some, true,
  false, List, [], ◌∷◌, ◌++◌, Outcome, ok, err, panicked, Bool-cases, inl, inr,
}
use fnd.Base.Bytes.{Bytes}
use fnd.Store.Types.{Peer, Time}
use fnd.Store.Keys.{peer_in_ban_prefix, peer_out_ban_prefix, whitelist_prefix}
use fnd.Store.Ints.{must_decode_time}
use fnd.Store.Interface.{DbError, not_found, failed}
use fnd.Store.Json.{JsonText}
use fnd.Store.Leveldb.{Leveldb}
use fnd.Store.Peers.{
  filled, fill_in, fill_read, with_bans, nil_if_missing, after, next_or, next_peer, peer_is_banned,
  read_peer,
}

module _ (L : Leveldb) (J : JsonText) (now : ℕ) (db : L.Db) where
  -- A time after now.
  abbrev pub IsAhead : Time → Type 0
  IsAhead t = (u : ℕ) × (t ≡ some u) × (now < u)

  -- A time that is stored under a key, the zero time where there is none.
  abbrev pub HoldsTime : Bytes → Time → Type 0
  HoldsTime k t =
      ((L.get db k ≡ err not_found) × (must_decode_time none ≡ ok t))
      ⊎ ((b : Bytes) × (L.get db k ≡ ok b) × (must_decode_time (some b) ≡ ok t))

  -- A peer that is read from a stored value, with the bans and the whitelisting that are stored for
  -- its address.
  pub record IsFilled (b : Bytes) (q : Peer) : Type 0 where
    pub stored : Peer
    pub reads : read_peer J b ≡ ok stored
    pub same :
        (q.id ≡ stored.id)
        × (q.ip ≡ stored.ip)
        × (q.last_seen ≡ stored.last_seen)
        × (q.verify ≡ stored.verify)
    pub inbound : HoldsTime (peer_in_ban_prefix (q.ip ∷ [])) q.inbound_banned_until
    pub outbound : HoldsTime (peer_out_ban_prefix (q.ip ∷ [])) q.outbound_banned_until
    pub listed : L.has db (whitelist_prefix (q.ip ∷ [])) ≡ ok q.whitelisted

  -- A stored value whose peer is not whitelisted, and is banned in one of the directions.
  abbrev pub IsBanned : Bytes → Type 0
  IsBanned b =
      (q : Peer) × IsFilled b q
      × (q.whitelisted ≡ false)
      × (IsAhead q.inbound_banned_until ⊎ IsAhead q.outbound_banned_until)

  -- A peer that is whitelisted, or banned in neither direction.
  abbrev pub IsFree : Peer → Type 0
  IsFree q =
      (q.whitelisted ≡ true)
      ⊎ (¬ (IsAhead q.inbound_banned_until) × ¬ (IsAhead q.outbound_banned_until))

  -- What a call of Next passes over, and what it passes.
  abbrev pub Passes : List Bytes → Option Peer → List Bytes → Type 0
  Passes vs none rest = All IsBanned vs × (rest ≡ [])
  Passes vs (some p) rest =
      (skipped : List Bytes) × (b : Bytes) × (vs ≡ skipped ++ (b ∷ rest))
      × All IsBanned skipped
      × IsFilled b p
      × IsFree p

  after-IsAhead : (t : Time) → after t now ≡ true → IsAhead t
  after-IsAhead none e = cc
  after-IsAhead (some u) e = (u, refl, ltb→lt now u e)

  after-not : (t : Time) → after t now ≡ false → ¬ (IsAhead t)
  after-not none e (u, q, h) = cc
  after-not (some u) e (v, q, h) = ground arith

  holds_time :
      (k : Bytes) (o : Option Bytes) (t : Time)
      → nil_if_missing (L.get db k) ≡ ok o
      → must_decode_time o ≡ ok t
      → HoldsTime k t
  holds_time k o t e d = from (L.get db k) refl e
    where
      ok_eq : {x y : Option Bytes} → ◌≡◌ {A = Outcome DbError (Option Bytes)} (ok x) (ok y) → y ≡ x
      ok_eq q = cc

      from : (r : Outcome DbError Bytes) → L.get db k ≡ r → nil_if_missing r ≡ ok o → HoldsTime k t
      from (ok b) p q = inr (b, p, ap must_decode_time (sym (ok_eq q)) ∙ d)
      from (err not_found) p q = inl (p, ap must_decode_time (sym (ok_eq q)) ∙ d)
      from (err failed) p q = absurd cc
      from panicked p q = absurd cc

  peer_eq : {x y : Peer} → ◌≡◌ {A = Outcome DbError Peer} (ok x) (ok y) → x ≡ y
  peer_eq q = cc

  with_bans-IsFilled :
      (b : Bytes) (p q : Peer) (i o : Option Bytes) (s t : Outcome DbError Time) (l : Bool)
      → read_peer J b ≡ ok p
      → nil_if_missing (L.get db (peer_in_ban_prefix (p.ip ∷ []))) ≡ ok i
      → nil_if_missing (L.get db (peer_out_ban_prefix (p.ip ∷ []))) ≡ ok o
      → L.has db (whitelist_prefix (p.ip ∷ [])) ≡ ok l
      → must_decode_time i ≡ s
      → must_decode_time o ≡ t
      → with_bans p s t l ≡ ok q
      → IsFilled b q
  with_bans-IsFilled b p q i o (ok s) (ok t) l r hi ho hl di do_ e =
      subst (IsFilled b) (peer_eq e) (record {
        stored = p;
        reads = r;
        same = (refl, refl, refl, refl);
        inbound = holds_time _ i s hi di;
        outbound = holds_time _ o t ho do_;
        listed = hl;
      })
  with_bans-IsFilled b p q i o (ok s) (err f) l r hi ho hl di do_ e = cc
  with_bans-IsFilled b p q i o (ok s) panicked l r hi ho hl di do_ e = cc
  with_bans-IsFilled b p q i o (err f) t l r hi ho hl di do_ e = cc
  with_bans-IsFilled b p q i o panicked t l r hi ho hl di do_ e = cc

  fill_in-IsFilled :
      (b : Bytes) (p q : Peer) (x y : Outcome DbError (Option Bytes)) (l : Outcome DbError Bool)
      → read_peer J b ≡ ok p
      → nil_if_missing (L.get db (peer_in_ban_prefix (p.ip ∷ []))) ≡ x
      → nil_if_missing (L.get db (peer_out_ban_prefix (p.ip ∷ []))) ≡ y
      → L.has db (whitelist_prefix (p.ip ∷ [])) ≡ l
      → fill_in x y l p ≡ ok q
      → IsFilled b q
  fill_in-IsFilled b p q (ok i) (ok o) (ok l) r hx hy hl e =
      with_bans-IsFilled b p q i o (must_decode_time i) (must_decode_time o) l r hx hy hl refl refl
        e
  fill_in-IsFilled b p q (ok i) (ok o) (err f) r hx hy hl e = cc
  fill_in-IsFilled b p q (ok i) (ok o) panicked r hx hy hl e = cc
  fill_in-IsFilled b p q (ok i) (err f) l r hx hy hl e = cc
  fill_in-IsFilled b p q (ok i) panicked l r hx hy hl e = cc
  fill_in-IsFilled b p q (err f) y l r hx hy hl e = cc
  fill_in-IsFilled b p q panicked y l r hx hy hl e = cc

  fill_read-IsFilled :
      (b : Bytes) (q : Peer) (r : Outcome DbError Peer)
      → read_peer J b ≡ r
      → fill_read L J db r ≡ ok q
      → IsFilled b q
  fill_read-IsFilled b q (ok p) r e = fill_in-IsFilled b p q _ _ _ r refl refl refl e
  fill_read-IsFilled b q (err f) r e = cc
  fill_read-IsFilled b q panicked r e = cc

  filled-IsFilled : (b : Bytes) (q : Peer) → filled L J db b ≡ ok q → IsFilled b q
  unfolding filled
  filled-IsFilled b q e = fill_read-IsFilled b q (read_peer J b) refl e

  peer_is_banned-IsAhead :
      (q : Peer)
      → peer_is_banned q now ≡ true
      → (q.whitelisted ≡ false) × (IsAhead q.inbound_banned_until ⊎ IsAhead q.outbound_banned_until)
  unfolding peer_is_banned
  peer_is_banned-IsAhead q e =
      ground (arith, after-IsAhead q.inbound_banned_until, after-IsAhead q.outbound_banned_until)

  peer_is_banned-IsFree : (q : Peer) → peer_is_banned q now ≡ false → IsFree q
  unfolding peer_is_banned
  peer_is_banned-IsFree q e =
      ground (arith, after-not q.inbound_banned_until, after-not q.outbound_banned_until)

  skip_one :
      (b : Bytes) (vs : List Bytes) (o : Option Peer) (rest : List Bytes)
      → IsBanned b
      → Passes vs o rest
      → Passes (b ∷ vs) o rest
  skip_one b vs none rest h (all, e) = ((h, all), e)
  skip_one b vs (some p) rest h (skipped, c, e, all, f, n) =
      (b ∷ skipped, c, ap (◌∷◌ b) e, (h, all), f, n)

  ok_pair :
      {o o' : Option Peer} {r r' : List Bytes}
      → ◌≡◌ {A = Outcome DbError (Option Peer × List Bytes)} (ok (o, r)) (ok (o', r'))
      → (o ≡ o') × (r ≡ r')
  ok_pair e = ((cc), cc)

  round-Passes :
      (b : Bytes) (vs : List Bytes) (f : Outcome DbError Peer) (o : Option Peer) (rest : List Bytes)
      → filled L J db b ≡ f
      → ((o' : Option Peer) (rest' : List Bytes)
          → next_peer L J false now db vs ≡ ok (o', rest')
          → Passes vs o' rest')
      → next_or L J false now f vs (next_peer L J false now db vs) ≡ ok (o, rest)
      → Passes (b ∷ vs) o rest
  round-Passes b vs (ok p) o rest f ih e = elim (Bool-cases (peer_is_banned p now)) [
    | inl y ↦
        let (w, a) = peer_is_banned-IsAhead p y in
        skip_one b vs o rest (p, filled-IsFilled b p f, w, a) (ih o rest (rw y at e))
    | inr n ↦
        let (q, r) = ok_pair (rw n at e) in
        subst (λ x. Passes (b ∷ vs) x rest) q
          ([], b, ap (◌∷◌ b) r, tt, filled-IsFilled b p f, peer_is_banned-IsFree p n)
  ]
  round-Passes b vs (err x) o rest f ih e = absurd (impossible e)
    where
      impossible : ◌≡◌ {A = Outcome DbError (Option Peer × List Bytes)} (err x) (ok (o, rest)) → ⊥
      impossible q = cc
  round-Passes b vs panicked o rest f ih e = absurd (impossible e)
    where
      impossible : ◌≡◌ {A = Outcome DbError (Option Peer × List Bytes)} panicked (ok (o, rest)) → ⊥
      impossible q = cc

  -- A stream that leaves banned peers out passes the first stored peer that is whitelisted or has
  -- no ban after now, inbound or outbound. The peer is as stored, with the bans and the
  -- whitelisting that the store has for its address. What it passes over are peers that are not
  -- whitelisted and have a ban after now; at its end all that were left are such.
  pub next_peer-Passes :
      (vs : List Bytes) (o : Option Peer) (rest : List Bytes)
      → next_peer L J false now db vs ≡ ok (o, rest)
      → Passes vs o rest
  unfolding next_peer
  next_peer-Passes [] o rest e =
      let (q, r) = ok_pair e in subst (λ x. Passes [] x rest) q (tt, sym r)
  next_peer-Passes (b ∷ vs) o rest e =
      round-Passes b vs (filled L J db b) o rest refl (next_peer-Passes vs) e
