-- ===== src/P2p/Muxer/Invariant.antt =====
-- p2p/peer_muxer.go: the counts are the numbers of connected peers, through every sequence of
-- calls.
use fnd.Base.{
  ◌+◌, ◌-◌, ◌≡◌, ◌≢◌, refl, sym, ap, ◌∙◌, subst, none, some, List, [], ◌∷◌, ◌++◌, arith, NotIn,
  NotIn-append, Distinct, Distinct-snoc, false, Outcome, ok, err, panicked, ℕ_discrete,
}
use fnd.Base.Bytes.{Bytes, bytes_dec}
use fnd.Base.GoMap.{Map, get, put, delete, get-put_at, get-put_ne, get-delete_at, get-delete_ne}
use fnd.Blob.Consts.{Hash}
use fnd.P2p.Muxer.{
  Ref, Direction, inbound, outbound, PeerObjects, MuxError, PeerMuxer, Event, or_nil, inbound_at,
  is_some, peer_ids, has_peer_id, remove_ref, remove_inbound_peer_by_ip, remove_from, forget,
  unfile, handle_peer_close, file, enter, new_peer_muxer,
}
use fnd.P2p.Muxer.Removal.{remove_ref-once, remove_ref-absent}
use fnd.P2p.Muxer.Tally.{
  tally, tally-put_new, tally-delete, same_direction, one_if, Distinct-put_new, Distinct-delete,
}

-- A list either does not hold a peer, or holds it once between the others.
data Place (p : Ref) : List Ref → Type 0 where
  nowhere : {l : List Ref} → NotIn p l → Place p l
  between : (front rest : List Ref) → NotIn p front → NotIn p rest → Place p (front ++ (p ∷ rest))

Place-cons : (p x : Ref) (l : List Ref) → x ≢ p → Place p l → Place p (x ∷ l)
Place-cons p x l h (nowhere a) = nowhere (h, a)
Place-cons p x l h (between front rest a b) = between (x ∷ front) rest (h, a) b

Place-any : (p : Ref) (l : List Ref) → Distinct l → Place p l
Place-any p [] d = nowhere tt
Place-any p (x ∷ l) d = elim (ℕ_discrete x p) [
  | yes e ↦ subst (λ y. Place p (y ∷ l)) (sym e) (between [] l tt (subst (λ y. NotIn y l) e d.0))
  | no n ↦ Place-cons p x l n (Place-any p l d.1)
]

NotIn-without :
    (x p : Ref) (front rest : List Ref) → NotIn x (front ++ (p ∷ rest)) → NotIn x (front ++ rest)
NotIn-without x p [] rest a = a.1
NotIn-without x p (y ∷ front) rest a = (a.0, NotIn-without x p front rest a.1)

Distinct-without :
    (p : Ref) (front rest : List Ref) → Distinct (front ++ (p ∷ rest)) → Distinct (front ++ rest)
Distinct-without p [] rest d = d.1
Distinct-without p (y ∷ front) rest d =
    (NotIn-without y p front rest d.0, Distinct-without p front rest d.1)

-- What removing a peer from a list of distinct peers answers.
record Removes (p : Ref) (l l' : List Ref) : Type 0 where
  runs : remove_ref p l ≡ ok l'
  distinct : Distinct l'
  smaller : (x : Ref) → NotIn x l → NotIn x l'

removes_at : (p : Ref) (l : List Ref) → Distinct l → Place p l → (l' : List Ref) × Removes p l l'
removes_at p l d (nowhere a) =
    (l, record { runs = remove_ref-absent p l a; distinct = d; smaller = λ x b. b })
removes_at p l d (between front rest a b) = (
  front ++ rest,
  record {
    runs = remove_ref-once front p rest a b;
    distinct = Distinct-without p front rest d;
    smaller = λ x c. NotIn-without x p front rest c;
  },
)

removes : (p : Ref) (l : List Ref) → Distinct l → (l' : List Ref) × Removes p l l'
removes p l d = removes_at p l d (Place-any p l d)

-- A peer that no address list holds.
abbrev pub IsFresh : Ref → PeerMuxer → Type 0
IsFresh r mux = (ip : Bytes) → NotIn r (inbound_at ip mux)

module _ (P : PeerObjects) where
  -- The ids are distinct, the counts are the numbers of peers of each direction, and no address
  -- list holds a peer twice.
  pub record IsValid (mux : PeerMuxer) : Type 0 where
    pub unique : Distinct (peer_ids mux.peers)
    pub inbound_counted : mux.inbound_count ≡ tally P inbound mux.peers
    pub outbound_counted : mux.outbound_count ≡ tally P outbound mux.peers
    pub once : (ip : Bytes) → Distinct (inbound_at ip mux)

  pub new_peer_muxer-IsValid : IsValid new_peer_muxer
  unfolding new_peer_muxer get tally peer_ids
  new_peer_muxer-IsValid = record {
    unique = tt;
    inbound_counted = refl;
    outbound_counted = refl;
    once = λ ip. tt;
  }

  listed :
      (ip : Bytes) (l : List Ref) (m : Map Bytes (List Ref)) (Q : List Ref → Type 0)
      → Q l
      → ((j : Bytes) → Q (or_nil (get bytes_dec j m)))
      → (j : Bytes) → Q (or_nil (get bytes_dec j (put bytes_dec ip l m)))
  listed ip l m Q q all j = elim (bytes_dec ip j) [
    | yes p ↦ rw (get-put_at bytes_dec ip j l m p) q
    | no n ↦ rw (get-put_ne bytes_dec ip j l m n) (all j)
  ]

  pub file-IsValid :
      (d : Direction) (id : Hash) (r : Ref) (mux : PeerMuxer)
      → P.direction r ≡ d
      → get bytes_dec id mux.peers ≡ none
      → IsFresh r mux
      → IsValid mux
      → IsValid (enter P id r (file P d r mux))
  file-IsValid inbound id r mux e g f v = record {
    unique = Distinct-put_new id r mux.peers g v.unique;
    inbound_counted =
        rw (tally-put_new P inbound id r mux.peers g) (rw e (omega (arith, v.inbound_counted)));
    outbound_counted =
        rw (tally-put_new P outbound id r mux.peers g) (rw e (omega (arith, v.outbound_counted)));
    once =
        listed (P.remote_ip r) (inbound_at (P.remote_ip r) mux ++ (r ∷ [])) mux.inbound_peers_by_ip
          Distinct
          (Distinct-snoc (inbound_at (P.remote_ip r) mux) r (f (P.remote_ip r))
            (v.once (P.remote_ip r)))
          v.once;
  }
  file-IsValid outbound id r mux e g f v = record {
    unique = Distinct-put_new id r mux.peers g v.unique;
    inbound_counted =
        rw (tally-put_new P inbound id r mux.peers g) (rw e (omega (arith, v.inbound_counted)));
    outbound_counted =
        rw (tally-put_new P outbound id r mux.peers g) (rw e (omega (arith, v.outbound_counted)));
    once = v.once;
  }

  pub file-IsFresh :
      (d : Direction) (id : Hash) (r x : Ref) (mux : PeerMuxer)
      → r ≢ x
      → IsFresh x mux
      → IsFresh x (enter P id r (file P d r mux))
  file-IsFresh inbound id r x mux n f =
      listed (P.remote_ip r) (inbound_at (P.remote_ip r) mux ++ (r ∷ [])) mux.inbound_peers_by_ip
        (NotIn x)
        (NotIn-append x (inbound_at (P.remote_ip r) mux) (r ∷ []) (f (P.remote_ip r)) (n, tt)) f
  file-IsFresh outbound id r x mux n f = f

  -- What a call leaves: a valid muxer; a panic or an error is none.
  abbrev pub Leaves : Outcome MuxError (PeerMuxer × List Event) → (PeerMuxer → Type 0) → Type 0
  Leaves (ok (mux, events)) Q = Q mux
  Leaves (err e) Q = ⊥
  Leaves panicked Q = ⊥

  -- A muxer without one peer: the others are connected as before, no list has gained a peer.
  pub record Closed (id : Hash) (old mux : PeerMuxer) : Type 0 where
    pub valid : IsValid mux
    pub gone : has_peer_id id mux ≡ false
    pub others : (j : Hash) → id ≢ j → get bytes_dec j mux.peers ≡ get bytes_dec j old.peers
    pub fresh : (x : Ref) → IsFresh x old → IsFresh x mux

  gone_after :
      (id : Hash) (m : Map Hash Ref) → is_some (get bytes_dec id (delete bytes_dec id m)) ≡ false
  gone_after id m = rw (get-delete_at bytes_dec id id m refl) refl

  close_outbound :
      (id : Hash) (r : Ref) (mux : PeerMuxer)
      → P.direction r ≡ outbound
      → get bytes_dec id mux.peers ≡ some r
      → IsValid mux
      → Leaves (forget P id (unfile P outbound r mux)) (Closed id mux)
  unfolding has_peer_id
  close_outbound id r mux e g v = record {
    valid = record {
      unique = Distinct-delete id mux.peers v.unique;
      inbound_counted = omega (arith, v.inbound_counted, fewer inbound);
      outbound_counted = omega (arith, v.outbound_counted, fewer outbound);
      once = v.once;
    };
    gone = gone_after id mux.peers;
    others = λ j n. get-delete_ne bytes_dec id j mux.peers n;
    fresh = λ x f. f;
  }
    where
      fewer :
          (d : Direction)
          → tally P d mux.peers
            ≡ tally P d (delete bytes_dec id mux.peers) + one_if (same_direction outbound d)
      fewer d =
          tally-delete P d id r mux.peers g v.unique
          ∙ ap (λ x. tally P d (delete bytes_dec id mux.peers) + one_if (same_direction x d)) e

  close_inbound :
      (id : Hash) (r : Ref) (mux : PeerMuxer) (lists : Map Bytes (List Ref))
      → P.direction r ≡ inbound
      → get bytes_dec id mux.peers ≡ some r
      → IsValid mux
      → ((ip : Bytes) → Distinct (or_nil (get bytes_dec ip lists)))
      → ((x : Ref) → IsFresh x mux → (ip : Bytes) → NotIn x (or_nil (get bytes_dec ip lists)))
      → Closed id mux (record mux {
        inbound_count = mux.inbound_count - 1;
        inbound_peers_by_ip = lists;
        peers = delete bytes_dec id mux.peers;
      })
  unfolding has_peer_id
  close_inbound id r mux lists e g v once' fresh' = record {
    valid = record {
      unique = Distinct-delete id mux.peers v.unique;
      inbound_counted = omega (arith, v.inbound_counted, fewer inbound);
      outbound_counted = omega (arith, v.outbound_counted, fewer outbound);
      once = once';
    };
    gone = gone_after id mux.peers;
    others = λ j n. get-delete_ne bytes_dec id j mux.peers n;
    fresh = fresh';
  }
    where
      fewer :
          (d : Direction)
          → tally P d mux.peers
            ≡ tally P d (delete bytes_dec id mux.peers) + one_if (same_direction inbound d)
      fewer d =
          tally-delete P d id r mux.peers g v.unique
          ∙ ap (λ x. tally P d (delete bytes_dec id mux.peers) + one_if (same_direction x d)) e

  close_listed :
      (id : Hash) (r : Ref) (mux : PeerMuxer) (l : List Ref)
      → inbound_at (P.remote_ip r) mux ≡ l
      → P.direction r ≡ inbound
      → get bytes_dec id mux.peers ≡ some r
      → IsValid mux
      → Leaves
          (forget P id (
            remove_from P r
              (P.remote_ip r)
              l
              (record mux { inbound_count = mux.inbound_count - 1 })))
          (Closed id mux)
  close_listed id r mux [] q e g v =
      close_inbound id r mux mux.inbound_peers_by_ip e g v v.once (λ x f. f)
  close_listed id r mux (y ∷ l) q e g v =
      let (l', s) = removes r (inbound_at (P.remote_ip r) mux) (v.once (P.remote_ip r)) in
      rw (ap (remove_ref r) (sym q) ∙ s.runs) (
        close_inbound id r mux (put bytes_dec (P.remote_ip r) l' mux.inbound_peers_by_ip) e g v
          (listed (P.remote_ip r) l' mux.inbound_peers_by_ip Distinct s.distinct v.once)
          (λ x f.
            listed (P.remote_ip r) l' mux.inbound_peers_by_ip (NotIn x)
              (s.smaller x (f (P.remote_ip r))) f))

  close_filed :
      (id : Hash) (r : Ref) (mux : PeerMuxer) (d : Direction)
      → P.direction r ≡ d
      → get bytes_dec id mux.peers ≡ some r
      → IsValid mux
      → Leaves (forget P id (unfile P d r mux)) (Closed id mux)
  unfolding remove_inbound_peer_by_ip
  close_filed id r mux inbound e g v = close_listed id r mux _ refl e g v
  close_filed id r mux outbound e g v = close_outbound id r mux e g v

  -- Closing a connected peer of a valid muxer does not fail: afterwards its id is gone, every other
  -- peer is connected as before, the counts are again the numbers of peers of each direction, and
  -- no address list has gained a peer.
  pub handle_peer_close-Closed :
      (id : Hash) (r : Ref) (mux : PeerMuxer)
      → get bytes_dec id mux.peers ≡ some r
      → IsValid mux
      → Leaves (handle_peer_close P id mux) (Closed id mux)
  unfolding handle_peer_close
  handle_peer_close-Closed id r mux g v = rw g (close_filed id r mux (P.direction r) refl g v)
