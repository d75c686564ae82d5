-- ===== src/P2p/Muxer/Runs.antt =====
-- p2p/peer_muxer.go: sequences of AddPeer and ClosePeer.
use fnd.Base.{
  ◌≡◌, ◌≢◌, refl, sym, none, some, List, [], ◌∷◌, NotIn, Distinct, All, Option-cases, inl, inr,
  Outcome, ok, err, panicked, ◌⊎◌,
}
use fnd.Base.Bytes.{bytes_dec}
use fnd.Base.GoMap.{get}
use fnd.Blob.Consts.{Hash}
use fnd.P2p.Muxer.{
  Ref, inbound, outbound, PeerObjects, MuxError, PeerMuxer, Event, handle_peer_close, file, enter,
  handle_peer_open, new_peer_muxer, peer_count, peer_ids,
}
use fnd.P2p.Muxer.Tally.{tally}
use fnd.P2p.Muxer.Invariant.{
  IsFresh, IsValid, Closed, Leaves, new_peer_muxer-IsValid, file-IsValid, file-IsFresh,
  handle_peer_close-Closed,
}

module _ (P : PeerObjects) where
  -- Calls of AddPeer and of ClosePeer, one after another; an id that is connected is refused.
  pub data Call : Type 0 where
    opens : Hash → Ref → Call
    closes : Hash → Call

  abbrev pub after :
      PeerMuxer → Outcome MuxError (PeerMuxer × List Event) → Outcome MuxError PeerMuxer
  after mux (ok (mux', events)) = ok mux'
  after mux (err e) = ok mux
  after mux panicked = panicked

  pub call : PeerMuxer → Call → Outcome MuxError PeerMuxer
  call mux (opens id r) = after mux (handle_peer_open P id r mux)
  call mux (closes id) = after mux (handle_peer_close P id mux)

  abbrev then_run :
      Outcome MuxError PeerMuxer
      → (PeerMuxer → Outcome MuxError PeerMuxer)
      → Outcome MuxError PeerMuxer
  then_run (ok mux) f = f mux
  then_run (err e) f = err e
  then_run panicked f = panicked

  pub run : PeerMuxer → List Call → Outcome MuxError PeerMuxer
  run mux [] = ok mux
  run mux (c ∷ cs) = then_run (call mux c) (λ mux'. run mux' cs)

  -- The peer objects that the calls add.
  abbrev pub added : List Call → List Ref
  added [] = []
  added (opens id r ∷ cs) = r ∷ added cs
  added (closes id ∷ cs) = added cs

  open_step :
      (mux : PeerMuxer) (id : Hash) (r : Ref)
      → IsValid P mux
      → IsFresh r mux
      → (get bytes_dec id mux.peers ≡ none) ⊎ ((s : Ref) × (get bytes_dec id mux.peers ≡ some s))
      → (mux' : PeerMuxer) × (call mux (opens id r) ≡ ok mux')
        × IsValid P mux'
        × ((x : Ref) → r ≢ x → IsFresh x mux → IsFresh x mux')
  unfolding call handle_peer_open
  open_step mux id r v f (inl g) = (
    enter P id r (file P (P.direction r) r mux),
    rw g refl,
    file-IsValid P (P.direction r) id r mux refl g f v,
    λ x n h. file-IsFresh P (P.direction r) id r x mux n h,
  )
  open_step mux id r v f (inr (s, g)) = (mux, rw g refl, v, λ x n h. h)

  leave :
      (mux : PeerMuxer) (id : Hash) (o : Outcome MuxError (PeerMuxer × List Event))
      → Leaves P o (Closed P id mux)
      → (mux' : PeerMuxer) × (after mux o ≡ ok mux') × Closed P id mux mux'
  leave mux id (ok (mux', events)) h = (mux', refl, h)
  leave mux id (err e) h = absurd h
  leave mux id panicked h = absurd h

  close_step :
      (mux : PeerMuxer) (id : Hash)
      → IsValid P mux
      → (get bytes_dec id mux.peers ≡ none) ⊎ ((s : Ref) × (get bytes_dec id mux.peers ≡ some s))
      → (mux' : PeerMuxer) × (call mux (closes id) ≡ ok mux')
        × IsValid P mux'
        × ((x : Ref) → IsFresh x mux → IsFresh x mux')
  unfolding call
  close_step mux id v (inl g) = (mux, unfold handle_peer_close in rw g refl, v, λ x h. h)
  close_step mux id v (inr (s, g)) =
      let (mux', e, c) =
        leave mux id (handle_peer_close P id mux) (handle_peer_close-Closed P id s mux g v) in
      (mux', e, c.valid, c.fresh)

  All-IsFresh_but :
      (r : Ref) (mux mux' : PeerMuxer) (rs : List Ref)
      → ((x : Ref) → r ≢ x → IsFresh x mux → IsFresh x mux')
      → NotIn r rs
      → All (λ x. IsFresh x mux) rs
      → All (λ x. IsFresh x mux') rs
  All-IsFresh_but r mux mux' [] h n a = tt
  All-IsFresh_but r mux mux' (x ∷ rs) h n a =
      (h x (λ e. n.0 (sym e)) a.0, All-IsFresh_but r mux mux' rs h n.1 a.1)

  All-IsFresh_kept :
      (mux mux' : PeerMuxer) (rs : List Ref)
      → ((x : Ref) → IsFresh x mux → IsFresh x mux')
      → All (λ x. IsFresh x mux) rs
      → All (λ x. IsFresh x mux') rs
  All-IsFresh_kept mux mux' [] h a = tt
  All-IsFresh_kept mux mux' (x ∷ rs) h a = (h x a.0, All-IsFresh_kept mux mux' rs h a.1)

  run_from :
      (cs : List Call) (mux : PeerMuxer)
      → IsValid P mux
      → Distinct (added cs)
      → All (λ r. IsFresh r mux) (added cs)
      → (mux' : PeerMuxer) × (run mux cs ≡ ok mux') × IsValid P mux'
  unfolding run
  run_from [] mux v d a = (mux, refl, v)
  run_from (opens id r ∷ cs) mux v d a =
      let (mux', e, v', keep) =
        open_step mux id r v a.0 (Option-cases (get bytes_dec id mux.peers)) in
      let (last, q, w) =
        run_from cs mux' v' d.1 (All-IsFresh_but r mux mux' (added cs) keep d.0 a.1) in
      (last, rw e q, w)
  run_from (closes id ∷ cs) mux v d a =
      let (mux', e, v', keep) = close_step mux id v (Option-cases (get bytes_dec id mux.peers)) in
      let (last, q, w) = run_from cs mux' v' d (All-IsFresh_kept mux mux' (added cs) keep a) in
      (last, rw e q, w)

  new-IsFresh : (rs : List Ref) → All (λ r. IsFresh r new_peer_muxer) rs
  unfolding new_peer_muxer get
  new-IsFresh [] = tt
  new-IsFresh (r ∷ rs) = ((λ ip. tt), new-IsFresh rs)

  -- Whatever peers are added and closed, in any order and under any ids, if no peer object is added
  -- twice: no call panics, PeerCount answers the numbers of inbound and of outbound peers in the
  -- map of peers, and the ids in it are distinct.
  pub run-counts :
      (cs : List Call)
      → Distinct (added cs)
      → (mux : PeerMuxer) × (run new_peer_muxer cs ≡ ok mux)
        × (peer_count mux ≡ (tally P inbound mux.peers, tally P outbound mux.peers))
        × Distinct (peer_ids mux.peers)
  unfolding peer_count
  run-counts cs d =
      let (mux, e, v) =
        run_from cs new_peer_muxer (new_peer_muxer-IsValid P) d (new-IsFresh (added cs)) in
      (mux, e, (λ i. (v.inbound_counted i, v.outbound_counted i)), v.unique)
