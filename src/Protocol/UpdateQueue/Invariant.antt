-- ===== src/Protocol/UpdateQueue/Invariant.antt =====
-- protocol/update_queue.go: what holds of the queue and its map between calls.
use fnd.Base.{
  ℕ, ◌+◌, ◌≤◌, ◌<◌, ◌≡◌, refl, sym, ap, ◌∙◌, subst, Bool, true, false, Option, none, some, List, [],
  ◌∷◌, ◌++◌, arith, ltb, leb, ◌==◌, ◌&&◌, length, Distinct, Distinct-snoc, length-append,
  Option-cases, inl, inr, Bool-cases, All, Outcome, ok, err, panicked,
}
use fnd.Base.Bytes.{bytes_dec}
use fnd.Base.GoMap.{
  Map, get, put, delete, get-put_at, get-put_ne, get-delete_at, get-delete_ne, All-put, All-delete,
  All-get,
}
use fnd.Blob.Consts.{Hash}
use fnd.Store.Types.{Name, NameInfo}
use fnd.Store.Interface.{Database, DbError}
use fnd.Protocol.PeerSet.{
  PeerSet, member, member-NotIn, NotIn-member, member-nil, member-cons_ne, member-append_at,
  member-append_ne, new_peer_set-IsValid, add-IsValid,
}
use fnd.Protocol.PeerSet
use fnd.Protocol.UpdateQueue.{
  Update, UpdateQueueItem, UpdateQueue, QueueError, new_update_queue, new_item, enqueue_locked,
  enqueue, dequeue, to_delete, delete_all, reap_dequeued_updates, check_update, lock_and_enter,
  enqueue_imported,
}

abbrev pub is_some {ℓ} : {A : Type ℓ} → Option A → Bool
is_some none = false
is_some (some a) = true

-- An entry stands under its own name, and its peers are a valid set.
pub record IsLive (n : Name) (e : UpdateQueueItem) : Type 0 where
  pub named : e.name ≡ n
  pub peers : PeerSet.IsValid bytes_dec e.peer_ids

abbrev pub IsFresh : Name × UpdateQueueItem → Type 0
IsFresh p = p.1.disposed ≡ false

pub record IsValid (u : UpdateQueue) : Type 0 where
  pub counted : u.queue_len ≡ length u.queue
  pub bounded : length u.queue ≤ u.max_len
  pub distinct : Distinct u.queue
  pub listed : (n : Name) → member bytes_dec n u.queue ≡ is_some (get bytes_dec n u.entries)
  pub undisposed : All IsFresh u.entries
  pub live : (n : Name) (e : UpdateQueueItem) → get bytes_dec n u.entries ≡ some e → IsLive n e

new_item-IsLive :
    (peer : Hash) (update : Update) (info : NameInfo)
    → IsLive update.name (new_item peer update info)
unfolding new_item
new_item-IsLive peer update info = record {
  named = refl;
  peers = (new_peer_set-IsValid bytes_dec (peer ∷ [])).0;
}

new_item-fresh :
    (peer : Hash) (update : Update) (info : NameInfo) → (new_item peer update info).disposed ≡ false
unfolding new_item
new_item-fresh peer update info = refl

none-ne-some : {a : UpdateQueueItem} → none ≡ some a → ⊥
none-ne-some e = cc

pub some_inj : {a b : UpdateQueueItem} → some a ≡ some b → a ≡ b
some_inj q = cc

IsLive-put :
    (m : Map Name UpdateQueueItem) (k : Name) (e : UpdateQueueItem)
    → ((n : Name) (e' : UpdateQueueItem) → get bytes_dec n m ≡ some e' → IsLive n e')
    → IsLive k e
    → (n : Name) (e' : UpdateQueueItem) → get bytes_dec n (put bytes_dec k e m) ≡ some e'
    → IsLive n e'
IsLive-put m k e old new n e' g = elim (bytes_dec k n) [
  | yes p ↦
      subst (λ j. IsLive j e') p
        (subst (IsLive k) (some_inj (sym (get-put_at bytes_dec k n e m p) ∙ g)) new)
  | no p ↦ old n e' (sym (get-put_ne bytes_dec k n e m p) ∙ g)
]

module _ (u : UpdateQueue) (v : IsValid u) where
  listed_replace :
      (k : Name) (e old : UpdateQueueItem)
      → get bytes_dec k u.entries ≡ some old
      → (n : Name)
      → member bytes_dec n u.queue ≡ is_some (get bytes_dec n (put bytes_dec k e u.entries))
  listed_replace k e old g n = elim (bytes_dec k n) [
    | yes p ↦
        v.listed n
        ∙ ap is_some (ap (λ j. get bytes_dec j u.entries) (sym p) ∙ g)
        ∙ sym (ap is_some (get-put_at bytes_dec k n e u.entries p))
    | no p ↦ v.listed n ∙ sym (ap is_some (get-put_ne bytes_dec k n e u.entries p))
  ]

  listed_append :
      (k : Name) (e : UpdateQueueItem) (n : Name)
      → member bytes_dec n (u.queue ++ k ∷ [])
        ≡ is_some (get bytes_dec n (put bytes_dec k e u.entries))
  listed_append k e n = elim (bytes_dec k n) [
    | yes p ↦
        member-append_at bytes_dec k n u.queue p
        ∙ sym (ap is_some (get-put_at bytes_dec k n e u.entries p))
    | no p ↦
        member-append_ne bytes_dec k n u.queue p
        ∙ v.listed n
        ∙ sym (ap is_some (get-put_ne bytes_dec k n e u.entries p))
  ]

  replaced-IsValid :
      (k : Name) (e old : UpdateQueueItem)
      → get bytes_dec k u.entries ≡ some old
      → IsLive k e
      → e.disposed ≡ false
      → IsValid (record u { entries = put bytes_dec k e u.entries })
  replaced-IsValid k e old g l fresh = record {
    counted = v.counted;
    bounded = v.bounded;
    distinct = v.distinct;
    listed = listed_replace k e old g;
    undisposed = All-put bytes_dec IsFresh k e u.entries fresh v.undisposed;
    live = IsLive-put u.entries k e v.live l;
  }

  appended-IsValid :
      (k : Name) (e : UpdateQueueItem)
      → get bytes_dec k u.entries ≡ none
      → IsLive k e
      → e.disposed ≡ false
      → u.queue_len < u.max_len
      → IsValid (record u {
        entries = put bytes_dec k e u.entries;
        queue = u.queue ++ k ∷ [];
        queue_len = u.queue_len + 1;
      })
  appended-IsValid k e g l fresh room = record {
    counted = omega (arith, v.counted, length-append u.queue (k ∷ []));
    bounded = omega (arith, v.counted, length-append u.queue (k ∷ []));
    distinct =
        Distinct-snoc u.queue k (member-NotIn bytes_dec k u.queue (v.listed k ∙ ap is_some g))
          v.distinct;
    listed = listed_append k e;
    undisposed = All-put bytes_dec IsFresh k e u.entries fresh v.undisposed;
    live = IsLive-put u.entries k e v.live l;
  }

  joined-IsLive :
      (k : Name) (old : UpdateQueueItem) (peer : Hash)
      → IsLive k old
      → IsLive k (record old { peer_ids = PeerSet.add bytes_dec old.peer_ids peer })
  joined-IsLive k old peer l = record {
    named = l.named;
    peers = (add-IsValid bytes_dec old.peer_ids peer l.peers).0;
  }

  enqueue_locked-IsValid_known :
      (peer : Hash) (update : Update) (info : NameInfo) (old : UpdateQueueItem)
      → get bytes_dec update.name u.entries ≡ some old
      → IsValid (enqueue_locked u peer update info).0
  unfolding enqueue_locked
  enqueue_locked-IsValid_known peer update info old g =
      elim (Bool-cases (ltb old.sector_size update.sector_size)) [
        | inl larger ↦
            rw (g, enqueue_locked)
              (rw larger (
                replaced-IsValid update.name (new_item peer update info) old g
                  (new_item-IsLive peer update info) (new_item-fresh peer update info)))
        | inr smaller ↦ elim (Bool-cases (ltb update.epoch_height old.epoch_height)) [
          | inl e ↦ rw (g, enqueue_locked) (rw (smaller, e) v)
          | inr ne ↦
              elim (Bool-cases (
                (old.epoch_height == update.epoch_height)
                && ltb update.sector_size old.sector_size)) [
                  | inl s ↦ rw (g, enqueue_locked) (rw (smaller, ne, s) v)
                  | inr ns ↦
                      rw (g, enqueue_locked)
                        (rw (smaller, ne, ns)
                          (replaced-IsValid update.name _ old g
                            (joined-IsLive update.name old peer (v.live update.name old g))
                            (All-get bytes_dec IsFresh update.name u.entries g v.undisposed).1))
                ]
        ]
      ]

  enqueue_locked-IsValid :
      (peer : Hash) (update : Update) (info : NameInfo)
      → u.queue_len < u.max_len
      → IsValid (enqueue_locked u peer update info).0
  unfolding enqueue_locked
  enqueue_locked-IsValid peer update info room =
      elim (Option-cases (get bytes_dec update.name u.entries)) [
        | inl g ↦
            rw (g, enqueue_locked)
              (appended-IsValid update.name (new_item peer update info) g
                (new_item-IsLive peer update info) (new_item-fresh peer update info) room)
        | inr (old, g) ↦ enqueue_locked-IsValid_known peer update info old g
      ]

  -- `Dequeue` keeps the invariant.
  pub dequeue-IsValid : IsValid (dequeue u).0
  unfolding dequeue
  dequeue-IsValid = go u.queue refl
    where
      left :
          (name : Name) (rest : List Name)
          → u.queue ≡ name ∷ rest
          → (n : Name)
          → member bytes_dec n rest ≡ is_some (get bytes_dec n (delete bytes_dec name u.entries))
      left name rest e n = elim (bytes_dec name n) [
        | yes p ↦
            subst (λ j. member bytes_dec j rest ≡ false) p
              (NotIn-member bytes_dec name rest (subst Distinct e v.distinct).0)
            ∙ sym (ap is_some (get-delete_at bytes_dec name n u.entries p))
        | no p ↦
            sym (member-cons_ne bytes_dec name n rest p)
            ∙ ap (member bytes_dec n) (sym e)
            ∙ v.listed n
            ∙ sym (ap is_some (get-delete_ne bytes_dec name n u.entries p))
      ]

      kept :
          (name n : Name) (i : UpdateQueueItem)
          → get bytes_dec n (delete bytes_dec name u.entries) ≡ some i
          → IsLive n i
      kept name n i g = elim (bytes_dec name n) [
        | yes p ↦ absurd (none-ne-some (sym (get-delete_at bytes_dec name n u.entries p) ∙ g))
        | no p ↦ v.live n i (sym (get-delete_ne bytes_dec name n u.entries p) ∙ g)
      ]

      go : (q : List Name) → u.queue ≡ q → IsValid (dequeue u).0
      go [] e = rw (e, dequeue) v
      go (name ∷ rest) e =
          rw (e, dequeue)
            (record {
              counted = omega (arith, v.counted, ap length e);
              bounded = omega (arith, v.bounded, ap length e);
              distinct = (subst Distinct e v.distinct).1;
              listed = left name rest e;
              undisposed = All-delete bytes_dec IsFresh name u.entries v.undisposed;
              live = kept name;
            })

to_delete-nil : (m : Map Name UpdateQueueItem) → All IsFresh m → to_delete m ≡ []
unfolding to_delete
to_delete-nil [] a = refl
to_delete-nil ((k, e) ∷ m) a = rw a.0 (to_delete-nil m a.1)

-- Between calls no entry of the map is disposed of, so the reaper finds nothing to remove.
pub reap_nothing : (u : UpdateQueue) → IsValid u → reap_dequeued_updates u ≡ u
unfolding reap_dequeued_updates delete_all
reap_nothing u v = rw (to_delete-nil u.entries v.undisposed) refl

module _ (validate_name : Name → Bool) (d : Database) where
  open d use {Db, get_initial_import_complete}

  entered :
      (u : UpdateQueue) (peer : Hash) (update : Update) (o : Outcome QueueError NameInfo)
      → IsValid u
      → u.queue_len < u.max_len
      → IsValid (lock_and_enter validate_name d u peer update o).after
  entered u peer update (ok info) v room = enqueue_locked-IsValid u v peer update info room
  entered u peer update (err e) v room = v
  entered u peer update panicked v room = v

  imported :
      (db : Db) (send_fails : Bool) (u : UpdateQueue) (peer : Hash) (update : Update)
      (o : Outcome DbError Bool)
      → IsValid u
      → u.queue_len < u.max_len
      → IsValid (enqueue_imported validate_name d db send_fails u peer update o).after
  imported db f u peer update (ok true) v room = elim (Bool-cases (update.sector_size == 0)) [
    | inl z ↦ rw z v
    | inr nz ↦ rw nz (entered u peer update (check_update validate_name d db update) v room)
  ]
  imported db f u peer update (ok false) v room = v
  imported db f u peer update (err e) v room = v
  imported db f u peer update panicked v room = v

  -- `Enqueue` keeps the invariant, on every branch.
  pub enqueue-IsValid :
      (db : Db) (send_fails : Bool) (u : UpdateQueue) (peer : Hash) (update : Update)
      → IsValid u
      → IsValid (enqueue validate_name d db send_fails u peer update).after
  unfolding enqueue
  enqueue-IsValid db f u peer update v = elim (Bool-cases (leb u.max_len u.queue_len)) [
    | inl full ↦ rw full v
    | inr room ↦
        rw room (imported db f u peer update (get_initial_import_complete db) v (ground arith))
  ]

  -- Any sequence of calls: an announced update, a worker's `Dequeue`, a tick of the reaper.
  pub data Call : Type 0 where
    enqueues : Db → Bool → Hash → Update → Call
    dequeues reaps : Call

  unfoldable pub after_call : UpdateQueue → Call → UpdateQueue
  after_call u (enqueues db send_fails peer update) =
      (enqueue validate_name d db send_fails u peer update).after
  after_call u dequeues = (dequeue u).0
  after_call u reaps = reap_dequeued_updates u

  unfoldable pub run : UpdateQueue → List Call → UpdateQueue
  run u [] = u
  run u (c ∷ cs) = run (after_call u c) cs

  after_call-IsValid : (u : UpdateQueue) (c : Call) → IsValid u → IsValid (after_call u c)
  unfolding after_call
  after_call-IsValid u (enqueues db f peer update) v = enqueue-IsValid db f u peer update v
  after_call-IsValid u dequeues v = dequeue-IsValid u v
  after_call-IsValid u reaps v = rw (reap_nothing u v) v

  run_from-IsValid : (u : UpdateQueue) (cs : List Call) → IsValid u → IsValid (run u cs)
  unfolding run
  run_from-IsValid u [] v = v
  run_from-IsValid u (c ∷ cs) v = run_from-IsValid (after_call u c) cs (after_call-IsValid u c v)

  -- After any sequence of calls on a new queue, each made as one step: `queue_len` is the length of
  -- the queue and at most `max_len`, no name is queued twice, the names that are queued are exactly
  -- those with an entry, every entry stands under its own name with a duplicate-free peer set, and
  -- none is disposed of.
  pub run-IsValid : (max_len : ℕ) (cs : List Call) → IsValid (run (new_update_queue max_len) cs)
  unfolding new_update_queue get
  run-IsValid max_len cs = run_from-IsValid (new_update_queue max_len) cs fresh
    where
      fresh : IsValid (new_update_queue max_len)
      fresh = record {
        counted = refl;
        bounded = omega arith;
        distinct = tt;
        listed = λ n. member-nil bytes_dec n;
        undisposed = tt;
        live = λ n e g. absurd (none-ne-some g);
      }
