-- ===== src/Protocol/Updater/Body.antt =====
-- protocol/updater.go: what `UpdateBlob` leaves behind.
use fnd.Base.{
  Bool, ◌⊎◌, sym, ap, ◌∙◌, subst, ℕ, ◌≤◌, ◌≡◌, ◌≢◌, inl, inr, refl, true, false, Option, none, some,
  arith, ok, err, panicked, Outcome, holds_yes, holds_no, Bool-cases,
}
use fnd.Base.Bytes.{bytes_dec}
use fnd.Blob.Hash.{SectorHashes, tip}
use fnd.Store.Types.{Header, Time}
use fnd.Store.Interface.{DbError}
use fnd.Protocol.UpdateQueue.{UpdateQueueItem}
use fnd.Protocol.Updater.{
  UpdaterError, sync_failed, Plan, Answers, SyncUpdate, Updated, committed, rolled_back, broken,
  plan_update, undo, kept, end_store, new_header, update_blob, with_plan, next_u16, run_plan,
  compare_tips, store_header,
}

none-ne-some : {x : Header × SectorHashes} → none ≡ some x → ⊥
none-ne-some e = cc

-- A call that got as far as to store a header: it holds the lock, and the synced tip is the tip of
-- the rehashed blob.
pub record Matched (a : Answers) (meta : SyncUpdate) (t : SectorHashes) : Type 0 where
  pub locked : a.locked ≡ true
  pub in_order : (a.opens ≡ true) × (a.begins ≡ true) × (a.seeks ≡ true)
  pub no_error : a.synced.1 ≡ false
  pub synced : a.synced.0 ≡ some meta
  pub hashed : a.tree ≡ ok t
  pub same_tip : meta.sector_tip_hash ≡ tip t

-- What a call did that left a header in the store, and how it went on.
pub record Stored (item : UpdateQueueItem) (a : Answers) (u : Updated) (h : Header)
    (t : SectorHashes) : Type 0 where
  pub meta : SyncUpdate
  pub matched : Matched a meta t
  pub names : h.name ≡ item.name
  pub epoch : h.epoch_height ≡ item.epoch_height
  pub size : h.sector_size ≡ item.sector_size
  pub tip_hash : h.sector_tip_hash ≡ tip t
  pub signed : (h.signature ≡ meta.signature) × (h.reserved_root ≡ meta.reserved_root)
  pub ends :
      ((a.stored ≡ ok tt) × (a.commits ≡ true) × (u.tx ≡ committed))
      ⊎ (((a.stored ≡ ok tt) × (a.commits ≡ false) × (u.tx ≡ broken) × (u.error ≡ panicked))
          ⊎ ((e : DbError) × (a.stored ≡ err e) × (u.tx ≢ committed) × (u.error ≢ ok tt)))

-- What a call did that committed the blob.
pub record Committed (a : Answers) (u : Updated) : Type 0 where
  pub meta : SyncUpdate
  pub tree : SectorHashes
  pub matched : Matched a meta tree
  pub stored : a.stored ≡ ok tt
  pub header :
      ((a.persists ≡ false) × (u.header ≡ none))
      ⊎ ((h : Header) × (u.header ≡ some (h, tree)) × (h.sector_tip_hash ≡ tip tree))

-- A property of the calls that end in `store_header` after a match; every other call leaves no
-- header and does not commit.
abbrev IsIdle : Updated → Type 0
IsIdle u = (u.header ≡ none) × (u.tx ≢ committed)

abbrev Splits : UpdateQueueItem → ℕ → Answers → Updated → Type 0
Splits item now a u =
    IsIdle u
    ⊎ ((plan : Plan) × (meta : SyncUpdate) × (tree : SectorHashes) × Matched a meta tree
        × (u ≡ store_header item plan now a meta tree))

undo-IsIdle : (a : Answers) (e : Outcome UpdaterError (Unit {0})) → IsIdle (undo a e none)
undo-IsIdle a e = ground arith

compare_tips-Splits :
    (item : UpdateQueueItem) (plan : Plan) (now : ℕ) (a : Answers) (m : Option SyncUpdate)
    (r : Outcome UpdaterError SectorHashes)
    → a.locked ≡ true
    → (a.opens ≡ true) × (a.begins ≡ true) × (a.seeks ≡ true)
    → a.synced.1 ≡ false
    → a.synced.0 ≡ m
    → a.tree ≡ r
    → Splits item now a (compare_tips item plan now a m r)
unfolding compare_tips
compare_tips-Splits item plan now a m (err e) l o n sy tr = inl (undo-IsIdle a _)
compare_tips-Splits item plan now a m panicked l o n sy tr = inl (refl, (λ q. cc))
compare_tips-Splits item plan now a none (ok tree) l o n sy tr = inl (refl, (λ q. cc))
compare_tips-Splits item plan now a (some meta) (ok tree) l o n sy tr =
    elim (bytes_dec meta.sector_tip_hash (tip tree)) [
      | yes p ↦ rw (holds_yes (bytes_dec meta.sector_tip_hash (tip tree)) p) (
          inr (
            plan,
            meta,
            tree,
            record {
              locked = l;
              in_order = o;
              no_error = n;
              synced = sy;
              hashed = tr;
              same_tip = p;
            },
            refl,
          ))
      | no p ↦
          rw (holds_no (bytes_dec meta.sector_tip_hash (tip tree)) p) (inl (undo-IsIdle a (ok tt)))
    ]

run_plan-Splits :
    (item : UpdateQueueItem) (plan : Plan) (now current : ℕ) (a : Answers)
    → a.locked ≡ true
    → Splits item now a (run_plan item plan now current a)
unfolding run_plan
run_plan-Splits item plan now current a l =
    ground (
      arith,
      undo-IsIdle a (err sync_failed),
      compare_tips-Splits item plan now a a.synced.0 a.tree,
    )

with_plan-Splits :
    (item : UpdateQueueItem) (now current : ℕ) (a : Answers) (o : Outcome UpdaterError Plan)
    → Splits item now a (with_plan item now current a o)
unfolding with_plan
with_plan-Splits item now current a (ok plan) =
    ground (arith, run_plan-Splits item plan now current a)
with_plan-Splits item now current a (err x) = inl (refl, (λ q. cc))
with_plan-Splits item now current a panicked = inl (refl, (λ q. cc))

pair_eq : {x y : Header × SectorHashes} → some x ≡ some y → x ≡ y
pair_eq e = cc

kept-some : (b : Bool) (x y : Header × SectorHashes) → kept b x ≡ some y → x ≡ y
kept-some true x y e = pair_eq e
kept-some false x y e = absurd (none-ne-some e)

-- How a call ends that left a header, by what WithTx returned.
abbrev Ends : Answers → Outcome DbError (Unit {0}) → Updated → Type 0
Ends a o u =
    ((o ≡ ok tt) × (a.commits ≡ true) × (u.tx ≡ committed))
    ⊎ (((o ≡ ok tt) × (a.commits ≡ false) × (u.tx ≡ broken) × (u.error ≡ panicked))
        ⊎ ((e : DbError) × (o ≡ err e) × (u.tx ≢ committed) × (u.error ≢ ok tt)))

end_store-Ends :
    (item : UpdateQueueItem) (a : Answers) (x y : Header × SectorHashes)
    (o : Outcome DbError (Unit {0}))
    → (end_store item a x o).header ≡ some y
    → (x ≡ y) × Ends a o (end_store item a x o)
unfolding end_store
end_store-Ends item a x y (ok tt) e = elim (Bool-cases a.commits) [
  | inl c ↦ rw c (kept-some a.persists x y (rw c at e), inl (refl, refl, refl))
  | inr c ↦ rw c (kept-some a.persists x y (rw c at e), inr (inl (refl, refl, refl, refl)))
]
end_store-Ends item a x y (err f) e = elim (Bool-cases a.rolls_back) [
  | inl r ↦ rw r (kept-some a.persists x y (rw r at e), inr (inr (f, refl, (λ q. cc), (λ q. cc))))
  | inr r ↦ rw r (kept-some a.persists x y (rw r at e), inr (inr (f, refl, (λ q. cc), (λ q. cc))))
]
end_store-Ends item a x y panicked e = absurd (none-ne-some e)

store_header-Stored :
    (item : UpdateQueueItem) (plan : Plan) (now : ℕ) (a : Answers) (meta : SyncUpdate)
    (tree : SectorHashes) (h : Header) (t : SectorHashes)
    → Matched a meta tree
    → (store_header item plan now a meta tree).header ≡ some (h, t)
    → Stored item a (store_header item plan now a meta tree) h t
unfolding store_header new_header
store_header-Stored item plan now a meta tree h t m e =
    let (same, ends) =
      end_store-Ends item a (new_header item plan now meta tree, tree) (h, t) a.stored e in
    subst (λ p. Stored item a (store_header item plan now a meta tree) p.0 p.1) same (from ends)
  where
    from :
        Ends a a.stored (store_header item plan now a meta tree)
        → Stored item a
            (store_header item plan now a meta tree)
            (new_header item plan now meta tree)
            tree
    from ends = record {
      meta = meta;
      matched = m;
      names = refl;
      epoch = refl;
      size = refl;
      tip_hash = refl;
      signed = (refl, refl);
      ends = ends;
    }

end_store-committed :
    (item : UpdateQueueItem) (a : Answers) (x : Header × SectorHashes)
    (o : Outcome DbError (Unit {0}))
    → (end_store item a x o).tx ≡ committed
    → (o ≡ ok tt)
      × (((a.persists ≡ false) × ((end_store item a x o).header ≡ none))
          ⊎ ((end_store item a x o).header ≡ some x))
unfolding end_store
end_store-committed item a x (ok tt) e = ground arith
end_store-committed item a x (err f) e = ground arith
end_store-committed item a x panicked e = ground arith

store_header-Committed :
    (item : UpdateQueueItem) (plan : Plan) (now : ℕ) (a : Answers) (meta : SyncUpdate)
    (tree : SectorHashes)
    → Matched a meta tree
    → (store_header item plan now a meta tree).tx ≡ committed
    → Committed a (store_header item plan now a meta tree)
unfolding store_header new_header
store_header-Committed item plan now a meta tree m e =
    let (stored, header) =
      end_store-committed item a (new_header item plan now meta tree, tree) a.stored e in
    record { meta = meta; tree = tree; matched = m; stored = stored; header = from header }
  where
    from :
        ((a.persists ≡ false) × ((store_header item plan now a meta tree).header ≡ none))
          ⊎ ((store_header item plan now a meta tree).header
              ≡ some (new_header item plan now meta tree, tree))
        → ((a.persists ≡ false) × ((store_header item plan now a meta tree).header ≡ none))
          ⊎ ((h : Header) × ((store_header item plan now a meta tree).header ≡ some (h, tree))
              × (h.sector_tip_hash ≡ tip tree))
    from (inl p) = inl p
    from (inr q) = inr (new_header item plan now meta tree, q, refl)

-- A call of `UpdateBlob` that leaves a header in the store holds the name's lock, has synced
-- without an error and rehashed the blob, found the synced tip hash to be the tip of the rehashed
-- blob, and stored that tip with the item's name, epoch and size and the synced signature and
-- reserved root. Then WithTx returned no error, and the blob is committed, or its Commit panics and
-- so does the call; or WithTx returned an error, and the blob is not committed and the call does
-- not end without an error.
pub update_blob-Stored :
    (header : Outcome DbError Header) (ban : Outcome DbError Time) (now current : ℕ)
    (item : UpdateQueueItem) (a : Answers) (h : Header) (t : SectorHashes)
    → (update_blob header ban now current item a).header ≡ some (h, t)
    → Stored item a (update_blob header ban now current item a) h t
unfolding update_blob
update_blob-Stored header ban now current item a h t e =
    elim (with_plan-Splits item now current a (plan_update header ban now current item)) [
      | inl (idle, _) ↦ absurd (none-ne-some (sym idle ∙ e))
      | inr (plan, meta, tree, m, same) ↦
          subst (λ u. Stored item a u h t) (sym same)
            (store_header-Stored item plan now a meta tree h t m
              (ap (λ u. u.header) (sym same) ∙ e))
    ]

-- `UpdateBlob` commits the blob only if the lock is held, the sync came back without an error, the
-- synced tip hash is the tip of the rehashed blob, and WithTx returned no error. A header over that
-- tip is then in the store, unless the commit of the database failed, which WithTx does not report.
pub update_blob-committed :
    (header : Outcome DbError Header) (ban : Outcome DbError Time) (now current : ℕ)
    (item : UpdateQueueItem) (a : Answers)
    → (update_blob header ban now current item a).tx ≡ committed
    → Committed a (update_blob header ban now current item a)
unfolding update_blob
update_blob-committed header ban now current item a e =
    elim (with_plan-Splits item now current a (plan_update header ban now current item)) [
      | inl (_, idle) ↦ absurd (idle e)
      | inr (plan, meta, tree, m, same) ↦
          subst (Committed a) (sym same)
            (store_header-Committed item plan now a meta tree m (ap (λ u. u.tx) (sym same) ∙ e))
    ]

-- The blob could be opened and the syncer came back without an error.
pub record Synced (plan : Plan) (current : ℕ) (a : Answers) : Type 0 where
  pub locked : a.locked ≡ true
  pub opens : a.opens ≡ true
  pub begins : a.begins ≡ true
  pub truncates : a.truncates ≡ true
  pub seeks : a.seeks ≡ true
  pub on_schedule : plan.epoch_height ≤ next_u16 current
  pub no_error : a.synced.1 ≡ false

Synced-compare_tips :
    (item : UpdateQueueItem) (plan : Plan) (now current : ℕ) (a : Answers)
    → Synced plan current a
    → with_plan item now current a (ok plan) ≡ compare_tips item plan now a a.synced.0 a.tree
unfolding with_plan run_plan
Synced-compare_tips item plan now current a s = ground arith

-- When the synced tip hash is not the tip of the rehashed blob, `UpdateBlob` rolls the blob back
-- and stores no header, and yet returns no error, if Rollback does not panic.
pub update_blob-mismatch :
    (header : Outcome DbError Header) (ban : Outcome DbError Time) (now current : ℕ)
    (item : UpdateQueueItem) (a : Answers) (plan : Plan) (meta : SyncUpdate) (tree : SectorHashes)
    → plan_update header ban now current item ≡ ok plan
    → Synced plan current a
    → a.synced.0 ≡ some meta
    → a.tree ≡ ok tree
    → meta.sector_tip_hash ≢ tip tree
    → a.rolls_back ≡ true
    → update_blob header ban now current item a
      ≡ record { error = ok tt; tx = rolled_back; header = none; gossip = none }
unfolding update_blob compare_tips
update_blob-mismatch header ban now current item a plan meta tree p s m t ne b = rw p (
    rw (Synced-compare_tips item plan now current a s)
      (rw (m, t) (rw (holds_no (bytes_dec meta.sector_tip_hash (tip tree)) ne) (rw b refl))))

-- When the syncer times out, it returns neither an update nor an error, and `UpdateBlob` panics on
-- the missing update, whatever the update is, unless the blob cannot be rehashed.
pub update_blob-timeout :
    (header : Outcome DbError Header) (ban : Outcome DbError Time) (now current : ℕ)
    (item : UpdateQueueItem) (a : Answers) (plan : Plan) (tree : SectorHashes)
    → plan_update header ban now current item ≡ ok plan
    → Synced plan current a
    → a.synced.0 ≡ none
    → a.tree ≡ ok tree
    → (update_blob header ban now current item a).error ≡ panicked
unfolding update_blob compare_tips
update_blob-timeout header ban now current item a plan tree p s m t =
    rw p (rw (Synced-compare_tips item plan now current a s) (rw (m, t) refl))
