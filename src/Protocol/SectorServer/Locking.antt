-- ===== src/Protocol/SectorServer/Locking.antt =====
-- protocol/sector_server.go: the read lock of a name while a request for its blob is served.
use fnd.Base.{
  ℕ, zero, suc, ◌≤◌, ◌≡◌, ◌≢◌, refl, sym, ap, ◌∙◌, subst, arith, Bool, true, false, Option, none,
  some, List, [], ◌∷◌, get_elem?, ltb, ◌==◌, Bool-cases, inl, inr, length, Outcome, ok, err,
  panicked, ==-ne, ltb-false,
}
use fnd.Base.Bytes.{bytes_dec}
use fnd.Base.GoMap.{get}
use fnd.Blob.Consts.{max_sectors, Hash, Sector}
use fnd.Blob.Hash.{SectorHashes}
use fnd.Store.Types.{Name, Header, EquivocationProof}
use fnd.Store.Interface.{DbError}
use fnd.Util.MultiLocker.{RefCounter, Ran, returns, panics, try_rlock, runlock, try_lock}
use fnd.Util.MultiLocker.Invariant.{
  Mode, free, read_by, written, broken, mode, mode_of_counts, mode_of_entry, lock_spec, lock, rlock,
  runlocks, call, done, Refines, call-Refines,
}
use fnd.Protocol.UpdateQueue.{BlobReq}
use fnd.Protocol.SectorServer.{
  Locks, nothing, crashes, Sources, sectors_of, reply_with, serve_locked, with_lock, prev_hash_of,
  get_sector_hash, on_blob_req,
}

let_in : {m s : Mode} → ◌≡◌ {A = Option (Mode × Bool)} (some (m, true)) (some (s, true)) → m ≡ s
let_in e = cc

-- A reader that was let in can leave, and the lock is then as it was.
rlock_counts :
    (r w : ℕ) (s : Mode)
    → lock_spec rlock (mode_of_counts r w) ≡ some (s, true)
    → (lock_spec runlocks s ≡ some (mode_of_counts r w, true)) × (s ≢ broken)
unfolding lock_spec
rlock_counts zero zero s e =
    subst (λ t. (lock_spec runlocks t ≡ some (free, true)) × (t ≢ broken)) (let_in e)
      (refl, λ q. cc)
rlock_counts zero (suc zero) s e = absurd cc
rlock_counts zero (suc (suc w)) s e = absurd cc
rlock_counts (suc r) zero s e =
    subst (λ t. (lock_spec runlocks t ≡ some (read_by (suc r), true)) × (t ≢ broken)) (let_in e)
      (refl, λ q. cc)
rlock_counts (suc r) (suc w) s e = absurd cc

rlock_entry :
    (o : Option RefCounter) (s : Mode)
    → lock_spec rlock (mode_of_entry o) ≡ some (s, true)
    → (lock_spec runlocks s ≡ some (mode_of_entry o, true)) × (s ≢ broken)
rlock_entry none s e = rlock_counts 0 0 s e
rlock_entry (some c) s e = rlock_counts c.readers c.writers s e

refused_same : (m s : Mode) → lock_spec rlock m ≡ some (s, false) → s ≡ m
unfolding lock_spec
refused_same free s e = absurd cc
refused_same (read_by n) s e = absurd cc
refused_same written s e = cc
refused_same broken s e = cc

-- Every key has the mode it had.
abbrev pub SameModes : Locks → Locks → Type 0
SameModes m m' = (j : Name) → mode bytes_dec m' j ≡ mode bytes_dec m j

same_modes :
    (k : Name) (m m' : Locks)
    → mode bytes_dec m' k ≡ mode bytes_dec m k
    → ((j : Name) → k ≢ j → get bytes_dec j m' ≡ get bytes_dec j m)
    → SameModes m m'
same_modes k m m' e others j = elim (bytes_dec k j) [
  | yes p ↦ subst (λ i. mode bytes_dec m' i ≡ mode bytes_dec m i) p e
  | no p ↦ ap mode_of_entry (others j p)
]

-- After `TryRLock` let a reader in, his `RUnlock` returns and every lock is as it was.
pub released :
    (k : Name) (m m' : Locks) (r : Ran Name (Unit {0}))
    → Refines bytes_dec rlock k m (returns m' true)
    → runlock bytes_dec k m' ≡ r
    → (m'' : Locks) × (r ≡ returns m'' tt) × SameModes m m''
unfolding call
released k m m' r f e = finish r (subst (λ z. Refines bytes_dec runlocks k m' (done z)) e fine)
  where
    back :
        (lock_spec runlocks (mode bytes_dec m' k) ≡ some (mode bytes_dec m k, true))
        × (mode bytes_dec m' k ≢ broken)
    back = rlock_entry (get bytes_dec k m) (mode bytes_dec m' k) f.0

    fine : Refines bytes_dec runlocks k m' (done (runlock bytes_dec k m'))
    fine = call-Refines bytes_dec runlocks k m' back.1

    none-ne-some : {a : Mode × Bool} → none ≡ some a → ⊥
    none-ne-some q = cc

    finish :
        (r : Ran Name (Unit {0}))
        → Refines bytes_dec runlocks k m' (done r)
        → (m'' : Locks) × (r ≡ returns m'' tt) × SameModes m m''
    finish (returns m'' tt) g =
        (m'', refl, same_modes k m m'' (let_in (sym g.0 ∙ back.0)) (λ j h. g.1 j h ∙ f.1 j h))
    finish panics g = absurd (none-ne-some (sym g ∙ back.0))

-- A reader that is refused changes no lock, and a sound lock never panics for a reader.
pub refused_reader :
    (k : Name) (m m' : Locks) → Refines bytes_dec rlock k m (returns m' false) → SameModes m m'
refused_reader k m m' f =
    same_modes k m m' (refused_same (mode bytes_dec m k) (mode bytes_dec m' k) f.0) f.1

pub rlock-returns : (k : Name) (m : Locks) → Refines bytes_dec rlock k m panics → ⊥
unfolding lock_spec
rlock-returns k m f = rlock_steps (mode bytes_dec m k) f
  where
    rlock_steps : (s : Mode) → lock_spec rlock s ≢ none
    rlock_steps free q = cc
    rlock_steps (read_by n) q = cc
    rlock_steps written q = cc
    rlock_steps broken q = cc

-- What a request leaves of the locks, if the hash before it can be read.
served :
    (header : Header) (req : BlobReq) (src : Sources) (m : Locks) (h : Hash)
    (hashes : Outcome DbError SectorHashes) (r : Ran Name Bool)
    → mode bytes_dec m req.name ≢ broken
    → prev_hash_of hashes req.sector_size ≡ ok h
    → Refines bytes_dec rlock req.name m r
    → SameModes m (with_lock header req src hashes r).0
      × ((with_lock header req src hashes r).1 ≢ crashes)
unfolding lock_spec
served header req src m h hashes (returns m' true) b e f =
    let back = released req.name m m' (runlock bytes_dec req.name m') f refl in
    rw e (rw (back.1) (back.2, replies (sectors_of src)))
  where
    replies : (o : Option (List Sector)) → reply_with header req h o ≢ crashes
    replies none q = cc
    replies (some sectors) q = cc
served header req src m h hashes (returns m' false) b e f =
    (refused_reader req.name m m' f, λ q. cc)
served header req src m h hashes panics b e f = absurd (rlock-returns req.name m f)

-- A request leaves the mode of every lock as it was and does not panic, on every path: whatever is
-- cached, whether the blob opens and can be read, and whatever is sent. It is required that the
-- lock of its name is sound, that the stored proof and the previous hash can be read, and that the
-- store does not panic on the header.
pub on_blob_req-releases :
    (header : Outcome DbError Header) (proof : EquivocationProof)
    (hashes : Outcome DbError SectorHashes) (src : Sources) (m : Locks) (req : BlobReq) (h : Hash)
    → mode bytes_dec m req.name ≢ broken
    → header ≢ panicked
    → prev_hash_of hashes req.sector_size ≡ ok h
    → SameModes m (on_blob_req header (ok proof) hashes src m req).0
      × ((on_blob_req header (ok proof) hashes src m req).1 ≢ crashes)
unfolding on_blob_req call
on_blob_req-releases (err e) proof hashes src m req h b n p = (λ j. refl, λ q. cc)
on_blob_req-releases panicked proof hashes src m req h b n p = absurd (n refl)
on_blob_req-releases (ok header) proof hashes src m req h b n p =
    elim (Bool-cases (ltb header.epoch_height req.epoch_height)) [
      | inl early ↦ rw early ((λ j. refl), (λ q. cc))
      | inr epoch ↦ elim (Bool-cases (req.sector_size == max_sectors)) [
        | inl special ↦ rw epoch (rw special ((λ j. refl), (λ q. cc)))
        | inr usual ↦ rw epoch (
            rw usual (
              served header req src m h hashes (try_rlock bytes_dec req.name m) b p
                (call-Refines bytes_dec rlock req.name m b)))
      ]
    ]

-- A free lock lets a reader in, and then no writer.
rlock_free :
    (k : Name) (m : Locks) (r : Ran Name Bool)
    → mode bytes_dec m k ≡ free
    → Refines bytes_dec rlock k m r
    → (m' : Locks) × (r ≡ returns m' true) × (mode bytes_dec m' k ≡ read_by 1)
unfolding lock_spec
rlock_free k m (returns m' true) f g = (m', refl, sym (let_in (rw f at g.0)))
rlock_free k m (returns m' false) f g = absurd (apart (rw f at g.0))
  where
    apart :
        {s : Mode} → ◌≡◌ {A = Option (Mode × Bool)} (some (read_by 1, true)) (some (s, false)) → ⊥
    apart q = cc
rlock_free k m panics f g = absurd (apart (rw f at g))
  where
    apart : ◌≡◌ {A = Option (Mode × Bool)} (some (read_by 1, true)) none → ⊥
    apart q = cc

read_refuses :
    (k : Name) (m : Locks) (r : Ran Name Bool)
    → mode bytes_dec m k ≡ read_by 1
    → Refines bytes_dec lock k m r
    → (m' : Locks) × (r ≡ returns m' false)
unfolding lock_spec
read_refuses k m (returns m' false) f g = (m', refl)
read_refuses k m (returns m' true) f g = absurd (apart (rw f at g.0))
  where
    apart :
        {s : Mode} → ◌≡◌ {A = Option (Mode × Bool)} (some (read_by 1, false)) (some (s, true)) → ⊥
    apart q = cc
read_refuses k m panics f g = absurd (apart (rw f at g))
  where
    apart : ◌≡◌ {A = Option (Mode × Bool)} (some (read_by 1, false)) none → ⊥
    apart q = cc

free-ne-broken : free ≢ broken
free-ne-broken q = cc

read-ne-broken : read_by 1 ≢ broken
read-ne-broken q = cc

-- A request of an epoch that is not above the header's, for a free name, takes the read lock.
enters :
    (header : Header) (proof : Outcome DbError EquivocationProof)
    (hashes : Outcome DbError SectorHashes) (src : Sources) (m : Locks) (req : BlobReq)
    → req.epoch_height ≤ header.epoch_height
    → req.sector_size ≢ max_sectors
    → mode bytes_dec m req.name ≡ free
    → (m' : Locks) × (on_blob_req (ok header) proof hashes src m req
        ≡ serve_locked header req src m' (prev_hash_of hashes req.sector_size))
      × (mode bytes_dec m' req.name ≡ read_by 1)
unfolding on_blob_req call
enters header proof hashes src m req epoch usual f =
    let l =
      rlock_free req.name m (try_rlock bytes_dec req.name m) f
        (call-Refines bytes_dec rlock req.name m (rw f free-ne-broken)) in
    (
      l.0,
      rw (ltb-false header.epoch_height req.epoch_height epoch)
          (rw (==-ne req.sector_size max_sectors usual) (ap (with_lock header req src hashes) l.1)),
      l.2,
    )

-- When the previous hash cannot be read, the request ends without a reply and its read lock is
-- never released: the name, which was free, is held by a reader, and no update can lock it.
pub on_blob_req-leaks :
    (header : Header) (proof : Outcome DbError EquivocationProof)
    (hashes : Outcome DbError SectorHashes) (src : Sources) (m : Locks) (req : BlobReq)
    (e : DbError)
    → req.epoch_height ≤ header.epoch_height
    → req.sector_size ≢ max_sectors
    → mode bytes_dec m req.name ≡ free
    → prev_hash_of hashes req.sector_size ≡ err e
    → ((on_blob_req (ok header) proof hashes src m req).1 ≡ nothing)
      × (m'' : Locks) × (try_lock bytes_dec req.name
            (on_blob_req (ok header) proof hashes src m req).0
          ≡ returns m'' false)
unfolding call
on_blob_req-leaks header proof hashes src m req e epoch usual f fails =
    let l = enters header proof hashes src m req epoch usual f in
    let left : on_blob_req (ok header) proof hashes src m req ≡ (l.0, nothing) =
      l.1 ∙ ap (serve_locked header req src l.0) fails in
    let refused =
      read_refuses req.name l.0 (try_lock bytes_dec req.name l.0) l.2
        (call-Refines bytes_dec lock req.name l.0 (rw (l.2) read-ne-broken)) in
    (ap (λ p. p.1) left, refused.0, ap (λ p. try_lock bytes_dec req.name p.0) left ∙ refused.1)

get_elem?-past : {A : Type 0} (xs : List A) (i : ℕ) → length xs ≤ i → get_elem? xs i ≡ none
get_elem?-past [] i h = refl
get_elem?-past (x ∷ xs) zero h = absurd (omega arith)
get_elem?-past (x ∷ xs) (suc i) h = get_elem?-past xs i (omega arith)

-- A request for the sectors from 4097 on, of an epoch that is not above the header's, for a free
-- name whose 4096 hashes can be read, makes the handler panic on the index 4096.
pub on_blob_req-crashes :
    (header : Header) (proof : Outcome DbError EquivocationProof) (hashes : SectorHashes)
    (src : Sources) (m : Locks) (req : BlobReq)
    → req.epoch_height ≤ header.epoch_height
    → req.sector_size ≡ suc max_sectors
    → mode bytes_dec m req.name ≡ free
    → length hashes ≡ max_sectors
    → (on_blob_req (ok header) proof (ok hashes) src m req).1 ≡ crashes
unfolding get_sector_hash
on_blob_req-crashes header proof hashes src m req epoch past f full =
    let l = enters header proof (ok hashes) src m req epoch (λ q. absurd (omega arith)) f in
    let panic : prev_hash_of (ok hashes) req.sector_size ≡ panicked =
      ap (prev_hash_of (ok hashes)) past
      ∙ rw (ltb-false (length hashes) max_sectors (omega arith))
          (rw (get_elem?-past hashes max_sectors (omega arith)) refl) in
    ap (λ p. p.1) (l.1 ∙ ap (serve_locked header req src l.0) panic)
