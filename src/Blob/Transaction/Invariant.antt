-- ===== src/Blob/Transaction/Invariant.antt =====
-- blob/transaction.go: what every method respects, whatever fails.
use fnd.Base.{
  if◌then◌else◌, ◌&&◌, ◌||◌, not, ◌∙◌, ℕ, ◌≡◌, ◌≢◌, refl, Bool, true, false, arith, Outcome, ok,
  err, panicked, replicate, ap,
}
use fnd.Base.Bytes.{Bytes}
use fnd.Blob.Consts.{Sector, size}
use fnd.Blob.Transaction.{
  Tx, Disk, Faults, Ran, TxError, Whence, transaction_closed, seek, read_sector, read_at,
  write_sector, write_at, truncate, commit, rollback, remove,
}

-- The methods of the interface Transaction.
pub data Op : Type 0 where
  seeks : ℕ → Whence → Op
  reads_sector : ℕ → Op
  reads_at : Bytes → ℕ → Op
  writes_sector : Sector → Op
  writes_at : Bytes → ℕ → Op
  truncates commits rolls_back removes : Op

-- The transaction after a method, and its error.
pub data Ended : Type 0 where
  fine : Ended
  failed : TxError → Ended
  panics : Ended

abbrev pub ended : {A : Type 0} → Outcome TxError A → Ended
ended (ok a) = fine
ended (err e) = failed e
ended panicked = panics

unfoldable pub apply : Faults → Op → Tx → Tx × Ended
apply f (seeks off w) t = ((seek off w t).0, ended (seek off w t).1)
apply f (reads_sector id) t = ((read_sector f id t).0, ended (read_sector f id t).1)
apply f (reads_at p off) t = ((read_at f p off t).0, ended (read_at f p off t).1)
apply f (writes_sector s) t = ((write_sector f s t).0, ended (write_sector f s t).1)
apply f (writes_at p off) t = ((write_at f p off t).0, ended (write_at f p off t).1)
apply f truncates t = ((truncate f t).0, ended (truncate f t).1)
apply f commits t = ((commit f t).0, ended (commit f t).1)
apply f rolls_back t = ((rollback f t).0, ended (rollback f t).1)
apply f removes t = ((remove f t).0, ended (remove f t).1)

branch_disk :
    {A : Type 0} (b : Bool) (x y : Ran A) {d : Disk}
    → x.0.disk ≡ d
    → y.0.disk ≡ d
    → (if b then x else y).0.disk ≡ d
branch_disk true x y p q = p
branch_disk false x y p q = q

seek-disk : (off : ℕ) (w : Whence) (t : Tx) → (seek off w t).0.disk ≡ t.disk
unfolding seek
seek-disk off w t = elim w [
  | Whence.seek_start ↦ ground arith
  | Whence.seek_current ↦ ground arith
  | Whence.seek_end ↦ ground arith
  | Whence.other ↦ ground arith
]

truncate-disk : (f : Faults) (t : Tx) → (truncate f t).0.disk ≡ t.disk
unfolding truncate
truncate-disk f t = branch_disk t.removed _ _ refl (
    branch_disk (t.initialized && (f.remove_fails || not t.temp_exists)) _ _ refl
      (branch_disk f.clone_fails _ _ refl refl))

rollback-disk : (f : Faults) (t : Tx) → (rollback f t).0.disk ≡ t.disk
unfolding rollback
rollback-disk f t = ground arith

remove-disk : (f : Faults) (t : Tx) → (remove f t).0.disk ≡ t.disk
unfolding remove
remove-disk f t = ground arith

read_sector-disk : (f : Faults) (id : ℕ) (t : Tx) → (read_sector f id t).0.disk ≡ t.disk
unfolding read_sector
read_sector-disk f id t = ground arith

read_at-disk : (f : Faults) (p : Bytes) (off : ℕ) (t : Tx) → (read_at f p off t).0.disk ≡ t.disk
unfolding read_at
read_at-disk f p off t = ground arith

write_sector-disk : (f : Faults) (s : Sector) (t : Tx) → (write_sector f s t).0.disk ≡ t.disk
unfolding write_sector
write_sector-disk f s t = ground arith

write_at-disk : (f : Faults) (p : Bytes) (off : ℕ) (t : Tx) → (write_at f p off t).0.disk ≡ t.disk
unfolding write_at
write_at-disk f p off t = ground arith

-- No method but `Commit` changes the blob or unlinks its file, whatever fails.
pub apply-isolated : (f : Faults) (op : Op) (t : Tx) → op ≢ commits → (apply f op t).0.disk ≡ t.disk
unfolding apply
apply-isolated f (seeks off w) t h = seek-disk off w t
apply-isolated f (reads_sector id) t h = read_sector-disk f id t
apply-isolated f (reads_at p off) t h = read_at-disk f p off t
apply-isolated f (writes_sector s) t h = write_sector-disk f s t
apply-isolated f (writes_at p off) t h = write_at-disk f p off t
apply-isolated f truncates t h = truncate-disk f t
apply-isolated f commits t h = absurd (h refl)
apply-isolated f rolls_back t h = rollback-disk f t
apply-isolated f removes t h = remove-disk f t

-- A closed transaction stays as it is under every method but `Seek` and `Truncate`, and each of
-- these says that it is closed.
pub apply-closed :
    (f : Faults) (op : Op) (t : Tx)
    → t.closed ≡ true
    → op ≢ truncates
    → ((off : ℕ) (w : Whence) → op ≢ seeks off w)
    → apply f op t ≡ (t, failed transaction_closed)
unfolding apply read_sector read_at write_sector write_at commit rollback remove
apply-closed f (seeks off w) t c h k = absurd (k off w refl)
apply-closed f truncates t c h k = absurd (h refl)
apply-closed f (reads_sector id) t c h k = ground arith
apply-closed f (reads_at p off) t c h k = ground arith
apply-closed f (writes_sector s) t c h k = ground arith
apply-closed f (writes_at p off) t c h k = ground arith
apply-closed f commits t c h k = ground arith
apply-closed f rolls_back t c h k = ground arith
apply-closed f removes t c h k = ground arith

truncate-fresh :
    (f : Faults) (t : Tx)
    → t.removed ≡ false
    → t.initialized ≡ false
    → f.clone_fails ≡ false
    → (t' : Tx) × (truncate f t ≡ (t', ok tt)) × (t'.closed ≡ t.closed) × (t'.temp_exists ≡ true)
unfolding truncate
truncate-fresh f t r i h = (
  record t { clone = replicate size 0; temp_exists = true; initialized = true },
  rw (r, i, h) refl,
  refl,
  refl,
)

-- A transaction that ended without ever being initialised can still be truncated: that makes a
-- temporary file, and none of the methods that remove such a file will remove it.
pub truncate-leaks :
    (f : Faults) (t : Tx)
    → t.closed ≡ true
    → t.removed ≡ false
    → t.initialized ≡ false
    → f.clone_fails ≡ false
    → let t' = (apply f truncates t).0 in
      ((apply f truncates t).1 ≡ fine)
      × (t'.temp_exists ≡ true)
      × ((g : Faults) → (apply g commits t').0.temp_exists ≡ true)
      × ((g : Faults) → (apply g rolls_back t').0.temp_exists ≡ true)
      × ((g : Faults) → (apply g removes t').0.temp_exists ≡ true)
unfolding apply
truncate-leaks f t c r i h =
    let l = truncate-fresh f t r i h in
    let e = l.1 in
    let closed : (truncate f t).0.closed ≡ true = ap (λ x. x.0.closed) e ∙ l.2 ∙ c in
    let exists : (truncate f t).0.temp_exists ≡ true = ap (λ x. x.0.temp_exists) e ∙ l.3 in
    let stays : (g : Faults) (op : Op)
        → op ≢ truncates
        → ((off : ℕ) (w : Whence) → op ≢ seeks off w)
        → (apply g op (truncate f t).0).0.temp_exists ≡ true =
      λ g op n m.
        ap (λ x. x.0.temp_exists) (apply-closed g op (truncate f t).0 closed n m) ∙ exists in
    (
      ap (λ x. ended x.1) e,
      exists,
      (λ g. stays g commits (λ q. cc) (λ off w q. cc)),
      (λ g. stays g rolls_back (λ q. cc) (λ off w q. cc)),
      (λ g. stays g removes (λ q. cc) (λ off w q. cc)),
    )
