-- ===== src/Blob/Pool.antt =====
-- blob/pool.go: the open blobs by name, with the number of their users. `Get` and `Put` hold the
-- mutex. A blob is a handle and its name; the getter and `Close` are the caller's and the blob's,
-- and `Get` is given what the getter answers.
pub mod Balance
use fnd.Base.{
  ℕ, zero, suc, ◌+◌, ◌-◌, ◌≡◌, Bool, Option, none, some, List, [], ltb, if◌then◌else◌, Outcome, ok,
  err, panicked,
}
use fnd.Base.GoMap.{Map, get, put, delete}

pub record Blob (Name : Type 0) : Type 0 where
  pub name : Name
  pub handle : ℕ

pub record PoolEntry (Name : Type 0) : Type 0 where
  pub blob : Blob Name
  pub refs : ℕ

pub data GetError : Type 0 where
  getter_failed : GetError

module _ {Name : Type 0} (dec : Discrete Name) where
  abbrev pub Pool : Type 0
  Pool = Map Name (PoolEntry Name)

  -- `Get`, where the getter gives `opened`.
  abbrev pub get_known :
      Name
      → Option (Blob Name)
      → Pool
      → Option (PoolEntry Name)
      → Pool × Outcome GetError (Blob Name)
  get_known name opened p (some entry) =
      (put dec name (record entry { refs = entry.refs + 1 }) p, ok entry.blob)
  get_known name (some blob) p none = (put dec name (record { blob = blob; refs = 1 }) p, ok blob)
  get_known name none p none = (p, err getter_failed)

  unfoldable pub get_blob : Name → Option (Blob Name) → Pool → Pool × Outcome GetError (Blob Name)
  get_blob name opened p = get_known name opened p (get dec name p)

  -- `Put`: the result says whether the blob is closed.
  abbrev pub put_known :
      Name → Pool → Option (PoolEntry Name) → Pool × Outcome GetError (Option (Blob Name))
  put_known name p none = (p, panicked)
  put_known name p (some entry) =
      if ltb 0 (entry.refs - 1)
      then (put dec name (record entry { refs = entry.refs - 1 }) p, ok none)
      else (delete dec name p, ok (some entry.blob))

  unfoldable pub put_blob : Blob Name → Pool → Pool × Outcome GetError (Option (Blob Name))
  put_blob blob p = put_known blob.name p (get dec blob.name p)
