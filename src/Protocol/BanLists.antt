-- ===== src/Protocol/BanLists.antt =====
-- protocol/ban_list.go and protocol/moderation.go. The lines of a list are those that the scanner
-- gives; ValidateName of the package handshake and what the network answers are parameters, and so
-- is what Exists, Open, Transaction, Remove, Commit and Close of a blob answer for a name.
pub mod Wiping
use fnd.Base.{
  ℕ, zero, suc, ◌+◌, ◌-◌, ◌*◌, Bool, true, false, not, ◌&&◌, ◌||◌, Option, none, some, List, [],
  ◌∷◌, ◌++◌, Outcome, ok, err, panicked, if◌then◌else◌, ltb, leb, ◌==◌, holds, ◌>>=◌,
}
use fnd.Base.Bytes.{Bytes, bytes_dec}
use fnd.Base.Text.{codes, split_at_byte}
use fnd.Base.Stateful.{Stateful}
use fnd.Store.Types.{Name, Time}
use fnd.Store.Interface.{DbError}
use fnd.Store.Leveldb.{Leveldb}
use fnd.Store.Transactions.{with_tx}
use fnd.Store.Moderation.{get_last_ban_list_import_at, truncate_banned_names, ban_name_tx}
use fnd.Store.Ints.{max_int64}

pub data ListError : Type 0 where
  two_components must_start must_end no_version unsupported invalid_name : ListError

abbrev pub is_digit : ℕ → Bool
is_digit c = leb b'0' c && leb c b'9'

unfoldable pub all_digits : Bytes → Bool
all_digits [] = true
all_digits (c ∷ s) = is_digit c && all_digits s

-- `verRegex`, and the text after the letter v.
abbrev pub some_digits : Bytes → Option Bytes
some_digits [] = none
some_digits (c ∷ s) = if all_digits (c ∷ s) then some (c ∷ s) else none

abbrev pub after_v : Bytes → Option Bytes
after_v [] = none
after_v (c ∷ s) = if c == b'v' then some_digits s else none

-- `strconv.Atoi` of digits, which fails above the greatest int.
unfoldable pub atoi : ℕ → Bytes → ℕ
atoi n [] = n
atoi n (c ∷ s) = atoi (n * 10 + (c - b'0')) s

abbrev pub version_number : Option Bytes → Outcome ListError ℕ
version_number none = err must_end
version_number (some s) = if ltb max_int64 (atoi 0 s) then panicked else ok (atoi 0 s)

abbrev pub version_of : List Bytes → Outcome ListError ℕ
version_of (a ∷ (b ∷ [])) =
    if holds (bytes_dec a (codes "FNBAN")) then version_number (after_v b) else err must_start
version_of (a ∷ (b ∷ (c ∷ rest))) = err two_components
version_of (a ∷ []) = err two_components
version_of [] = err two_components

-- `ParseBanListVersion`
unfoldable pub parse_ban_list_version : Bytes → Outcome ListError ℕ
parse_ban_list_version line = version_of (split_at_byte b':' line)

abbrev pub is_blank : ℕ → Bool
is_blank c = c == b' ' || c == 9

-- `strings.Trim(text, " \t")`
unfoldable pub trim_left : Bytes → Bytes
trim_left [] = []
trim_left (c ∷ s) = let rest = trim_left s in if is_blank c then rest else c ∷ s

abbrev keep_unless_blank : ℕ → Bytes → Bytes
keep_unless_blank c [] = if is_blank c then [] else c ∷ []
keep_unless_blank c (d ∷ s) = c ∷ (d ∷ s)

unfoldable pub trim_right : Bytes → Bytes
trim_right [] = []
trim_right (c ∷ s) = keep_unless_blank c (trim_right s)

unfoldable pub trim : Bytes → Bytes
trim s = trim_right (trim_left s)

module _ (validate_name : Bytes → Bool) where
  -- The loop of `ReadBanList`
  unfoldable pub read_names : List Bytes → Outcome ListError (List Name)
  read_names [] = ok []
  read_names (line ∷ lines) =
      if validate_name (trim line)
      then (read_names lines >>= λ names. ok (trim line ∷ names))
      else err invalid_name

  -- `ReadBanList`, of version CurrentBanListVersion.
  unfoldable pub read_ban_list : List Bytes → Outcome ListError (List Name)
  read_ban_list [] = err no_version
  read_ban_list (first ∷ lines) = do
    version ← parse_ban_list_version first
    if version == 1 then read_names lines else err unsupported

-- `BanListUpdateInterval`, in seconds.
abbrev pub ban_list_update_interval : ℕ
ban_list_update_interval = 604_800

module _ (L : Leveldb) (delete_blob : Name → Outcome DbError (Unit {0})) where
  abbrev and_then :
      Outcome DbError (Unit {0})
      → Stateful L.Tx DbError (Unit {0})
      → Stateful L.Tx DbError (Unit {0})
  and_then (ok u) f tx = f tx
  and_then (err e) f tx = (err e, tx)
  and_then panicked f tx = (panicked, tx)

  -- The names of one list: each is banned, and its blob is deleted.
  unfoldable pub ban_names : List Name → Stateful L.Tx DbError (Unit {0})
  ban_names [] tx = (ok tt, tx)
  ban_names (name ∷ names) tx =
      let banned = ban_name_tx L name tx in
      and_then banned.0 (and_then (delete_blob name) (ban_names names)) banned.1

  -- The loop over the lists, each as `FetchListFile` answers it.
  abbrev pub with_names :
      Outcome DbError (List Name)
      → Stateful L.Tx DbError (Unit {0})
      → Stateful L.Tx DbError (Unit {0})
  with_names (ok names) rest tx = let r = ban_names names tx in and_then r.0 rest r.1
  with_names (err e) rest tx = (err e, tx)
  with_names panicked rest tx = (panicked, tx)

  unfoldable pub ban_lists : List (Outcome DbError (List Name)) → Stateful L.Tx DbError (Unit {0})
  ban_lists [] tx = (ok tt, tx)
  ban_lists (l ∷ ls) tx = with_names l (ban_lists ls) tx

  -- The callback of WithTx.
  unfoldable pub ingest_tx : List (Outcome DbError (List Name)) → Stateful L.Tx DbError (Unit {0})
  ingest_tx lists tx = let r = truncate_banned_names L tx in and_then r.0 (ban_lists lists) r.1

  -- `time.Now().Sub(currRev) < BanListUpdateInterval`
  abbrev pub is_fresh : Time → ℕ → Bool
  is_fresh none now = false
  is_fresh (some rev) now = ltb now (rev + ban_list_update_interval)

  abbrev pub from_rev :
      Outcome DbError Time
      → ℕ
      → List (Outcome DbError (List Name))
      → L.Db
      → Outcome DbError (Unit {0}) × L.Db
  from_rev (ok rev) now lists db =
      if is_fresh rev now then (ok tt, db) else with_tx L db (ingest_tx lists)
  from_rev (err e) now lists db = (err e, db)
  from_rev panicked now lists db = (panicked, db)

  -- `IngestBanLists`
  unfoldable pub ingest_ban_lists :
      ℕ → List (Outcome DbError (List Name)) → L.Db → Outcome DbError (Unit {0}) × L.Db
  ingest_ban_lists now lists db = from_rev (get_last_ban_list_import_at L db) now lists db
