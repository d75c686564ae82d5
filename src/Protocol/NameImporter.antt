-- ===== src/Protocol/NameImporter.antt =====
-- protocol/name_importer.go. The blocks and names that the Handshake client answers are functions
-- of the height and of the hash; how a covenant is parsed, base64 and ParsePubKey are parameters.
pub mod Termination
pub mod Progress
pub mod Heights
use fnd.Base.{
  ℕ, zero, suc, ◌+◌, ◌-◌, Bool, true, false, Option, none, some, List, [], ◌∷◌, ◌++◌, Outcome, ok,
  err, panicked, if◌then◌else◌, ltb, ◌==◌, length,
}
use fnd.Base.Bytes.{Bytes, bytes_dec}
use fnd.Base.GoMap.{Map, get, put}
use fnd.Base.Stateful.{Stateful, ◌>>◌, pure}
use fnd.Store.Types.{Name, PublicKey}
use fnd.Store.Interface.{DbError, failed}
use fnd.Store.Json.{JsonText}
use fnd.Store.Leveldb.{Leveldb}
use fnd.Store.Transactions.{with_tx}
use fnd.Store.Names.{
  get_last_name_import_height, set_last_name_import_height_tx, set_initial_import_complete_tx,
  set_name_info_tx,
}

pub record FnRecord : Type 0 where
  pub name_hash : Bytes
  pub public_key : PublicKey

-- A record of a resource: the entries of a TXT record, or another kind.
pub data ResourceRecord : Type 0 where
  txt : List Bytes → ResourceRecord
  other : ResourceRecord

-- An output by its covenant: an UPDATE or a REGISTER that UpdateFromCovenant or
-- RegisterFromCovenant reads, with its name hash and its resource if it has one; or one that they
-- refuse; or another type.
pub data Output : Type 0 where
  named : Bytes → Option (List ResourceRecord) → Output
  malformed unnamed : Output

abbrev pub Block : Type 0
Block = List (List Output)

module _ (decode_base64 : Bytes → Option Bytes) (parse_pub_key : Bytes → Option PublicKey) where
  abbrev pub parsed : Option Bytes → Option PublicKey
  parsed none = none
  parsed (some key_bytes) = parse_pub_key key_bytes

  abbrev pub sigil : Bytes → Option PublicKey
  sigil [] = none
  sigil (c ∷ pubkey) =
      if c == b'f'
      then if length pubkey == 44 then parsed (decode_base64 pubkey) else none
      else none

  -- `ParseFNRecord`
  unfoldable pub parse_fn_record : Bytes → Option PublicKey
  parse_fn_record entry = if length entry == 45 then sigil entry else none

  abbrev pub or_else : Option PublicKey → Option PublicKey → Option PublicKey
  or_else none old = old
  or_else (some key) old = some key

  -- The last entry of a resource that is a key.
  unfoldable pub key_of_entries : List Bytes → Option PublicKey → Option PublicKey
  key_of_entries [] key = key
  key_of_entries (e ∷ entries) key = key_of_entries entries (or_else (parse_fn_record e) key)

  unfoldable pub key_of_records : List ResourceRecord → Option PublicKey → Option PublicKey
  key_of_records [] key = key
  key_of_records (txt entries ∷ rs) key = key_of_records rs (key_of_entries entries key)
  key_of_records (other ∷ rs) key = key_of_records rs key

  abbrev pub record_if : Bytes → Option PublicKey → List FnRecord → List FnRecord
  record_if nh none rest = rest
  record_if nh (some key) rest = record { name_hash = nh; public_key = key } ∷ rest

  -- `ExtractTXTRecordsTx`; the hash stands for its hex text.
  unfoldable pub extract_txt_records_tx : List Output → List FnRecord
  extract_txt_records_tx [] = []
  extract_txt_records_tx (named nh (some rs) ∷ outs) =
      record_if nh (key_of_records rs none) (extract_txt_records_tx outs)
  extract_txt_records_tx (named nh none ∷ outs) = extract_txt_records_tx outs
  extract_txt_records_tx (malformed ∷ outs) = extract_txt_records_tx outs
  extract_txt_records_tx (unnamed ∷ outs) = extract_txt_records_tx outs

-- The inner loop of `ExtractTXTRecordsBlock`, over the records of a transaction.
abbrev pub add_order : Option FnRecord → Bytes → List Bytes → List Bytes
add_order none nh order = order ++ (nh ∷ [])
add_order (some old) nh order = order

unfoldable pub collect :
    List FnRecord → Map Bytes FnRecord → List Bytes → Map Bytes FnRecord × List Bytes
collect [] uniq order = (uniq, order)
collect (r ∷ rs) uniq order =
    collect rs (put bytes_dec r.name_hash r uniq)
      (add_order (get bytes_dec r.name_hash uniq) r.name_hash order)

-- The loop that lists the records; an entry of the order is always in the map.
unfoldable pub listed : List Bytes → Map Bytes FnRecord → List FnRecord
listed [] uniq = []
listed (nh ∷ order) uniq = elim (get bytes_dec nh uniq) [
  | some r ↦ r ∷ listed order uniq
  | none ↦ listed order uniq
]

module _ (decode_base64 : Bytes → Option Bytes) (parse_pub_key : Bytes → Option PublicKey) where
  unfoldable pub collect_block :
      Block → Map Bytes FnRecord → List Bytes → Map Bytes FnRecord × List Bytes
  collect_block [] uniq order = (uniq, order)
  collect_block (tx ∷ txs) uniq order =
      let c = collect (extract_txt_records_tx decode_base64 parse_pub_key tx) uniq order in
      collect_block txs c.0 c.1

  -- `ExtractTXTRecordsBlock`
  unfoldable pub extract_txt_records_block : Block → List FnRecord
  extract_txt_records_block block = let c = collect_block block [] [] in listed c.1 c.0

-- What RPCGetBlockHexByHeight and RPCGetNameByHash answer, with the hex and the block decoded.
pub record Chain : Type 0 where
  pub block_at : ℕ → Option Block
  pub name_of : Bytes → Option Name

-- `fetchBlocks`: every worker runs, and one error fails all.
abbrev pub with_block : Option Block → Option (List Block) → Option (List Block)
with_block (some b) (some bs) = some (b ∷ bs)
with_block (some b) none = none
with_block none bs = none

unfoldable pub fetch_blocks : (ℕ → Option Block) → ℕ → ℕ → Option (List Block)
fetch_blocks block_at start zero = some []
fetch_blocks block_at start (suc count) =
    with_block (block_at start) (fetch_blocks block_at (start + 1) count)

-- The names of the records, in their order; one that is missing fails all.
abbrev pub with_name :
    Option Name → FnRecord → Option (List (Name × PublicKey)) → Option (List (Name × PublicKey))
with_name (some n) r (some rest) = some ((n, r.public_key) ∷ rest)
with_name (some n) r none = none
with_name none r rest = none

unfoldable pub resolve : (Bytes → Option Name) → List FnRecord → Option (List (Name × PublicKey))
resolve name_of [] = some []
resolve name_of (r ∷ rs) = with_name (name_of r.name_hash) r (resolve name_of rs)

-- How a sync ends: at the end of its loop, by an early return, or by a panic; a loop that is cut
-- has no fuel.
pub data SyncEnd (Db : Type 0) : Type 0 where
  imported stopped crashed : Db → SyncEnd Db
  out_of_fuel : SyncEnd Db

module _ (L : Leveldb) (J : JsonText) (decode_base64 : Bytes → Option Bytes)
    (parse_pub_key : Bytes → Option PublicKey) (chain : Chain) where
  -- The callback of WithTx: the names of a block, its height, and the mark at the last block.
  unfoldable pub put_names : List (Name × PublicKey) → ℕ → Stateful L.Tx DbError (Unit {0})
  put_names [] height = pure tt
  put_names ((name, key) ∷ names) height =
      set_name_info_tx L J parse_pub_key name key height >> put_names names height

  unfoldable pub import_block_tx :
      List (Name × PublicKey) → ℕ → ℕ → Stateful L.Tx DbError (Unit {0})
  import_block_tx names height confirmed = do
    put_names names height
    set_last_name_import_height_tx L height
    if height == confirmed - 1 then set_initial_import_complete_tx L else pure tt

  abbrev pub import_names :
      Option (List (Name × PublicKey)) → ℕ → ℕ → L.Db → Outcome DbError (Unit {0}) × L.Db
  import_names none height confirmed db = (err failed, db)
  import_names (some names) height confirmed db =
      with_tx L db (import_block_tx names height confirmed)

  unfoldable pub import_block : Block → ℕ → ℕ → L.Db → Outcome DbError (Unit {0}) × L.Db
  import_block block height confirmed db =
      import_names
        (resolve chain.name_of (extract_txt_records_block decode_base64 parse_pub_key block)) height
        confirmed db

  -- The loop over the blocks that were fetched.
  abbrev pub and_then :
      Outcome DbError (Unit {0}) × L.Db
      → (L.Db → Outcome DbError (Unit {0}) × L.Db)
      → Outcome DbError (Unit {0}) × L.Db
  and_then (ok u, db) f = f db
  and_then (err e, db) f = (err e, db)
  and_then (panicked, db) f = (panicked, db)

  unfoldable pub import_blocks : List Block → ℕ → ℕ → L.Db → Outcome DbError (Unit {0}) × L.Db
  import_blocks [] height confirmed db = (ok tt, db)
  import_blocks (b ∷ bs) height confirmed db =
      and_then (import_block b height confirmed db) (import_blocks bs (height + 1) confirmed)

  abbrev pub delta_of : ℕ → ℕ → ℕ → ℕ
  delta_of workers height confirmed =
      if ltb workers (confirmed - height) then workers else confirmed - height

  abbrev pub go_on : Outcome DbError (Unit {0}) × L.Db → (L.Db → SyncEnd L.Db) → SyncEnd L.Db
  go_on (ok u, db) f = f db
  go_on (err e, db) f = stopped db
  go_on (panicked, db) f = crashed db

  abbrev pub with_blocks :
      Option (List Block) → ℕ → ℕ → L.Db → (ℕ → L.Db → SyncEnd L.Db) → SyncEnd L.Db
  with_blocks none height confirmed db f = stopped db
  with_blocks (some bs) height confirmed db f =
      go_on (import_blocks bs height confirmed db) (f (height + length bs))

  -- The loop of `doSync` from a height on.
  unfoldable pub import_loop : ℕ → ℕ → ℕ → ℕ → L.Db → SyncEnd L.Db
  import_loop zero workers height confirmed db = out_of_fuel
  import_loop (suc fuel) workers height confirmed db = elim (ltb height confirmed) [
    | true ↦
        with_blocks (fetch_blocks chain.block_at height (delta_of workers height confirmed)) height
          confirmed db (λ h d. import_loop fuel workers h confirmed d)
    | false ↦ imported db
  ]

  abbrev pub from_height : ℕ → ℕ → ℕ → Outcome DbError ℕ → L.Db → SyncEnd L.Db
  from_height fuel workers confirmed (ok synced) db =
      if ltb synced confirmed
      then import_loop fuel workers (synced + 1) confirmed db
      else stopped db
  from_height fuel workers confirmed (err e) db = stopped db
  from_height fuel workers confirmed panicked db = crashed db

  -- `doSync` with the info of a chain that is verified far enough and has so many blocks.
  unfoldable pub do_sync : ℕ → ℕ → ℕ → ℕ → L.Db → SyncEnd L.Db
  do_sync fuel workers confirmation_depth blocks db =
      if ltb blocks confirmation_depth
      then stopped db
      else from_height fuel workers (blocks - confirmation_depth) (get_last_name_import_height L db)
          db
