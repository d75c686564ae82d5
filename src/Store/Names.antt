-- ===== src/Store/Names.antt =====
-- store/naming.go: the names that were imported, and how far the import has come.
use fnd.Base.{ℕ, ◌+◌, ◌%◌, Bool, Option, none, some, List, [], ◌∷◌, Outcome, ok, err, panicked}
use fnd.Base.Bytes.{Bytes}
use fnd.Base.Stateful.{Stateful, ◌>>=◌, lift}
use fnd.Store.Types.{Name, NameInfo, PublicKey}
use fnd.Store.Interface.{DbError}
use fnd.Store.Keys.{
  last_name_import_height_key, initial_import_complete_key, name_data_prefix, names_prefix,
}
use fnd.Store.Ints.{must_encode_int}
use fnd.Store.Json.{JsonText, name_document, must_marshal_json, read_name}
use fnd.Store.Leveldb.{Leveldb}
use fnd.Store.Transactions.{with_tx}
use fnd.Store.Headers.{int_or_zero, then_read, delete_keys}

-- The last byte of the start of a range, raised by one as a byte.
abbrev pub bump_last : Bytes → Bytes
bump_last [] = []
bump_last (b ∷ []) = (b + 1) % 256 ∷ []
bump_last (b ∷ (c ∷ rest)) = b ∷ bump_last (c ∷ rest)

module _ (L : Leveldb) where
  -- `GetLastNameImportHeight`
  unfoldable pub get_last_name_import_height : L.Db → Outcome DbError ℕ
  get_last_name_import_height db = int_or_zero (L.get db last_name_import_height_key)

  -- `SetLastNameImportHeightTx`
  unfoldable pub set_last_name_import_height_tx : ℕ → Stateful L.Tx DbError (Unit {0})
  set_last_name_import_height_tx height =
      L.tx_put last_name_import_height_key (must_encode_int height)

  -- `GetInitialImportComplete`
  unfoldable pub get_initial_import_complete : L.Db → Outcome DbError Bool
  get_initial_import_complete db = L.has db initial_import_complete_key

  -- `SetInitialImportCompleteTx`
  unfoldable pub set_initial_import_complete_tx : Stateful L.Tx DbError (Unit {0})
  set_initial_import_complete_tx = L.tx_put initial_import_complete_key (1 ∷ [])

  -- `TruncateNameStore`
  unfoldable pub truncate_name_store : L.Db → Outcome DbError (Unit {0}) × L.Db
  truncate_name_store db =
      with_tx L db (λ tx. delete_keys L (L.tx_prefix_keys tx (names_prefix [])) tx)

  module _ (J : JsonText) (parse_pub_key : Bytes → Option PublicKey) where
    -- `GetNameInfo`
    unfoldable pub get_name_info : L.Db → Name → Outcome DbError NameInfo
    get_name_info db name =
        then_read (L.get db (name_data_prefix (name ∷ []))) (read_name J parse_pub_key)

    -- `SetNameInfoTx`
    unfoldable pub set_name_info_tx : Name → PublicKey → ℕ → Stateful L.Tx DbError (Unit {0})
    set_name_info_tx name key height = do
      b ← lift (
          must_marshal_json J
            (name_document (record { name = name; public_key = key; import_height = height })))
      L.tx_put (name_data_prefix (name ∷ [])) b

    -- `StreamNameInfo`: the values that the iterator will pass.
    unfoldable pub stream_name_info : L.Db → Name → List Bytes
    stream_name_info db [] = L.prefix_values db (name_data_prefix [])
    stream_name_info db (c ∷ start) =
        L.range_values db (bump_last (name_data_prefix ((c ∷ start) ∷ [])))
          (name_data_prefix ((255 ∷ []) ∷ []))

    abbrev one_more :
        Outcome DbError NameInfo → List Bytes → Outcome DbError (Option NameInfo × List Bytes)
    one_more (ok info) rest = ok (some info, rest)
    one_more (err e) rest = err e
    one_more panicked rest = panicked

    -- `(*NameInfoStream).Next`: `none` at the end.
    unfoldable pub next_name_info : List Bytes → Outcome DbError (Option NameInfo × List Bytes)
    next_name_info [] = ok (none, [])
    next_name_info (b ∷ rest) = one_more (read_name J parse_pub_key b) rest
