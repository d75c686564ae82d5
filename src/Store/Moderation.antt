-- ===== src/Store/Moderation.antt =====
-- store/moderation.go: the names that the ban lists ban; and store/equivocation_proof.go.
use fnd.Base.{ℕ, Bool, some, [], ◌∷◌, Outcome, ok, err, panicked}
use fnd.Base.Bytes.{Bytes}
use fnd.Base.Stateful.{Stateful}
use fnd.Store.Types.{Name, Time, EquivocationProof}
use fnd.Store.Interface.{DbError, not_found, failed}
use fnd.Store.Keys.{
  last_ban_list_import_at_key, ban_prefix, bans_prefix, equivocation_proofs_prefix,
}
use fnd.Store.Ints.{encode_time, must_decode_time}
use fnd.Store.Leveldb.{Leveldb}
use fnd.Store.Headers.{delete_keys}

-- A list that was never imported was imported in 1970.
abbrev pub epoch_if_missing : Outcome DbError Bytes → Outcome DbError Time
epoch_if_missing (ok res) = must_decode_time (some res)
epoch_if_missing (err not_found) = ok (some 0)
epoch_if_missing (err failed) = err failed
epoch_if_missing panicked = panicked

module _ (L : Leveldb) where
  -- `GetLastBanListImportAt`
  unfoldable pub get_last_ban_list_import_at : L.Db → Outcome DbError Time
  get_last_ban_list_import_at db = epoch_if_missing (L.get db last_ban_list_import_at_key)

  -- `SetLastBanListImportAt`
  unfoldable pub set_last_ban_list_import_at : ℕ → Stateful L.Tx DbError (Unit {0})
  set_last_ban_list_import_at t = L.tx_put last_ban_list_import_at_key (encode_time t)

  -- `NameIsBanned`
  unfoldable pub name_is_banned : L.Db → Name → Outcome DbError Bool
  name_is_banned db name = L.has db (ban_prefix (name ∷ []))

  -- `TruncateBannedNames`
  unfoldable pub truncate_banned_names : Stateful L.Tx DbError (Unit {0})
  truncate_banned_names tx = delete_keys L (L.tx_prefix_keys tx (bans_prefix [])) tx

  -- `BanName`
  unfoldable pub ban_name_tx : Name → Stateful L.Tx DbError (Unit {0})
  ban_name_tx name = L.tx_put (ban_prefix (name ∷ [])) (1 ∷ [])

  -- `GetEquivocationProof`
  unfoldable pub get_equivocation_proof : L.Db → Name → Outcome DbError Bytes
  get_equivocation_proof db name = L.get db (equivocation_proofs_prefix (name ∷ []))

  -- `SetEquivocationProofTx`; `encode_proof` is what Encode writes.
  unfoldable pub set_equivocation_proof_tx :
      (EquivocationProof → Bytes) → Name → EquivocationProof → Stateful L.Tx DbError (Unit {0})
  set_equivocation_proof_tx encode_proof name proof =
      L.tx_put (equivocation_proofs_prefix (name ∷ [])) (encode_proof proof)
