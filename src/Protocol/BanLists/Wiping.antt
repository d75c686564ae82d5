-- ===== src/Protocol/BanLists/Wiping.antt =====
-- protocol/moderation.go on a disk that does not fail: what a list that cannot be fetched leaves.
use fnd.Base.{
  ℕ, ◌+◌, ◌≤◌, ◌≡◌, refl, ap, ◌∙◌, false, some, List, [], ◌∷◌, Outcome, ok, err, ltb-false,
}
use fnd.Base.Text.{strip_prefix}
use fnd.Store.Types.{Name}
use fnd.Store.Interface.{DbError}
use fnd.Store.Keys.{key_bytes, ban, bans_prefix}
use fnd.Store.Leveldb.{Leveldb, IsHealthy, is_some}
use fnd.Store.Truncation.{delete_keys-empties}
use fnd.Store.Moderation.{get_last_ban_list_import_at, truncate_banned_names, name_is_banned}
use fnd.Store.Views.{tx_at, has-at, at-commit, with_tx-fails}
use fnd.Protocol.BanLists.{ban_list_update_interval, ban_lists, ingest_tx, ingest_ban_lists}

module _ (L : Leveldb) (H : IsHealthy L) (delete_blob : Name → Outcome DbError (Unit {0})) where
  -- If the ban lists are due and the first of them cannot be fetched, IngestBanLists returns the
  -- error, and yet no name is banned any more.
  pub ingest_ban_lists-wipes :
      (now rev : ℕ) (e : DbError) (lists : List (Outcome DbError (List Name))) (db : L.Db)
      → get_last_ban_list_import_at L db ≡ ok (some rev)
      → rev + ban_list_update_interval ≤ now
      → ((ingest_ban_lists L delete_blob now (err e ∷ lists) db).0 ≡ err e)
        × ((name : Name)
            → name_is_banned L (ingest_ban_lists L delete_blob now (err e ∷ lists) db).1 name
              ≡ ok false)
  unfolding ingest_ban_lists ingest_tx ban_lists truncate_banned_names name_is_banned strip_prefix
      tx_at
  ingest_ban_lists-wipes now rev e lists db at_rev due =
      let (u, runs, empty, same) = delete_keys-empties L H (H.begin db) (bans_prefix []) in
      let failed : ingest_tx L delete_blob (err e ∷ lists) (H.begin db) ≡ (err e, u) =
        rw runs refl in
      rw at_rev (
        rw (ltb-false now (rev + ban_list_update_interval) due) (
          rw (with_tx-fails L H db (ingest_tx L delete_blob (err e ∷ lists)) u e failed) (
            refl,
            λ name.
                has-at L H (L.commit u).1 (ban name)
                ∙ ap (λ o. ok (is_some o))
                    (at-commit L H u (ban name) ∙ empty (key_bytes (ban name)) refl),
          )))
