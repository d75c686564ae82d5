-- ===== src/Store/Truncation.antt =====
-- store/headers.go, naming.go, peers.go and moderation.go: the loops that delete all keys of a
-- prefix, on a disk that does not fail.
use fnd.Base.{
  ℕ, ok, err, ◌≡◌, ◌≢◌, refl, sym, ap, ◌∙◌, Option, none, some, List, [], ◌∷◌, ◌⊎◌, subst, if_pos,
  if_neg, inl, inr, ite, Option-cases, All,
}
use fnd.Base.Bytes.{Bytes, bytes_dec}
use fnd.Base.Stateful.{continue}
use fnd.Store.Interface.{not_found}
use fnd.Store.Leveldb.{Leveldb, IsHealthy, In, HasPrefix, is_some, found}
use fnd.Store.Transactions.{with_tx}
use fnd.Store.Types.{Name, PublicKey}
use fnd.Base.Text.{strip_prefix}
use fnd.Store.Keys.{
  Key, key_bytes, header_count, header_data, sector_hashes, header_ban, name_data, ban, whitelist,
  peer_in_ban, peer_out_ban, headers_prefix,
}
use fnd.Store.Json.{JsonText, read_header, read_name}
use fnd.Store.Views.{at, get-at, has-at, with_tx-ends}
use fnd.Blob.Hash.{decode}
use fnd.Store.Headers.{
  int_or_zero, then_read, decoded, ban_if, delete_keys, get_header_count, get_header,
  get_sector_hashes, get_header_ban, truncate_header_store,
}
use fnd.Store.Headers.Readback.{
  get_header_count-at, get_header-at, get_sector_hashes-at, get_header_ban-at,
}
use fnd.Store.Names.{get_name_info}
use fnd.Store.Moderation.{name_is_banned}
use fnd.Store.Peers.{is_banned}
use fnd.Store.Peers.Bans.{answer_kept}

module _ (L : Leveldb) (H : IsHealthy L) where
  after_all : List Bytes → L.Tx → L.Tx
  after_all [] t = t
  after_all (k ∷ ks) t = after_all ks (L.tx_delete k t).1

  delete_keys_runs : (ks : List Bytes) (t : L.Tx) → delete_keys L ks t ≡ (ok tt, after_all ks t)
  unfolding delete_keys after_all
  delete_keys_runs [] t = refl
  delete_keys_runs (k ∷ ks) t =
      ap (λ r. continue r (λ _. delete_keys L ks) (L.tx_delete k t).1) (H.delete_succeeds t k)
      ∙ delete_keys_runs ks (L.tx_delete k t).1

  -- A key that is missing stays missing.
  stays_missing :
      (ks : List Bytes) (t : L.Tx) (j : Bytes)
      → H.pending t j ≡ none
      → H.pending (after_all ks t) j ≡ none
  unfolding after_all
  stays_missing [] t j e = e
  stays_missing (k ∷ ks) t j e =
      stays_missing ks (L.tx_delete k t).1 j (H.pending-delete t k j ∙ either (bytes_dec k j))
    where
      either : (dec : Dec (k ≡ j)) → ite dec none (H.pending t j) ≡ none
      either (yes p) = refl
      either (no p) = e

  deleted : (ks : List Bytes) (t : L.Tx) (j : Bytes) → In j ks → H.pending (after_all ks t) j ≡ none
  unfolding after_all
  deleted [] t j h = absurd h
  deleted (k ∷ ks) t j (inl e) =
      stays_missing ks (L.tx_delete k t).1 j
        (H.pending-delete t k j ∙ if_pos (bytes_dec k j) (sym e) _ _)
  deleted (k ∷ ks) t j (inr h) = deleted ks (L.tx_delete k t).1 j h

  kept :
      (ks : List Bytes) (t : L.Tx) (j : Bytes)
      → All (λ k. k ≢ j) ks
      → H.pending (after_all ks t) j ≡ H.pending t j
  unfolding after_all
  kept [] t j a = refl
  kept (k ∷ ks) t j a =
      kept ks (L.tx_delete k t).1 j a.1 ∙ H.pending-delete t k j ∙ if_neg (bytes_dec k j) a.0 _ _

  All-outside :
      (p j : Bytes) (ks : List Bytes) → ¬ HasPrefix p j → All (HasPrefix p) ks → All (λ k. k ≢ j) ks
  All-outside p j [] h a = tt
  All-outside p j (k ∷ ks) h a = ((λ e. h (subst (HasPrefix p) e a.0)), All-outside p j ks h a.1)

  -- The same within a transaction.
  pub delete_keys-empties :
      (t : L.Tx) (p : Bytes)
      → (u : L.Tx) × (delete_keys L (L.tx_prefix_keys t p) t ≡ (ok tt, u))
        × ((k : Bytes) → HasPrefix p k → H.pending u k ≡ none)
        × ((k : Bytes) → ¬ HasPrefix p k → H.pending u k ≡ H.pending t k)
  delete_keys-empties t p = (
    after_all (L.tx_prefix_keys t p) t,
    delete_keys_runs (L.tx_prefix_keys t p) t,
    λ k h. gone k h (Option-cases (H.pending t k)),
    λ k h.
        kept (L.tx_prefix_keys t p) t k
          (All-outside p k (L.tx_prefix_keys t p) h (H.keys_sound t p)),
  )
    where
      gone :
          (k : Bytes)
          → HasPrefix p k
          → (H.pending t k ≡ none) ⊎ ((v : Bytes) × (H.pending t k ≡ some v))
          → H.pending (after_all (L.tx_prefix_keys t p) t) k ≡ none
      gone k h (inl e) = stays_missing (L.tx_prefix_keys t p) t k e
      gone k h (inr (v, e)) = deleted (L.tx_prefix_keys t p) t k (H.keys_complete t p k v h e)

  truncate-empties :
      (d : L.Db) (p : Bytes)
      → ((with_tx L d (λ tx. delete_keys L (L.tx_prefix_keys tx p) tx)).0 ≡ ok tt)
        × ((k : Bytes)
            → HasPrefix p k
            → H.stored (with_tx L d (λ tx. delete_keys L (L.tx_prefix_keys tx p) tx)).1 k ≡ none)
        × ((k : Bytes)
            → ¬ HasPrefix p k
            → H.stored (with_tx L d (λ tx. delete_keys L (L.tx_prefix_keys tx p) tx)).1 k
              ≡ H.stored d k)
  truncate-empties d p =
      let (u, runs, empty, same) = delete_keys-empties (H.begin d) p in
      rw (with_tx-ends L H d (λ tx. delete_keys L (L.tx_prefix_keys tx p) tx) u runs) (
        refl,
        λ k h. H.stored-commit u k ∙ empty k h,
        λ k h. H.stored-commit u k ∙ same k h ∙ H.pending-begin d k,
      )

  -- The keys of a database after such a transaction.
  truncated :
      (d : L.Db) (p : Bytes) (k : Key)
      → HasPrefix p (key_bytes k)
      → at L H (with_tx L d (λ tx. delete_keys L (L.tx_prefix_keys tx p) tx)).1 k ≡ none
  unfolding at
  truncated d p k h = (truncate-empties d p).1 (key_bytes k) h

  untouched :
      (d : L.Db) (p : Bytes) (k : Key)
      → ¬ HasPrefix p (key_bytes k)
      → at L H (with_tx L d (λ tx. delete_keys L (L.tx_prefix_keys tx p) tx)).1 k ≡ at L H d k
  unfolding at
  untouched d p k h = (truncate-empties d p).2 (key_bytes k) h

  -- TruncateHeaderStore succeeds. Afterwards the count of headers is zero, no name has a header,
  -- hashes or a header ban, and the names, the ban list and the bans of peers are as before.
  pub truncate_header_store-empties :
      (J : JsonText) (parse_pub_key : Bytes → Option PublicKey) (d : L.Db) (name : Name) (now : ℕ)
      (ip : Bytes)
      → ((truncate_header_store L d).0 ≡ ok tt)
        × (get_header_count L (truncate_header_store L d).1 ≡ ok 0)
        × (get_header L J (truncate_header_store L d).1 name ≡ err not_found)
        × (get_sector_hashes L (truncate_header_store L d).1 name ≡ err not_found)
        × (get_header_ban L (truncate_header_store L d).1 name ≡ ok none)
        × (get_name_info L J parse_pub_key (truncate_header_store L d).1 name
            ≡ get_name_info L J parse_pub_key d name)
        × (name_is_banned L (truncate_header_store L d).1 name ≡ name_is_banned L d name)
        × (is_banned L (truncate_header_store L d).1 now ip ≡ is_banned L d now ip)
  unfolding truncate_header_store get_name_info name_is_banned strip_prefix
  truncate_header_store-empties J parse_pub_key d name now ip = (
    (truncate-empties d (headers_prefix [])).0,
    get_header_count-at L H e
        ∙ ap (λ o. int_or_zero (found o)) (truncated d (headers_prefix []) header_count refl),
    get_header-at L H J e name
        ∙ ap (λ o. then_read (found o) (read_header J))
            (truncated d (headers_prefix []) (header_data name) refl),
    get_sector_hashes-at L H e name
        ∙ ap (λ o. then_read (found o) (λ b. decoded (decode b)))
            (truncated d (headers_prefix []) (sector_hashes name) refl),
    get_header_ban-at L H e name
        ∙ ap (λ o. ban_if (ok (is_some o)) (found o))
            (truncated d (headers_prefix []) (header_ban name) refl),
    ap (λ r. then_read r (read_name J parse_pub_key)) (get_kept (name_data name) (λ p. cc)),
    has-at L H e (ban name)
        ∙ ap (λ o. ok (is_some o)) (untouched d (headers_prefix []) (ban name) (λ p. cc))
        ∙ sym (has-at L H d (ban name)),
    answer_kept L H d e now ip (untouched d (headers_prefix []) (whitelist ip) (λ p. cc))
        (untouched d (headers_prefix []) (peer_in_ban ip) (λ p. cc))
        (untouched d (headers_prefix []) (peer_out_ban ip) (λ p. cc)),
  )
    where
      e : L.Db
      e = (with_tx L d (λ tx. delete_keys L (L.tx_prefix_keys tx (headers_prefix [])) tx)).1

      get_kept :
          (k : Key)
          → ¬ HasPrefix (headers_prefix []) (key_bytes k)
          → L.get e (key_bytes k) ≡ L.get d (key_bytes k)
      get_kept k h =
          get-at L H e k ∙ ap found (untouched d (headers_prefix []) k h) ∙ sym (get-at L H d k)
