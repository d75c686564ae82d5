-- ===== src/Protocol/NameImporter/Progress.antt =====
-- protocol/name_importer.go on a disk that does not fail: the heights that a sync stores.
use fnd.Base.{
  ℕ, ◌-◌, ◌≤◌, ◌<◌, ◌≡◌, refl, ap, ◌∙◌, true, false, Option, none, some, List, [], ◌∷◌, arith,
  Outcome, ok, err, panicked, ltb-false, Bool-cases, inl, inr, Option-cases, ◌⊎◌, ◌==◌,
}
use fnd.Base.Bytes.{Bytes}
use fnd.Store.Types.{Name, PublicKey}
use fnd.Store.Interface.{DbError, failed}
use fnd.Store.Ints.{max_int32, must_encode_int, must_decode_int-must_encode_int}
use fnd.Store.Json.{JsonText, Document, name_document, must_marshal_json}
use fnd.Store.Keys.{last_name_import_height, initial_import_complete, name_data}
use fnd.Store.Leveldb.{Leveldb, IsHealthy, found, is_some}
use fnd.Store.Transactions.{with_tx}
use fnd.Store.Headers.{int_or_zero}
use fnd.Store.Views.{
  at, tx_at, after_put, get-at, has-at, put_runs, tx_at-put_self, tx_at-put_other, at-commit,
  with_tx-ends, with_tx-panics,
}
use fnd.Store.Names.{
  get_last_name_import_height, get_initial_import_complete, set_last_name_import_height_tx,
  set_initial_import_complete_tx, set_name_info_tx,
}
use fnd.Protocol.NameImporter.{Chain, put_names, import_block_tx, import_names}

module _ (L : Leveldb) (H : IsHealthy L) where
  -- The height that the store answers.
  abbrev pub IsAt : L.Db → ℕ → Type 0
  IsAt db h = get_last_name_import_height L db ≡ ok h

  height-at :
      (db : L.Db)
      → get_last_name_import_height L db ≡ int_or_zero (found (at L H db last_name_import_height))
  unfolding get_last_name_import_height
  height-at db = rw (get-at L H db last_name_import_height) refl

  complete-at :
      (db : L.Db)
      → get_initial_import_complete L db ≡ ok (is_some (at L H db initial_import_complete))
  unfolding get_initial_import_complete
  complete-at db = has-at L H db initial_import_complete

  module _ (J : JsonText) (decode_base64 : Bytes → Option Bytes)
      (parse_pub_key : Bytes → Option PublicKey) (chain : Chain) where
    -- A callback ends, or panics; on a disk that does not fail it returns no error.
    abbrev Goes : Outcome DbError (Unit {0}) × L.Tx → Type 0
    Goes r = ((u : L.Tx) × (r ≡ (ok tt, u))) ⊎ ((u : L.Tx) × (r ≡ (panicked, u)))

    set_name_info_tx-Goes :
        (name : Name) (key : PublicKey) (height : ℕ) (t : L.Tx)
        → Goes (set_name_info_tx L J parse_pub_key name key height t)
    unfolding set_name_info_tx must_marshal_json
    set_name_info_tx-Goes name key height t = elim (Option-cases (J.marshal doc)) [
      | inl e ↦ inr (t, rw e refl)
      | inr (b, e) ↦
          inl (after_put L H (name_data name) b t, rw e (put_runs L H t (name_data name) b))
    ]
      where
        doc : Document
        doc = name_document (record { name = name; public_key = key; import_height = height })

    put_names-Goes :
        (names : List (Name × PublicKey)) (height : ℕ) (t : L.Tx)
        → Goes (put_names L J decode_base64 parse_pub_key chain names height t)
    unfolding put_names
    put_names-Goes [] height t = inl (t, refl)
    put_names-Goes ((name, key) ∷ names) height t =
        first (set_name_info_tx-Goes name key height t) (put_names-Goes names height)
      where
        first :
            Goes (set_name_info_tx L J parse_pub_key name key height t)
            → ((u : L.Tx) → Goes (put_names L J decode_base64 parse_pub_key chain names height u))
            → Goes (put_names L J decode_base64 parse_pub_key chain ((name, key) ∷ names) height t)
        first (inl (u, e)) rest = rw e (rest u)
        first (inr (u, e)) rest = inr (u, rw e refl)

    -- What the transaction of a block leaves where it ends: the height, and at the last block the
    -- mark.
    record Marks (height confirmed : ℕ) (u : L.Tx) : Type 0 where
      height_put : tx_at L H u last_name_import_height ≡ some (must_encode_int height)
      mark_put : height ≡ confirmed - 1 → tx_at L H u initial_import_complete ≡ some (1 ∷ [])

    abbrev after_height : ℕ → L.Tx → L.Tx
    after_height height u = after_put L H last_name_import_height (must_encode_int height) u

    abbrev after_mark : L.Tx → L.Tx
    after_mark u = after_put L H initial_import_complete (1 ∷ []) u

    ending :
        (names : List (Name × PublicKey)) (height confirmed : ℕ) (t u : L.Tx)
        → put_names L J decode_base64 parse_pub_key chain names height t ≡ (ok tt, u)
        → (w : L.Tx) × (import_block_tx L J decode_base64 parse_pub_key chain names height confirmed
              t
            ≡ (ok tt, w))
          × Marks height confirmed w
    unfolding import_block_tx set_last_name_import_height_tx set_initial_import_complete_tx
    ending names height confirmed t u e = elim (Bool-cases (height == confirmed - 1)) [
      | inl y ↦ (
        after_mark (after_height height u),
        rw e (
            rw y (
              rw (put_runs L H u last_name_import_height (must_encode_int height))
                (put_runs L H (after_height height u) initial_import_complete (1 ∷ [])))),
        record {
          height_put =
              tx_at-put_other L H (after_height height u) initial_import_complete
                last_name_import_height (1 ∷ []) (λ p. cc)
              ∙ tx_at-put_self L H u last_name_import_height (must_encode_int height);
          mark_put =
              λ q. tx_at-put_self L H (after_height height u) initial_import_complete (1 ∷ []);
        },
      )
      | inr n ↦ (
        after_height height u,
        rw e (rw n (rw (put_runs L H u last_name_import_height (must_encode_int height)) refl)),
        record {
          height_put = tx_at-put_self L H u last_name_import_height (must_encode_int height);
          mark_put = λ q. absurd (differs n q);
        },
      )
    ]
      where
        differs : (height == confirmed - 1) ≡ false → height ≡ confirmed - 1 → ⊥
        differs n q = ground arith

    module _ (confirmed : ℕ) (small : confirmed ≤ max_int32) where
      -- The store is at a height, and at the last one the import is marked complete.
      abbrev pub Reaches : L.Db → ℕ → Type 0
      Reaches db h = IsAt db h × (h ≡ confirmed - 1 → get_initial_import_complete L db ≡ ok true)

      committed-Reaches :
          (height : ℕ) (w : L.Tx)
          → height < confirmed
          → Marks height confirmed w
          → Reaches (L.commit w).1 height
      committed-Reaches height w h m = (
        height-at (L.commit w).1
            ∙ ap (λ o. int_or_zero (found o))
                (at-commit L H w last_name_import_height ∙ m.height_put)
            ∙ must_decode_int-must_encode_int height (omega arith)
            ∙ rw (ltb-false max_int32 height (omega arith)) refl,
        λ q.
            complete-at (L.commit w).1
            ∙ ap (λ o. ok (is_some o)) (at-commit L H w initial_import_complete ∙ m.mark_put q),
      )

      -- How the import of a block ends: with its height stored, or with the store as it was.
      abbrev pub Ends : ℕ → L.Db → Outcome DbError (Unit {0}) × L.Db → Type 0
      Ends height db r =
          ((d : L.Db) × (r ≡ (ok tt, d)) × Reaches d height)
          ⊎ ((e : DbError) × (r ≡ (err e, db)))
          ⊎ (r ≡ (panicked, db))

      pub import_names-Ends :
          (names : Option (List (Name × PublicKey))) (height : ℕ) (db : L.Db)
          → height < confirmed
          → Ends height db
              (import_names L J decode_base64 parse_pub_key chain names height confirmed db)
      import_names-Ends none height db h = inr (inl (failed, refl))
      import_names-Ends (some names) height db h =
          finished (put_names-Goes names height (H.begin db))
        where
          finished :
              Goes (put_names L J decode_base64 parse_pub_key chain names height (H.begin db))
              → Ends height db (
                  with_tx L db
                    (import_block_tx L J decode_base64 parse_pub_key chain names height confirmed))
          finished (inl (u, e)) =
              let (w, q, m) = ending names height confirmed (H.begin db) u e in
              inl (
                (L.commit w).1,
                with_tx-ends L H db
                    (import_block_tx L J decode_base64 parse_pub_key chain names height confirmed) w
                    q,
                committed-Reaches height w h m,
              )
          finished (inr (u, e)) = inr (
              inr (
                with_tx-panics L H db
                  (import_block_tx L J decode_base64 parse_pub_key chain names height confirmed) u
                  (unfold import_block_tx in rw e refl)))
