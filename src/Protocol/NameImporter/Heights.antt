-- ===== src/Protocol/NameImporter/Heights.antt =====
-- protocol/name_importer.go: the loops of doSync over the heights, on a disk that does not fail.
use fnd.Base.{
  ℕ, zero, suc, ◌+◌, ◌-◌, ◌≤◌, ◌<◌, ◌≡◌, refl, sym, subst, false, Option, none, some, List, [], ◌∷◌,
  arith, Outcome, ok, err, panicked, ltb, length, Bool-cases, inl, inr, ltb→lt, lt→ltb, ltb-false,
}
use fnd.Base.Bytes.{Bytes}
use fnd.Store.Types.{PublicKey}
use fnd.Store.Interface.{DbError}
use fnd.Store.Ints.{max_int32}
use fnd.Store.Json.{JsonText}
use fnd.Store.Leveldb.{Leveldb, IsHealthy}
use fnd.Protocol.NameImporter.{
  Block, Chain, SyncEnd, imported, stopped, crashed, out_of_fuel, resolve,
  extract_txt_records_block, import_block, and_then, import_blocks, fetch_blocks, delta_of, go_on,
  with_blocks, import_loop, do_sync,
}
use fnd.Protocol.NameImporter.Termination.{length-fetch_blocks}
use fnd.Protocol.NameImporter.Progress.{IsAt, Reaches, Ends, import_names-Ends}

module _ (L : Leveldb) (H : IsHealthy L) (J : JsonText) (decode_base64 : Bytes → Option Bytes)
    (parse_pub_key : Bytes → Option PublicKey) (chain : Chain) (confirmed : ℕ)
    (small : confirmed ≤ max_int32) where
  abbrev Reached : L.Db → ℕ → Type 0
  Reached = Reaches L H J decode_base64 parse_pub_key chain confirmed small

  -- A store that has come to a height from `low` on, and below `high`.
  abbrev pub Between : ℕ → ℕ → L.Db → Type 0
  Between low high d = (h : ℕ) × Reached d h × (low ≤ h) × (h < high)

  -- How a loop over blocks ends: with the height of the last, or with that of a block before it.
  abbrev Run : ℕ → ℕ → Outcome DbError (Unit {0}) × L.Db → Type 0
  Run last n (ok u, d) = Reached d (last + n)
  Run last n (err e, d) = Between last (last + n) d
  Run last n (panicked, d) = Between last (last + n) d

  widen :
      (last n : ℕ) (r : Outcome DbError (Unit {0}) × L.Db) → Run (last + 1) n r → Run last (suc n) r
  widen last n (ok u, d) h = subst (Reached d) (omega arith) h
  widen last n (err e, d) (h, a, b, c) = (h, a, omega arith, omega arith)
  widen last n (panicked, d) (h, a, b, c) = (h, a, omega arith, omega arith)

  one_more :
      (last n : ℕ) (db : L.Db) (r : Outcome DbError (Unit {0}) × L.Db)
      (f : L.Db → Outcome DbError (Unit {0}) × L.Db)
      → Reached db last
      → Ends L H J decode_base64 parse_pub_key chain confirmed small (last + 1) db r
      → ((d : L.Db) → Reached d (last + 1) → Run (last + 1) n (f d))
      → Run last (suc n) (and_then L J decode_base64 parse_pub_key chain r f)
  one_more last n db r f at_last (inl (d, e, reached)) rest =
      rw e (widen last n (f d) (rest d reached))
  one_more last n db r f at_last (inr (inl (x, e))) rest =
      rw e (last, at_last, omega arith, omega arith)
  one_more last n db r f at_last (inr (inr e)) rest = rw e (last, at_last, omega arith, omega arith)

  import_blocks-Run :
      (bs : List Block) (last : ℕ) (db : L.Db)
      → last + length bs < confirmed
      → Reached db last
      → Run last
          (length bs)
          (import_blocks L J decode_base64 parse_pub_key chain bs (last + 1) confirmed db)
  unfolding import_blocks import_block
  import_blocks-Run [] last db h a = subst (Reached db) (omega arith) a
  import_blocks-Run (b ∷ bs) last db h a =
      one_more last (length bs) db
        (import_block L J decode_base64 parse_pub_key chain b (last + 1) confirmed db)
        (import_blocks L J decode_base64 parse_pub_key chain bs (last + 1 + 1) confirmed) a
        (import_names-Ends L H J decode_base64 parse_pub_key chain confirmed small
          (resolve chain.name_of (extract_txt_records_block decode_base64 parse_pub_key b))
          (last + 1) db (omega arith))
        (λ d r. import_blocks-Run bs (last + 1) d (omega arith) r)

  -- What a sync leaves: all heights below the confirmed one, or those up to some height.
  abbrev pub Leaves : ℕ → SyncEnd L.Db → Type 0
  Leaves last (imported d) = Reached d (confirmed - 1)
  Leaves last (stopped d) = Between last confirmed d
  Leaves last (crashed d) = Between last confirmed d
  Leaves last out_of_fuel = Unit {0}

  Leaves-later : (last later : ℕ) (s : SyncEnd L.Db) → last ≤ later → Leaves later s → Leaves last s
  Leaves-later last later (imported d) h a = a
  Leaves-later last later (stopped d) h (k, a, b, c) = (k, a, omega arith, c)
  Leaves-later last later (crashed d) h (k, a, b, c) = (k, a, omega arith, c)
  Leaves-later last later out_of_fuel h a = a

  go_on-Leaves :
      (last n : ℕ) (r : Outcome DbError (Unit {0}) × L.Db) (f : L.Db → SyncEnd L.Db)
      → last + n < confirmed
      → Run last n r
      → ((d : L.Db) → Reached d (last + n) → Leaves (last + n) (f d))
      → Leaves last (go_on L J decode_base64 parse_pub_key chain r f)
  go_on-Leaves last n (ok u, d) f h a rest =
      Leaves-later last (last + n) (f d) (omega arith) (rest d a)
  go_on-Leaves last n (err e, d) f h (k, a, b, c) rest = (k, a, b, omega arith)
  go_on-Leaves last n (panicked, d) f h (k, a, b, c) rest = (k, a, b, omega arith)

  with_blocks-Leaves :
      (o : Option (List Block)) (n last : ℕ) (db : L.Db) (f : ℕ → L.Db → SyncEnd L.Db)
      → ((bs : List Block) → o ≡ some bs → length bs ≡ n)
      → last + n < confirmed
      → last < confirmed
      → Reached db last
      → ((d : L.Db) → Reached d (last + n) → Leaves (last + n) (f (last + 1 + n) d))
      → Leaves last (with_blocks L J decode_base64 parse_pub_key chain o (last + 1) confirmed db f)
  with_blocks-Leaves none n last db f c h l a rest = (last, a, omega arith, l)
  with_blocks-Leaves (some bs) n last db f c h l a rest =
      let e : length bs ≡ n = c bs refl in
      go_on-Leaves last (length bs)
        (import_blocks L J decode_base64 parse_pub_key chain bs (last + 1) confirmed db)
        (f (last + 1 + length bs)) (omega (arith, e))
        (import_blocks-Run bs last db (omega (arith, e)) a)
        (subst (λ k. (d : L.Db) → Reached d (last + k) → Leaves (last + k) (f (last + 1 + k) d))
          (sym e) rest)

  import_loop-Leaves :
      (fuel workers last : ℕ) (db : L.Db)
      → last < confirmed
      → Reached db last
      → Leaves last
          (import_loop L J decode_base64 parse_pub_key chain fuel workers (last + 1) confirmed db)
  unfolding import_loop
  import_loop-Leaves zero workers last db l a = tt
  import_loop-Leaves (suc fuel) workers last db l a = elim (Bool-cases (ltb (last + 1) confirmed)) [
    | inl more ↦
        rw (more, import_loop)
          (with_blocks-Leaves (fetch_blocks chain.block_at (last + 1) n) n last db
            (λ k d. import_loop L J decode_base64 parse_pub_key chain fuel workers k confirmed d)
            (length-fetch_blocks chain.block_at (last + 1) n)
            (fits (ltb→lt (last + 1) confirmed more)) l a
            (λ d r.
              subst
                (λ k.
                  Leaves (last + n)
                    (import_loop L J decode_base64 parse_pub_key chain fuel workers k confirmed d))
                (omega arith)
                (import_loop-Leaves fuel workers (last + n) d
                  (fits (ltb→lt (last + 1) confirmed more)) r)))
    | inr done ↦ rw (done, import_loop) (subst (Reached db) (at_end done) a)
  ]
    where
      n : ℕ
      n = delta_of L J decode_base64 parse_pub_key chain workers (last + 1) confirmed

      fits : last + 1 < confirmed → last + n < confirmed
      fits m = ground arith

      at_end : ltb (last + 1) confirmed ≡ false → last ≡ confirmed - 1
      at_end e = ground arith

module _ (L : Leveldb) (H : IsHealthy L) (J : JsonText) (decode_base64 : Bytes → Option Bytes)
    (parse_pub_key : Bytes → Option PublicKey) (chain : Chain) where
  -- A sync that begins below the confirmed height less one leaves the store, on a disk that does
  -- not fail, at the height of the last confirmed block but one and with the initial import marked
  -- complete, if it runs to its end. If the client or a name stops it, or marshalling a name
  -- panics, the stored height lies from the old one to below the confirmed one, so that the next
  -- sync goes on there.
  pub do_sync-Leaves :
      (fuel workers depth blocks synced : ℕ) (db : L.Db) (small : blocks - depth ≤ max_int32)
      → depth ≤ blocks
      → IsAt L H db synced
      → synced + 1 < blocks - depth
      → Leaves L H J decode_base64 parse_pub_key chain
          (blocks - depth)
          small
          synced
          (do_sync L J decode_base64 parse_pub_key chain fuel workers depth blocks db)
  unfolding do_sync
  do_sync-Leaves fuel workers depth blocks synced db small deep at_synced low =
      rw (ltb-false blocks depth deep) (
        rw at_synced (
          rw (lt→ltb synced (blocks - depth) (omega arith)) (
            import_loop-Leaves L H J decode_base64 parse_pub_key chain (blocks - depth) small fuel
              workers synced db (omega arith) (at_synced, (λ q. absurd (omega arith))))))
