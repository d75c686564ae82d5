-- ===== src/Protocol/NameImporter/Termination.antt =====
-- protocol/name_importer.go: the loop of doSync ends if there are workers, and not without.
use fnd.Base.{
  subst, ℕ, zero, suc, ◌+◌, ◌-◌, ◌≤◌, ◌<◌, ◌≡◌, ◌≢◌, refl, sym, ap, ◌∙◌, Option, none, some, List,
  arith, Outcome, ok, err, panicked, ltb, length, Bool-cases, inl, inr, lt→ltb, ltb→lt,
}
use fnd.Base.Bytes.{Bytes}
use fnd.Store.Types.{PublicKey}
use fnd.Store.Interface.{DbError}
use fnd.Store.Json.{JsonText}
use fnd.Store.Leveldb.{Leveldb}
use fnd.Store.Names.{get_last_name_import_height}
use fnd.Protocol.NameImporter.{
  Block, Chain, SyncEnd, imported, out_of_fuel, with_block, fetch_blocks, import_blocks, delta_of,
  go_on, with_blocks, import_loop, from_height, do_sync,
}

some_eq : {a b : List Block} → ◌≡◌ {A = Option (List Block)} (some a) (some b) → a ≡ b
some_eq e = cc

with_block-length :
    (o : Option Block) (p : Option (List Block)) (n : ℕ) (bs : List Block)
    → ((cs : List Block) → p ≡ some cs → length cs ≡ n)
    → with_block o p ≡ some bs
    → length bs ≡ suc n
with_block-length (some b) (some cs) n bs h e = ap length (sym (some_eq e)) ∙ ap suc (h cs refl)
with_block-length (some b) none n bs h e = cc
with_block-length none p n bs h e = cc

-- fetchBlocks answers as many blocks as were asked for.
pub length-fetch_blocks :
    (block_at : ℕ → Option Block) (start count : ℕ) (bs : List Block)
    → fetch_blocks block_at start count ≡ some bs
    → length bs ≡ count
unfolding fetch_blocks
length-fetch_blocks block_at start zero bs e = ap length (sym (some_eq e))
length-fetch_blocks block_at start (suc n) bs e =
    with_block-length (block_at start) (fetch_blocks block_at (start + 1) n) n bs
      (λ cs q. length-fetch_blocks block_at (start + 1) n cs q) e

module _ (L : Leveldb) (J : JsonText) (decode_base64 : Bytes → Option Bytes)
    (parse_pub_key : Bytes → Option PublicKey) (chain : Chain) where
  imported-ne-out : {db : L.Db} → ◌≡◌ {A = SyncEnd L.Db} (imported db) out_of_fuel → ⊥
  imported-ne-out e = cc

  go_on-ends :
      (r : Outcome DbError (Unit {0}) × L.Db) (f : L.Db → SyncEnd L.Db)
      → ((d : L.Db) → f d ≢ out_of_fuel)
      → go_on L J decode_base64 parse_pub_key chain r f ≢ out_of_fuel
  go_on-ends (ok u, db) f h = h db
  go_on-ends (err e, db) f h = λ q. cc
  go_on-ends (panicked, db) f h = λ q. cc

  with_blocks-ends :
      (o : Option (List Block)) (n height confirmed : ℕ) (db : L.Db) (f : ℕ → L.Db → SyncEnd L.Db)
      → ((bs : List Block) → o ≡ some bs → length bs ≡ n)
      → ((d : L.Db) → f (height + n) d ≢ out_of_fuel)
      → with_blocks L J decode_base64 parse_pub_key chain o height confirmed db f ≢ out_of_fuel
  with_blocks-ends none n height confirmed db f c h = λ q. cc
  with_blocks-ends (some bs) n height confirmed db f c h =
      go_on-ends (import_blocks L J decode_base64 parse_pub_key chain bs height confirmed db)
        (f (height + length bs))
        (λ d. subst (λ k. f (height + k) d ≢ out_of_fuel) (sym (c bs refl)) (h d))

  import_loop-ends :
      (fuel workers height confirmed : ℕ) (db : L.Db)
      → 1 ≤ workers
      → confirmed - height < fuel
      → import_loop L J decode_base64 parse_pub_key chain fuel workers height confirmed db
        ≢ out_of_fuel
  unfolding import_loop
  import_loop-ends zero workers height confirmed db w h = absurd (omega arith)
  import_loop-ends (suc fuel) workers height confirmed db w h =
      elim (Bool-cases (ltb height confirmed)) [
        | inl more ↦
            rw (more, import_loop)
              (with_blocks-ends (fetch_blocks chain.block_at height n) n height confirmed db
                (λ k d.
                  import_loop L J decode_base64 parse_pub_key chain fuel workers k confirmed d)
                (length-fetch_blocks chain.block_at height n)
                (λ d.
                  import_loop-ends fuel workers (height + n) confirmed d w
                    (less (ltb→lt height confirmed more))))
        | inr done ↦ rw (done, import_loop) (λ q. imported-ne-out q)
      ]
    where
      n : ℕ
      n = delta_of L J decode_base64 parse_pub_key chain workers height confirmed

      less : height < confirmed → confirmed - (height + n) < fuel
      less m = ground arith

  from_height-ends :
      (fuel workers confirmed : ℕ) (r : Outcome DbError ℕ) (db : L.Db)
      → 1 ≤ workers
      → confirmed < fuel
      → from_height L J decode_base64 parse_pub_key chain fuel workers confirmed r db ≢ out_of_fuel
  from_height-ends fuel workers confirmed (ok synced) db w h =
      elim (Bool-cases (ltb synced confirmed)) [
        | inl more ↦
            rw more (import_loop-ends fuel workers (synced + 1) confirmed db w (omega arith))
        | inr done ↦ rw done (λ q. cc)
      ]
  from_height-ends fuel workers confirmed (err e) db w h = λ q. cc
  from_height-ends fuel workers confirmed panicked db w h = λ q. cc

  -- A sync with at least one worker ends: more fuel than the chain has blocks is enough, whatever
  -- the client and the store answer.
  pub do_sync-ends :
      (fuel workers depth blocks : ℕ) (db : L.Db)
      → 1 ≤ workers
      → blocks < fuel
      → do_sync L J decode_base64 parse_pub_key chain fuel workers depth blocks db ≢ out_of_fuel
  unfolding do_sync
  do_sync-ends fuel workers depth blocks db w h = elim (Bool-cases (ltb blocks depth)) [
    | inl low ↦ rw low (λ q. cc)
    | inr high ↦ rw high (
        from_height-ends fuel workers (blocks - depth) (get_last_name_import_height L db) db w
          (omega arith))
  ]

  -- Without a worker the loop never ends, as soon as there is a block to import.
  pub import_loop-spins :
      (fuel height confirmed : ℕ) (db : L.Db)
      → height < confirmed
      → import_loop L J decode_base64 parse_pub_key chain fuel 0 height confirmed db ≡ out_of_fuel
  unfolding import_loop import_blocks fetch_blocks
  import_loop-spins zero height confirmed db h = refl
  import_loop-spins (suc fuel) height confirmed db h =
      rw (lt→ltb height confirmed h, import_loop)
        (rw (lt→ltb 0 (confirmed - height) (omega arith)) (
          ap (λ k. import_loop L J decode_base64 parse_pub_key chain fuel 0 k confirmed db)
            (omega arith)
          ∙ import_loop-spins fuel height confirmed db h))
