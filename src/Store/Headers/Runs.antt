-- ===== src/Store/Headers/Runs.antt =====
-- store/headers.go on a disk that does not fail: what SetHeaderTx leaves in the database.
use fnd.Base.{
  if◌then◌else◌, ltb-false, Option-cases, inl, inr, ℕ, ◌+◌, ◌<◌, ◌≡◌, ◌≢◌, refl, ap, ◌∙◌, none,
  some, Bool, true, false, ok, arith,
}
use fnd.Base.Bytes.{Bytes}
use fnd.Blob.Hash.{SectorHashes, encode}
use fnd.Store.Types.{Header}
use fnd.Store.Keys.{Key, header_count, sector_hashes, header_data}
use fnd.Store.Ints.{must_encode_int, must_decode_int-must_encode_int, max_int32}
use fnd.Store.Json.{JsonText, ReadsBack, header_document}
use fnd.Store.Json.RoundTrip.{IsStorable, marshal_header}
use fnd.Store.Leveldb.{Leveldb, IsHealthy, found, is_some}
use fnd.Store.Views.{
  tx_at, after_put, tx_get-at, tx_has-at, put_runs, tx_at-put_self, tx_at-put_other,
}
use fnd.Store.Headers.{int_or_zero, increment_header_count, set_header_tx}

module _ (L : Leveldb) (H : IsHealthy L) where
  increment_runs :
      (t : L.Tx) (n : ℕ)
      → int_or_zero (found (tx_at L H t header_count)) ≡ ok n
      → increment_header_count L t ≡ (ok tt, after_put L H header_count (must_encode_int (n + 1)) t)
  unfolding increment_header_count
  increment_runs t n e =
      rw (tx_get-at L H t header_count)
        (rw e (put_runs L H t header_count (must_encode_int (n + 1))))

  module _ (J : JsonText) (R : ReadsBack J) (h : Header) (v : IsStorable h)
      (hs : SectorHashes) where
    -- The two values that are put for every header.
    pub with_values : L.Tx → L.Tx
    with_values t =
        after_put L H (header_data h.name) (R.written (header_document h))
          (after_put L H (sector_hashes h.name) (encode hs) t)

    pub set_known_runs :
        (t : L.Tx) (b : Bytes)
        → tx_at L H t (header_data h.name) ≡ some b
        → set_header_tx L J h hs t ≡ (ok tt, with_values t)
    unfolding set_header_tx with_values
    set_known_runs t b e = rw (tx_has-at L H t (header_data h.name)) (
        rw e (
          rw (put_runs L H t (sector_hashes h.name) (encode hs)) (
            rw (marshal_header J R h v) (
              rw
                (put_runs L H (after_put L H (sector_hashes h.name) (encode hs) t)
                  (header_data h.name) (R.written (header_document h)))
                refl))))

    -- The value under a key other than the two.
    pub tx_at-with_values :
        (t : L.Tx) (k : Key)
        → header_data h.name ≢ k
        → sector_hashes h.name ≢ k
        → tx_at L H (with_values t) k ≡ tx_at L H t k
    unfolding with_values
    tx_at-with_values t k p q =
        tx_at-put_other L H _ (header_data h.name) k _ p
        ∙ tx_at-put_other L H t (sector_hashes h.name) k _ q

    pub set_new_runs :
        (t : L.Tx) (n : ℕ)
        → tx_at L H t (header_data h.name) ≡ none
        → int_or_zero (found (tx_at L H t header_count)) ≡ ok n
        → set_header_tx L J h hs t
          ≡ (ok tt, after_put L H header_count (must_encode_int (n + 1)) (with_values t))
    unfolding set_header_tx with_values
    set_new_runs t n e c = rw (tx_has-at L H t (header_data h.name)) (
        rw e (
          rw (put_runs L H t (sector_hashes h.name) (encode hs)) (
            rw (marshal_header J R h v) (
              rw
                (put_runs L H (after_put L H (sector_hashes h.name) (encode hs) t)
                  (header_data h.name) (R.written (header_document h)))
                (increment_runs (with_values t) n (ap (λ o. int_or_zero (found o)) same ∙ c))))))
      where
        same : tx_at L H (with_values t) header_count ≡ tx_at L H t header_count
        same = tx_at-with_values t header_count (λ p. cc) (λ p. cc)

    pub tx_at-with_values_header :
        (t : L.Tx)
        → tx_at L H (with_values t) (header_data h.name) ≡ some (R.written (header_document h))
    unfolding with_values
    tx_at-with_values_header t = tx_at-put_self L H _ (header_data h.name) _

    pub tx_at-with_values_hashes :
        (t : L.Tx) → tx_at L H (with_values t) (sector_hashes h.name) ≡ some (encode hs)
    unfolding with_values
    tx_at-with_values_hashes t =
        tx_at-put_other L H _ (header_data h.name) (sector_hashes h.name) _ (λ p. cc)
        ∙ tx_at-put_self L H t (sector_hashes h.name) (encode hs)

    -- What a run of SetHeaderTx leaves in its transaction.
    pub record Sets (known : Bool) (n : ℕ) (t u : L.Tx) : Type 0 where
      pub runs : set_header_tx L J h hs t ≡ (ok tt, u)
      pub header : tx_at L H u (header_data h.name) ≡ some (R.written (header_document h))
      pub hashes : tx_at L H u (sector_hashes h.name) ≡ some (encode hs)
      pub count : int_or_zero (found (tx_at L H u header_count)) ≡ ok (if known then n else n + 1)
      pub others :
          (k : Key)
          → header_data h.name ≢ k
          → sector_hashes h.name ≢ k
          → header_count ≢ k
          → tx_at L H u k ≡ tx_at L H t k

    set_known :
        (t : L.Tx) (n : ℕ) (b : Bytes)
        → tx_at L H t (header_data h.name) ≡ some b
        → int_or_zero (found (tx_at L H t header_count)) ≡ ok n
        → Sets true n t (with_values t)
    set_known t n b e c = record {
      runs = set_known_runs t b e;
      header = tx_at-with_values_header t;
      hashes = tx_at-with_values_hashes t;
      count =
          ap (λ o. int_or_zero (found o)) (tx_at-with_values t header_count (λ p. cc) (λ p. cc))
          ∙ c;
      others = λ k p q _. tx_at-with_values t k p q;
    }

    set_new :
        (t : L.Tx) (n : ℕ)
        → tx_at L H t (header_data h.name) ≡ none
        → int_or_zero (found (tx_at L H t header_count)) ≡ ok n
        → n < max_int32
        → Sets false n t (after_put L H header_count (must_encode_int (n + 1)) (with_values t))
    set_new t n e c small = record {
      runs = set_new_runs t n e c;
      header =
          tx_at-put_other L H _ header_count (header_data h.name) _ (λ p. cc)
          ∙ tx_at-with_values_header t;
      hashes =
          tx_at-put_other L H _ header_count (sector_hashes h.name) _ (λ p. cc)
          ∙ tx_at-with_values_hashes t;
      count =
          ap (λ o. int_or_zero (found o)) (tx_at-put_self L H _ header_count _)
          ∙ must_decode_int-must_encode_int (n + 1) (omega arith)
          ∙ rw (ltb-false max_int32 (n + 1) (omega arith)) refl;
      others = λ k p q r. tx_at-put_other L H _ header_count k _ r ∙ tx_at-with_values t k p q;
    }

    pub set_cases :
        (t : L.Tx) (n : ℕ)
        → int_or_zero (found (tx_at L H t header_count)) ≡ ok n
        → n < max_int32
        → (u : L.Tx) × Sets (is_some (tx_at L H t (header_data h.name))) n t u
    set_cases t n c small = elim (Option-cases (tx_at L H t (header_data h.name))) [
      | inl e ↦ rw e (
        after_put L H header_count (must_encode_int (n + 1)) (with_values t),
        set_new t n e c small,
      )
      | inr (b, e) ↦ rw e (with_values t, set_known t n b e c)
    ]
