-- ===== src/Store/Headers/Readback.antt =====
-- store/headers.go: WithTx of SetHeaderTx, and what GetHeader, GetSectorHashes, GetHeaderBan and
-- GetHeaderCount answer afterwards.
use fnd.Base.{
  if◌then◌else◌, ℕ, ◌+◌, ◌<◌, ◌≡◌, ◌≢◌, refl, sym, ap, ◌∙◌, Bool, Outcome, ok, length, All, [], ◌∷◌,
}
use fnd.Blob.Consts.{max_sectors, hash_len}
use fnd.Blob.Hash.{SectorHashes, decode}
use fnd.Blob.Hash.Codec.{decode-encode}
use fnd.Store.Types.{Name, Header}
use fnd.Store.Interface.{DbError}
use fnd.Store.Keys.{Key, header_count, sector_hashes, header_data, header_ban, header_data_prefix}
use fnd.Store.Ints.{max_int32}
use fnd.Store.Json.{JsonText, ReadsBack, read_header}
use fnd.Store.Json.RoundTrip.{IsStorable, read_header-written}
use fnd.Store.Leveldb.{Leveldb, IsHealthy, found, is_some}
use fnd.Store.Transactions.{with_tx}
use fnd.Store.Views.{at, tx_at, get-at, has-at, tx_at-begin, at-commit, with_tx-ends}
use fnd.Store.Headers.{
  int_or_zero, then_read, decoded, ban_if, get_header_count, get_sector_hashes, get_header,
  get_header_ban, set_header_tx,
}
use fnd.Store.Headers.Runs.{Sets, set_cases}

module _ (L : Leveldb) (H : IsHealthy L) where
  pub get_header_count-at :
      (d : L.Db) → get_header_count L d ≡ int_or_zero (found (at L H d header_count))
  unfolding get_header_count
  get_header_count-at d = rw (get-at L H d header_count) refl

  pub get_sector_hashes-at :
      (d : L.Db) (name : Name)
      → get_sector_hashes L d name
        ≡ then_read (found (at L H d (sector_hashes name))) (λ b. decoded (decode b))
  unfolding get_sector_hashes
  get_sector_hashes-at d name = rw (get-at L H d (sector_hashes name)) refl

  pub get_header_ban-at :
      (d : L.Db) (name : Name)
      → get_header_ban L d name
        ≡ ban_if (ok (is_some (at L H d (header_ban name)))) (found (at L H d (header_ban name)))
  unfolding get_header_ban
  get_header_ban-at d name =
      rw (has-at L H d (header_ban name)) (rw (get-at L H d (header_ban name)) refl)

  pub get_header-at :
      (J : JsonText) (d : L.Db) (name : Name)
      → get_header L J d name ≡ then_read (found (at L H d (header_data name))) (read_header J)
  unfolding get_header
  get_header-at J d name = rw (get-at L H d (header_data name)) refl

  -- What the database answers after a header was stored over the database `d`.
  pub record IsStored (J : JsonText) (d : L.Db) (h : Header) (hs : SectorHashes) (known : Bool)
      (n : ℕ) (e : L.Db) : Type 0 where
    pub header_stored : get_header L J e h.name ≡ ok h
    pub hashes_stored : get_sector_hashes L e h.name ≡ ok hs
    pub counted : get_header_count L e ≡ ok (if known then n else n + 1)
    pub ban_kept : (m : Name) → get_header_ban L e m ≡ get_header_ban L d m
    pub header_kept : (m : Name) → h.name ≢ m → get_header L J e m ≡ get_header L J d m
    pub hashes_kept : (m : Name) → h.name ≢ m → get_sector_hashes L e m ≡ get_sector_hashes L d m

  module _ (J : JsonText) (R : ReadsBack J) (h : Header) (v : IsStorable h)
      (hs : SectorHashes) where
    module _ (full : length hs ≡ max_sectors) (sized : All (λ x. length x ≡ hash_len) hs) where
      committed-IsStored :
          (d : L.Db) (n : ℕ) (known : Bool) (u : L.Tx)
          → Sets L H J R h v hs known n (H.begin d) u
          → IsStored J d h hs known n (L.commit u).1
      committed-IsStored d n known u s = record {
        header_stored =
            get_header-at J (L.commit u).1 h.name
            ∙ ap (λ o. then_read (found o) (read_header J))
                (at-commit L H u (header_data h.name) ∙ s.header)
            ∙ read_header-written J R h v;
        hashes_stored =
            get_sector_hashes-at (L.commit u).1 h.name
            ∙ ap (λ o. then_read (found o) (λ b. decoded (decode b)))
                (at-commit L H u (sector_hashes h.name) ∙ s.hashes)
            ∙ ap decoded (decode-encode hs full sized);
        counted =
            get_header_count-at (L.commit u).1
            ∙ ap (λ o. int_or_zero (found o)) (at-commit L H u header_count)
            ∙ s.count;
        ban_kept = λ m.
            get_header_ban-at (L.commit u).1 m
            ∙ ap (λ o. ban_if (ok (is_some o)) (found o))
                (kept (header_ban m) (λ p. cc) (λ p. cc) (λ p. cc))
            ∙ sym (get_header_ban-at d m);
        header_kept = λ m ne.
            get_header-at J (L.commit u).1 m
            ∙ ap (λ o. then_read (found o) (read_header J))
                (kept (header_data m) (λ p. ne (cc)) (λ p. cc) (λ p. cc))
            ∙ sym (get_header-at J d m);
        hashes_kept = λ m ne.
            get_sector_hashes-at (L.commit u).1 m
            ∙ ap (λ o. then_read (found o) (λ b. decoded (decode b)))
                (kept (sector_hashes m) (λ p. cc) (λ p. ne (cc)) (λ p. cc))
            ∙ sym (get_sector_hashes-at d m);
      }
        where
          kept :
              (k : Key)
              → header_data h.name ≢ k
              → sector_hashes h.name ≢ k
              → header_count ≢ k
              → at L H (L.commit u).1 k ≡ at L H d k
          kept k p q r = at-commit L H u k ∙ s.others k p q r ∙ tx_at-begin L H d k

      -- On a disk that does not fail, a transaction that stores a header with its 4,096 sector
      -- hashes of 32 bytes succeeds, if the name is ASCII, the fields fit their Go types, the epoch
      -- start is a time that the text format writes and reads back, and the count of headers can be
      -- read and is below the greatest int32. Afterwards the header and the hashes are read as they
      -- were stored, the count has grown by one exactly if the name had no header, and every header
      -- ban, and the headers and hashes of all other names, are read as before.
      pub set_header-IsStored :
          (d : L.Db) (n : ℕ) (known : Bool)
          → get_header_count L d ≡ ok n
          → n < max_int32
          → L.has d (header_data_prefix (h.name ∷ [])) ≡ ok known
          → ((with_tx L d (set_header_tx L J h hs)).0 ≡ ok tt)
            × IsStored J d h hs known n (with_tx L d (set_header_tx L J h hs)).1
      set_header-IsStored d n known c small k =
          let (u, s) = set_cases L H J R h v hs (H.begin d) n begun small in
          let ends : with_tx L d (set_header_tx L J h hs) ≡ (ok tt, (L.commit u).1) =
            with_tx-ends L H d (set_header_tx L J h hs) u s.runs in
          rw ends (refl, rw (← same_test) (committed-IsStored d n _ u s))
        where
          begun : int_or_zero (found (tx_at L H (H.begin d) header_count)) ≡ ok n
          begun =
              ap (λ o. int_or_zero (found o)) (tx_at-begin L H d header_count)
              ∙ sym (get_header_count-at d)
              ∙ c

          unwrap : {a b : Bool} → ◌≡◌ {A = Outcome DbError Bool} (ok a) (ok b) → a ≡ b
          unwrap e = cc

          same_test : is_some (tx_at L H (H.begin d) (header_data h.name)) ≡ known
          same_test =
              ap is_some (tx_at-begin L H d (header_data h.name))
              ∙ unwrap (sym (has-at L H d (header_data h.name)) ∙ k)
