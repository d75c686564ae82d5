-- ===== src/Protocol/SectorServer/Proofs.antt =====
-- protocol/sector_server.go: which proofs of equivocation set a ban.
use fnd.Base.{
  ℕ, ◌+◌, ◌%◌, ◌≤◌, ◌≡◌, ◌≢◌, refl, sym, ap, ◌∙◌, subst, arith, true, false, none, ltb, ◌==◌,
  length, Outcome, ok, err, panicked, ltb-false,
}
use fnd.Blob.Consts.{Hash, max_sectors}
use fnd.Blob.Hash.{payload_tip}
use fnd.Store.Types.{Header, EquivocationProof}
use fnd.Store.Interface.{Database}
use fnd.Protocol.Epoch.{u16_mod}
use fnd.Protocol.Validate.{
  Externals, ValidateError, IsSigned, validate_blob_update-IsSigned, IsSigned-validate_blob_update,
}
use fnd.Protocol.SectorServer.{
  ProofError, check_proof, checked, ban_with, set_ban, on_equivocation_proof,
}

module _ (x : Externals) (d : Database) where
  open d use {Db, get_header, get_header_ban, set_header_ban, set_equivocation_proof}

  -- The owner signed the two sides of a proof, which start from one position in one epoch.
  pub record IsProven (db : Db) (msg : EquivocationProof) : Type 0 where
    pub one_epoch : msg.local_epoch_height ≡ msg.remote_epoch_height
    pub one_position : msg.local_sector_size ≡ msg.remote_payload_position
    pub local :
        IsSigned x d db msg.name msg.local_epoch_height msg.local_sector_size
          msg.local_sector_tip_hash msg.local_reserved_root msg.local_signature
    pub remote :
        IsSigned x d db msg.name msg.remote_epoch_height
          ((msg.remote_payload_position + length msg.remote_payload) % u16_mod)
          (payload_tip x.blake2b msg.remote_prev_hash msg.remote_payload)
          msg.remote_reserved_root
          msg.remote_signature

  checked-ok :
      (e : ProofError) (o : Outcome ValidateError (Unit {0})) → checked e o ≡ ok tt → o ≡ ok tt
  checked-ok e (ok tt) h = refl
  checked-ok e (err v) h = absurd cc
  checked-ok e panicked h = absurd cc

  check_proof-IsProven :
      (db : Db) (now : ℕ) (msg : EquivocationProof)
      → check_proof x d db now msg ≡ ok tt
      → IsProven db msg
  unfolding check_proof
  check_proof-IsProven db now msg h = record {
    one_epoch = ground arith;
    one_position = ground arith;
    local = validate_blob_update-IsSigned x d db _ _ _ _ _ _ (ground arith);
    remote = validate_blob_update-IsSigned x d db _ _ _ _ _ _ (ground arith);
  }

  -- A name that is known and not banned, and whose stored header is of no later epoch than the
  -- proof.
  pub record IsCurrent (db : Db) (msg : EquivocationProof) : Type 0 where
    pub header : Header
    pub stored : get_header db msg.name ≡ ok header
    pub not_banned : get_header_ban db msg.name ≡ ok none
    pub not_later : header.epoch_height ≤ msg.remote_epoch_height

  pub IsProven-check_proof :
      (db : Db) (now : ℕ) (msg : EquivocationProof)
      → IsProven db msg
      → IsCurrent db msg
      → msg.remote_payload_position + length msg.remote_payload ≤ max_sectors
      → check_proof x d db now msg ≡ ok tt
  unfolding check_proof
  IsProven-check_proof db now msg p c fits =
      let epochs : (msg.local_epoch_height == msg.remote_epoch_height) ≡ true =
        ground (arith, p.one_epoch) in
      let positions : (msg.local_sector_size == msg.remote_payload_position) ≡ true =
        ground (arith, p.one_position) in
      let ahead : ltb msg.remote_epoch_height c.header.epoch_height ≡ false =
        ltb-false _ _ c.not_later in
      let size : (msg.remote_payload_position + length msg.remote_payload) % u16_mod ≤ max_sectors =
        omega arith in
      let small : ltb max_sectors
            ((msg.remote_payload_position + length msg.remote_payload) % u16_mod)
          ≡ false =
        ltb-false _ _ size in
      rw (epochs) (
        rw (c.stored, c.not_banned)
          (rw (ahead, positions, small, IsSigned-validate_blob_update x d db _ _ _ _ _ _ p.local)
            (rw (IsSigned-validate_blob_update x d db _ _ _ _ _ _ p.remote) refl)))

  -- `onEquivocationProof` changes the store, which is to set a ban or to keep a proof, only if the
  -- owner of the name signed both sides of the proof: two updates of one epoch, of which the second
  -- starts at the size of the first.
  pub on_equivocation_proof-IsProven :
      (db : Db) (now : ℕ) (msg : EquivocationProof)
      → (on_equivocation_proof x d db now msg).0 ≢ db
      → IsProven db msg
  unfolding on_equivocation_proof
  on_equivocation_proof-IsProven db now msg changed =
      passed (check_proof x d db now msg) (check_proof-IsProven db now msg) changed
    where
      passed :
          (o : Outcome ProofError (Unit {0}))
          → (o ≡ ok tt → IsProven db msg)
          → (ban_with x d db now msg o).0 ≢ db
          → IsProven db msg
      passed (ok tt) f h = f refl
      passed (err e) f h = absurd (h refl)
      passed panicked f h = absurd (h refl)

  -- The message says nothing but what an honest owner signed: an update, and then one of the same
  -- epoch that appends sectors to it, or the same update again with no sectors.
  pub record IsHonest (db : Db) (msg : EquivocationProof) : Type 0 where
    pub same_epoch : msg.local_epoch_height ≡ msg.remote_epoch_height
    pub follows : msg.local_sector_size ≡ msg.remote_payload_position
    pub extends : msg.remote_prev_hash ≡ msg.local_sector_tip_hash
    pub fits : msg.remote_payload_position + length msg.remote_payload ≤ max_sectors
    pub before :
        IsSigned x d db msg.name msg.local_epoch_height msg.local_sector_size
          msg.local_sector_tip_hash msg.local_reserved_root msg.local_signature
    pub after :
        IsSigned x d db msg.name msg.local_epoch_height
          (msg.local_sector_size + length msg.remote_payload)
          (payload_tip x.blake2b msg.local_sector_tip_hash msg.remote_payload)
          msg.remote_reserved_root
          msg.remote_signature

  -- An owner who signed nothing in conflict is banned all the same: two honest updates of one
  -- epoch, of which the second appends to the first, pass as a proof of equivocation on every node
  -- that has no ban and no later header for the name.
  pub on_equivocation_proof-honest :
      (db db_proof db' : Db) (now : ℕ) (msg : EquivocationProof)
      → IsHonest db msg
      → IsCurrent db msg
      → set_equivocation_proof db msg.name msg ≡ ok db_proof
      → set_header_ban db_proof msg.name now ≡ ok db'
      → on_equivocation_proof x d db now msg ≡ (db', false)
  unfolding on_equivocation_proof
  on_equivocation_proof-honest db db_proof db' now msg h c k w =
      ap (ban_with x d db now msg) (IsProven-check_proof db now msg proven c h.fits)
      ∙ rw (k, ban_with) (rw (w, set_ban) refl)
    where
      size_after : ℕ
      size_after = (msg.remote_payload_position + length msg.remote_payload) % u16_mod

      tip_after : Hash
      tip_after = payload_tip x.blake2b msg.remote_prev_hash msg.remote_payload

      size :
          msg.local_sector_size + length msg.remote_payload
          ≡ (msg.remote_payload_position + length msg.remote_payload) % u16_mod
      size = omega (arith, h.follows, h.fits)

      tip :
          payload_tip x.blake2b msg.local_sector_tip_hash msg.remote_payload
          ≡ payload_tip x.blake2b msg.remote_prev_hash msg.remote_payload
      tip = ap (λ p. payload_tip x.blake2b p msg.remote_payload) (sym h.extends)

      signed : ℕ → ℕ → Hash → Type 0
      signed e n t = IsSigned x d db msg.name e n t msg.remote_reserved_root msg.remote_signature

      proven : IsProven db msg
      proven = record {
        one_epoch = h.same_epoch;
        one_position = h.follows;
        local = h.before;
        remote =
            subst (λ e. signed e size_after tip_after) h.same_epoch
              (subst (λ n. signed msg.local_epoch_height n tip_after) size
                (subst
                  (signed msg.local_epoch_height
                    (msg.local_sector_size + length msg.remote_payload))
                  tip h.after));
      }
