-- ===== src/Protocol/Syncer/Payload.antt =====
-- protocol/syncer.go: which responses are written to the blob, and which ban the name.
use fnd.Base.{
  ℕ, ◌+◌, ◌≤◌, ◌≡◌, ◌≢◌, refl, sym, ap, ◌∙◌, arith, Bool, true, false, ltb, ◌==◌, length, Outcome,
  ok, err, panicked, holds, ℕ_discrete, if◌then◌else◌, not,
}
use fnd.Base.Bytes.{Bytes, bytes_dec}
use fnd.Blob.Consts.{max_sectors}
use fnd.Blob.Hash.{payload_tip}
use fnd.Blob.Transaction.{Faults}
use fnd.Store.Types.{Header}
use fnd.Store.Interface.{DbError, Database}
use fnd.Base.GoMap.{get}
use fnd.Protocol.PeerSet.{is_set}
use fnd.Protocol.Updater.{SyncUpdate}
use fnd.Protocol.Validate.{
  Externals, ValidateError, validate_blob_update, IsSigned, validate_blob_update-IsSigned,
}
use fnd.Protocol.SectorServer.{BlobRes, check_proof}
use fnd.Protocol.SectorServer.Proofs.{IsCurrent, IsProven-check_proof}
use fnd.Protocol.Syncer.{
  SyncSectorsOpts, fails, processed, payload_equivocation, Verdict, extraneous, bad_signature,
  conflict, accepted, unreadable, sector_size_of, tip_of, compare_prev, Round, judge, proof_of,
  act_on, on_payload, unless_proven, ban_name, tell_peers,
}

module _ (x : Externals) (d : Database) where
  open d use {Db, get_header, get_equivocation_proof, set_header_ban, set_equivocation_proof}

  -- A response to what was asked, which the owner signed for the size and tip that it leads to.
  pub record IsSound (opts : SyncSectorsOpts) (db : Db) (msg : BlobRes) : Type 0 where
    pub for_name : msg.name ≡ opts.name
    pub from_position : opts.sector_size ≡ msg.payload_position
    pub of_epoch : opts.epoch_height ≤ msg.epoch_height
    pub fits : sector_size_of msg ≤ max_sectors
    pub signed :
        IsSigned x d db msg.name msg.epoch_height
          (sector_size_of msg)
          (tip_of x msg)
          msg.reserved_root
          msg.signature

  else_of :
      (b : Bool) (v w : Verdict)
      → (if b then extraneous else w) ≡ v
      → v ≢ extraneous
      → (b ≡ false) × (w ≡ v)
  else_of true v w e n = absurd (n (sym e))
  else_of false v w e n = (refl, e)

  -- What the checks have found, where they do not pass the response over.
  judged :
      (opts : SyncSectorsOpts) (round : Round x d) (msg : BlobRes) (v : Verdict)
      → judge x d opts round msg ≡ v
      → v ≢ extraneous
      → (compare_prev (holds (bytes_dec opts.prev_hash msg.prev_hash)) (
            validate_blob_update x d round.db msg.name msg.epoch_height
              (sector_size_of msg)
              (tip_of x msg)
              msg.reserved_root
              msg.signature)
          ≡ v)
        × (msg.name ≡ opts.name)
        × (opts.sector_size ≡ msg.payload_position)
        × (opts.epoch_height ≤ msg.epoch_height)
        × (sector_size_of msg ≤ max_sectors)
  unfolding judge
  judged opts round msg v e n =
      let a = else_of (not (holds (bytes_dec msg.name opts.name))) v _ e n in
      let b =
        else_of (is_set (get ℕ_discrete msg.payload_position round.received_payloads)) v _ a.1 n in
      let c = else_of (ltb msg.epoch_height opts.epoch_height) v _ b.1 n in
      let g = else_of (not (opts.sector_size == msg.payload_position)) v _ c.1 n in
      let h = else_of (ltb max_sectors (sector_size_of msg)) v _ g.1 n in
      (h.1, same_name a.0, same_position g.0, in_order c.0, in_bounds h.0)
    where
      same_name : not (holds (bytes_dec msg.name opts.name)) ≡ false → msg.name ≡ opts.name
      same_name q = ground arith

      same_position :
          not (opts.sector_size == msg.payload_position) ≡ false
          → opts.sector_size ≡ msg.payload_position
      same_position q = ground arith

      in_order :
          ltb msg.epoch_height opts.epoch_height ≡ false → opts.epoch_height ≤ msg.epoch_height
      in_order q = ground arith

      in_bounds : ltb max_sectors (sector_size_of msg) ≡ false → sector_size_of msg ≤ max_sectors
      in_bounds q = ground arith

  accepted_parts :
      (b : Bool) (o : Outcome ValidateError (Unit {0}))
      → compare_prev b o ≡ accepted
      → (b ≡ true) × (o ≡ ok tt)
  accepted_parts true (ok tt) e = (refl, refl)
  accepted_parts false (ok tt) e = absurd cc
  accepted_parts b (err f) e = absurd cc
  accepted_parts b panicked e = absurd cc

  conflict_parts :
      (b : Bool) (o : Outcome ValidateError (Unit {0}))
      → compare_prev b o ≡ conflict
      → (b ≡ false) × (o ≡ ok tt)
  conflict_parts true (ok tt) e = absurd cc
  conflict_parts false (ok tt) e = (refl, refl)
  conflict_parts b (err f) e = absurd cc
  conflict_parts b panicked e = absurd cc

  accepted-IsSound :
      (opts : SyncSectorsOpts) (round : Round x d) (msg : BlobRes)
      → judge x d opts round msg ≡ accepted
      → IsSound opts round.db msg × (opts.prev_hash ≡ msg.prev_hash)
  accepted-IsSound opts round msg e =
      let j = judged opts round msg accepted e (λ q. cc) in
      let parts = accepted_parts _ _ j.0 in
      (
        record {
          for_name = j.1;
          from_position = j.2;
          of_epoch = j.3;
          fits = j.4;
          signed = validate_blob_update-IsSigned x d round.db _ _ _ _ _ _ parts.1;
        },
        holds_eq (bytes_dec opts.prev_hash msg.prev_hash) parts.0,
      )
    where
      holds_eq :
          (q : Dec (opts.prev_hash ≡ msg.prev_hash))
          → holds q ≡ true
          → opts.prev_hash ≡ msg.prev_hash
      holds_eq (yes p) h = p
      holds_eq (no p) h = absurd cc

  conflict-IsSound :
      (opts : SyncSectorsOpts) (round : Round x d) (msg : BlobRes)
      → judge x d opts round msg ≡ conflict
      → IsSound opts round.db msg × (opts.prev_hash ≢ msg.prev_hash)
  conflict-IsSound opts round msg e =
      let j = judged opts round msg conflict e (λ q. cc) in
      let parts = conflict_parts _ _ j.0 in
      (
        record {
          for_name = j.1;
          from_position = j.2;
          of_epoch = j.3;
          fits = j.4;
          signed = validate_blob_update-IsSigned x d round.db _ _ _ _ _ _ parts.1;
        },
        holds_ne (bytes_dec opts.prev_hash msg.prev_hash) parts.0,
      )
    where
      holds_ne :
          (q : Dec (opts.prev_hash ≡ msg.prev_hash))
          → holds q ≡ false
          → opts.prev_hash ≢ msg.prev_hash
      holds_ne (yes p) h = absurd cc
      holds_ne (no p) h = p

  tell_peers_ends :
      (round : Round x d) (msg : BlobRes) (header : Header) (su : SyncUpdate)
      (o : Outcome DbError Db)
      → (tell_peers x d round msg header o).1 ≢ processed su
  tell_peers_ends round msg header su (ok db) q = cc
  tell_peers_ends round msg header su (err f) q = cc
  tell_peers_ends round msg header su panicked q = cc

  ban_name_ends :
      (round : Round x d) (now : ℕ) (msg : BlobRes) (su : SyncUpdate) (o : Outcome DbError Header)
      → (ban_name x d round now msg o).1 ≢ processed su
  ban_name_ends round now msg su (ok h) q =
      tell_peers_ends round msg h su (set_header_ban round.db msg.name now) q
  ban_name_ends round now msg su (err f) q = cc
  ban_name_ends round now msg su panicked q = cc

  unless_proven_ends :
      (round : Round x d) (now : ℕ) (msg : BlobRes) (su : SyncUpdate) (o : Outcome DbError Bytes)
      → (unless_proven x d round now msg o).1 ≢ processed su
  unless_proven_ends round now msg su (ok proof) q = cc
  unless_proven_ends round now msg su (err f) q =
      ban_name_ends round now msg su (get_header round.db msg.name) q
  unless_proven_ends round now msg su panicked q = cc

  conflict_ends :
      (round : Round x d) (now : ℕ) (msg : BlobRes) (su : SyncUpdate) (b : Bool)
      → (if b
          then unless_proven x d round now msg (get_equivocation_proof round.db msg.name)
          else (round, fails payload_equivocation)).1
        ≢ processed su
  conflict_ends round now msg su true q =
      unless_proven_ends round now msg su (get_equivocation_proof round.db msg.name) q
  conflict_ends round now msg su false q = cc

  processed_only :
      (opts : SyncSectorsOpts) (f : ℕ → Faults) (now : ℕ) (round : Round x d) (msg : BlobRes)
      (su : SyncUpdate) (v : Verdict)
      → (act_on x d opts f now round msg v).1 ≡ processed su
      → (v ≡ accepted) × (su.sector_tip_hash ≡ tip_of x msg)
  processed_only opts f now round msg su extraneous e = absurd cc
  processed_only opts f now round msg su unreadable e = absurd cc
  processed_only opts f now round msg su bad_signature e = absurd cc
  processed_only opts f now round msg su accepted e = (refl, ground arith)
  processed_only opts f now round msg su conflict e =
      absurd (conflict_ends round now msg su (opts.epoch_height == msg.epoch_height) e)

  -- A response that ends the sync with an update was asked for: it is for the name, from the
  -- position and of an epoch not below the one asked for. It continues the hash chain from the
  -- previous hash that was asked for, its owner signed the size and the tip that it leads to, and
  -- that tip, folded over its sectors from the previous hash, is the one the sync returns.
  pub on_payload-processed :
      (opts : SyncSectorsOpts) (f : ℕ → Faults) (now : ℕ) (round : Round x d) (msg : BlobRes)
      (su : SyncUpdate)
      → (on_payload x d opts f now round msg).1 ≡ processed su
      → IsSound opts round.db msg
        × (opts.prev_hash ≡ msg.prev_hash)
        × (su.sector_tip_hash ≡ payload_tip x.blake2b opts.prev_hash msg.payload)
  unfolding on_payload
  on_payload-processed opts f now round msg su e =
      let p = processed_only opts f now round msg su (judge x d opts round msg) e in
      let s = accepted-IsSound opts round msg p.0 in
      (s.0, s.1, p.1 ∙ ap (λ h. payload_tip x.blake2b h msg.payload) (sym s.1))

  -- The proof that a conflicting response of the asked epoch makes with a stored header passes the
  -- checks that a node with such a store makes of it, if the header is the one that was to be
  -- extended and is signed, the payload fits, and the node has no ban and no later header for the
  -- name.
  pub proof_of-check_proof :
      (opts : SyncSectorsOpts) (round : Round x d) (msg : BlobRes) (header : Header) (now : ℕ)
      → judge x d opts round msg ≡ conflict
      → opts.epoch_height ≡ msg.epoch_height
      → header.epoch_height ≡ opts.epoch_height
      → header.sector_size ≡ opts.sector_size
      → msg.payload_position + length msg.payload ≤ max_sectors
      → IsSigned x d round.db msg.name header.epoch_height header.sector_size header.sector_tip_hash
          header.reserved_root header.signature
      → IsCurrent x d round.db (proof_of header msg)
      → check_proof x d round.db now (proof_of header msg) ≡ ok tt
  unfolding proof_of
  proof_of-check_proof opts round msg header now e same epoch size fits signed current =
      let s = (conflict-IsSound opts round msg e).0 in
      IsProven-check_proof x d round.db now _
        (record {
          one_epoch = epoch ∙ same;
          one_position = size ∙ s.from_position;
          local = signed;
          remote = s.signed;
        })
        current fits

  same_epoch_of :
      (opts : SyncSectorsOpts) (round : Round x d) (now : ℕ) (msg : BlobRes) (b : Bool)
      → (if b
          then unless_proven x d round now msg (get_equivocation_proof round.db msg.name)
          else (round, fails payload_equivocation)).0.db
        ≢ round.db
      → b ≡ true
  same_epoch_of opts round now msg true n = refl
  same_epoch_of opts round now msg false n = absurd (n refl)

  changes_only :
      (opts : SyncSectorsOpts) (f : ℕ → Faults) (now : ℕ) (round : Round x d) (msg : BlobRes)
      (v : Verdict)
      → (act_on x d opts f now round msg v).0.db ≢ round.db
      → (v ≡ conflict) × (opts.epoch_height ≡ msg.epoch_height)
  changes_only opts f now round msg extraneous n = absurd (n refl)
  changes_only opts f now round msg unreadable n = absurd (n refl)
  changes_only opts f now round msg bad_signature n = absurd (n refl)
  changes_only opts f now round msg accepted n = absurd (n refl)
  changes_only opts f now round msg conflict n =
      (refl, same (same_epoch_of opts round now msg (opts.epoch_height == msg.epoch_height) n))
    where
      same : (opts.epoch_height == msg.epoch_height) ≡ true → opts.epoch_height ≡ msg.epoch_height
      same q = ground arith

  -- A response changes the store, that is, it bans the name or stores a proof, only if it was
  -- signed by the owner for the epoch, name and position asked for, and continues another hash
  -- chain.
  pub on_payload-bans :
      (opts : SyncSectorsOpts) (f : ℕ → Faults) (now : ℕ) (round : Round x d) (msg : BlobRes)
      → (on_payload x d opts f now round msg).0.db ≢ round.db
      → IsSound opts round.db msg
        × (opts.prev_hash ≢ msg.prev_hash)
        × (opts.epoch_height ≡ msg.epoch_height)
  unfolding on_payload
  on_payload-bans opts f now round msg n =
      let c = changes_only opts f now round msg (judge x d opts round msg) n in
      let s = conflict-IsSound opts round msg c.0 in (s.0, s.1, c.1)
