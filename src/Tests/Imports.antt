-- ===== src/Tests/Imports.antt =====
-- Runs of the name importer, of the ban lists.
use fnd.Base.{◌-◌, ◌≡◌, ◌≢◌, refl, arith, false, [], ◌∷◌, some, ok, err, ℕ_discrete}
use fnd.Base.Bytes.{Bytes, bytes_dec, cons_dec}
use fnd.Base.GoMap.{get}
use fnd.Base.Text.{codes}
use fnd.Store.Types.{Name}
use fnd.Store.Interface.{failed}
use fnd.Store.Keys.{key_bytes, ban}
use fnd.Store.Names.{get_last_name_import_height}
use fnd.Store.Moderation.{get_last_ban_list_import_at, name_is_banned}
use fnd.Protocol.NameImporter.{Chain, Block, out_of_fuel, named, txt, do_sync}
use fnd.Protocol.NameImporter.Termination.{do_sync-ends}
use fnd.Protocol.NameImporter.Heights.{Leaves, do_sync-Leaves}
use fnd.Protocol.BanLists.{ingest_ban_lists}
use fnd.Protocol.BanLists.Wiping.{ingest_ban_lists-wipes}
use fnd.Tests.Memory.{Disk, memory, memory-IsHealthy, plain_text}

-- A block with one name, whose key is the 44 letters after the sigil.
abbrev key_text : Bytes
key_text = codes "AAAAAAAAAAAAAAAAAAAAAAAAAAAAAAAAAAAAAAAAAAAA"

abbrev block : Block
block = (named (1 ∷ []) (some (txt ((b'f' ∷ key_text) ∷ []) ∷ [])) ∷ []) ∷ []

abbrev chain : Chain
chain = record { block_at = λ h. some block; name_of = λ nh. some (codes "alice") }

do_sync-ends_example : do_sync memory plain_text some some chain 9 2 3 8 [] ≢ out_of_fuel
do_sync-ends_example =
    do_sync-ends memory plain_text some some chain 9 2 3 8 [] (omega arith) (omega arith)

do_sync-Leaves_example :
    Leaves memory memory-IsHealthy plain_text some some chain
      (8 - 3)
      (omega arith)
      0
      (do_sync memory plain_text some some chain 9 2 3 8 [])
unfolding get_last_name_import_height get
do_sync-Leaves_example =
    do_sync-Leaves memory memory-IsHealthy plain_text some some chain 9 2 3 8 0 [] (omega arith)
      (omega arith) refl (omega arith)

-- A disk on which a name is banned.
abbrev banned : Disk
banned = (key_bytes (ban (codes "mallory")), 1 ∷ []) ∷ []

ingest_ban_lists-wipes_example :
    ((ingest_ban_lists memory (λ name. ok tt) 700_000 (err failed ∷ []) banned).0 ≡ err failed)
    × ((name : Name)
        → name_is_banned memory
            (ingest_ban_lists memory (λ n. ok tt) 700_000 (err failed ∷ []) banned).1
            name
          ≡ ok false)
unfolding get_last_ban_list_import_at get bytes_dec cons_dec ℕ_discrete
ingest_ban_lists-wipes_example =
    ingest_ban_lists-wipes memory memory-IsHealthy (λ name. ok tt) 700_000 0 failed [] banned refl
      (omega arith)
