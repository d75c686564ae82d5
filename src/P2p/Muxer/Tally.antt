-- ===== src/P2p/Muxer/Tally.antt =====
-- p2p/peer_muxer.go: the peers of a direction, counted in the map of peers.
use fnd.Base.{
  ℕ, ◌+◌, ◌≡◌, refl, sym, ap, ◌∙◌, Option, none, some, [], ◌∷◌, ◌++◌, arith, if_pos, subst, if_neg,
  NotIn, Distinct, Distinct-snoc, Bool, true, false,
}
use fnd.Base.Bytes.{bytes_dec}
use fnd.Base.GoMap.{Map, get, put, delete}
use fnd.Blob.Consts.{Hash}
use fnd.P2p.Muxer.{Ref, Direction, inbound, outbound, PeerObjects, peer_ids}

abbrev pub same_direction : Direction → Direction → Bool
same_direction inbound inbound = true
same_direction inbound outbound = false
same_direction outbound inbound = false
same_direction outbound outbound = true

abbrev pub one_if : Bool → ℕ
one_if true = 1
one_if false = 0

none-ne-some : {r : Ref} → ◌≡◌ {A = Option Ref} none (some r) → ⊥
none-ne-some e = cc

some_eq : {r s : Ref} → ◌≡◌ {A = Option Ref} (some r) (some s) → r ≡ s
some_eq e = cc

pub NotIn-of_missing :
    (k : Hash) (m : Map Hash Ref) → get bytes_dec k m ≡ none → NotIn k (peer_ids m)
unfolding get peer_ids
NotIn-of_missing k [] e = tt
NotIn-of_missing k ((j, r) ∷ m) e = elim (bytes_dec j k) [
  | yes p ↦ absurd (none-ne-some (sym e ∙ if_pos (bytes_dec j k) p _ _))
  | no n ↦ (n, NotIn-of_missing k m (sym (if_neg (bytes_dec j k) n _ _) ∙ e))
]

pub peer_ids-put_new :
    (k : Hash) (r : Ref) (m : Map Hash Ref)
    → get bytes_dec k m ≡ none
    → peer_ids (put bytes_dec k r m) ≡ peer_ids m ++ (k ∷ [])
unfolding get put peer_ids
peer_ids-put_new k r [] e = refl
peer_ids-put_new k r ((j, s) ∷ m) e = elim (bytes_dec j k) [
  | yes p ↦ absurd (none-ne-some (sym e ∙ if_pos (bytes_dec j k) p _ _))
  | no n ↦
      rw (if_neg (bytes_dec j k) n)
        (ap (◌∷◌ j) (peer_ids-put_new k r m (sym (if_neg (bytes_dec j k) n _ _) ∙ e)))
]

pub Distinct-put_new :
    (k : Hash) (r : Ref) (m : Map Hash Ref)
    → get bytes_dec k m ≡ none
    → Distinct (peer_ids m)
    → Distinct (peer_ids (put bytes_dec k r m))
Distinct-put_new k r m e d =
    rw (peer_ids-put_new k r m e) (Distinct-snoc (peer_ids m) k (NotIn-of_missing k m e) d)

NotIn-delete :
    (x k : Hash) (m : Map Hash Ref)
    → NotIn x (peer_ids m)
    → NotIn x (peer_ids (delete bytes_dec k m))
unfolding delete peer_ids
NotIn-delete x k [] a = tt
NotIn-delete x k ((j, r) ∷ m) a = elim (bytes_dec j k) [
  | yes p ↦ rw (if_pos (bytes_dec j k) p) (NotIn-delete x k m a.1)
  | no n ↦ rw (if_neg (bytes_dec j k) n) (a.0, NotIn-delete x k m a.1)
]

pub Distinct-delete :
    (k : Hash) (m : Map Hash Ref)
    → Distinct (peer_ids m)
    → Distinct (peer_ids (delete bytes_dec k m))
unfolding delete peer_ids
Distinct-delete k [] d = tt
Distinct-delete k ((j, r) ∷ m) d = elim (bytes_dec j k) [
  | yes p ↦ rw (if_pos (bytes_dec j k) p) (Distinct-delete k m d.1)
  | no n ↦ rw (if_neg (bytes_dec j k) n) (NotIn-delete j k m d.0, Distinct-delete k m d.1)
]

delete-absent : (k : Hash) (m : Map Hash Ref) → NotIn k (peer_ids m) → delete bytes_dec k m ≡ m
unfolding delete peer_ids
delete-absent k [] a = refl
delete-absent k ((j, r) ∷ m) a =
    if_neg (bytes_dec j k) a.0 _ _ ∙ ap (◌∷◌ (j, r)) (delete-absent k m a.1)

module _ (P : PeerObjects) (d : Direction) where
  -- How many peers of a map have the direction.
  unfoldable pub tally : Map Hash Ref → ℕ
  tally [] = 0
  tally ((id, r) ∷ m) = one_if (same_direction (P.direction r) d) + tally m

  pub tally-put_new :
      (k : Hash) (r : Ref) (m : Map Hash Ref)
      → get bytes_dec k m ≡ none
      → tally (put bytes_dec k r m) ≡ tally m + one_if (same_direction (P.direction r) d)
  unfolding get put tally
  tally-put_new k r [] e = omega arith
  tally-put_new k r ((j, s) ∷ m) e = elim (bytes_dec j k) [
    | yes p ↦ absurd (none-ne-some (sym e ∙ if_pos (bytes_dec j k) p _ _))
    | no n ↦
        rw (if_neg (bytes_dec j k) n)
          (omega (arith, tally-put_new k r m (sym (if_neg (bytes_dec j k) n _ _) ∙ e)))
  ]

  pub tally-delete :
      (k : Hash) (r : Ref) (m : Map Hash Ref)
      → get bytes_dec k m ≡ some r
      → Distinct (peer_ids m)
      → tally m ≡ tally (delete bytes_dec k m) + one_if (same_direction (P.direction r) d)
  unfolding get tally peer_ids delete
  tally-delete k r [] e u = absurd (none-ne-some e)
  tally-delete k r ((j, s) ∷ m) e u = elim (bytes_dec j k) [
    | yes p ↦
        let same : s ≡ r = some_eq (sym (if_pos (bytes_dec j k) p _ _) ∙ e) in
        let absent : NotIn k (peer_ids m) = subst (λ x. NotIn x (peer_ids m)) p u.0 in
        rw (if_pos (bytes_dec j k) p) (rw (delete-absent k m absent) (rw same (omega arith)))
    | no n ↦
        rw (if_neg (bytes_dec j k) n)
          (omega (arith, tally-delete k r m (sym (if_neg (bytes_dec j k) n _ _) ∙ e) u.1))
  ]
