-- ===== src/P2p/Muxer/Removal.antt =====
-- p2p/peer_muxer.go: the loop of removeInboundPeerByIP against the removal of one element.
use fnd.Base.{
  ℕ, zero, suc, ◌+◌, ◌-◌, ◌≡◌, refl, sym, ap, ◌∙◌, true, false, List, [], ◌∷◌, ◌++◌, arith, Outcome,
  ok, length, take, drop, get_elem?, head_of, tail_of, NotIn, get_elem?-drop, drop-next,
  length-append, take-append, drop-append, take_all, drop_all, lt→ltb, ==-refl, ==-ne, append-nil,
  append_assoc, drop-drop, length-drop, subst,
}
use fnd.P2p.Muxer.{Ref, MuxError, points_to, shift, remove_loop, remove_ref}

head-NotIn : (p : Ref) (xs : List Ref) → NotIn p xs → points_to (head_of xs) p ≡ false
head-NotIn p [] a = refl
head-NotIn p (x ∷ xs) a = ==-ne x p a.0

tail-NotIn : (p : Ref) (xs : List Ref) → NotIn p xs → NotIn p (tail_of xs)
tail-NotIn p [] a = tt
tail-NotIn p (x ∷ xs) a = a.1

NotIn-drop : (p : Ref) (n : ℕ) (xs : List Ref) → NotIn p xs → NotIn p (drop n xs)
NotIn-drop p zero xs a = a
NotIn-drop p (suc n) [] a = a
NotIn-drop p (suc n) (x ∷ xs) a = NotIn-drop p n xs a.1

-- A range that meets no more entry of the peer changes nothing.
remove_loop-absent :
    (n i : ℕ) (p : Ref) (arr : List Ref) (len : ℕ)
    → NotIn p (drop i arr)
    → remove_loop n i p arr len ≡ ok (take len arr)
unfolding remove_loop
remove_loop-absent zero i p arr len a = refl
remove_loop-absent (suc n) i p arr len a =
    rw (ap (λ o. points_to o p) (get_elem?-drop arr i) ∙ head-NotIn p (drop i arr) a, remove_loop)
      (remove_loop-absent n (i + 1) p arr len (rw (drop-next arr i) (tail-NotIn p (drop i arr) a)))

-- The entries before the peer are passed.
remove_loop-skip :
    (seen todo rest : List Ref) (n m : ℕ) (p : Ref) (len : ℕ)
    → NotIn p todo
    → n ≡ length todo + m
    → remove_loop n (length seen) p (seen ++ (todo ++ rest)) len
      ≡ remove_loop m (length (seen ++ todo)) p (seen ++ (todo ++ rest)) len
unfolding remove_loop
remove_loop-skip seen [] rest n m p len a e =
    let same : n ≡ m = omega (arith, e) in
    (λ i. remove_loop (same i) (length (sym (append-nil seen) i)) p (seen ++ rest) len)
remove_loop-skip seen (x ∷ todo) rest zero m p len a e = absurd (omega (arith, e))
remove_loop-skip seen (x ∷ todo) rest (suc n) m p len a e =
    rw (passed, remove_loop)
      ((λ i. remove_loop n (counted i) p (regrouped (x ∷ []) (todo ++ rest) i) len)
        ∙ remove_loop-skip (seen ++ (x ∷ [])) todo rest n m p len a.1 (omega (arith, e))
        ∙ (λ i.
            remove_loop m (length (append_assoc seen (x ∷ []) todo i)) p
              (sym (regrouped (x ∷ []) (todo ++ rest)) i) len))
  where
    regrouped : (b c : List Ref) → seen ++ (b ++ c) ≡ (seen ++ b) ++ c
    regrouped b c = sym (append_assoc seen b c)

    counted : length seen + 1 ≡ length (seen ++ (x ∷ []))
    counted = omega (arith, length-append seen (x ∷ []))

    passed : points_to (get_elem? (seen ++ (x ∷ (todo ++ rest))) (length seen)) p ≡ false
    passed =
        ap (λ o. points_to o p)
          (get_elem?-drop (seen ++ (x ∷ (todo ++ rest))) (length seen)
            ∙ ap head_of (drop-append seen (x ∷ (todo ++ rest))))
        ∙ ==-ne x p a.0

drop-middle :
    (front : List Ref) (p : Ref) (rest : List Ref)
    → drop (length front + 1) (front ++ (p ∷ rest)) ≡ rest
drop-middle front p rest =
    drop-next (front ++ (p ∷ rest)) (length front) ∙ ap tail_of (drop-append front (p ∷ rest))

NotIn-append-lem : (p : Ref) (xs ys : List Ref) → NotIn p xs → NotIn p ys → NotIn p (xs ++ ys)
NotIn-append-lem p [] ys a b = b
NotIn-append-lem p (x ∷ xs) ys a b = (a.0, NotIn-append-lem p xs ys a.1 b)

-- What the append leaves at the end of the array.
abbrev left_over : List Ref → Ref → List Ref → List Ref
left_over front p rest = drop (length (front ++ (p ∷ rest)) - 1) (front ++ (p ∷ rest))

shift-middle :
    (front : List Ref) (p : Ref) (rest : List Ref)
    → shift (length front) (length (front ++ (p ∷ rest))) (front ++ (p ∷ rest))
      ≡ front ++ (rest ++ left_over front p rest)
unfolding shift
shift-middle front p rest =
    λ i. take-append front (p ∷ rest) i ++ (kept i ++ left_over front p rest)
  where
    kept :
        take
          (length (front ++ (p ∷ rest)) - (length front + 1))
          (drop (length front + 1) (front ++ (p ∷ rest)))
        ≡ rest
    kept =
        ap (take (length (front ++ (p ∷ rest)) - (length front + 1))) (drop-middle front p rest)
        ∙ take_all rest _ (omega (arith, length-append front (p ∷ rest)))

-- Behind the place of the peer the shifted array does not hold it again.
NotIn-behind :
    (front : List Ref) (p : Ref) (rest : List Ref)
    → NotIn p rest
    → NotIn p (drop (length front + 1) (front ++ (rest ++ left_over front p rest)))
NotIn-behind front p [] a =
    subst (NotIn p)
      (sym (
        drop-next (front ++ left_over front p []) (length front)
        ∙ ap tail_of (drop-append front (left_over front p []))
        ∙ sym (drop-next (left_over front p []) 0)
        ∙ drop_all (left_over front p []) (0 + 1)
            (omega (arith, length-drop (length (front ++ (p ∷ [])) - 1) (front ++ (p ∷ []))))))
      tt
NotIn-behind front p (r ∷ rs) a =
    subst (NotIn p) (sym (drop-middle front r (rs ++ left_over front p (r ∷ rs)))) (
      NotIn-append-lem p rs (left_over front p (r ∷ rs)) a.1
        (subst (NotIn p) (sym last) (NotIn-drop p (length rs) (r ∷ rs) a)))
  where
    last : left_over front p (r ∷ rs) ≡ drop (length rs) (r ∷ rs)
    last =
        ap (λ k. drop k (front ++ (p ∷ (r ∷ rs))))
          (omega (arith, length-append front (p ∷ (r ∷ rs))))
        ∙ sym (drop-drop (length rs) (length front + 1) (front ++ (p ∷ (r ∷ rs))))
        ∙ ap (drop (length rs)) (drop-middle front p (r ∷ rs))

-- On an address list that holds a peer once, the loop of removeInboundPeerByIP takes out that peer
-- and keeps the others in order, although it appends to the slice that it ranges over; it does not
-- panic.
pub remove_ref-once :
    (front : List Ref) (p : Ref) (rest : List Ref)
    → NotIn p front
    → NotIn p rest
    → remove_ref p (front ++ (p ∷ rest)) ≡ ok (front ++ rest)
unfolding remove_ref
remove_ref-once front p rest a b =
    remove_loop-skip [] front (p ∷ rest) (length (front ++ (p ∷ rest))) (suc (length rest)) p
      (length (front ++ (p ∷ rest))) a (omega (arith, length-append front (p ∷ rest)))
    ∙ rw (found, remove_loop)
        (rw
          (lt→ltb (length front) (length (front ++ (p ∷ rest)))
            (omega (arith, length-append front (p ∷ rest))))
          (ap
              (λ arr.
                remove_loop (length rest) (length front + 1) p arr
                  (length (front ++ (p ∷ rest)) - 1))
              (shift-middle front p rest)
            ∙ remove_loop-absent (length rest) (length front + 1) p _ _
                (NotIn-behind front p rest b)
            ∙ ap (λ l. to_result l) cut))
  where
    found : points_to (get_elem? (front ++ (p ∷ rest)) (length front)) p ≡ true
    found =
        ap (λ o. points_to o p)
          (get_elem?-drop (front ++ (p ∷ rest)) (length front)
            ∙ ap head_of (drop-append front (p ∷ rest)))
        ∙ ==-refl p

    to_result : List Ref → Outcome MuxError (List Ref)
    to_result l = ok l

    cut :
        take (length (front ++ (p ∷ rest)) - 1) (front ++ (rest ++ left_over front p rest))
        ≡ front ++ rest
    cut =
        ap (λ l. take (length (front ++ (p ∷ rest)) - 1) l)
          (sym (append_assoc front rest (left_over front p rest)))
        ∙ ap (λ k. take k ((front ++ rest) ++ left_over front p rest))
            (omega (arith, length-append front (p ∷ rest), length-append front rest))
        ∙ take-append (front ++ rest) (left_over front p rest)

-- A peer that a list does not hold is not taken out.
pub remove_ref-absent : (p : Ref) (l : List Ref) → NotIn p l → remove_ref p l ≡ ok l
unfolding remove_ref
remove_ref-absent p l a =
    remove_loop-absent (length l) 0 p l (length l) a
    ∙ ap (λ k. to_result k) (take_all l (length l) (omega arith))
  where
    to_result : List Ref → Outcome MuxError (List Ref)
    to_result k = ok k
