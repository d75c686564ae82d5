-- ===== src/Blob/Pool/Balance.antt =====
-- blob/pool.go: the users of a blob are counted, and it is closed when the last one puts it back.
use fnd.Base.{
  ℕ, ◌+◌, ◌-◌, ◌<◌, ◌≡◌, refl, sym, ap, ◌∙◌, arith, Option, none, some, [], ltb, ltb-false, lt→ltb,
  if◌then◌else◌, ok, err, ite, if_pos, if_neg, subst, dec_lt,
}
use fnd.Base.GoMap.{get, put, delete, get-put_at, get-put_ne, get-delete_at, get-delete_ne}
use fnd.Blob.Pool.{Blob, PoolEntry, Pool, getter_failed, get_known, put_known, get_blob, put_blob}

module _ {Name : Type 0} (dec : Discrete Name) where
  -- How many users a name has.
  abbrev pub entry_refs : Option (PoolEntry Name) → ℕ
  entry_refs none = 0
  entry_refs (some e) = e.refs

  abbrev pub refs_of : Name → Pool dec → ℕ
  refs_of n p = entry_refs (get dec n p)

  -- Every entry has a user and stands under its blob's name.
  abbrev pub IsValid : Pool dec → Type 0
  IsValid p =
      (n : Name) (e : PoolEntry Name) → get dec n p ≡ some e → (0 < e.refs) × (e.blob.name ≡ n)

  -- The pool, and how many users have a blob of each name: one more for each `Get` that succeeds,
  -- one less for each `Put`.
  pub record World : Type 0 where
    pub pool : Pool dec
    pub users : Name → ℕ

  abbrev pub add_user : Name → (Name → ℕ) → Name → ℕ
  add_user n u m = ite (dec n m) (u m + 1) (u m)

  abbrev pub drop_user : Name → (Name → ℕ) → Name → ℕ
  drop_user n u m = ite (dec n m) (u m - 1) (u m)

  -- A getter opens a blob of the name it is asked for, and only a blob in use is put back.
  pub data Step : World → World → Type 0 where
    gets :
        (w : World) (n : Name) (opened : Option (Blob Name)) (b : Blob Name)
        → ((o : Blob Name) → opened ≡ some o → o.name ≡ n)
        → (get_blob dec n opened w.pool).1 ≡ ok b
        → Step w (record { pool = (get_blob dec n opened w.pool).0; users = add_user n w.users })
    fails :
        (w : World) (n : Name)
        → (get_blob dec n none w.pool).1 ≡ err getter_failed
        → Step w (record { pool = (get_blob dec n none w.pool).0; users = w.users })
    puts :
        (w : World) (b : Blob Name)
        → 0 < w.users b.name
        → Step w (record { pool = (put_blob dec b w.pool).0; users = drop_user b.name w.users })

  pub data Reach : World → Type 0 where
    new_pool : Reach (record { pool = []; users = λ n. 0 })
    next : (v w : World) → Reach v → Step v w → Reach w

  pub record Inv (w : World) : Type 0 where
    pub valid : IsValid w.pool
    pub counted : (n : Name) → refs_of n w.pool ≡ w.users n

  put_refs :
      (n m : Name) (e : PoolEntry Name) (p : Pool dec)
      → refs_of m (put dec n e p) ≡ ite (dec n m) e.refs (refs_of m p)
  put_refs n m e p = elim (dec n m) [
    | yes q ↦ rw (get-put_at dec n m e p q, if_pos (dec n m) q) refl
    | no q ↦ rw (get-put_ne dec n m e p q, if_neg (dec n m) q) refl
  ]

  delete_refs :
      (n m : Name) (p : Pool dec) → refs_of m (delete dec n p) ≡ ite (dec n m) 0 (refs_of m p)
  delete_refs n m p = elim (dec n m) [
    | yes q ↦ rw (get-delete_at dec n m p q, if_pos (dec n m) q) refl
    | no q ↦ rw (get-delete_ne dec n m p q, if_neg (dec n m) q) refl
  ]

  -- A write to one name, read as a change of its count.
  change_at :
      (n m : Name) (p : Pool dec) {q : Option (PoolEntry Name)} (f : ℕ → ℕ)
      → get dec n p ≡ q
      → ite (dec n m) (f (entry_refs q)) (refs_of m p)
        ≡ ite (dec n m) (f (refs_of m p)) (refs_of m p)
  change_at n m p f h = elim (dec n m) [
    | yes e ↦
        if_pos (dec n m) e _ _
        ∙ ap (λ o. f (entry_refs o)) (sym h)
        ∙ ap (λ k. f (refs_of k p)) e
        ∙ sym (if_pos (dec n m) e _ _)
    | no e ↦ if_neg (dec n m) e _ _ ∙ sym (if_neg (dec n m) e _ _)
  ]

  get_known-refs :
      (n m : Name) (opened : Option (Blob Name)) (p : Pool dec) (b : Blob Name)
      (q : Option (PoolEntry Name))
      → get dec n p ≡ q
      → (get_known dec n opened p q).1 ≡ ok b
      → refs_of m (get_known dec n opened p q).0 ≡ add_user n (λ k. refs_of k p) m
  get_known-refs n m opened p b (some e) k h =
      put_refs n m (record e { refs = e.refs + 1 }) p ∙ change_at n m p (λ c. c + 1) k
  get_known-refs n m (some o) p b none k h =
      put_refs n m (record { blob = o; refs = 1 }) p ∙ change_at n m p (λ c. c + 1) k
  get_known-refs n m none p b none k h = absurd cc

  put_known-refs :
      (n m : Name) (p : Pool dec) (q : Option (PoolEntry Name))
      → get dec n p ≡ q
      → 0 < entry_refs q
      → refs_of m (put_known dec n p q).0 ≡ drop_user n (λ k. refs_of k p) m
  put_known-refs n m p none k h = absurd (omega arith)
  put_known-refs n m p (some e) k h = elim (dec_lt 1 e.refs) [
    | yes more ↦
        rw (lt→ltb 0 (e.refs - 1) (omega arith))
          (put_refs n m (record e { refs = e.refs - 1 }) p ∙ change_at n m p (λ c. c - 1) k)
    | no last ↦ rw (ltb-false 0 (e.refs - 1) (omega arith)) (
        delete_refs n m p
        ∙ ap (λ c. ite (dec n m) c (refs_of m p)) (omega arith)
        ∙ change_at n m p (λ c. c - 1) k)
  ]

  put-IsValid :
      (n : Name) (e : PoolEntry Name) (p : Pool dec)
      → (0 < e.refs) × (e.blob.name ≡ n)
      → IsValid p
      → IsValid (put dec n e p)
  put-IsValid n e p h v m d g = elim (dec n m) [
    | yes q ↦
        subst (λ x. (0 < x.refs) × (x.blob.name ≡ m)) (inj (sym (get-put_at dec n m e p q) ∙ g))
          (h.0, h.1 ∙ q)
    | no q ↦ v m d (sym (get-put_ne dec n m e p q) ∙ g)
  ]
    where
      inj : {a b : PoolEntry Name} → some a ≡ some b → a ≡ b
      inj r = cc

  delete-IsValid : (n : Name) (p : Pool dec) → IsValid p → IsValid (delete dec n p)
  delete-IsValid n p v m d g = elim (dec n m) [
    | yes q ↦ absurd (none_ne (sym (get-delete_at dec n m p q) ∙ g))
    | no q ↦ v m d (sym (get-delete_ne dec n m p q) ∙ g)
  ]
    where
      none_ne : {a : PoolEntry Name} → ◌≡◌ {A = Option (PoolEntry Name)} none (some a) → ⊥
      none_ne r = cc

  get_known-IsValid :
      (n : Name) (opened : Option (Blob Name)) (p : Pool dec) (q : Option (PoolEntry Name))
      → get dec n p ≡ q
      → ((o : Blob Name) → opened ≡ some o → o.name ≡ n)
      → IsValid p
      → IsValid (get_known dec n opened p q).0
  get_known-IsValid n opened p (some e) k h v =
      put-IsValid n (record e { refs = e.refs + 1 }) p (omega arith, (v n e k).1) v
  get_known-IsValid n (some o) p none k h v =
      put-IsValid n (record { blob = o; refs = 1 }) p (omega arith, h o refl) v
  get_known-IsValid n none p none k h v = v

  put_known-IsValid :
      (n : Name) (p : Pool dec) (q : Option (PoolEntry Name))
      → get dec n p ≡ q
      → IsValid p
      → IsValid (put_known dec n p q).0
  put_known-IsValid n p none k v = v
  put_known-IsValid n p (some e) k v = elim (dec_lt 0 (e.refs - 1)) [
    | yes more ↦
        rw (lt→ltb 0 (e.refs - 1) more)
          (put-IsValid n (record e { refs = e.refs - 1 }) p (more, (v n e k).1) v)
    | no last ↦ rw (ltb-false 0 (e.refs - 1) (omega arith)) (delete-IsValid n p v)
  ]

  fails-same :
      (n : Name) (p : Pool dec) (q : Option (PoolEntry Name))
      → (get_known dec n none p q).1 ≡ err getter_failed
      → (get_known dec n none p q).0 ≡ p
  fails-same n p (some e) h = absurd cc
  fails-same n p none h = refl

  Step-Inv : (v w : World) → Step v w → Inv v → Inv w
  unfolding get_blob put_blob
  Step-Inv v _ (gets _ n opened b h g) i = record {
    valid = get_known-IsValid n opened v.pool (get dec n v.pool) refl h i.valid;
    counted = λ m. get_known-refs n m opened v.pool b (get dec n v.pool) refl g ∙ changed m;
  }
    where
      changed : (m : Name) → add_user n (λ k. refs_of k v.pool) m ≡ add_user n v.users m
      changed m = rw (i.counted m) refl
  Step-Inv v _ (fails _ n f) i =
      let same = fails-same n v.pool (get dec n v.pool) f in
      rw same (record { valid = i.valid; counted = i.counted })
  Step-Inv v _ (puts _ b h) i = record {
    valid = put_known-IsValid b.name v.pool (get dec b.name v.pool) refl i.valid;
    counted = λ m. put_known-refs b.name m v.pool (get dec b.name v.pool) refl held ∙ changed m;
  }
    where
      held : 0 < refs_of b.name v.pool
      held = omega (arith, i.counted b.name)

      changed : (m : Name) → drop_user b.name (λ k. refs_of k v.pool) m ≡ drop_user b.name v.users m
      changed m = rw (i.counted m) refl

  Reach-Inv : (w : World) → Reach w → Inv w
  unfolding get
  Reach-Inv _ new_pool = empty
    where
      empty : Inv (record { pool = []; users = λ n. 0 })
      empty = record { valid = λ n e g. ground arith; counted = λ n. refl }
  Reach-Inv w (next v _ r s) = Step-Inv v w s (Reach-Inv v r)

  -- A blob with users is in the pool under its name.
  in_use :
      (n : Name) (p : Pool dec) (q : Option (PoolEntry Name))
      → get dec n p ≡ q
      → 0 < entry_refs q
      → (e : PoolEntry Name) × (get dec n p ≡ some e)
  in_use n p none h k = absurd (omega arith)
  in_use n p (some e) h k = (e, h)

  not_in_use :
      (n : Name) (p : Pool dec) (q : Option (PoolEntry Name))
      → get dec n p ≡ q
      → IsValid p
      → entry_refs q ≡ 0
      → get dec n p ≡ none
  not_in_use n p none h v k = h
  not_in_use n p (some e) h v k = absurd (omega (arith, (v n e h).0))

  put_known-result :
      (n : Name) (p : Pool dec) (e : PoolEntry Name) (k : ℕ)
      → e.refs ≡ k
      → (put_known dec n p (some e)).1 ≡ ok (if ltb 1 k then none else some e.blob)
  put_known-result n p e k h = ground arith

  -- Whatever users did with a pool, a blob that somebody uses is not opened again: each `Get` of
  -- its name gives the one blob. Each user can put it back, without a panic, and it is closed
  -- exactly if he is the last.
  pub Reach-in_use :
      (w : World) (n : Name)
      → Reach w
      → 0 < w.users n
      → (b : Blob Name) × (b.name ≡ n)
        × ((opened : Option (Blob Name)) → (get_blob dec n opened w.pool).1 ≡ ok b)
        × ((put_blob dec b w.pool).1 ≡ ok (if ltb 1 (w.users n) then none else some b))
  unfolding get_blob put_blob
  Reach-in_use w n r h =
      let i = Reach-Inv w r in
      let f = in_use n w.pool (get dec n w.pool) refl (omega (arith, i.counted n)) in
      let v = i.valid n f.0 f.1 in
      let put_back : get dec f.0.blob.name w.pool ≡ some f.0 =
        ap (λ m. get dec m w.pool) v.1 ∙ f.1 in
      let refs : f.0.refs ≡ w.users n = sym (ap entry_refs f.1) ∙ i.counted n in
      (
        f.0.blob,
        v.1,
        λ o. ap (λ q. (get_known dec n o w.pool q).1) f.1,
        ap (λ q. (put_known dec f.0.blob.name w.pool q).1) put_back
            ∙ put_known-result f.0.blob.name w.pool f.0 (w.users n) refs,
      )

  -- When the last user of a blob has put it back, the pool forgets it: a `Get` of its name gives
  -- what the getter opens.
  pub Reach-not_in_use :
      (w : World) (n : Name) (b : Blob Name)
      → Reach w
      → w.users n ≡ 0
      → (get dec n w.pool ≡ none) × ((get_blob dec n (some b) w.pool).1 ≡ ok b)
  unfolding get_blob
  Reach-not_in_use w n b r h =
      let i = Reach-Inv w r in
      let g = not_in_use n w.pool (get dec n w.pool) refl i.valid (i.counted n ∙ h) in
      (g, rw g refl)
