-- ===== src/Protocol/PeerSet.antt =====
-- protocol/peer_set.go: a set of peer ids that remembers the order of insertion. Each method holds
-- the mutex, so it is one step on the record. A peer id is a crypto.Hash, of which only equality
-- is used.
use fnd.Base.{
  ℕ, zero, suc, ◌+◌, ◌≡◌, ◌≢◌, inl, inr, refl, sym, ap, ◌∙◌, List, [], ◌∷◌, ◌++◌, Option, none,
  some, Bool, true, false, arith, if◌then◌else◌, length, get_elem?, drop, head_of, tail_of,
  get_elem?-drop, drop-next, NotIn, Distinct, Distinct-snoc, Bool-cases, length-append, holds,
  holds_yes, holds_no, ◌||◌,
}
use fnd.Base.GoMap.{Map, get, put, get-put, length-put_new}

pub record PeerSet (Hash : Type 0) : Type 0 where
  pub peers : Map Hash Bool
  pub ids : List Hash

-- `m[k]` on a map of Booleans: false where the key is missing.
abbrev pub is_set : Option Bool → Bool
is_set none = false
is_set (some b) = b

module _ {Hash : Type 0} (dec : Discrete Hash) where
  -- `Add`
  unfoldable pub add : PeerSet Hash → Hash → PeerSet Hash
  add ps peer_id =
      if is_set (get dec peer_id ps.peers)
      then ps
      else record ps { peers = put dec peer_id true ps.peers; ids = ps.ids ++ peer_id ∷ [] }

  -- The loop of `NewPeerSet`, which does to the new set what `Add` does.
  unfoldable pub new_peer_set_loop : PeerSet Hash → List Hash → PeerSet Hash
  new_peer_set_loop res [] = res
  new_peer_set_loop res (peer ∷ rest) =
      new_peer_set_loop
        (if is_set (get dec peer res.peers)
          then res
          else record res { peers = put dec peer true res.peers; ids = res.ids ++ peer ∷ [] })
        rest

  unfoldable pub new_peer_set : List Hash → PeerSet Hash
  unfolding new_peer_set_loop
  new_peer_set initial_peers = new_peer_set_loop (record { peers = []; ids = [] }) initial_peers

  -- `Has`
  unfoldable pub has : PeerSet Hash → Hash → Bool
  has ps peer_id = is_set (get dec peer_id ps.peers)

  -- `Len`
  pub len : PeerSet Hash → ℕ
  len ps = length ps.peers

  -- One call of the function that `Iterator` returns: the id and the index after it.
  pub iterator_next : PeerSet Hash → ℕ → Option (Hash × ℕ)
  iterator_next ps i = elim (get_elem? ps.ids i) [ none ↦ none | some id ↦ some (id, i + 1) ]

  -- `for peerID, ok := iter(); ok; ...`, at most `fuel` times.
  pub iterate : ℕ → PeerSet Hash → ℕ → List Hash
  iterate zero ps i = []
  iterate (suc fuel) ps i = elim (iterator_next ps i) [
    | none ↦ []
    | some (id, i') ↦ id ∷ iterate fuel ps i'
  ]

  pub member : Hash → List Hash → Bool
  member h [] = false
  member h (x ∷ xs) = holds (dec x h) || member h xs

  -- The ids in the order in which they were first seen.
  pub insert_once : Hash → List Hash → List Hash
  insert_once h xs = if member h xs then xs else xs ++ h ∷ []

  pub first_seen : List Hash → List Hash → List Hash
  first_seen xs [] = xs
  first_seen xs (y ∷ ys) = first_seen (insert_once y xs) ys

  pub record IsValid (ps : PeerSet Hash) : Type 0 where
    pub agree : (h : Hash) → has ps h ≡ member h ps.ids
    pub distinct : Distinct ps.ids
    pub sized : length ps.peers ≡ length ps.ids
    pub no_false : (h : Hash) → get dec h ps.peers ≢ some false

  pub member-NotIn : (h : Hash) (xs : List Hash) → member h xs ≡ false → NotIn h xs
  unfolding member
  member-NotIn h [] e = tt
  member-NotIn h (x ∷ xs) e = elim (dec x h) [
    | yes p ↦ absurd (ground arith)
    | no p ↦ (p, member-NotIn h xs (ground arith))
  ]

  pub NotIn-member : (h : Hash) (xs : List Hash) → NotIn h xs → member h xs ≡ false
  unfolding member
  NotIn-member h [] n = refl
  NotIn-member h (x ∷ xs) n = ground (arith, NotIn-member h xs n.1)

  pub member-cons :
      (h x : Hash) (xs : List Hash) → member h (x ∷ xs) ≡ (holds (dec x h) || member h xs)
  unfolding member
  member-cons h x xs = refl

  pub member-append :
      (h a : Hash) (xs : List Hash) → member h (xs ++ a ∷ []) ≡ (holds (dec a h) || member h xs)
  unfolding member
  member-append h a [] = refl
  member-append h a (x ∷ xs) = ground (arith, member-append h a xs)

  pub member-nil : (h : Hash) → member h [] ≡ false
  unfolding member
  member-nil h = refl

  pub member-append_at : (k n : Hash) (xs : List Hash) → k ≡ n → member n (xs ++ k ∷ []) ≡ true
  member-append_at k n xs p =
      member-append n k xs ∙ ap (λ b. b || member n xs) (holds_yes (dec k n) p)

  pub member-append_ne :
      (k n : Hash) (xs : List Hash) → k ≢ n → member n (xs ++ k ∷ []) ≡ member n xs
  member-append_ne k n xs p =
      member-append n k xs ∙ ap (λ b. b || member n xs) (holds_no (dec k n) p)

  pub member-cons_ne : (k n : Hash) (xs : List Hash) → k ≢ n → member n (k ∷ xs) ≡ member n xs
  member-cons_ne k n xs p = member-cons n k xs ∙ ap (λ b. b || member n xs) (holds_no (dec k n) p)

  none_of : (o : Option Bool) → is_set o ≡ false → o ≢ some false → o ≡ none
  none_of none e n = refl
  none_of (some true) e n = cc
  none_of (some false) e n = absurd (n refl)

  grown : PeerSet Hash → Hash → PeerSet Hash
  grown ps h = record ps { peers = put dec h true ps.peers; ids = ps.ids ++ h ∷ [] }

  grown-IsValid :
      (ps : PeerSet Hash) (h : Hash) → IsValid ps → has ps h ≡ false → IsValid (grown ps h)
  unfolding grown has
  grown-IsValid ps h v new = record {
    agree = λ j. ground (arith, get-put dec h j true ps.peers, member-append j h ps.ids, v.agree j);
    distinct = Distinct-snoc ps.ids h (member-NotIn h ps.ids (sym (v.agree h) ∙ new)) v.distinct;
    sized = omega (
      arith,
      length-put_new dec h true ps.peers (none_of _ new (v.no_false h)),
      length-append ps.ids (h ∷ []),
      v.sized,
    );
    no_false = λ j e. ground (arith, get-put dec h j true ps.peers, v.no_false j);
  }

  -- `Add` keeps the map and the slice in step, appends a new id and leaves a known one in place.
  pub add-IsValid :
      (ps : PeerSet Hash) (h : Hash)
      → IsValid ps
      → IsValid (add ps h) × ((add ps h).ids ≡ insert_once h ps.ids)
  unfolding add insert_once has grown
  add-IsValid ps h v = elim (Bool-cases (is_set (get dec h ps.peers))) [
    | inl old ↦ rw (old, sym (v.agree h) ∙ old) (v, refl)
    | inr new ↦ rw (new, sym (v.agree h) ∙ new) (grown-IsValid ps h v new, refl)
  ]

  none-ne-some : {b : Bool} → ◌≡◌ {A = Option Bool} none (some b) → ⊥
  none-ne-some e = cc

  new_peer_set_loop-IsValid :
      (ps : PeerSet Hash) (hs : List Hash)
      → IsValid ps
      → IsValid (new_peer_set_loop ps hs) × ((new_peer_set_loop ps hs).ids ≡ first_seen ps.ids hs)
  unfolding new_peer_set_loop first_seen add
  new_peer_set_loop-IsValid ps [] v = (v, refl)
  new_peer_set_loop-IsValid ps (h ∷ hs) v =
      let grows : IsValid (add ps h) × ((add ps h).ids ≡ insert_once h ps.ids) =
        add-IsValid ps h v in
      let rest : IsValid (new_peer_set_loop (add ps h) hs)
          × ((new_peer_set_loop (add ps h) hs).ids ≡ first_seen (add ps h).ids hs) =
        new_peer_set_loop-IsValid (add ps h) hs grows.0 in
      (rest.0, rest.1 ∙ ap (λ xs. first_seen xs hs) grows.1)

  -- A new peer set is valid: its ids are those given, each once, in the order of first sight;
  -- `Has` holds of exactly these, and `Len` is their number.
  pub new_peer_set-IsValid :
      (hs : List Hash)
      → IsValid (new_peer_set hs)
        × ((new_peer_set hs).ids ≡ first_seen [] hs)
        × (len (new_peer_set hs) ≡ length (first_seen [] hs))
  unfolding new_peer_set len member has get
  new_peer_set-IsValid hs =
      let start : PeerSet Hash = record { peers = []; ids = [] } in
      let both : IsValid (new_peer_set_loop start hs)
          × ((new_peer_set_loop start hs).ids ≡ first_seen [] hs) =
        new_peer_set_loop-IsValid start hs empty-IsValid in
      (both.0, both.1, both.0.sized ∙ ap length both.1)
    where
      empty-IsValid : IsValid (record { peers = []; ids = [] })
      empty-IsValid = record {
        agree = λ h. refl;
        distinct = tt;
        sized = refl;
        no_false = λ h. none-ne-some;
      }

  iterate_from :
      (xs : List Hash) (ps : PeerSet Hash) (i : ℕ)
      → drop i ps.ids ≡ xs
      → iterate (suc (length xs)) ps i ≡ xs
  unfolding iterate iterator_next
  iterate_from [] ps i e =
      let none_here : get_elem? ps.ids i ≡ none = get_elem?-drop ps.ids i ∙ ap head_of e in
      rw (none_here, iterator_next, iterate) refl
  iterate_from (x ∷ xs) ps i e =
      let found : get_elem? ps.ids i ≡ some x = get_elem?-drop ps.ids i ∙ ap head_of e in
      let left : drop (i + 1) ps.ids ≡ xs = drop-next ps.ids i ∙ ap tail_of e in
      rw (found, iterator_next, iterate) (ap (◌∷◌ x) (iterate_from xs ps (i + 1) left))

  -- Called until it says that it is at its end, `Iterator` yields every id once, in the order of
  -- insertion.
  pub iterate-ids : (ps : PeerSet Hash) → iterate (suc (length ps.ids)) ps 0 ≡ ps.ids
  iterate-ids ps = iterate_from ps.ids ps 0 refl
