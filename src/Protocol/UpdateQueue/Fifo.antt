-- ===== src/Protocol/UpdateQueue/Fifo.antt =====
-- protocol/update_queue.go: what `Dequeue` hands out.
use fnd.Base.{
  ℕ, zero, suc, ◌≡◌, ◌≢◌, refl, sym, ap, subst, NotIn, Distinct, ◌∙◌, Bool, true, false, some, List,
  [], ◌∷◌, Option-cases, inl, inr, holds_yes, ◌||◌, get_elem?,
}
use fnd.Base.Bytes.{bytes_dec}
use fnd.Base.GoMap.{get, get-delete_ne}
use fnd.Store.Types.{Name}
use fnd.Protocol.PeerSet.{member, member-cons}
use fnd.Protocol.UpdateQueue.{UpdateQueueItem, UpdateQueue, dequeue}
use fnd.Protocol.UpdateQueue.Invariant.{IsValid, is_some, dequeue-IsValid}

-- A valid queue that is not empty hands out the entry of its oldest name, never nil, and forgets
-- that name alone.
pub dequeue-oldest :
    (u : UpdateQueue) (name : Name) (rest : List Name)
    → IsValid u
    → u.queue ≡ name ∷ rest
    → (item : UpdateQueueItem) × (get bytes_dec name u.entries ≡ some item)
      × ((dequeue u).1 ≡ some item)
      × (item.name ≡ name)
      × ((dequeue u).0.queue ≡ rest)
      × ((n : Name) → name ≢ n → get bytes_dec n (dequeue u).0.entries ≡ get bytes_dec n u.entries)
unfolding dequeue
dequeue-oldest u name rest v e = elim (Option-cases (get bytes_dec name u.entries)) [
  | inl missing ↦ absurd (true-ne-false (sym present ∙ ap is_some missing))
  | inr (item, found) ↦
      rw (e, dequeue)
        (
          item,
          found,
          found,
          (v.live name item found).named,
          refl,
          λ n h. get-delete_ne bytes_dec name n u.entries h,
        )
]
  where
    present : is_some (get bytes_dec name u.entries) ≡ true
    present =
        sym (v.listed name)
        ∙ ap (member bytes_dec name) e
        ∙ member-cons bytes_dec name name rest
        ∙ ap (λ b. b || member bytes_dec name rest) (holds_yes (bytes_dec name name) refl)

    true-ne-false : ◌≡◌ {A = Bool} true false → ⊥
    true-ne-false q = cc

-- So many calls of `Dequeue`.
pub dequeue_times : ℕ → UpdateQueue → UpdateQueue
dequeue_times zero u = u
dequeue_times (suc n) u = dequeue_times n (dequeue u).0

name_inj : {a b : Name} → some a ≡ some b → a ≡ b
name_inj q = cc

NotIn-get_elem? :
    (n : Name) (q : List Name) (i : ℕ) (name : Name)
    → NotIn n q
    → get_elem? q i ≡ some name
    → n ≢ name
NotIn-get_elem? n [] i name h e = cc
NotIn-get_elem? n (m ∷ q) zero name h e = λ s. h.0 (name_inj e ∙ sym s)
NotIn-get_elem? n (m ∷ q) (suc i) name h e = NotIn-get_elem? n q i name h.1 e

dequeue_position_from :
    (i : ℕ) (q : List Name) (u : UpdateQueue) (name : Name)
    → IsValid u
    → u.queue ≡ q
    → get_elem? q i ≡ some name
    → (item : UpdateQueueItem) × (get bytes_dec name u.entries ≡ some item)
      × ((dequeue (dequeue_times i u)).1 ≡ some item)
      × (item.name ≡ name)
unfolding dequeue_times
dequeue_position_from i [] u name v e g = cc
dequeue_position_from zero (n ∷ rest) u name v e g =
    let first = dequeue-oldest u n rest v e in
    (
      first.0,
      ap (λ z. get bytes_dec z u.entries) (sym (name_inj g)) ∙ first.1,
      first.2,
      first.3 ∙ name_inj g,
    )
dequeue_position_from (suc i) (n ∷ rest) u name v e g =
    let (old, held, out, named, queued, same) = dequeue-oldest u n rest v e in
    let (item, entry, handed, name_is) =
      dequeue_position_from i rest (dequeue u).0 name (dequeue-IsValid u v) queued g in
    (
      item,
      sym (same name (NotIn-get_elem? n rest i name (subst Distinct e v.distinct).0 g)) ∙ entry,
      handed,
      name_is,
    )

-- No starvation: on a valid queue the name at position i is what the (i + 1)-th `Dequeue` hands
-- out, and the item is the entry that the queue has for it at the start.
pub dequeue-position :
    (i : ℕ) (u : UpdateQueue) (name : Name)
    → IsValid u
    → get_elem? u.queue i ≡ some name
    → (item : UpdateQueueItem) × (get bytes_dec name u.entries ≡ some item)
      × ((dequeue (dequeue_times i u)).1 ≡ some item)
      × (item.name ≡ name)
dequeue-position i u name v e = dequeue_position_from i u.queue u name v refl e
