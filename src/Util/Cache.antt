-- ===== src/Util/Cache.antt =====
-- util/cache.go: values by key, each with an expiry in nanoseconds since 1970. Each method holds
-- the mutex of the entries, so it is one step. A value is never nil here, and an expiry is not
-- negative.
use fnd.Base.{
  ℕ, ◌+◌, ◌*◌, ◌/◌, ◌<◌, ◌≡◌, ◌≢◌, refl, ap, ◌∙◌, arith, Option, none, some, List, [], ◌∷◌, ltb,
  ◌==◌, if◌then◌else◌, lt→ltb,
}
use fnd.Base.GoMap.{Map, get, put, delete, get-put_at, get-put_ne}

pub record Entry (V : Type 0) : Type 0 where
  pub val : V
  pub expiry : ℕ

-- `math.MaxInt16`
abbrev pub max_int16 : ℕ
max_int16 = 32767

-- The expiry that `Set` gives. A lifetime of zero gives a time that is long past.
unfoldable pub expiry_of : ℕ → ℕ → ℕ
expiry_of now exp_ms = if exp_ms == 0 then max_int16 else now + exp_ms * 1000000

abbrev pub Entries : Type 0 → Type 0 → Type 0
Entries K V = Map K (Entry V)

module _ {K V : Type 0} (dec : Discrete K) where
  -- `Get`: the entries after it, what is given to the reaper function, and the value.
  abbrev pub look : ℕ → K → Entries K V → Option (Entry V) → Entries K V × Option (K × V) × Option V
  look now key l none = (l, none, none)
  look now key l (some e) =
      if ltb e.expiry now
      then (delete dec key l, some (key, e.val), none)
      else (l, none, some e.val)

  unfoldable pub get_value : ℕ → K → Entries K V → Entries K V × Option (K × V) × Option V
  get_value now key l = look now key l (get dec key l)

  -- `Set`
  unfoldable pub set_value : ℕ → K → V → ℕ → Entries K V → Entries K V
  set_value now key val exp_ms l =
      put dec key (record { val = val; expiry = expiry_of now exp_ms }) l

  -- `Del`
  unfoldable pub del : K → Entries K V → Entries K V
  del key l = delete dec key l

  -- The keys that `reap` collects: it compares seconds with the nanoseconds of the expiry.
  unfoldable pub to_delete : ℕ → Entries K V → List K
  to_delete now [] = []
  to_delete now ((k, e) ∷ l) =
      let rest = to_delete now l in if ltb (now / 1000000000) e.expiry then rest else k ∷ rest

  unfoldable pub delete_all : List K → Entries K V → Entries K V
  delete_all [] l = l
  delete_all (k ∷ ks) l = delete_all ks (delete dec k l)

  -- `reap`
  unfoldable pub reap : ℕ → Entries K V → Entries K V
  unfolding to_delete delete_all
  reap now l = delete_all (to_delete now l) l

  look-entry :
      (now : ℕ) (key : K) (l : Entries K V) (v : V) (t : ℕ) (o : Option (Entry V))
      → o ≡ some (record { val = v; expiry = t })
      → (look now key l o).2 ≡ (if ltb t now then none else some v)
  look-entry now key l v t none e = absurd cc
  look-entry now key l v t (some x) e = ground arith

  look-other :
      (now : ℕ) (key : K) (l l' : Entries K V) (o : Option (Entry V))
      → (look now key l o).2 ≡ (look now key l' o).2
  look-other now key l l' none = refl
  look-other now key l l' (some e) = ground arith

  -- After a `Set` with a lifetime, `Get` gives the value up to its expiry and nothing later; with a
  -- lifetime of zero it gives nothing from 33 microseconds after 1970 on. `Get` of every other key
  -- gives what it gave before.
  pub get_value-set_value :
      (now now' : ℕ) (key j : K) (val : V) (exp_ms : ℕ) (l : Entries K V)
      → ((get_value now' key (set_value now key val exp_ms l)).2
          ≡ (if ltb (expiry_of now exp_ms) now' then none else some val))
        × (max_int16 < now' → (get_value now' key (set_value now key val 0 l)).2 ≡ none)
        × (key ≢ j → (get_value now' j (set_value now key val exp_ms l)).2 ≡ (get_value now' j l).2)
  unfolding get_value set_value expiry_of
  get_value-set_value now now' key j val exp_ms l = (
    found exp_ms,
    λ h. found 0 ∙ past h,
    λ n.
        ap (λ o. (look now' j (set_value now key val exp_ms l) o).2)
          (get-put_ne dec key j (record { val = val; expiry = expiry_of now exp_ms }) l n)
        ∙ look-other now' j (set_value now key val exp_ms l) l (get dec j l),
  )
    where
      found :
          (e : ℕ)
          → (look now' key (set_value now key val e l) (get dec key (set_value now key val e l))).2
            ≡ (if ltb (expiry_of now e) now' then none else some val)
      found e =
          look-entry now' key (set_value now key val e l) val (expiry_of now e) _
            (get-put_at dec key key (record { val = val; expiry = expiry_of now e }) l refl)

      past : max_int16 < now' → (if ltb (expiry_of now 0) now' then none else some val) ≡ none
      past h = rw (lt→ltb (expiry_of now 0) now' h) refl
