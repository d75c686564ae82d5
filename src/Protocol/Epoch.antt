-- ===== src/Protocol/Epoch.antt =====
-- protocol/epoch.go. Times are nanoseconds since 1970 and `hash_name` stands for
-- primitives.HashName. `Seconds()` is a float64 in the source and is read as exact here.
use native.Mathlib.Nat.{div-add-mod, add-mul-mod_self_left}
use fnd.Base.{
  ℕ, ◌+◌, ◌-◌, ◌*◌, ◌/◌, ◌%◌, ◌≤◌, ◌<◌, ◌≡◌, ◌↔◌, refl, sym, ap, ◌∙◌, List, [], ◌∷◌, true, arith,
  leb, if◌then◌else◌,
}

abbrev pub epoch_date : ℕ
epoch_date = 1577836800

abbrev pub seconds_per_hour : ℕ
seconds_per_hour = 3600

abbrev pub hours_per_week : ℕ
hours_per_week = 168

abbrev pub week_seconds : ℕ
week_seconds = 604800

abbrev pub nanos : ℕ
nanos = 1000000000

abbrev pub u16_mod : ℕ
u16_mod = 65536

-- The loop of `modBuffer`, over what it has not reached.
unfoldable pub mod_buffer_loop : ℕ → ℕ → ℕ → List ℕ → ℕ
mod_buffer_loop n p acc [] = acc
mod_buffer_loop n p acc (b ∷ bs) = mod_buffer_loop n p ((p * acc + b) % n) bs

unfoldable pub mod_buffer : List ℕ → ℕ → ℕ
unfolding mod_buffer_loop
mod_buffer b n = let p = 256 % n in mod_buffer_loop n p 0 b

-- The number that the bytes spell, most significant first.
pub big_endian : ℕ → List ℕ → ℕ
big_endian acc [] = acc
big_endian acc (b ∷ bs) = big_endian (256 * acc + b) bs

-- `now().Sub(startDate).Seconds()` as an int, divided by the seconds of a week, as a uint16. Before
-- the start both divisions round towards zero and the conversion wraps.
pub epoch_at : ℕ → ℕ → ℕ
epoch_at start now =
    if leb start now
    then (now - start) / nanos / week_seconds % u16_mod
    else (u16_mod - (start - now) / nanos / week_seconds % u16_mod) % u16_mod

module _ (hash_name : List ℕ → List ℕ) where
  unfoldable pub start_date : List ℕ → ℕ
  start_date name =
      let hours = mod_buffer (hash_name name) hours_per_week in
      let offset = hours * seconds_per_hour in (epoch_date + offset) * nanos

  unfoldable pub current_epoch : List ℕ → ℕ → ℕ
  unfolding epoch_at start_date mod_buffer
  current_epoch name now = epoch_at (start_date name) now

step_mod : (n a b : ℕ) → 0 < n → ((256 % n) * (a % n) + b) % n ≡ (256 * a + b) % n
step_mod n a b h =
    let p : ℕ = 256 % n in
    let r : ℕ = a % n in
    let q : ℕ = 256 * (a / n) + (256 / n) * r in
    let split : 256 * a + b ≡ (p * r + b) + n * q =
      omega (arith, div-add-mod a n, ap (λ (t : ℕ). t * r) (div-add-mod 256 n)) in
    sym (ap (λ (t : ℕ). t % n) split ∙ add-mul-mod_self_left (p * r + b) n q)

mod_buffer_loop-big_endian :
    (n acc : ℕ) (b : List ℕ)
    → 0 < n
    → mod_buffer_loop n (256 % n) (acc % n) b ≡ big_endian acc b % n
unfolding mod_buffer_loop big_endian
mod_buffer_loop-big_endian n acc [] h = refl
mod_buffer_loop-big_endian n acc (b ∷ bs) h =
    ap (λ a. mod_buffer_loop n (256 % n) a bs) (step_mod n acc b h)
    ∙ mod_buffer_loop-big_endian n (256 * acc + b) bs h

-- `modBuffer(b, n)` is the number that the bytes spell, modulo n, for every positive n: the short
-- accumulator loses nothing.
pub mod_buffer-big_endian : (b : List ℕ) (n : ℕ) → 0 < n → mod_buffer b n ≡ big_endian 0 b % n
unfolding mod_buffer
mod_buffer-big_endian b n h =
    ap (λ a. mod_buffer_loop n (256 % n) a b) (omega arith) ∙ mod_buffer_loop-big_endian n 0 b h

start_date_bounds :
    (hash_name : List ℕ → List ℕ) (name : List ℕ)
    → (epoch_date * nanos ≤ start_date hash_name name)
      × (start_date hash_name name < (epoch_date + week_seconds) * nanos)
unfolding start_date
start_date_bounds hash_name name =
    omega (arith, mod_buffer-big_endian (hash_name name) hours_per_week (omega arith))

epoch_at_before :
    (start now : ℕ) → start < now + week_seconds * nanos → now < start → epoch_at start now ≡ 0
unfolding epoch_at
epoch_at_before start now near h = ground arith

epoch_at_weeks :
    (start now e : ℕ)
    → start ≤ now
    → now < start + u16_mod * (week_seconds * nanos)
    → (epoch_at start now ≡ e) ↔ (
        (start + e * (week_seconds * nanos) ≤ now)
        × (now < start + (e + 1) * (week_seconds * nanos)))
unfolding epoch_at
epoch_at_weeks start now e h hi =
    let after : leb start now ≡ true = ground arith in
    rw after (λ same. (omega arith, omega arith), λ bounds. omega arith)

-- From the start date on, for 65536 weeks, `CurrentEpoch` is e exactly in the e-th week after the
-- start date, the start date lies in the week after 2020-01-01, and between that day and the
-- start date the epoch is 0.
pub current_epoch-weeks :
    (hash_name : List ℕ → List ℕ) (name : List ℕ) (now e : ℕ)
    → epoch_date * nanos ≤ now
    → now < start_date hash_name name + u16_mod * (week_seconds * nanos)
    → (epoch_date * nanos ≤ start_date hash_name name)
      × (start_date hash_name name < (epoch_date + week_seconds) * nanos)
      × (now < start_date hash_name name → current_epoch hash_name name now ≡ 0)
      × (start_date hash_name name ≤ now
          → (current_epoch hash_name name now ≡ e) ↔ (
              (start_date hash_name name + e * (week_seconds * nanos) ≤ now)
              × (now < start_date hash_name name + (e + 1) * (week_seconds * nanos))))
unfolding current_epoch
current_epoch-weeks hash_name name now e lo hi =
    let start : ℕ = start_date hash_name name in
    let bounds : (epoch_date * nanos ≤ start) × (start < (epoch_date + week_seconds) * nanos) =
      start_date_bounds hash_name name in
    (
      bounds.0,
      bounds.1,
      λ h. epoch_at_before start now (omega arith) h,
      λ h. epoch_at_weeks start now e h hi,
    )
