-- ===== src/Jobs/Recorder/Milestones.antt =====
-- services/jobs/event_recorder.py: the counts of repeated warnings.
use super_opencode.Base.{
  ℕ, suc, ◌≤◌, ◌<◌, ◌≡◌, refl, ap, Bool, true, false, none, some, List, [], ◌∷◌, ◌++◌, any, leb,
  ltb, ◌==◌, if◌then◌else◌, length, Text, text_eq, arith, Bool-cases, ltb→lt, subst, inl, inr,
}
use super_opencode.Jobs.Recorder.{
  Warn, Recorded, kept, dropped, warn_milestones, warn_track_limit, find_warn, set_warn, track,
  next_milestone, repeated, count_warn,
}

unfoldable pub is_milestone : ℕ → Bool
is_milestone n = any (λ m. m == n) warn_milestones

-- the last milestone up to a count, or 1
unfoldable pub top : ℕ → ℕ
top n =
    if ltb n 2
    then 1
    else if ltb n 5
    then 2
    else if ltb n 10
    then 5
    else if ltb n 20
    then 10
    else if ltb n 50
    then 20
    else if ltb n 100
    then 50
    else if ltb n 200
    then 100
    else if ltb n 500
    then 200
    else if ltb n 1000
    then 500
    else 1000

top_le : (n : ℕ) → 1 ≤ n → top n ≤ n
unfolding top
top_le n h = ground (arith, h)

next_lem :
    (n : ℕ)
    → next_milestone (suc n) (top n) warn_milestones
      ≡ (if is_milestone (suc n) then some (suc n) else none)
unfolding top next_milestone is_milestone
next_lem n = ground arith

-- The last milestone grows at the milestones only.
top_low : (n : ℕ) → n < 20 → top (suc n) ≡ (if is_milestone (suc n) then suc n else top n)
unfolding top is_milestone
top_low n h = ground (arith, h)

top_middle :
    (n : ℕ) → 20 ≤ n → n < 200 → top (suc n) ≡ (if is_milestone (suc n) then suc n else top n)
unfolding top is_milestone
top_middle n low high = ground (arith, low, high)

top_high : (n : ℕ) → 200 ≤ n → top (suc n) ≡ (if is_milestone (suc n) then suc n else top n)
unfolding top is_milestone
top_high n h = ground (arith, h)

top_lem : (n : ℕ) → top (suc n) ≡ (if is_milestone (suc n) then suc n else top n)
top_lem n = elim (Bool-cases (ltb n 20)) [
  | inl low ↦ top_low n (ltb→lt n 20 low)
  | inr middle ↦ elim (Bool-cases (ltb n 200)) [
    | inl below ↦ top_middle n (ground (arith, middle)) (ltb→lt n 200 below)
    | inr high ↦ top_high n (ground (arith, high))
  ]
]

-- An entry has announced the last milestone up to its count.
pub record IsCounted (w : Warn) : Type 0 where
  pub positive : 1 ≤ w.count
  pub announced : w.announced ≡ top w.count

unfoldable pub AreCounted : List Warn → Type 0
AreCounted [] = Unit {0}
AreCounted (w ∷ ws) = IsCounted w × AreCounted ws

-- what a tracked warning gives, by its count
abbrev pub counted : Warn → Recorded
counted w = if is_milestone (suc w.count) then kept (repeated w.key (suc w.count)) else dropped

pub count_warn_lem :
    (w : Warn)
    → IsCounted w
    → count_warn w ≡ (record w { count = suc w.count; announced = top (suc w.count) }, counted w)
unfolding count_warn
count_warn_lem w h =
    let late : leb (suc w.count) w.announced ≡ false =
      ground (arith, h.announced, top_le w.count h.positive) in
    rw late (
      rw h.announced
        (rw (next_lem w.count) (rw (top_lem w.count) (either (is_milestone (suc w.count))))))
  where
    either :
        (b : Bool)
        → ◌≡◌ {A = Warn × Recorded}
            (elim (if b then some (suc w.count) else none) [
              | none ↦ (record w { count = suc w.count }, dropped)
              | some m ↦ (record w { count = suc w.count; announced = m }, kept (repeated w.key m))
            ])
            (
              record w { count = suc w.count; announced = if b then suc w.count else top w.count },
              if b then kept (repeated w.key (suc w.count)) else dropped,
            )
    either true = refl
    either false = ap (λ a. (record w { count = suc w.count; announced = a }, dropped)) h.announced

pub set_warn-AreCounted :
    (new : Warn) (ws : List Warn) → IsCounted new → AreCounted ws → AreCounted (set_warn new ws)
unfolding set_warn AreCounted
set_warn-AreCounted new [] h hs = tt
set_warn-AreCounted new (w ∷ ws) h (first, rest) = elim (Bool-cases (text_eq w.key new.key)) [
  | inl same ↦ rw same (h, rest)
  | inr other ↦ rw other (first, set_warn-AreCounted new ws h rest)
]

append-AreCounted :
    (ws : List Warn) (w : Warn) → AreCounted ws → IsCounted w → AreCounted (ws ++ w ∷ [])
unfolding AreCounted
append-AreCounted [] w hs h = (h, tt)
append-AreCounted (v ∷ ws) w (first, rest) h = (first, append-AreCounted ws w rest h)

pub track-AreCounted : (key : Text) (ws : List Warn) → AreCounted ws → AreCounted (track key ws)
unfolding track AreCounted top
track-AreCounted key [] hs = (record { positive = omega arith; announced = refl }, tt)
track-AreCounted key (w ∷ ws) (first, rest) =
    append-AreCounted _ _ (either (leb warn_track_limit (length (w ∷ ws))))
      (record { positive = omega arith; announced = refl })
  where
    either : (b : Bool) → AreCounted (if b then ws else w ∷ ws)
    either true = rest
    either false = (first, rest)

pub find-IsCounted :
    (key : Text) (ws : List Warn) (w : Warn)
    → find_warn key ws ≡ some w
    → AreCounted ws
    → IsCounted w
unfolding find_warn AreCounted
find-IsCounted key [] w found hs = cc
find-IsCounted key (v ∷ ws) w found (first, rest) = elim (Bool-cases (text_eq v.key key)) [
  | inl same ↦ let e : v ≡ w = ground (arith, found, same) in subst IsCounted e first
  | inr other ↦ find-IsCounted key ws w (ground (arith, found, other)) rest
]
