-- ===== src/Timer.antt =====
-- asco/core/time/high_resolution_timer.cpp, with the ids of asco/core/time/timer.h: timers in areas of a
-- second each, in order. Times are nanoseconds since the epoch, and the clock is an argument. Each call
-- runs with no other in between; `run_once` is modelled up to the sleep that ends it, which the daemon does.
pub mod Ids
pub mod Sweep
mod Examples
use asco.Prelude.{
  ℕ, zero, suc, ◌/◌, Bool, true, false, ◌&&◌, ◌||◌, not, Option, none, some, List, [], ◌∷◌, ltb,
  ◌==◌, if◌then◌else◌,
}

-- `timer_id`; `seq` is the time of the timer.
pub record TimerId : Type 0 where
  pub seq : ℕ
  pub hash : ℕ

-- An entry of the map `entries`: the id and the token to wake. Its time point is the id's `seq`.
pub record Entry : Type 0 where
  pub id : TimerId
  pub token : ℕ

pub record Area : Type 0 where
  pub entries : List Entry
  pub removed_entries : List TimerId

abbrev pub sec_from_epoch : ℕ → ℕ
sec_from_epoch time_point = time_point / 1000000000

abbrev pub same_id : TimerId → TimerId → Bool
same_id a b = (a.seq == b.seq) && (a.hash == b.hash)

-- `a < b`
abbrev pub less_id : TimerId → TimerId → Bool
less_id a b = ltb a.seq b.seq || ((a.seq == b.seq) && ltb a.hash b.hash)

unfoldable pub contains : List TimerId → TimerId → Bool
contains [] id = false
contains (x ∷ xs) id = same_id x id || contains xs id

unfoldable pub erase : List TimerId → TimerId → List TimerId
erase [] id = []
erase (x ∷ xs) id = let rest = erase xs id in if same_id x id then rest else x ∷ rest

-- `entries.emplace`: in order, and an id that is there stays as it is.
unfoldable pub emplace : List Entry → Entry → List Entry
emplace [] e = e ∷ []
emplace (x ∷ xs) e =
    let rest = emplace xs e in
    if less_id e.id x.id then e ∷ x ∷ xs else if same_id x.id e.id then x ∷ xs else x ∷ rest

-- The area of a second, made if there is none, with `e` put into it.
unfoldable pub put : List (ℕ × Area) → ℕ → Entry → List (ℕ × Area)
put [] s e = (s, record { entries = e ∷ []; removed_entries = [] }) ∷ []
put ((s', a) ∷ tree) s e =
    let rest = put tree s e in
    if ltb s s'
    then (s, record { entries = e ∷ []; removed_entries = [] }) ∷ (s', a) ∷ tree
    else if s' == s
    then (s', record a { entries = emplace a.entries e }) ∷ tree
    else (s', a) ∷ rest

-- `register_timer` of `token`, with the token's hash.
unfoldable pub register_timer : List (ℕ × Area) → ℕ → ℕ → ℕ → ℕ → Option TimerId × List (ℕ × Area)
register_timer tree now time_point token hash =
    if ltb time_point now
    then (none, tree)
    else (let id : TimerId = record { seq = time_point; hash = hash } in
        (some id, put tree (sec_from_epoch time_point) (record { id = id; token = token })))

unfoldable pub cancel_in : List (ℕ × Area) → ℕ → TimerId → List (ℕ × Area)
cancel_in [] s id = []
cancel_in ((s', a) ∷ tree) s id =
    let rest = cancel_in tree s id in
    if s' == s
    then (s', record a { removed_entries = id ∷ erase a.removed_entries id }) ∷ tree
    else (s', a) ∷ rest

abbrev pub cancel_timer : List (ℕ × Area) → TimerId → List (ℕ × Area)
cancel_timer tree id = cancel_in tree (sec_from_epoch id.seq) id

unfoldable pub has_entry : List Entry → TimerId → Bool
has_entry [] id = false
has_entry (e ∷ es) id = same_id e.id id || has_entry es id

unfoldable pub expired_in : List (ℕ × Area) → ℕ → TimerId → Bool
expired_in [] s id = true
expired_in ((s', a) ∷ tree) s id =
    let rest = expired_in tree s id in
    if s' == s then not (has_entry a.entries id) || contains a.removed_entries id else rest

abbrev pub is_expired : List (ℕ × Area) → TimerId → Bool
is_expired tree id = expired_in tree (sec_from_epoch id.seq) id

-- The loop of `run_once` over the entries of an area: the tokens that it wakes, the entries that it
-- leaves, and the removed ids that it leaves.
unfoldable pub sweep : ℕ → List Entry → List TimerId → List ℕ × List Entry × List TimerId
sweep now [] removed = ([], [], removed)
sweep now (e ∷ es) removed =
    let cancelled = sweep now es (erase removed e.id) in
    let (woken, left, removed') = sweep now es removed in
    if contains removed e.id
    then cancelled
    else if ltb now e.id.seq
    then ([], e ∷ es, removed)
    else (e.token ∷ woken, left, removed')

-- The last part of `run_once` that changes the tree: empty areas at the front go.
unfoldable pub trim : List (ℕ × Area) → List (ℕ × Area)
trim [] = []
trim ((s, a) ∷ tree) = let rest = trim tree in elim a.entries [ [] ↦ rest | _ ∷ _ ↦ (s, a) ∷ tree ]

unfoldable pub run_once : ℕ → List (ℕ × Area) → List ℕ × List (ℕ × Area)
run_once now [] = ([], [])
run_once now ((s, a) ∷ tree) =
    let (woken, left, removed) = sweep now a.entries a.removed_entries in
    if ltb (sec_from_epoch now) s
    then ([], trim ((s, a) ∷ tree))
    else (woken, trim ((s, record { entries = left; removed_entries = removed }) ∷ tree))
