-- ===== src/Iocp/Owners.antt =====
-- `get_state` and `submit_close`: the owners of open files, with the number of handles for each.
use asco.Prelude.{
  ℕ, ◌+◌, ◌-◌, ◌≤◌, ◌≡◌, ◌≢◌, refl, sym, arith, to_nat, Option, none, some, List, [], ◌∷◌, update,
  update_self, update_ne, subst, ◌==◌, if◌then◌else◌, Option-cases, inl, inr, ℕ_discrete,
  Bool-cases, some-injective,
}

-- `_sid_map`, the number of handles with each hash of an owner, and `_handle_sid_map`, with its entries in
-- a list. `freed` has the hashes whose security descriptors were given back.
pub record Owners : Type 0 where
  pub sid_map : ℕ → Option ℕ
  pub handle_sid_map : List (ℕ × ℕ)
  pub freed : List ℕ

abbrev pub get : List (ℕ × ℕ) → ℕ → Option ℕ
get [] h = none
get ((k, hash) ∷ entries) h = let rest = get entries h in if k == h then some hash else rest

abbrev pub remove : List (ℕ × ℕ) → ℕ → List (ℕ × ℕ)
remove [] h = []
remove ((k, hash) ∷ entries) h =
    let rest = remove entries h in if k == h then entries else (k, hash) ∷ rest

-- The first handle of an owner, or another one.
abbrev pub one_more : Option ℕ → Option ℕ
one_more none = some 1
one_more (some n) = some (n + 1)

-- The part of `get_state` that finds the owner's hash, where `hash` is that of the system's answer.
unfoldable pub owner_hash : Owners → ℕ → ℕ → ℕ × Owners
owner_hash o h hash = elim (get o.handle_sid_map h) [
  | some known ↦ (known, o)
  | none ↦ (
    hash,
    record o {
      sid_map = update o.sid_map hash (one_more (o.sid_map hash));
      handle_sid_map = (h, hash) ∷ o.handle_sid_map;
    },
  )
]

-- The part of `submit_close` before the handle is closed.
unfoldable pub forget : Owners → ℕ → Owners
forget o h = elim (get o.handle_sid_map h) [
  | none ↦ o
  | some hash ↦ elim (o.sid_map hash) [
    | none ↦ record o { handle_sid_map = remove o.handle_sid_map h }
    | some n ↦
        if n - 1 == 0
        then record {
          sid_map = update o.sid_map hash none;
          handle_sid_map = remove o.handle_sid_map h;
          freed = hash ∷ o.freed;
        }
        else record o {
          sid_map = update o.sid_map hash (some (n - 1));
          handle_sid_map = remove o.handle_sid_map h;
        }
  ]
]

-- The open handles of an owner.
abbrev pub handles : ℕ → List (ℕ × ℕ) → ℕ
handles hash [] = 0
handles hash ((k, owner) ∷ entries) = to_nat (owner == hash) + handles hash entries

-- A number of references, where no entry stands for none of them.
abbrev pub Counts : Option ℕ → ℕ → Type 0
Counts none k = k ≡ 0
Counts (some n) k = (n ≡ k) × (1 ≤ n)

pub record Counted (o : Owners) : Type 0 where
  pub references : (hash : ℕ) → Counts (o.sid_map hash) (handles hash o.handle_sid_map)

handles-remove :
    (entries : List (ℕ × ℕ)) (h hash : ℕ)
    → get entries h ≡ some hash
    → (x : ℕ) → handles x (remove entries h) + to_nat (hash == x) ≡ handles x entries
handles-remove [] h hash found x = absurd cc
handles-remove ((k, owner) ∷ entries) h hash found x = elim (Bool-cases (k == h)) [
  | inl here ↦
      let same : ◌≡◌ {A = Option ℕ} (some owner) (some hash) =
        subst (λ b. (if b then some owner else get entries h) ≡ some hash) here found in
      let own : owner ≡ hash = some-injective same in rw here (ground arith)
  | inr beyond ↦
      let deeper : get entries h ≡ some hash =
        subst (λ b. (if b then some owner else get entries h) ≡ some hash) beyond found in
      rw beyond (omega (arith, handles-remove entries h hash deeper x))
]

handles-pos :
    (entries : List (ℕ × ℕ)) (h hash : ℕ) → get entries h ≡ some hash → 1 ≤ handles hash entries
handles-pos entries h hash found = ground (arith, handles-remove entries h hash found hash)

-- One owner's count changes with its handles.
Counted-step :
    (o : Owners) (hash : ℕ) (v : Option ℕ) (entries : List (ℕ × ℕ)) (freed : List ℕ)
    → Counted o
    → Counts v (handles hash entries)
    → ((x : ℕ) → hash ≢ x → handles x entries ≡ handles x o.handle_sid_map)
    → Counted
        (record { sid_map = update o.sid_map hash v; handle_sid_map = entries; freed = freed })
Counted-step o hash v entries freed c mine others = record {
  references = λ x. elim (ℕ_discrete hash x) [
    | yes same ↦
        subst (λ z. Counts (update o.sid_map hash v z) (handles z entries)) same
          (subst (λ w. Counts w (handles hash entries)) (sym (update_self o.sid_map hash v)) mine)
    | no other ↦
        subst (λ w. Counts w (handles x entries)) (sym (update_ne o.sid_map hash x v other))
          (subst (Counts (o.sid_map x)) (sym (others x other)) (c.references x))
  ];
}

Counts-more : (v : Option ℕ) (k : ℕ) → Counts v k → Counts (one_more v) (1 + k)
Counts-more none k c = (omega arith, omega arith)
Counts-more (some n) k c = (omega arith, omega arith)

-- After `get_state` of a handle, each owner's references are again its handles.
owner_hash-Counted : (o : Owners) (h hash : ℕ) → Counted o → Counted (owner_hash o h hash).1
unfolding owner_hash
owner_hash-Counted o h hash c = elim (Option-cases (get o.handle_sid_map h)) [
  | inl new ↦
      let entries : List (ℕ × ℕ) = (h, hash) ∷ o.handle_sid_map in
      let mine : handles hash entries ≡ 1 + handles hash o.handle_sid_map = ground arith in
      rw (owner_hash, new)
        (Counted-step o hash (one_more (o.sid_map hash)) entries o.freed c
          (subst (Counts (one_more (o.sid_map hash))) (sym mine)
            (Counts-more (o.sid_map hash) (handles hash o.handle_sid_map) (c.references hash)))
          (λ x apart. ground arith))
  | inr (known, there) ↦ rw (owner_hash, there) c
]

-- After `submit_close` of a handle, too.
forget-Counted : (o : Owners) (h : ℕ) → Counted o → Counted (forget o h)
unfolding forget
forget-Counted o h c = elim (Option-cases (get o.handle_sid_map h)) [
  | inl unknown ↦ rw (forget, unknown) c
  | inr (hash, there) ↦ elim (Option-cases (o.sid_map hash)) [
    | inl missing ↦
        let empty : handles hash o.handle_sid_map ≡ 0 =
          subst (λ v. Counts v (handles hash o.handle_sid_map)) missing (c.references hash) in
        absurd (omega (arith, empty, handles-pos o.handle_sid_map h hash there))
    | inr (n, counted) ↦
        let all : (n ≡ handles hash o.handle_sid_map) × (1 ≤ n) =
          subst (λ v. Counts v (handles hash o.handle_sid_map)) counted (c.references hash) in
        let entries : List (ℕ × ℕ) = remove o.handle_sid_map h in
        let less : handles hash entries + 1 ≡ handles hash o.handle_sid_map =
          ground (arith, handles-remove o.handle_sid_map h hash there hash) in
        let others : (x : ℕ) → hash ≢ x → handles x entries ≡ handles x o.handle_sid_map =
          λ x apart. ground (arith, handles-remove o.handle_sid_map h hash there x) in
        elim (Bool-cases (n - 1 == 0)) [
          | inl last ↦
              rw (forget, there, counted, last)
                (Counted-step o hash none entries (hash ∷ o.freed) c (ground arith) others)
          | inr more ↦
              rw (forget, there, counted, more)
                (Counted-step o hash (some (n - 1)) entries o.freed c (ground arith) others)
        ]
  ]
]

pub data Call : Type 0 where
  get_state : (h hash : ℕ) → Call
  submit_close : (h : ℕ) → Call

-- The last call stands first.
abbrev pub run : List Call → Owners
run [] = record { sid_map = λ _. none; handle_sid_map = []; freed = [] }
run (Call.get_state h hash ∷ calls) = (owner_hash (run calls) h hash).1
run (Call.submit_close h ∷ calls) = forget (run calls) h

run-Counted : (calls : List Call) → Counted (run calls)
run-Counted [] = record { references = λ x. refl }
run-Counted (Call.get_state h hash ∷ calls) =
    owner_hash-Counted (run calls) h hash (run-Counted calls)
run-Counted (Call.submit_close h ∷ calls) = forget-Counted (run calls) h (run-Counted calls)

-- After any calls of `get_state` and `submit_close`, the references of an owner are as many as its
-- handles in the table, and an owner has no entry exactly when it has no handle there.
pub references_lem :
    (calls : List Call) (hash : ℕ)
    → Counts ((run calls).sid_map hash) (handles hash (run calls).handle_sid_map)
references_lem calls hash = (run-Counted calls).references hash
