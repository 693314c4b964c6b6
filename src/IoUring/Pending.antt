-- ===== src/IoUring/Pending.antt =====
-- Requests whose ids differ from those that are pending.
use asco.Prelude.{
  ℕ, ◌≡◌, ◌≢◌, refl, sym, ◌∙◌, ap, ◌⊎◌, inl, inr, Bool, true, false, Option, none, some, List, [],
  ◌∷◌, ◌++◌, update, update_self, update_ne, ℕ_discrete, subst, Option-cases, some-injective,
}
use asco.File.{ℤ, pos}
use asco.IoUring.{Entry, Adapter, insert, submit, complete, run_once}

-- The kernel completes one of the requests with this id.
abbrev pub without_first : List ℕ → List ℕ
without_first [] = []
without_first (token ∷ rest) = rest

abbrev pub arrived : Adapter → ℕ → Adapter
arrived a reqid = record a {
  in_flight = update a.in_flight reqid (without_first (a.in_flight reqid));
}

abbrev pub idle : Adapter
idle = record { m_requests = λ _. none; in_flight = λ _. []; suspended = []; awoken = [] }

-- A request is submitted under an id that is not in the table, and completed after its result has come.
pub data Call (a : Adapter) : Adapter → Type 0 where
  submits : (reqid token : ℕ) → a.m_requests reqid ≡ none → Call a (submit a reqid token)
  comes :
      {a' : Adapter} (reqid : ℕ) (res : ℤ)
      → a.in_flight reqid ≢ []
      → run_once false (arrived a reqid) reqid res ≡ some (true, a')
      → Call a a'
  completes :
      {a' : Adapter} (reqid : ℕ) (res : ℤ)
      → a.in_flight reqid ≡ []
      → complete a reqid ≡ some (res, a')
      → Call a a'

pub data Calls (a : Adapter) : Adapter → Type 0 where
  none_yet : Calls a a
  and_then : {b c : Adapter} → Calls a b → Call b c → Calls a c

-- What the kernel has of an id is at most one request, and the table has its token.
abbrev Known : List ℕ → Option Entry → Type 0
Known q p =
    (q ≡ [])
    ⊎ ((token : ℕ) × (res : ℤ) × (q ≡ token ∷ [])
        × (p ≡ some (record { token = token; res = res })))

pub record Inv (a : Adapter) : Type 0 where
  pub known : (reqid : ℕ) → Known (a.in_flight reqid) (a.m_requests reqid)

-- The other ids keep what they have.
Inv-step :
    (a a' : Adapter) (reqid : ℕ)
    → Inv a
    → ((id : ℕ)
        → reqid ≢ id
        → (a'.in_flight id ≡ a.in_flight id) × (a'.m_requests id ≡ a.m_requests id))
    → Known (a'.in_flight reqid) (a'.m_requests reqid)
    → Inv a'
Inv-step a a' reqid h others mine = record {
  known = λ id. elim (ℕ_discrete reqid id) [
    | yes same ↦ subst (λ x. Known (a'.in_flight x) (a'.m_requests x)) same mine
    | no other ↦ let (q, p) = others id other in rw (q, p) (h.known id)
  ];
}

insert_fresh :
    (table : ℕ → Option Entry) (reqid : ℕ) (p : Entry)
    → table reqid ≡ none
    → insert table reqid p ≡ update table reqid (some p)
insert_fresh table reqid p fresh = rw (insert, fresh) refl

-- An id that is not in the table is not with the kernel either.
not_in_flight : (q : List ℕ) (p : Option Entry) → p ≡ none → Known q p → q ≡ []
not_in_flight q p fresh (inl e) = e
not_in_flight q p fresh (inr (token, res, e, there)) = absurd cc

submit-Inv :
    (a : Adapter) (reqid token : ℕ) → a.m_requests reqid ≡ none → Inv a → Inv (submit a reqid token)
unfolding submit
submit-Inv a reqid token fresh h =
    let start : Entry = record { token = token; res = pos 0 } in
    let table : insert a.m_requests reqid start ≡ update a.m_requests reqid (some start) =
      insert_fresh a.m_requests reqid start fresh in
    let none_there : a.in_flight reqid ≡ [] =
      not_in_flight (a.in_flight reqid) (a.m_requests reqid) fresh (h.known reqid) in
    Inv-step a (submit a reqid token) reqid h
      (λ id ne. (
        update_ne a.in_flight reqid id (a.in_flight reqid ++ token ∷ []) ne,
        ap (λ t. t id) table ∙ update_ne a.m_requests reqid id (some start) ne,
      ))
      (inr (
        token,
        pos 0,
        update_self a.in_flight reqid (a.in_flight reqid ++ token ∷ [])
            ∙ ap (λ q. q ++ token ∷ []) none_there,
        ap (λ t. t reqid) table ∙ update_self a.m_requests reqid (some start),
      ))

-- What `run_once` does for a request that the kernel had, and `complete` after it.
pub record Served (a : Adapter) (reqid token : ℕ) (res : ℤ) : Type 0 where
  pub after : Adapter
  pub runs : run_once false (arrived a reqid) reqid res ≡ some (true, after)
  pub wakes : after.awoken ≡ a.awoken ++ token ∷ []
  pub gone : after.in_flight reqid ≡ []
  pub others :
      (id : ℕ)
      → reqid ≢ id
      → (after.in_flight id ≡ a.in_flight id) × (after.m_requests id ≡ a.m_requests id)
  pub completes :
      complete after reqid
      ≡ some (res, record after { m_requests = update after.m_requests reqid none })

serve :
    (a : Adapter) (reqid token : ℕ) (rest : List ℕ) (res : ℤ)
    → Inv a
    → a.in_flight reqid ≡ token ∷ rest
    → Served a reqid token res
unfolding run_once complete
serve a reqid token rest res h e = elim (h.known reqid) [
  | inl gone ↦ absurd cc
  | inr (t, old, alone, there) ↦
      let same : token ≡ t = cc in
      let kept : Entry = record { token = t; res = res } in
      record {
        after = record (arrived a reqid) {
          m_requests = update a.m_requests reqid (some kept);
          awoken = a.awoken ++ t ∷ [];
        };
        runs = rw there refl;
        wakes = ap (λ x. a.awoken ++ x ∷ []) (sym same);
        gone =
            update_self a.in_flight reqid (without_first (a.in_flight reqid))
            ∙ ap without_first alone;
        others = λ id ne. (
          update_ne a.in_flight reqid id (without_first (a.in_flight reqid)) ne,
          update_ne a.m_requests reqid id (some kept) ne,
        );
        completes = rw (complete, update_self a.m_requests reqid (some kept)) refl;
      }
]

Served-Inv :
    (a : Adapter) (reqid token : ℕ) (res : ℤ) (s : Served a reqid token res) → Inv a → Inv s.after
Served-Inv a reqid token res s h = Inv-step a s.after reqid h s.others (inl s.gone)

come-Inv :
    (a a' : Adapter) (reqid : ℕ) (res : ℤ) (q : List ℕ)
    → a.in_flight reqid ≡ q
    → q ≢ []
    → run_once false (arrived a reqid) reqid res ≡ some (true, a')
    → Inv a
    → Inv a'
come-Inv a a' reqid res [] e some_there runs h = absurd (some_there refl)
come-Inv a a' reqid res (token ∷ rest) e some_there runs h =
    let s : Served a reqid token res = serve a reqid token rest res h e in
    let same : ◌≡◌ {A = Option (Bool × Adapter)} (some (true, s.after)) (some (true, a')) =
      sym s.runs ∙ runs in
    subst Inv (ap (λ r. r.1) (some-injective same)) (Served-Inv a reqid token res s h)

complete-Inv :
    (a a' : Adapter) (reqid : ℕ) (res : ℤ)
    → a.in_flight reqid ≡ []
    → complete a reqid ≡ some (res, a')
    → Inv a
    → Inv a'
unfolding complete
complete-Inv a a' reqid res gone e h = elim (Option-cases (a.m_requests reqid)) [
  | inl missing ↦ let panics : complete a reqid ≡ none = rw (complete, missing) refl in absurd cc
  | inr (p, there) ↦
      let b : Adapter = record a { m_requests = update a.m_requests reqid none } in
      let returns : complete a reqid ≡ some (p.res, b) = rw (complete, there) refl in
      let same : ◌≡◌ {A = Option (ℤ × Adapter)} (some (p.res, b)) (some (res, a')) =
        sym returns ∙ e in
      subst Inv (ap (λ r. r.1) (some-injective same))
        (Inv-step a b reqid h (λ id ne. (refl, update_ne a.m_requests reqid id none ne)) (inl gone))
]

Calls-Inv : {a b : Adapter} → Calls a b → Inv a → Inv b
Calls-Inv none_yet h = h
Calls-Inv (and_then {b = b} calls (submits reqid token fresh)) h =
    submit-Inv b reqid token fresh (Calls-Inv calls h)
Calls-Inv (and_then {b = b} {c = c} calls (comes reqid res there runs)) h =
    come-Inv b c reqid res (b.in_flight reqid) refl there runs (Calls-Inv calls h)
Calls-Inv (and_then {b = b} {c = c} calls (completes reqid res gone e)) h =
    complete-Inv b c reqid res gone e (Calls-Inv calls h)

-- If every request has been submitted under an id that was not in the table, and completed after
-- its result had come, then `run_once` finds each request that the kernel completes, with any result,
-- and wakes the token that it was submitted with, other requests are left alone, and `complete` then returns
-- that result and takes the request out of the table.
pub submitted-Served :
    {a : Adapter} (reqid token : ℕ) (rest : List ℕ) (res : ℤ)
    → Calls idle a
    → a.in_flight reqid ≡ token ∷ rest
    → Served a reqid token res
submitted-Served {a} reqid token rest res calls e =
    serve a reqid token rest res (Calls-Inv calls (record { known = λ id. inl refl })) e
