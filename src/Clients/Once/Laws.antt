-- ===== src/Clients/Once/Laws.antt =====
-- What callers of `OnceWithKey` (shared/bridges/ibcv2/once.go) share, and for how long.
use platform_relayer.Common.{
  ◌≡◌, refl, ◌+◌, ◌<◌, String, true, false, not, List, [], ◌∷◌, Option, none, some, inl, inr, arith,
  str_eq, str_eq_iff, ltb, if◌then◌else◌, Bool-cases, ◌∙◌, ◌⊎◌, subst,
}
use platform_relayer.Db.{Time}
use platform_relayer.Errors.{Error, Result, ok, err}
use platform_relayer.Clients.Once.{
  Entry, OnceWithKey, new_once_with_key, pick, new_once_with_timeout, is_timed_out, lookup, insert,
  enter, once, set_error, do_once, runs,
}

pub lookup-insert :
    {A : Type 0} (k j : String) (a : A) (entries : List (String × A))
    → lookup k (insert j a entries) ≡ (if str_eq k j then some a else lookup k entries)
unfolding lookup insert
lookup-insert k j a [] = refl
lookup-insert k j a ((i, b) ∷ entries) =
    ground (arith, str_eq_iff k j, str_eq_iff j i, str_eq_iff k i, lookup-insert k j a entries)

-- One call: when it comes, its key, and what its action answers if it runs.
pub record Call (A : Type 0) : Type 0 where
  pub time : Time
  pub key : String
  pub answer : Result A

unfoldable pub serve : {A : Type 0} → List (Call A) → OnceWithKey A → OnceWithKey A
serve [] o = o
serve (c ∷ calls) o = serve calls (do_once c.time c.key c.answer o).0

abbrev pub AllBefore : {A : Type 0} → Time → List (Call A) → Type 0
AllBefore t [] = Unit
AllBefore t (c ∷ calls) = (c.time < t) × AllBefore t calls

-- How long an answer is shared.
abbrev pub timeout : {A : Type 0} → Result A → Time → Time → Time
timeout (ok a) success error = success
timeout (err e) success error = error

abbrev error_of : {A : Type 0} → Result A → Option Error
error_of (ok a) = none
error_of (err e) = some e

abbrev deadline : {A : Type 0} → Result A → Entry A → Time
deadline (ok a) entry = entry.success_timeout
deadline (err e) entry = entry.error_timeout

-- The entry of a key holds an answer that times out at `end`.
record Holds {A : Type 0} (k : String) (r : Result A) (end : Time) (o : OnceWithKey A)
    : Type 0 where
  entry : Entry A
  found : lookup k o.onces ≡ some entry
  value : entry.value ≡ some r
  errors : entry.error ≡ error_of r
  ends : deadline r entry ≡ end

is_timed_out-deadline :
    {A : Type 0} (r : Result A) (t : Time) (entry : Entry A)
    → entry.error ≡ error_of r
    → is_timed_out t entry ≡ not (ltb t (deadline r entry))
unfolding is_timed_out
is_timed_out-deadline (ok a) t entry h = ground arith
is_timed_out-deadline (err e) t entry h = ground arith

pick_lem :
    {A : Type 0} (t s e : Time) (entry : Entry A)
    → pick t s e (some entry)
      ≡ (if is_timed_out t entry then new_once_with_timeout t s e else entry)
pick_lem t s e entry = refl

enter_lem :
    {A : Type 0} {k : String} {r : Result A} {end : Time} {o : OnceWithKey A} (t : Time)
    (h : Holds k r end o)
    → enter t k o
      ≡ (if ltb t end then h.entry else new_once_with_timeout t o.success_timeout o.error_timeout)
unfolding enter
enter_lem {r} {o} t h =
    rw (h.found, is_timed_out-deadline r t h.entry h.errors, h.ends) (ground arith)

set_error_lem :
    {A : Type 0} (r : Result A) (entry : Entry A)
    → ((set_error r entry).value ≡ entry.value)
      × (deadline r (set_error r entry) ≡ deadline r entry)
set_error_lem (ok a) entry = (refl, refl)
set_error_lem (err e) entry = (refl, refl)

set_error-error :
    {A : Type 0} (r : Result A) (entry : Entry A)
    → (entry.error ≡ none) ⊎ (entry.error ≡ error_of r)
    → (set_error r entry).error ≡ error_of r
set_error-error (ok a) entry (inl h) = h
set_error-error (ok a) entry (inr h) = h
set_error-error (err e) entry h = refl

-- What `Do` leaves under its key, by what it entered with.
do_once-found :
    {A : Type 0} (t : Time) (k : String) (answer r : Result A) (o : OnceWithKey A) (entry : Entry A)
    → enter t k o ≡ entry
    → once entry.value answer ≡ r
    → (lookup k (do_once t k answer o).0.onces
        ≡ some (set_error r (record entry { value = some r })))
      × ((do_once t k answer o).1 ≡ r)
unfolding do_once
do_once-found t k answer r o entry p q =
    rw (p, q, lookup-insert k k (set_error r (record entry { value = some r })) o.onces)
      (ground (arith, str_eq_iff k k), refl)

do_once-other :
    {A : Type 0} (t : Time) (k j : String) (answer : Result A) (o : OnceWithKey A)
    → str_eq k j ≡ false
    → lookup k (do_once t j answer o).0.onces ≡ lookup k o.onces
unfolding do_once
do_once-other t k j answer o h =
    rw
      (
        lookup-insert k j
            (set_error (once (enter t j o).value answer)
              (record (enter t j o) { value = some (once (enter t j o).value answer) }))
            o.onces,
        h,
      )
      refl

Holds-of_found :
    {A : Type 0} {k : String} (r : Result A) {end : Time} (o : OnceWithKey A) (entry : Entry A)
    → lookup k o.onces ≡ some (set_error r (record entry { value = some r }))
    → (entry.error ≡ none) ⊎ (entry.error ≡ error_of r)
    → deadline r entry ≡ end
    → Holds k r end o
Holds-of_found r o entry found h ends = record {
  entry = set_error r (record entry { value = some r });
  found = found;
  value = (set_error_lem r (record entry { value = some r })).0;
  errors = set_error-error r (record entry { value = some r }) h;
  ends = (set_error_lem r (record entry { value = some r })).1 ∙ deadline_lem r entry ∙ ends;
}
  where
    deadline_lem :
        {A : Type 0} (r : Result A) (entry : Entry A)
        → deadline r (record entry { value = some r }) ≡ deadline r entry
    deadline_lem (ok a) entry = refl
    deadline_lem (err e) entry = refl

enter-before :
    {A : Type 0} {k : String} {r : Result A} {end : Time} {o : OnceWithKey A} (t : Time)
    (h : Holds k r end o)
    → t < end
    → enter t k o ≡ h.entry
enter-before {end} t h p = ground (arith, enter_lem t h)

do_once-before :
    {A : Type 0} {k : String} {r : Result A} {end : Time} {o : OnceWithKey A} (t : Time)
    (answer : Result A) (h : Holds k r end o)
    → t < end
    → Holds k r end (do_once t k answer o).0 × ((do_once t k answer o).1 ≡ r)
do_once-before {k} {r} {end} {o} t answer h p =
    let found = do_once-found t k answer r o h.entry (enter-before t h p) (rw h.value refl) in
    (Holds-of_found r (do_once t k answer o).0 h.entry found.0 (inr h.errors) h.ends, found.1)

do_once-Holds :
    {A : Type 0} {k : String} {r : Result A} {end : Time} {o : OnceWithKey A} (c : Call A)
    → Holds k r end o
    → c.time < end
    → Holds k r end (do_once c.time c.key c.answer o).0
do_once-Holds {k} {r} {end} {o} c h p = elim (Bool-cases (str_eq k c.key)) [
  | inl same ↦
      subst (λ j. Holds k r end (do_once c.time j c.answer o).0) ((str_eq_iff k c.key).0 same)
        (do_once-before c.time c.answer h p).0
  | inr miss ↦ record {
    entry = h.entry;
    found = do_once-other c.time k c.key c.answer o miss ∙ h.found;
    value = h.value;
    errors = h.errors;
    ends = h.ends;
  }
]

serve-Holds :
    {A : Type 0} {k : String} {r : Result A} {end : Time} (calls : List (Call A))
    {o : OnceWithKey A}
    → Holds k r end o
    → AllBefore end calls
    → Holds k r end (serve calls o)
unfolding serve
serve-Holds [] h before = h
serve-Holds (c ∷ calls) h (p, before) = serve-Holds calls (do_once-Holds c h p) before

-- No entry is left without a value, and the timeouts stay as they are.
record IsSettled {A : Type 0} (success error : Time) (o : OnceWithKey A) : Type 0 where
  settled :
      (k : String)
      → (lookup k o.onces ≡ none)
        ⊎ ((entry : Entry A) × (r : Result A) × (lookup k o.onces ≡ some entry)
            × (entry.value ≡ some r))
  success_timeout : o.success_timeout ≡ success
  error_timeout : o.error_timeout ≡ error

do_once-IsSettled :
    {A : Type 0} {success error : Time} {o : OnceWithKey A} (c : Call A)
    → IsSettled success error o
    → IsSettled success error (do_once c.time c.key c.answer o).0
unfolding do_once
do_once-IsSettled {A} {o} c h = record {
  settled = λ k. elim (Bool-cases (str_eq k c.key)) [
    | inl same ↦ inr (
      set_error r (record entry { value = some r }),
      r,
      lookup-insert k c.key (set_error r (record entry { value = some r })) o.onces ∙ rw same refl,
      (set_error_lem r (record entry { value = some r })).0,
    )
    | inr miss ↦ rw (do_once-other c.time k c.key c.answer o miss) (h.settled k)
  ];
  success_timeout = h.success_timeout;
  error_timeout = h.error_timeout;
}
  where
    entry : Entry A
    entry = enter c.time c.key o

    r : Result A
    r = once entry.value c.answer

serve-IsSettled :
    {A : Type 0} {success error : Time} (calls : List (Call A)) {o : OnceWithKey A}
    → IsSettled success error o
    → IsSettled success error (serve calls o)
unfolding serve
serve-IsSettled [] h = h
serve-IsSettled (c ∷ calls) h = serve-IsSettled calls (do_once-IsSettled c h)

new_once_with_key-IsSettled :
    {A : Type 0} (success error : Time)
    → IsSettled success error (new_once_with_key {A = A} success error)
unfolding lookup
new_once_with_key-IsSettled success error = record {
  settled = λ k. inl refl;
  success_timeout = refl;
  error_timeout = refl;
}

-- An action runs only for a new entry.
enter_new :
    {A : Type 0} {success error : Time} {o : OnceWithKey A} (t : Time) (k : String)
    → IsSettled success error o
    → runs t k o ≡ true
    → enter t k o ≡ new_once_with_timeout t success error
unfolding runs enter
enter_new {o} t k h ran = elim (h.settled k) [
  | inl miss ↦ rw (miss, h.success_timeout, h.error_timeout) refl
  | inr (entry, r, found, value) ↦
      ground (arith, found, value, h.success_timeout, h.error_timeout, ran)
]

-- A call that runs its action shares the answer for the timeout of that answer.
do_once-ran :
    {A : Type 0} {success error : Time} {o : OnceWithKey A} (t : Time) (k : String)
    (answer : Result A)
    → IsSettled success error o
    → runs t k o ≡ true
    → Holds k answer (t + timeout answer success error) (do_once t k answer o).0
do_once-ran {A} {success} {error} {o} t k answer h ran =
    let new = new_once_with_timeout t success error in
    let found = do_once-found t k answer answer o new (enter_new t k h ran) refl in
    Holds-of_found answer (do_once t k answer o).0 new found.0 (inl refl) (deadline-new answer)
  where
    deadline-new :
        (r : Result A)
        → deadline r (new_once_with_timeout t success error) ≡ t + timeout r success error
    deadline-new (ok a) = refl
    deadline-new (err e) = refl

runs-Holds :
    {A : Type 0} {k : String} {r : Result A} {end : Time} {o : OnceWithKey A} (t : Time)
    → Holds k r end o
    → runs t k o ≡ not (ltb t end)
unfolding runs
runs-Holds {end} t h = elim (Bool-cases (ltb t end)) [
  | inl before ↦ rw (enter_lem t h, before, h.value) refl
  | inr late ↦ rw (enter_lem t h, late) refl
]

do_once-Holds_answer :
    {A : Type 0} {k : String} {r : Result A} {end : Time} {o : OnceWithKey A} (t : Time)
    (next : Result A)
    → Holds k r end o
    → (do_once t k next o).1 ≡ (if ltb t end then r else next)
unfolding do_once
do_once-Holds_answer {end} t next h = elim (Bool-cases (ltb t end)) [
  | inl before ↦ rw (enter_lem t h, before, h.value) refl
  | inr late ↦ rw (enter_lem t h, late) refl
]

-- Whatever calls came before, an action that runs answers every call of its key, with no other
-- action of that key run, for the success timeout if it succeeds and for the error timeout if it
-- fails, and after that the next call runs its action again.
pub serve-shared :
    {A : Type 0} (success error : Time) (history calls : List (Call A)) (t later : Time)
    (k : String) (answer next : Result A)
    → runs t k (serve history (new_once_with_key success error)) ≡ true
    → AllBefore (t + timeout answer success error) calls
    → (runs later k
          (serve calls (do_once t k answer (serve history (new_once_with_key success error))).0)
        ≡ not (ltb later (t + timeout answer success error)))
      × ((do_once later k next (
            serve calls (do_once t k answer (serve history (new_once_with_key success error))).0)).1
          ≡ (if ltb later (t + timeout answer success error) then answer else next))
serve-shared success error history calls t later k answer next ran before =
    let settled = serve-IsSettled history (new_once_with_key-IsSettled success error) in
    let held = serve-Holds calls (do_once-ran t k answer settled ran) before in
    (runs-Holds later held, do_once-Holds_answer later next held)
