-- ===== src/Clients/Once.antt =====
-- `OnceWithKey` of shared/bridges/ibcv2/once.go: a call's answer, shared by all callers of a key
-- until it times out. The keys that the clients use are texts.
pub mod Laws
use platform_relayer.Common.{
  String, Bool, true, false, not, ◌&&◌, ◌||◌, List, [], ◌∷◌, Option, none, some, ◌+◌, str_eq, ltb,
  if◌then◌else◌,
}
use platform_relayer.Db.{Time}
use platform_relayer.Errors.{Error, Result, ok, err}

-- `onceWithTimeout`: `value` is what `sync.OnceValues` keeps of the action, nothing before it ran.
pub record Entry (A : Type 0) : Type 0 where
  pub value : Option (Result A)
  pub error_timeout : Time
  pub success_timeout : Time
  pub error : Option Error

pub record OnceWithKey (A : Type 0) : Type 0 where
  pub onces : List (String × Entry A)
  pub success_timeout : Time
  pub error_timeout : Time

-- `NewOnceWithKey`
abbrev pub new_once_with_key : {A : Type 0} → Time → Time → OnceWithKey A
new_once_with_key success error = record {
  onces = [];
  success_timeout = success;
  error_timeout = error;
}

-- `newOnceWithTimeout`
abbrev pub new_once_with_timeout : {A : Type 0} → Time → Time → Time → Entry A
new_once_with_timeout now success error = record {
  value = none;
  error_timeout = now + error;
  success_timeout = now + success;
  error = none;
}

abbrev pub is_set : Option Error → Bool
is_set none = false
is_set (some e) = true

unfoldable pub is_timed_out : {A : Type 0} → Time → Entry A → Bool
is_timed_out now entry =
    not (ltb now entry.error_timeout) && is_set entry.error
    || not (ltb now entry.success_timeout) && not (is_set entry.error)

unfoldable pub lookup : {A : Type 0} → String → List (String × A) → Option A
lookup k [] = none
lookup k ((j, a) ∷ entries) = if str_eq k j then some a else lookup k entries

unfoldable pub insert : {A : Type 0} → String → A → List (String × A) → List (String × A)
insert k a [] = (k, a) ∷ []
insert k a ((j, b) ∷ entries) = if str_eq k j then (k, a) ∷ entries else (j, b) ∷ insert k a entries

-- The entry that a caller goes on with: the one of the key, unless there is none or it timed out.
abbrev pub pick : {A : Type 0} → Time → Time → Time → Option (Entry A) → Entry A
pick now success error none = new_once_with_timeout now success error
pick now success error (some entry) =
    if is_timed_out now entry then new_once_with_timeout now success error else entry

-- The first critical section of `Do`.
unfoldable pub enter : {A : Type 0} → Time → String → OnceWithKey A → Entry A
unfolding lookup is_timed_out
enter now k o = pick now o.success_timeout o.error_timeout (lookup k o.onces)

-- `sync.OnceValues`: the value that is there, else what the action answers.
abbrev pub once : {A : Type 0} → Option (Result A) → Result A → Result A
once none answer = answer
once (some r) answer = r

-- `SetError` where the value is an error.
abbrev pub set_error : {A : Type 0} → Result A → Entry A → Entry A
set_error (ok a) entry = entry
set_error (err e) entry = record entry { error = some e }

-- `Do`, for callers that come one after the other: `answer` is what the action answers if it runs.
-- The delete at the end names the entry instead of its key, and no entry has such a key: it removes
-- nothing.
unfoldable pub do_once :
    {A : Type 0} → Time → String → Result A → OnceWithKey A → OnceWithKey A × Result A
unfolding enter insert
do_once now k answer o =
    let entry = enter now k o in
    let r = once entry.value answer in
    (record o { onces = insert k (set_error r (record entry { value = some r })) o.onces }, r)

abbrev pub is_empty : {A : Type 0} → Option A → Bool
is_empty none = true
is_empty (some a) = false

-- Whether `Do` runs the action.
unfoldable pub runs : {A : Type 0} → Time → String → OnceWithKey A → Bool
runs now k o = is_empty (enter now k o).value
