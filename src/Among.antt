-- ===== src/Among.antt =====
-- Membership in a list, and in a concatenation.
use platform_relayer.Common.{◌≡◌, ◌⊎◌, inl, inr, List, [], ◌∷◌, ◌++◌}

-- A value stands in a list.
pub data Among {A : Type 0} (a : A) : List A → Type 0 where
  here : {b : A} {l : List A} → a ≡ b → Among a (b ∷ l)
  there : {b : A} {l : List A} → Among a l → Among a (b ∷ l)

pub Among-left : {A : Type 0} {a : A} {l : List A} (m : List A) → Among a l → Among a (l ++ m)
Among-left m (here same) = here same
Among-left m (there h) = there (Among-left m h)

pub Among-right : {A : Type 0} {a : A} (l : List A) {m : List A} → Among a m → Among a (l ++ m)
Among-right [] h = h
Among-right (b ∷ l) h = there (Among-right l h)

pub Among-parts :
    {A : Type 0} {a : A} (l : List A) {m : List A} → Among a (l ++ m) → Among a l ⊎ Among a m
Among-parts [] h = inr h
Among-parts (b ∷ l) (here same) = inl (here same)
Among-parts (b ∷ l) (there h) = elim (Among-parts l h) [
  | inl first ↦ inl (there first)
  | inr second ↦ inr second
]
