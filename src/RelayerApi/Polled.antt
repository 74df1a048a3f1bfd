-- ===== src/RelayerApi/Polled.antt =====
-- What the dispatcher's poll sees of a relay request.
use platform_relayer.Common.{◌≡◌, refl, ◌∙◌, ap, List, [], ◌∷◌, ◌++◌, arith, Bool-cases, inl, inr}
use platform_relayer.Db.{Row, is_finished, get_unfinished_transfers}
use platform_relayer.RelayerApi.{ApiEnvironment, Submission, Store}
use platform_relayer.RelayerApi.Relay.{relay}
use platform_relayer.RelayerApi.Laws.{AllMadeBy, relay-Extends}

unfinished-append :
    (request : Submission) (before new : List Row)
    → AllMadeBy request new
    → get_unfinished_transfers (before ++ new) ≡ get_unfinished_transfers before ++ new
unfolding get_unfinished_transfers is_finished
unfinished-append request [] [] made = refl
unfinished-append request [] (r ∷ new) (first, more) =
    ground (arith, first, unfinished-append request [] new more)
unfinished-append request (r ∷ before) new made = elim (Bool-cases (is_finished r.status)) [
  | inl done ↦ ground (arith, done, unfinished-append request before new made)
  | inr going ↦ ground (arith, going, unfinished-append request before new made)
]

-- The next poll sees what it would have seen without the request, and after that exactly the rows
-- that the request added, each of them pending and of the request's transaction.
pub relay-polled :
    (env : ApiEnvironment) (request : Submission) (s : Store)
    → (new : List Row) × AllMadeBy request new
      × ((relay env request s).0.rows ≡ s.rows ++ new)
      × (get_unfinished_transfers (relay env request s).0.rows
          ≡ get_unfinished_transfers s.rows ++ new)
relay-polled env request s =
    let (new, e, made) = relay-Extends env request s in
    (new, made, e, ap get_unfinished_transfers e ∙ unfinished-append request s.rows new made)
