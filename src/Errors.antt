-- ===== src/Errors.antt =====
-- Go errors as the relayer builds and inspects them: sentinels, `fmt.Errorf` with and without `%w`,
-- `errors.Is` and the test `Error() != ""`. (shared/bridges/ibcv2/bridge_client.go and
-- relayer/ibcv2/*.go)
use platform_relayer.Common.{String, Bool, true, false, not, ◌||◌, str_eq, ◌≡◌, refl, ◌⊎◌, inl, inr}

-- The package-level `errors.New` values, and `context.Canceled` and pgx's `ErrNoRows`.
pub data Sentinel : Type 0 where
  canceled no_rows : Sentinel
  tx_not_found write_ack_decoding write_ack_not_found_for_packet no_later_blocks : Sentinel
  send_not_finalized timeout_not_finalized write_ack_not_finalized : Sentinel
  retrying_recv_packet retrying_ack_packet retrying_timeout_packet : Sentinel
  transfer_already_in_pipeline : Sentinel

-- `external` is an error made outside the relayer, known by its text, `pg_error` one with the code
-- of a Postgres error, `joined` a message with two `%w`. The format arguments of a message are left out.
pub data Error : Type 0 where
  sentinel : Sentinel → Error
  external : String → Error
  pg_error : String → Error
  message : String → Error
  wrapped : String → Error → Error
  joined : Error → Error → Error

abbrev pub sentinel_eq : Sentinel → Sentinel → Bool
sentinel_eq canceled canceled = true
sentinel_eq no_rows no_rows = true
sentinel_eq tx_not_found tx_not_found = true
sentinel_eq write_ack_decoding write_ack_decoding = true
sentinel_eq write_ack_not_found_for_packet write_ack_not_found_for_packet = true
sentinel_eq no_later_blocks no_later_blocks = true
sentinel_eq send_not_finalized send_not_finalized = true
sentinel_eq timeout_not_finalized timeout_not_finalized = true
sentinel_eq write_ack_not_finalized write_ack_not_finalized = true
sentinel_eq retrying_recv_packet retrying_recv_packet = true
sentinel_eq retrying_ack_packet retrying_ack_packet = true
sentinel_eq retrying_timeout_packet retrying_timeout_packet = true
sentinel_eq transfer_already_in_pipeline transfer_already_in_pipeline = true
sentinel_eq _ _ = false

-- `errors.Is`: the error or one that it wraps is the sentinel.
abbrev pub errors_is : Error → Sentinel → Bool
errors_is (sentinel s) target = sentinel_eq s target
errors_is (external text) target = false
errors_is (pg_error code) target = false
errors_is (message text) target = false
errors_is (wrapped text e) target = errors_is e target
errors_is (joined e f) target = errors_is e target || errors_is f target

-- `err.Error() != ""`. Each sentinel and each format of the relayer has literal text.
abbrev pub has_text : Error → Bool
has_text (sentinel s) = true
has_text (external text) = not (str_eq text "")
has_text (pg_error code) = true
has_text (message text) = true
has_text (wrapped text e) = true
has_text (joined e f) = true

-- The pair `(value, error)` of a Go call, of which one half counts.
pub data Result (A : Type 0) : Type 0 where
  ok : A → Result A
  err : Error → Result A

-- `if err != nil { return nil, fmt.Errorf("text: %w", err) }`
abbrev pub wrap : {A : Type 0} → String → Result A → Result A
wrap text (ok a) = ok a
wrap text (err e) = err (wrapped text e)

pub Result-cases :
    {A : Type 0} (r : Result A) → ((a : A) × (r ≡ ok a)) ⊎ ((e : Error) × (r ≡ err e))
Result-cases (ok a) = inl (a, refl)
Result-cases (err e) = inr (e, refl)
