-- ===== src/Errors.antt =====
-- Errors and their mapping: src/errors and src/internals/map-error.ts. Message texts are left out,
-- and so are causes that form a cycle.
pub mod Layers
use cubrid_client.Base.{
  ℕ, zero, suc, Bool, true, false, ◌||◌, ◌&&◌, List, [], ◌∷◌, ◌==◌, if◌then◌else◌, ℤ, pos, negsuc,
  ◌==ℤ◌, Option, some, none,
}
use cubrid_client.Failure.{
  Failure, range_error, error, unsupported_value, malformed_reply, cas_reply, diverges,
}

-- CubridErrorKind.
pub data CubridErrorKind : Type 0 where
  unique_violation not_null_violation foreign_key_violation syntax semantic deadlock lock_timeout
        interrupted authentication lost_connection timed_out_read busy_stream :
      CubridErrorKind

pub data Origin : Type 0 where
  server cas : Origin

-- CubridErrorDetails. A detail without a value is not a property at all (`definedErrorDetails`).
pub record CubridErrorDetails : Type 0 where
  pub code : Option ℤ
  pub origin : Option Origin
  pub sql_state : Option (List ℕ)
  pub kind : Option CubridErrorKind

abbrev pub no_details : CubridErrorDetails
no_details = record { code = none; origin = none; sql_state = none; kind = none }

abbrev pub is_given {ℓ} : {A : Type ℓ} → Option A → Bool
is_given none = false
is_given (some a) = true

-- `Object.keys(details).length > 0`.
unfoldable pub has_details : CubridErrorDetails → Bool
has_details d = is_given d.code || is_given d.origin || is_given d.sql_state || is_given d.kind

-- ORIGINS, by the leading int of an error reply.
unfoldable pub origin_of : ℤ → Option Origin
origin_of (negsuc zero) = some cas
origin_of (negsuc (suc zero)) = some server
origin_of _ = none

abbrev pub kind_table : List (ℕ × CubridErrorKind)
kind_table =
    (4, interrupted)
    ∷ (72, deadlock)
    ∷ (74, lock_timeout)
    ∷ (75, lock_timeout)
    ∷ (111, lost_connection)
    ∷ (165, authentication)
    ∷ (171, authentication)
    ∷ (493, syntax)
    ∷ (494, semantic)
    ∷ (631, not_null_violation)
    ∷ (670, unique_violation)
    ∷ (886, unique_violation)
    ∷ (922, foreign_key_violation)
    ∷ (924, foreign_key_violation)
    ∷ (967, deadlock)
    ∷ (968, deadlock)
    ∷ (1284, foreign_key_violation)
    ∷ []

abbrev pub look_up : ℕ → List (ℕ × CubridErrorKind) → Option CubridErrorKind
look_up n [] = none
look_up n ((m, k) ∷ rest) = if m == n then some k else look_up n rest

-- SERVER_ERROR_KINDS: every code in it is negative.
unfoldable pub server_error_kind : ℤ → Option CubridErrorKind
server_error_kind (pos n) = none
server_error_kind (negsuc n) = look_up (suc n) kind_table

-- Only a code of the database server is classified.
unfoldable pub kind_of : Option Origin → ℤ → Option CubridErrorKind
unfolding server_error_kind
kind_of (some server) code = server_error_kind code
kind_of _ code = none

-- The details of a CasReplyError.
unfoldable pub cas_reply_details : ℤ → ℤ → CubridErrorDetails
unfolding origin_of kind_of
cas_reply_details indicator code = record {
  code = some code;
  origin = origin_of indicator;
  sql_state = none;
  kind = kind_of (origin_of indicator) code;
}

-- The classes of the public errors.
pub data ErrorClass : Type 0 where
  connection_error query_error constraint_error sql_syntax_error deadlock_error lock_timeout_error
        transaction_error :
      ErrorClass

-- A value that is thrown.
pub data Thrown : Type 0 where
  -- What the protocol throws; `error` is also any plain Error without a cause.
  failure : Failure → Thrown
  connection_lost stream_busy read_timeout : Thrown
  -- SocketConnectError.
  socket_refused : Thrown
  -- A plain Error with a cause.
  caused : Thrown → Thrown
  -- A public error with its details and its cause.
  mapped : ErrorClass → CubridErrorDetails → Thrown → Thrown
  -- A value that is no Error.
  foreign : Thrown

-- The details of this error alone, if it is of a class that carries any.
unfoldable pub own_details : Thrown → CubridErrorDetails
unfolding cas_reply_details
own_details (failure (cas_reply indicator code message)) = cas_reply_details indicator code
own_details connection_lost = record no_details { kind = some lost_connection }
own_details stream_busy = record no_details { kind = some busy_stream }
own_details read_timeout = record no_details { kind = some timed_out_read }
own_details (mapped c details cause) = details
own_details _ = no_details

abbrev pub or_else : CubridErrorDetails → CubridErrorDetails → CubridErrorDetails
or_else details others = if has_details details then details else others

-- `findErrorDetails`: those of the nearest error in the cause chain that has any.
unfoldable pub find_error_details : Thrown → CubridErrorDetails
unfolding own_details has_details
find_error_details (caused e) = find_error_details e
find_error_details (mapped c details e) = or_else details (find_error_details e)
find_error_details e = own_details e

-- `toError`.
unfoldable pub to_error : Thrown → Thrown
to_error foreign = failure error
to_error e = e

pub data ErrorKind : Type 0 where
  connection query transaction : ErrorKind

-- `createQueryError`.
unfoldable pub query_error_class : Option CubridErrorKind → ErrorClass
query_error_class (some unique_violation) = constraint_error
query_error_class (some not_null_violation) = constraint_error
query_error_class (some foreign_key_violation) = constraint_error
query_error_class (some syntax) = sql_syntax_error
query_error_class (some deadlock) = deadlock_error
query_error_class (some lock_timeout) = lock_timeout_error
query_error_class _ = query_error

unfoldable pub error_class : ErrorKind → CubridErrorDetails → ErrorClass
unfolding query_error_class
error_class connection details = connection_error
error_class query details = query_error_class details.kind
error_class transaction details = transaction_error

abbrev pub is_read_timeout : Thrown → Bool
is_read_timeout read_timeout = true
is_read_timeout _ = false

abbrev pub wrap : ErrorKind → Thrown → Thrown
wrap kind cause =
    mapped (error_class kind (find_error_details cause)) (find_error_details cause) cause

-- A ReadTimeoutError is kept as it is at every layer.
unfoldable pub map_error : ErrorKind → Thrown → Thrown
unfolding find_error_details to_error error_class
map_error kind e = if is_read_timeout e then e else wrap kind (to_error e)

-- ER_LK_UNILATERALLY_ABORTED from the database server.
unfoldable pub is_server_transaction_abort : Thrown → Bool
unfolding origin_of
is_server_transaction_abort (failure (cas_reply indicator code message)) =
    indicator ==ℤ negsuc 1 && code ==ℤ negsuc 71
is_server_transaction_abort e = false
