-- ===== src/Errors/Layers.antt =====
-- Errors that several layers have mapped, one over another.
use cubrid_client.Base.{
  Bool, true, if◌then◌else◌, ◌≡◌, refl, ◌∙◌, false, List, [], ◌∷◌, Bool-cases, inl, inr,
}
use cubrid_client.Errors.{
  CubridErrorDetails, ErrorClass, own_details, failure, connection_lost, stream_busy,
  socket_refused, caused, Thrown, read_timeout, mapped, foreign, ErrorKind, has_details, or_else,
  find_error_details, to_error, error_class, wrap, map_error, is_read_timeout,
}

-- The first layer is the last of the list.
unfoldable pub map_layers : List ErrorKind → Thrown → Thrown
map_layers [] e = e
map_layers (k ∷ ks) e = map_error k (map_layers ks e)

or_else_self : (d : CubridErrorDetails) → or_else d d ≡ d
or_else_self d = elim (Bool-cases (has_details d)) [ inl e ↦ rw e | inr e ↦ rw e ]

find_error_details-wrap :
    (k : ErrorKind) (e : Thrown) → find_error_details (wrap k e) ≡ find_error_details e
unfolding find_error_details
find_error_details-wrap k e = or_else_self (find_error_details e)

find_error_details-to_error : (e : Thrown) → find_error_details (to_error e) ≡ find_error_details e
unfolding to_error find_error_details
find_error_details-to_error foreign = refl
find_error_details-to_error e = refl

find_error_details-map_error :
    (k : ErrorKind) (e : Thrown) → find_error_details (map_error k e) ≡ find_error_details e
unfolding map_error
find_error_details-map_error k e = elim (Bool-cases (is_read_timeout e)) [
  | inl late ↦ rw late
  | inr other ↦ rw other (find_error_details-wrap k (to_error e) ∙ find_error_details-to_error e)
]

map_layers-details :
    (ks : List ErrorKind) (e : Thrown) → find_error_details (map_layers ks e) ≡ find_error_details e
unfolding map_layers
map_layers-details [] e = refl
map_layers-details (k ∷ ks) e =
    find_error_details-map_error k (map_layers ks e) ∙ map_layers-details ks e

is_read_timeout-map_error :
    (k : ErrorKind) (e : Thrown)
    → is_read_timeout e ≡ false
    → is_read_timeout (map_error k e) ≡ false
unfolding map_error
is_read_timeout-map_error k e other = rw other

is_read_timeout-map_layers :
    (ks : List ErrorKind) (e : Thrown)
    → is_read_timeout e ≡ false
    → is_read_timeout (map_layers ks e) ≡ false
unfolding map_layers
is_read_timeout-map_layers [] e other = other
is_read_timeout-map_layers (k ∷ ks) e other =
    is_read_timeout-map_error k (map_layers ks e) (is_read_timeout-map_layers ks e other)

find_error_details-layers :
    (ks : List ErrorKind) (e : Thrown)
    → find_error_details (to_error (map_layers ks e)) ≡ find_error_details e
find_error_details-layers ks e =
    find_error_details-to_error (map_layers ks e) ∙ map_layers-details ks e

-- An error that is not the wrapper of another.
unfoldable pub has_no_cause : Thrown → Bool
has_no_cause (caused e) = false
has_no_cause (mapped c d e) = false
has_no_cause e = true

-- The details of the first error with any, from the value down its causes; those of the last cause,
-- which may be none, if no error before it has any.
pub data Nearest : Thrown → CubridErrorDetails → Type 0 where
  last_cause : (e : Thrown) → has_no_cause e ≡ true → Nearest e (own_details e)
  behind_plain : (e : Thrown) (d : CubridErrorDetails) → Nearest e d → Nearest (caused e) d
  found :
      (c : ErrorClass) (d : CubridErrorDetails) (e : Thrown)
      → has_details d ≡ true
      → Nearest (mapped c d e) d
  behind_empty :
      (c : ErrorClass) (empty d : CubridErrorDetails) (e : Thrown)
      → has_details empty ≡ false
      → Nearest e d
      → Nearest (mapped c empty e) d

mapped-Nearest :
    (c : ErrorClass) (d : CubridErrorDetails) (e : Thrown)
    → Nearest e (find_error_details e)
    → Nearest (mapped c d e) (or_else d (find_error_details e))
mapped-Nearest c d e n = go (has_details d) refl
  where
    go :
        (b : Bool)
        → has_details d ≡ b
        → Nearest (mapped c d e) (if b then d else find_error_details e)
    go true h = found c d e h
    go false h = behind_empty c d (find_error_details e) e h n

find_error_details-Nearest : (e : Thrown) → Nearest e (find_error_details e)
unfolding find_error_details has_no_cause
find_error_details-Nearest (caused e) =
    behind_plain e (find_error_details e) (find_error_details-Nearest e)
find_error_details-Nearest (mapped c d e) = mapped-Nearest c d e (find_error_details-Nearest e)
find_error_details-Nearest (failure f) = last_cause (failure f) refl
find_error_details-Nearest connection_lost = last_cause connection_lost refl
find_error_details-Nearest stream_busy = last_cause stream_busy refl
find_error_details-Nearest read_timeout = last_cause read_timeout refl
find_error_details-Nearest socket_refused = last_cause socket_refused refl
find_error_details-Nearest foreign = last_cause foreign refl

-- For any thrown value but a ReadTimeoutError, and any layers of mapError over it: the error that
-- comes out has the details that the value itself has, or else the nearest of its causes that has
-- any, and its class is the one that the last layer gives to those details.
pub map_layers_lem :
    (k : ErrorKind) (ks : List ErrorKind) (e : Thrown)
    → is_read_timeout e ≡ false
    → (d : CubridErrorDetails) × Nearest e d
      × (map_layers (k ∷ ks) e ≡ mapped (error_class k d) d (to_error (map_layers ks e)))
unfolding map_layers map_error
map_layers_lem k ks e other =
    let inner : is_read_timeout (map_layers ks e) ≡ false = is_read_timeout-map_layers ks e other in
    (find_error_details e, find_error_details-Nearest e, rw (inner, find_error_details-layers ks e))

-- A ReadTimeoutError comes out of every sequence of layers as itself.
pub map_layers-read_timeout : (ks : List ErrorKind) → map_layers ks read_timeout ≡ read_timeout
unfolding map_layers map_error
map_layers-read_timeout [] = refl
map_layers-read_timeout (k ∷ ks) = rw (map_layers-read_timeout ks)
