-- ===== src/Request/Sends.antt =====
-- What a server reads from a request: the function code, and then the arguments.
use cubrid_client.Base.{
  ℕ, ◌+◌, ◌≤◌, ◌<◌, ◌≡◌, refl, ap, arith, List, [], ◌∷◌, ◌++◌, append-nil, pos, length,
  length-append, take, All, Option, some, none, ◌^◌, lt→ltb, take_all,
}
use mathlib.Core.Option
use cubrid_client.Buffer.{be_bytes, word}
use cubrid_client.Failure.{Result, ok}
use cubrid_client.Writer.{Write, ◌>>◌, build, build_header, write_byte}
use cubrid_client.Writer.Spec.{Emits, Emits-then, build-Emits}
use cubrid_client.Writer.Emits.{int_bytes, write_byte-Emits}
use cubrid_client.Writer.Fields.{arg, flat_args, length-int_bytes, read_args, read_args-flat_args}
use cubrid_client.Request.{Frame, framed}

pub read_request : List ℕ → Option (ℕ × List (List ℕ))
read_request [] = none
read_request (code ∷ rest) = Option.map (λ xs. (code, xs)) (read_args (length rest) rest)

-- The builder returns a frame whose header is the payload's length and CAS_INFO, and whose payload
-- reads as this function code with these arguments.
abbrev pub Sends : Result Frame → ℕ → List (List ℕ) → List ℕ → Type 0
Sends r code args cas_info =
    (f : Frame) × (r ≡ ok f)
    × (f.header ≡ be_bytes 4 (length f.payload) ++ cas_info)
    × (read_request f.payload ≡ some (code, args))

-- The bytes that arguments take.
abbrev pub total : List (List ℕ) → ℕ
total [] = 0
total (x ∷ xs) = 4 + length x + total xs

pub length-flat_args : (xs : List (List ℕ)) → length (flat_args xs) ≡ total xs
length-flat_args [] = refl
length-flat_args (x ∷ xs) =
    rw (length-append, length-append, length-int_bytes, length-flat_args xs) (omega arith)

length-le-total : (xs : List (List ℕ)) → length xs ≤ total xs
length-le-total [] = omega arith
length-le-total (x ∷ xs) = omega (arith, length-le-total xs)

-- A sequence of methods that emits a list of arguments.
pub record EmitsArgs (m : Write) (xs : List (List ℕ)) : Type 0 where
  pub emits : Emits m (flat_args xs)

pub last : {m : Write} (x : List ℕ) → Emits m (arg x) → EmitsArgs m (x ∷ [])
last x h = record { emits = rw append-nil h }

pub more :
    {m k : Write} (x : List ℕ) {xs : List (List ℕ)}
    → Emits m (arg x)
    → EmitsArgs k xs
    → EmitsArgs (m >> k) (x ∷ xs)
more x {xs} h j = record { emits = Emits-then (arg x) (flat_args xs) h j.emits }

build_header_lem :
    (n : ℕ) (cas_info : List ℕ)
    → n < 2 ^ 32
    → length cas_info ≡ 4
    → build_header n cas_info ≡ ok (be_bytes 4 n ++ cas_info)
unfolding build_header
build_header_lem n cas_info h k =
    let whole : take 4 cas_info ≡ cas_info = take_all 4 cas_info (omega arith) in
    rw (lt→ltb n (2 ^ 32) h, k, whole, append-nil)

code_byte : (code : ℕ) → code < 128 → int_bytes 1 (pos code) ≡ code ∷ []
unfolding be_bytes word
code_byte code h = ap (λ c. c ∷ []) (omega arith)

module _ (code : ℕ) (args : List (List ℕ)) (cas_info : List ℕ) (capacity : ℕ) (small : code < 128)
    (sizes : All (λ x. length x < 2 ^ 31) args) (short : total args + 1 < 2 ^ 32)
    (four : length cas_info ≡ 4) (room : 0 < capacity) where
  -- Any builder that emits the code and the arguments.
  framed_payload-Sends :
      {m : Write}
      → Emits m (code ∷ flat_args args)
      → Sends (framed cas_info (build capacity m)) code args cas_info
  unfolding framed read_request
  framed_payload-Sends {m} h =
      let payload = code ∷ flat_args args in
      let built = build-Emits capacity payload room h in
      let fits : length payload < 2 ^ 32 = omega (arith, length-flat_args args) in
      (
        record { header = be_bytes 4 (length payload) ++ cas_info; payload = payload },
        rw (built, build_header_lem (length payload) cas_info fits four),
        refl,
        ap (λ r. Option.map (λ xs. (code, xs)) r)
            (read_args-flat_args args (length (flat_args args)) sizes
              (omega (arith, length-flat_args args, length-le-total args))),
      )

  pub framed-Sends :
      {m : Write}
      → EmitsArgs m args
      → Sends (framed cas_info (build capacity (write_byte (pos code) >> m))) code args cas_info
  framed-Sends h = framed_payload-Sends (
      Emits-then (code ∷ []) (flat_args args)
        (rw (code_byte code small) at (write_byte-Emits (pos code) small)) h.emits)

-- A request with no arguments.
pub framed-Sends_bare :
    (code : ℕ) (cas_info : List ℕ) (capacity : ℕ)
    → code < 128
    → length cas_info ≡ 4
    → 0 < capacity
    → Sends (framed cas_info (build capacity (write_byte (pos code)))) code [] cas_info
framed-Sends_bare code cas_info capacity small four room =
    framed_payload-Sends code [] cas_info capacity small tt (omega arith) four room
      (rw (code_byte code small) at (write_byte-Emits (pos code) small))
