-- ===== src/Bind/Single.antt =====
-- What one prepared parameter writes.
use cubrid_client.Base.{
  ◌∙◌, ℕ, ◌<◌, ◌≡◌, refl, arith, true, false, ◌||◌, List, [], ◌∷◌, ◌++◌, leb, if◌then◌else◌, ℤ, pos,
  negsuc, ltb_ℤ, pos_part, neg_part, length, length-append, inl, inr, Bool-cases, Option-cases,
  includes, ◌^◌,
}
use cubrid_client.Buffer.{fits, Fits, be_bytes}
use cubrid_client.Buffer.RoundTrip.{length-be_bytes}
use cubrid_client.Failure.{fail, error}
use cubrid_client.Param.{
  Param, null, boolean, number, bigint, text, date, invalid_date, buffer, other,
}
use cubrid_client.Param.Double.{whole, is_safe, is_finite}
use cubrid_client.Sql.{assert_storable_text, decimal_ℤ}
use cubrid_client.Text.{utf8_encode}
use cubrid_client.Writer.{
  PacketWriter, Write, ◌>>◌, write_null_term_string, write_date_fields, DateFields, add_byte,
  add_int, add_long, add_double,
}
use cubrid_client.Writer.Spec.{Emits, Emits-then}
use cubrid_client.Writer.Emits.{int_bytes, write_short-Emits}
use cubrid_client.Writer.Fields.{
  arg, length-int_bytes, arg-Emits, null_term, add_byte-Emits, add_int-Emits, add_long-Emits,
  add_double-Emits, add_bytes-Emits, add_null-Emits, write_null_term_string-Emits,
}
use cubrid_client.Bind.{
  refuse, write_prepared_number, write_prepared_bigint, write_prepared_date, storable,
  write_prepared_param, numeric_limit,
}

-- The components of a date are within the shorts that carry them.
abbrev pub FitsShorts : DateFields → Type 0
FitsShorts d =
    Fits (2 ^ 15) d.year
    × Fits (2 ^ 15) d.month
    × Fits (2 ^ 15) d.day
    × Fits (2 ^ 15) d.hour
    × Fits (2 ^ 15) d.minute
    × Fits (2 ^ 15) d.second
    × Fits (2 ^ 15) d.millisecond

-- A parameter whose value a four-byte length can state.
abbrev pub IsSized : Param → Type 0
IsSized (text s) = length (null_term s) < 2 ^ 31
IsSized (bigint v) = length (null_term (decimal_ℤ v)) < 2 ^ 31
IsSized (date here utc) = FitsShorts utc
IsSized (buffer bs) = length bs < 2 ^ 31
IsSized p = Unit

-- A writer's method that emits a type byte and a value, or throws on every writer.
pub data Bound (m : Write) : Type 0 where
  bound :
      (code : ℕ) (value : List ℕ)
      → length value < 2 ^ 31
      → Emits m (arg (int_bytes 1 (pos code)) ++ arg value)
      → Bound m
  refused : ((w : PacketWriter) → m w ≡ fail error) → Bound m

typed-Bound :
    (code : ℕ) (value : List ℕ) {k : Write}
    → code < 128
    → length value < 2 ^ 31
    → Emits k (arg value)
    → Bound (add_byte (pos code) >> k)
typed-Bound code value h j e =
    bound code value j
      (Emits-then (arg (int_bytes 1 (pos code))) (arg value) (add_byte-Emits (pos code) h) e)

refuse-Bound : Bound refuse
refuse-Bound = refused (λ w. refl)

int-Bound : (v : ℤ) → Fits (2 ^ 31) v → Bound (add_byte (pos 8) >> add_int v)
int-Bound v h =
    typed-Bound 8 (int_bytes 4 v) (omega arith) (omega (arith, length-int_bytes 4 v))
      (add_int-Emits v h)

long-Bound : (v : ℤ) → Fits (2 ^ 63) v → Bound (add_byte (pos 21) >> add_long v)
long-Bound v h =
    typed-Bound 21 (int_bytes 8 v) (omega arith) (omega (arith, length-int_bytes 8 v))
      (add_long-Emits v h)

double-Bound : (bits : ℕ) → Bound (add_byte (pos 12) >> add_double bits)
double-Bound bits =
    typed-Bound 12 (be_bytes 8 bits) (omega arith) (omega (arith, length-be_bytes 8 bits))
      (add_double-Emits bits)

text-Bound :
    (code : ℕ) (s : List ℕ)
    → code < 128
    → length (null_term s) < 2 ^ 31
    → Bound (add_byte (pos code) >> write_null_term_string s)
text-Bound code s h j =
    typed-Bound code (null_term s) h j
      (write_null_term_string-Emits s (omega (arith, length-append (utf8_encode s) (0 ∷ []))))

Fits-fits : (h : ℕ) (v : ℤ) → fits h v ≡ true → Fits h v
unfolding fits
Fits-fits h (pos n) e = ground arith
Fits-fits h (negsuc n) e = ground arith

Fits-is_safe : (v : ℤ) → is_safe v ≡ true → Fits (2 ^ 63) v
unfolding is_safe
Fits-is_safe (pos n) e = ground arith
Fits-is_safe (negsuc n) e = ground arith

whole-Bound :
    (bits : ℕ) (v : ℤ)
    → Bound (
        if is_safe v
        then (if fits (2 ^ 31) v
            then add_byte (pos 8) >> add_int v
            else add_byte (pos 21) >> add_long v)
        else add_byte (pos 12) >> add_double bits)
whole-Bound bits v = elim (Bool-cases (is_safe v)) [
  | inr unsafe ↦ rw unsafe (double-Bound bits)
  | inl safe ↦ elim (Bool-cases (fits (2 ^ 31) v)) [
    | inl narrow ↦ rw (safe, narrow) (int-Bound v (Fits-fits (2 ^ 31) v narrow))
    | inr wide ↦ rw (safe, wide) (long-Bound v (Fits-is_safe v safe))
  ]
]

number-Bound : (bits : ℕ) → Bound (write_prepared_number bits)
unfolding write_prepared_number
number-Bound bits = elim (Bool-cases (is_finite bits)) [
  | inr infinite ↦ rw infinite refuse-Bound
  | inl finite ↦ elim (Option-cases (whole bits)) [
    | inl e ↦ rw (finite, e) (double-Bound bits)
    | inr (v, e) ↦ rw (finite, e) (whole-Bound bits v)
  ]
]

bigint-Bound : (v : ℤ) → IsSized (bigint v) → Bound (write_prepared_bigint v)
unfolding write_prepared_bigint
bigint-Bound v h = elim (Bool-cases (fits (2 ^ 63) v)) [
  | inl e ↦ rw e (long-Bound v (Fits-fits (2 ^ 63) v e))
  | inr e ↦ elim (Bool-cases (leb numeric_limit (pos_part v) || leb numeric_limit (neg_part v))) [
    | inl large ↦ rw (e, large) refuse-Bound
    | inr small ↦ rw (e, small) (text-Bound 7 (decimal_ℤ v) (omega arith) h)
  ]
]

-- The fourteen bytes of a date and time.
abbrev field_bytes : DateFields → List ℕ
field_bytes d =
    int_bytes 2 d.year
    ++ (int_bytes 2 d.month
        ++ (int_bytes 2 d.day
            ++ (int_bytes 2 d.hour
                ++ (int_bytes 2 d.minute ++ (int_bytes 2 d.second ++ int_bytes 2 d.millisecond)))))

length-field_bytes : (d : DateFields) → length (field_bytes d) ≡ 14
length-field_bytes d = simp (length-append, length-int_bytes)

write_date_fields-Emits :
    (d : DateFields) → FitsShorts d → Emits (write_date_fields d) (field_bytes d)
unfolding write_date_fields
write_date_fields-Emits d (y, mo, da, h, mi, s, ms) = Emits-then _ _ (write_short-Emits d.year y) (
    Emits-then _ _ (write_short-Emits d.month mo) (
      Emits-then _ _ (write_short-Emits d.day da) (
        Emits-then _ _ (write_short-Emits d.hour h) (
          Emits-then _ _ (write_short-Emits d.minute mi)
            (Emits-then _ _ (write_short-Emits d.second s) (write_short-Emits d.millisecond ms))))))

date-Bound : (d : DateFields) → FitsShorts d → Bound (write_prepared_date d)
unfolding write_prepared_date
date-Bound d h = elim (Bool-cases (ltb_ℤ d.year (pos 1) || ltb_ℤ (pos 9999) d.year)) [
  | inl outside ↦ rw outside refuse-Bound
  | inr within ↦ rw within (
      typed-Bound 22 (field_bytes d) (omega arith) (omega (arith, length-field_bytes d)) (
        arg-Emits (field_bytes d) 14 (length-field_bytes d) (omega arith)
          (write_date_fields-Emits d h)))
]

-- What a writer does on every writer is all that counts.
Bound-same : {m k : Write} → ((w : PacketWriter) → k w ≡ m w) → Bound m → Bound k
Bound-same same (refused r) = refused (λ w. same w ∙ r w)
Bound-same same (bound code value h e) =
    bound code value h (λ w v. let (w', e', v', t) = e w v in (w', same w ∙ e', v', t))

storable-Bound : (s : List ℕ) {m : Write} → Bound m → Bound (storable s m)
unfolding assert_storable_text
storable-Bound s {m} h = elim (Bool-cases (includes 0 s)) [
  | inl e ↦ refused (λ w. rw e)
  | inr e ↦ elim (Bool-cases (includes 0x1a s)) [
    | inl e' ↦ refused (λ w. rw (e, e'))
    | inr e' ↦ Bound-same (λ w. rw (e, e')) h
  ]
]

pub param-Bound : (p : Param) → IsSized p → Bound (write_prepared_param p)
unfolding write_prepared_param
param-Bound null h = typed-Bound 0 [] (omega arith) (omega arith) add_null-Emits
param-Bound (boolean true) h = int-Bound (pos 1) (omega arith)
param-Bound (boolean false) h = int-Bound (pos 0) (omega arith)
param-Bound (number bits) h = number-Bound bits
param-Bound (bigint v) h = bigint-Bound v h
param-Bound (text s) h = storable-Bound s (text-Bound 1 s (omega arith) h)
param-Bound (date here utc) h = date-Bound utc h
param-Bound invalid_date h = refuse-Bound
param-Bound (buffer []) h = refuse-Bound
param-Bound (buffer (b ∷ bs)) h =
    typed-Bound 6 (b ∷ bs) (omega arith) h (add_bytes-Emits (b ∷ bs) h)
param-Bound (other s) h = refuse-Bound
