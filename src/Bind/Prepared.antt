-- ===== src/Bind/Prepared.antt =====
-- What encodePreparedParams returns.
use cubrid_client.Base.{
  sym, length-replicate, ℕ, suc, ◌<◌, ◌≡◌, refl, arith, List, [], ◌∷◌, ◌++◌, append_assoc,
  append-nil, pos, length, All, inl, inr, ◌⊎◌, ◌^◌,
}
use cubrid_client.Failure.{ok, fail, error}
use cubrid_client.Param.{Param}
use cubrid_client.Writer.{PacketWriter, Write, ◌>>◌, build, new_writer}
use cubrid_client.Writer.Spec.{IsValid, Emits, Emits-then, build-Emits}
use cubrid_client.Writer.Emits.{int_bytes}
use cubrid_client.Writer.Fields.{arg, flat_args}
use cubrid_client.Bind.{write_prepared_params, encode_prepared_params}
use cubrid_client.Bind.Single.{IsSized, Bound, bound, refused, param-Bound}

-- A type byte and a value for each of `n` parameters.
pub data IsPairs : ℕ → List (List ℕ) → Type 0 where
  no_pairs : IsPairs 0 []
  one_pair :
      {n : ℕ} {binds : List (List ℕ)} (code : ℕ) (value : List ℕ)
      → length value < 2 ^ 31
      → IsPairs n binds
      → IsPairs (suc n) (int_bytes 1 (pos code) ∷ value ∷ binds)

data BoundAll (n : ℕ) (m : Write) : Type 0 where
  all_bound : (binds : List (List ℕ)) → IsPairs n binds → Emits m (flat_args binds) → BoundAll n m
  one_refused : ((w : PacketWriter) → IsValid w → m w ≡ fail error) → BoundAll n m

then-BoundAll : (n : ℕ) {m k : Write} → Bound m → BoundAll n k → BoundAll (suc n) (m >> k)
then-BoundAll n (refused r) rest = one_refused (λ w _. rw (r w))
then-BoundAll n (bound code value h e) (one_refused r) =
    one_refused (λ w v. let (w', e', v', _) = e w v in rw e' (r w' v'))
then-BoundAll n (bound code value h e) (all_bound binds pairs e') =
    all_bound (int_bytes 1 (pos code) ∷ value ∷ binds) (one_pair code value h pairs) (
      rw append_assoc at
        (Emits-then (arg (int_bytes 1 (pos code)) ++ arg value) (flat_args binds) e e'))

params-BoundAll :
    (ps : List Param) → All IsSized ps → BoundAll (length ps) (write_prepared_params ps)
unfolding write_prepared_params
params-BoundAll [] h = all_bound [] no_pairs (λ w v. (w, refl, v, sym (append-nil _)))
params-BoundAll (p ∷ ps) (h, hs) =
    then-BoundAll (length ps) (param-Bound p h) (params-BoundAll ps hs)

new_writer-IsValid : IsValid (new_writer 256)
unfolding new_writer
new_writer-IsValid = record { room = rw length-replicate (omega arith); inside = omega arith }

-- For parameters whose values a four-byte length can state: encodePreparedParams throws, or it
-- returns their number and the bytes of as many pairs of a type byte and a value, each behind its
-- length.
pub encode_prepared_params-IsPairs :
    (params : List Param)
    → All IsSized params
    → (encode_prepared_params params ≡ fail error)
      ⊎ ((binds : List (List ℕ)) × IsPairs (length params) binds
          × (encode_prepared_params params
              ≡ ok (record { count = length params; bytes = flat_args binds })))
unfolding encode_prepared_params build
encode_prepared_params-IsPairs params h = go (params-BoundAll params h)
  where
    go :
        BoundAll (length params) (write_prepared_params params)
        → (encode_prepared_params params ≡ fail error)
          ⊎ ((binds : List (List ℕ)) × IsPairs (length params) binds
              × (encode_prepared_params params
                  ≡ ok (record { count = length params; bytes = flat_args binds })))
    go (all_bound binds pairs e) =
        inr (binds, pairs, rw (build-Emits 256 (flat_args binds) (omega arith) e))
    go (one_refused r) = inl (rw (r (new_writer 256) new_writer-IsValid))
