-- ===== src/Request/Handshake.antt =====
-- The two unframed packets of the handshake.
use cubrid_client.Base.{
  ℕ, ◌≡◌, refl, arith, Bool, true, false, List, [], ◌∷◌, ◌++◌, length, length-append,
  length-replicate, replicate, if◌then◌else◌,
}
use cubrid_client.Failure.{ok}
use cubrid_client.Text.{utf8_encode}
use cubrid_client.Writer.Spec.{Emits-then, build-Emits}
use cubrid_client.Writer.Emits.{
  write_bytes-Emits, fixed_block, length-fixed_block, write_fixed_string-Emits,
}
use cubrid_client.Request.{write_client_info_exchange, write_open_database}
use cubrid_client.Writer.{
  build, new_writer, write_bytes, write_byte, ensure_capacity, grow_size, to_buffer,
}
use cubrid_client.Buffer.{be_bytes, word, fits}

-- With and without TLS, the handshake packet is ten bytes: "CUBRS" or "CUBRK", the JDBC client
-- type 3, the protocol version 7 with its indicator 0x40, and three zeros.
pub write_client_info_exchange_lem :
    (use_ssl : Bool)
    → write_client_info_exchange use_ssl
      ≡ ok
          (b'C' ∷ b'U' ∷ b'B' ∷ b'R' ∷ (if use_ssl then b'S' else b'K') ∷ 3 ∷ 0x47 ∷ 0 ∷ 0 ∷ 0 ∷ [])
unfolding write_client_info_exchange build new_writer write_bytes write_byte ensure_capacity
    grow_size to_buffer be_bytes word fits
write_client_info_exchange_lem true = refl
write_client_info_exchange_lem false = refl

-- The OpenDatabase packet: three blocks of 32 bytes and 532 zeros.
pub open_database_bytes : List ℕ → List ℕ → List ℕ → List ℕ
open_database_bytes database user password =
    fixed_block (utf8_encode database) 32
    ++ (fixed_block (utf8_encode user) 32
        ++ (fixed_block (utf8_encode password) 32 ++ (replicate 512 0 ++ replicate 20 0)))

-- Whatever the database, the user and the password, the builder succeeds, its packet is
-- `open_database_bytes`, and that is 628 bytes long.
pub write_open_database_lem :
    (database user password : List ℕ)
    → (write_open_database database user password ≡ ok (open_database_bytes database user password))
      × (length (open_database_bytes database user password) ≡ 628)
unfolding write_open_database open_database_bytes
write_open_database_lem database user password = (
  build-Emits 628 _ (omega arith) (
      Emits-then _ _ (write_fixed_string-Emits database 32) (
        Emits-then _ _ (write_fixed_string-Emits user 32) (
          Emits-then _ _ (write_fixed_string-Emits password 32) (
            Emits-then _ _ (write_bytes-Emits (replicate 512 0))
              (write_bytes-Emits (replicate 20 0)))))),
  sizes,
)
  where
    sizes : length (open_database_bytes database user password) ≡ 628
    sizes = omega (arith, length-append {0}, length-fixed_block, length-replicate {0})
