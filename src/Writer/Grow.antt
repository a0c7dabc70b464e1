-- ===== src/Writer/Grow.antt =====
-- The growth of the buffer: ensureCapacity.
use cubrid_client.Base.{
  ℕ, zero, suc, ◌+◌, ◌-◌, ◌*◌, ◌≤◌, ◌<◌, ◌≡◌, refl, sym, ◌∙◌, ap, arith, List, ◌++◌, length, take,
  drop, replicate, length-replicate, length-append, length-take, leb, ltb, inl, inr, Bool-cases,
  take-length_append, append_assoc, length-drop,
}
use cubrid_client.Failure.{ok, ◌>>=◌}
use cubrid_client.Writer.{PacketWriter, Write, grow_size, ensure_capacity, put, to_buffer}
use cubrid_client.Writer.Spec.{IsValid, Emits}

-- With `target` rounds the loop ends on every size but 0, at a size that reaches the target.
pub grow_size_total :
    (fuel size target : ℕ)
    → 0 < size
    → target ≤ size + fuel
    → (n : ℕ) × (grow_size fuel size target ≡ ok n) × (target ≤ n) × (0 < n)
unfolding grow_size
grow_size_total zero size target h k = (size, ground arith, omega arith, h)
grow_size_total (suc fuel) size target h k = elim (Bool-cases (ltb size target)) [
  | inl more ↦ rw more (grow_size_total fuel (size * 2) target (omega arith) (omega arith))
  | inr enough ↦ (size, rw enough, ground arith, h)
]

-- What `ensure_capacity needed` leaves: the same position and the same written bytes, and room.
pub record Ready (needed : ℕ) (w w' : PacketWriter) : Type 0 where
  pub returned : ensure_capacity needed w ≡ ok w'
  pub room : w'.offset + needed ≤ length w'.buf
  pub nonempty : 0 < length w'.buf
  pub same_offset : w'.offset ≡ w.offset
  pub same_bytes : to_buffer w' ≡ to_buffer w

pub ensure_capacity-Ready :
    (needed : ℕ) (w : PacketWriter) → IsValid w → (w' : PacketWriter) × Ready needed w w'
unfolding ensure_capacity to_buffer
ensure_capacity-Ready needed w v = elim (Bool-cases (leb (w.offset + needed) (length w.buf))) [
  | inl enough ↦ (
    w,
    record {
      returned = rw enough;
      room = ground arith;
      nonempty = v.room;
      same_offset = refl;
      same_bytes = refl;
    },
  )
  | inr short ↦
      let target = w.offset + needed in
      let (n, e, reach, positive) =
        grow_size_total target (length w.buf * 2) target (omega (arith, v.room)) (omega arith) in
      let kept = length-take w.offset w.buf v.inside in
      let size : length (take w.offset w.buf ++ replicate (n - w.offset) 0) ≡ n =
        rw (length-append, length-replicate, kept) (omega arith) in
      (
        record w { buf = take w.offset w.buf ++ replicate (n - w.offset) 0 },
        record {
          returned = rw (short, e);
          room = omega (arith, size, reach);
          nonempty = omega (arith, size, positive);
          same_offset = refl;
          same_bytes = take-length_append w.offset _ _ (sym kept);
        },
      )
]

-- Laying bytes over the buffer appends them to what is written.
pub put_lem :
    (bs : List ℕ) (w : PacketWriter)
    → w.offset + length bs ≤ length w.buf
    → 0 < length w.buf
    → (w' : PacketWriter) × (put bs w ≡ ok w') × IsValid w' × (to_buffer w' ≡ to_buffer w ++ bs)
unfolding to_buffer
put_lem bs w h k =
    let front = take w.offset w.buf in
    let back = drop (w.offset + length bs) w.buf in
    let kept : length front ≡ w.offset = length-take w.offset w.buf (omega arith) in
    let size : length (front ++ (bs ++ back)) ≡ length w.buf =
      rw (length-append, length-append, length-drop) (omega (arith, kept)) in
    (
      record { buf = front ++ (bs ++ back); offset = w.offset + length bs },
      refl,
      record { room = omega (arith, size); inside = omega (arith, size) },
      rw (← append_assoc front bs back)
          (take-length_append _ _ _ (rw length-append (omega (arith, kept)))),
    )

-- A method that makes room for some bytes and then lays them down emits them.
pub Emits-put :
    (size : ℕ) (bs : List ℕ) {m k : Write}
    → length bs ≡ size
    → ((w : PacketWriter) → m w ≡ (ensure_capacity size w >>= k))
    → ((w : PacketWriter) → k w ≡ put bs w)
    → Emits m bs
Emits-put size bs len h j w v =
    let (w₁, r) = ensure_capacity-Ready size w v in
    let (w₂, e, v₂, t) = put_lem bs w₁ (rw len r.room) r.nonempty in
    (w₂, rw (h w, r.returned, j w₁) e, v₂, t ∙ ap (λ x. x ++ bs) r.same_bytes)
