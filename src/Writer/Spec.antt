-- ===== src/Writer/Spec.antt =====
-- The abstract view of a writer: the bytes written so far. A method emits bytes when, on every
-- well-formed writer, it returns one that is well formed and has those bytes appended.
use cubrid_client.Base.{
  ℕ, ◌≤◌, ◌<◌, ◌≡◌, ◌∙◌, ap, arith, List, ◌++◌, append_assoc, length, length-replicate,
}
use cubrid_client.Failure.{ok}
use cubrid_client.Writer.{PacketWriter, Write, ◌>>◌, to_buffer, build, new_writer}

pub record IsValid (w : PacketWriter) : Type 0 where
  pub room : 0 < length w.buf
  pub inside : w.offset ≤ length w.buf

abbrev pub Emits : Write → List ℕ → Type 0
Emits m bs =
    (w : PacketWriter)
    → IsValid w
    → (w' : PacketWriter) × (m w ≡ ok w') × IsValid w' × (to_buffer w' ≡ to_buffer w ++ bs)

pub Emits-then : {m k : Write} (a b : List ℕ) → Emits m a → Emits k b → Emits (m >> k) (a ++ b)
Emits-then a b h j w v =
    let (w₁, e₁, v₁, t₁) = h w v in
    let (w₂, e₂, v₂, t₂) = j w₁ v₁ in
    (w₂, rw e₁ e₂, v₂, t₂ ∙ ap (λ t. t ++ b) t₁ ∙ append_assoc (to_buffer w) a b)

pub build-Emits :
    (capacity : ℕ) {m : Write} (bs : List ℕ) → 0 < capacity → Emits m bs → build capacity m ≡ ok bs
unfolding build to_buffer new_writer
build-Emits capacity bs h j =
    let start = new_writer capacity in
    let (w, e, v, t) = j start (record { room = rw length-replicate h; inside = omega arith }) in
    rw e (ap ok t)
