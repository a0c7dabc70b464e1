-- ===== src/Tests/Frames.antt =====
-- Runs of recvExact and readFrame on chunks that cut a frame in its length word and in its body.
use cubrid_client.Base.{ℕ, ◌≡◌, refl, arith, List, [], ◌∷◌, ◌++◌}
use cubrid_client.Frame.{resolved, read_frame}
use cubrid_client.Buffer.{be_bytes, word, signed, be_value}
use cubrid_client.Frame.Chunks.{joined, chunks}
use cubrid_client.Frame.Framing.{read_frame-Splits}

-- A body of one byte behind its CAS_INFO, and a byte of the next frame.
abbrev first_bytes : List ℕ
first_bytes = 0 ∷ 0 ∷ []

abbrev cut : List (List ℕ)
cut = (0 ∷ 1 ∷ 9 ∷ 9 ∷ []) ∷ (9 ∷ 9 ∷ 7 ∷ 5 ∷ []) ∷ []

reads_frame :
    read_frame 1024 first_bytes (chunks cut) ≡ resolved (9 ∷ 9 ∷ 9 ∷ 9 ∷ 7 ∷ []) (5 ∷ []) []
unfolding read_frame signed be_value
reads_frame = refl

read_frame-Splits_example :
    (rest : List ℕ) × (later : List (List ℕ)) × (read_frame 1024 first_bytes (chunks cut)
      ≡ resolved (9 ∷ 9 ∷ 9 ∷ 9 ∷ 7 ∷ []) rest (chunks later))
    × (rest ++ joined later ≡ 5 ∷ [])
unfolding be_bytes word
read_frame-Splits_example =
    read_frame-Splits 1024 (9 ∷ 9 ∷ 9 ∷ 9 ∷ 7 ∷ []) (5 ∷ []) first_bytes cut 1 (omega arith)
      (omega arith) refl refl
