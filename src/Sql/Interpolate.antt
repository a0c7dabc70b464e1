-- ===== src/Sql/Interpolate.antt =====
-- The placeholders of a text, and the loop of interpolateParams on them.
use cubrid_client.Base.{
  ℕ, suc, ◌≤◌, ◌<◌, ◌≡◌, refl, arith, List, [], ◌∷◌, ◌++◌, Option, some, none, length, ◌⊎◌, inl,
  inr,
}
use cubrid_client.Failure.{Result, ok, fail, error}
use cubrid_client.Param.{Param}
use cubrid_client.Sql.Scan.{
  Mode, plain, single_quoted, double_quoted, block_comment, line_comment, Move, one, two,
  placeholder, move, emit, substitute, scan,
}

-- The placeholders of a text that starts in a mode.
unfoldable pub placeholders : Mode → List ℕ → ℕ
placeholders mode [] = 0
placeholders mode (ch ∷ []) = elim (move mode ch none) [ placeholder ↦ 1 | _ ↦ 0 ]
placeholders mode (ch ∷ next ∷ rest) = elim (move mode ch (some next)) [
  | one m ↦ placeholders m (next ∷ rest)
  | two m ↦ placeholders m rest
  | placeholder ↦ suc (placeholders plain (next ∷ rest))
]

Move-cases :
    (v : Move) → ((m : Mode) × (v ≡ one m)) ⊎ (((m : Mode) × (v ≡ two m)) ⊎ (v ≡ placeholder))
Move-cases (one m) = inl (m, refl)
Move-cases (two m) = inr (inl (m, refl))
Move-cases placeholder = inr (inr refl)

move-placeholder :
    (mode : Mode) (ch : ℕ) (next : Option ℕ) → move mode ch next ≡ placeholder → ch ≡ b'?'
unfolding move
move-placeholder plain ch next h = ground arith
move-placeholder single_quoted ch next h = ground arith
move-placeholder double_quoted ch next h = ground arith
move-placeholder block_comment ch next h = ground arith
move-placeholder line_comment ch next h = ground arith

-- With no fewer parameters than placeholders, and a `?` put in for every parameter, the scan gives
-- the text back.
pub scan_restores :
    (mode : Mode) (sql : List ℕ) (params : List Param)
    → placeholders mode sql ≤ length params
    → scan (λ _. ok (b'?' ∷ [])) mode sql params ≡ ok sql
unfolding scan placeholders
scan_restores mode [] params h = refl
scan_restores mode (ch ∷ []) params h = elim (Move-cases (move mode ch none)) [
  | inl (m, e) ↦ rw (e, scan)
  | inr (inl (m, e)) ↦ rw (e, scan)
  | inr (inr e) ↦
      rw (e, scan, move-placeholder mode ch none e) (one_left params (rw (e, placeholders) at h))
]
  where
    one_left :
        (ps : List Param)
        → 1 ≤ length ps
        → substitute (λ _. ok (b'?' ∷ [])) ps (λ _. ok []) ≡ ok (b'?' ∷ [])
    one_left [] k = absurd (omega arith)
    one_left (p ∷ ps) k = refl
scan_restores mode (ch ∷ next ∷ rest) params h = elim (Move-cases (move mode ch (some next))) [
  | inl (m, e) ↦ rw (e, scan, scan_restores m (next ∷ rest) params (rw (e, placeholders) at h))
  | inr (inl (m, e)) ↦ rw (e, scan, scan_restores m rest params (rw (e, placeholders) at h))
  | inr (inr e) ↦
      rw (e, scan, move-placeholder mode ch (some next) e)
        (more_left params (rw (e, placeholders) at h) (scan_restores plain (next ∷ rest)))
]
  where
    more_left :
        (ps : List Param)
        → suc (placeholders plain (next ∷ rest)) ≤ length ps
        → ((qs : List Param)
            → placeholders plain (next ∷ rest) ≤ length qs
            → scan (λ _. ok (b'?' ∷ [])) plain (next ∷ rest) qs ≡ ok (next ∷ rest))
        → substitute (λ _. ok (b'?' ∷ [])) ps (scan (λ _. ok (b'?' ∷ [])) plain (next ∷ rest))
          ≡ ok (b'?' ∷ next ∷ rest)
    more_left [] k ih = absurd (omega arith)
    more_left (p ∷ ps) k ih = rw (ih ps (omega arith))

-- A formatter that has a text for every parameter.
abbrev pub Formats : (Param → Result (List ℕ)) → Type 0
Formats format = (p : Param) → (s : List ℕ) × (format p ≡ ok s)

abbrev pub Succeeds : Result (List ℕ) → Type 0
Succeeds r = (out : List ℕ) × (r ≡ ok out)

module _ (format : Param → Result (List ℕ)) (total : Formats format) where
  emit-Succeeds : (front : List ℕ) (r : Result (List ℕ)) → Succeeds r → Succeeds (emit front r)
  emit-Succeeds front r (out, e) = (front ++ out, rw e)

  substitute-Succeeds :
      (n : ℕ) (params : List Param) (rest : List Param → Result (List ℕ))
      → suc n ≤ length params
      → ((ps : List Param) → n ≤ length ps → Succeeds (rest ps))
      → Succeeds (substitute format params rest)
  substitute-Succeeds n [] rest h k = absurd (omega arith)
  substitute-Succeeds n (p ∷ ps) rest h k =
      let (s, e) = total p in
      let (out, e') = emit-Succeeds s (rest ps) (k ps (omega arith)) in (out, rw e e')

  -- With a formatter that has a text for every parameter, and no fewer parameters than
  -- placeholders, the scan returns a text.
  pub scan-Succeeds :
      (mode : Mode) (sql : List ℕ) (params : List Param)
      → placeholders mode sql ≤ length params
      → Succeeds (scan format mode sql params)
  unfolding scan placeholders
  scan-Succeeds mode [] params h = ([], refl)
  scan-Succeeds mode (ch ∷ []) params h = elim (Move-cases (move mode ch none)) [
    | inl (m, e) ↦ (ch ∷ [], rw (e, scan))
    | inr (inl (m, e)) ↦ (ch ∷ [], rw (e, scan))
    | inr (inr e) ↦
        rw (e, scan)
          (substitute-Succeeds 0 params (λ _. ok []) (rw (e, placeholders) at h)
            (λ _ _. ([], refl)))
  ]
  scan-Succeeds mode (ch ∷ next ∷ rest) params h = elim (Move-cases (move mode ch (some next))) [
    | inl (m, e) ↦
        rw (e, scan)
          (emit-Succeeds (ch ∷ []) _
            (scan-Succeeds m (next ∷ rest) params (rw (e, placeholders) at h)))
    | inr (inl (m, e)) ↦
        rw (e, scan)
          (emit-Succeeds (ch ∷ next ∷ []) _
            (scan-Succeeds m rest params (rw (e, placeholders) at h)))
    | inr (inr e) ↦
        rw (e, scan)
          (substitute-Succeeds (placeholders plain (next ∷ rest)) params _
            (rw (e, placeholders) at h) (scan-Succeeds plain (next ∷ rest)))
  ]

  substitute_short :
      (n : ℕ) (params : List Param) (rest : List Param → Result (List ℕ))
      → length params < suc n
      → ((ps : List Param) → length ps < n → rest ps ≡ fail error)
      → substitute format params rest ≡ fail error
  substitute_short n [] rest h k = refl
  substitute_short n (p ∷ ps) rest h k = let (s, e) = total p in rw (e, k ps (omega arith))

  -- With a formatter that has a text for every parameter, and fewer parameters than placeholders,
  -- the scan throws.
  pub scan_short :
      (mode : Mode) (sql : List ℕ) (params : List Param)
      → length params < placeholders mode sql
      → scan format mode sql params ≡ fail error
  unfolding scan placeholders
  scan_short mode [] params h = absurd (omega arith)
  scan_short mode (ch ∷ []) params h = elim (Move-cases (move mode ch none)) [
    | inl (m, e) ↦ absurd (impossible (rw (e, placeholders) at h))
    | inr (inl (m, e)) ↦ absurd (impossible (rw (e, placeholders) at h))
    | inr (inr e) ↦
        rw (e, scan)
          (substitute_short 0 params _ (rw (e, placeholders) at h) (λ _ k. absurd (impossible k)))
  ]
    where
      impossible : {n : ℕ} → n < 0 → ⊥
      impossible k = omega arith
  scan_short mode (ch ∷ next ∷ rest) params h = elim (Move-cases (move mode ch (some next))) [
    | inl (m, e) ↦ rw (e, scan, scan_short m (next ∷ rest) params (rw (e, placeholders) at h))
    | inr (inl (m, e)) ↦ rw (e, scan, scan_short m rest params (rw (e, placeholders) at h))
    | inr (inr e) ↦
        rw (e, scan)
          (substitute_short (placeholders plain (next ∷ rest)) params _ (rw (e, placeholders) at h)
            (scan_short plain (next ∷ rest)))
  ]
