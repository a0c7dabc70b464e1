-- ===== src/Where/Placeholders.antt =====
-- The placeholders of a clause that buildWhere returns, as interpolateParams finds them.
use cubrid_client.Base.{
  ℕ, suc, ◌≡◌, refl, sym, ap, ◌∙◌, arith, append-nil, Bool, true, not, ◌&&◌, List, [], ◌∷◌, ◌++◌,
  append_assoc, ◌==◌, Option, some, none, length, All, Bool-cases, inl, inr,
}
use cubrid_client.Sql.Scan.{plain, one, move}
use cubrid_client.Sql.Interpolate.{placeholders}
use cubrid_client.Where.{
  double_brackets, escape_identifier, is_null, and_word, where_word, suffix, join_conditions,
  and_param, params_of, build_where,
}

-- A character that opens no quote and no comment, and is no placeholder.
abbrev pub is_neutral : ℕ → Bool
is_neutral c =
    not (c == b'?')
    && (not (c == b'\'') && (not (c == b'"') && (not (c == b'/') && not (c == b'-'))))

abbrev pub AllNeutral : List ℕ → Type 0
AllNeutral cs = All (λ c. is_neutral c ≡ true) cs

neutral_move : (c : ℕ) (next : Option ℕ) → is_neutral c ≡ true → move plain c next ≡ one plain
unfolding move
neutral_move c next h = ground arith

neutral_head :
    (c : ℕ) (t : List ℕ) → is_neutral c ≡ true → placeholders plain (c ∷ t) ≡ placeholders plain t
unfolding placeholders
neutral_head c [] h = rw (placeholders, neutral_move c none h) refl
neutral_head c (d ∷ t) h = rw (placeholders, neutral_move c (some d) h) refl

neutral_run : (cs t : List ℕ) → AllNeutral cs → placeholders plain (cs ++ t) ≡ placeholders plain t
neutral_run [] t h = refl
neutral_run (c ∷ cs) t h = neutral_head c (cs ++ t) h.0 ∙ neutral_run cs t h.1

double_brackets-AllNeutral : (cs : List ℕ) → AllNeutral cs → AllNeutral (double_brackets cs)
unfolding double_brackets
double_brackets-AllNeutral [] h = tt
double_brackets-AllNeutral (c ∷ cs) h = elim (Bool-cases (c == b']')) [
  | inl e ↦ rw e (refl, (refl, double_brackets-AllNeutral cs h.1))
  | inr e ↦ rw e (h.0, double_brackets-AllNeutral cs h.1)
]

name_run :
    (name t : List ℕ)
    → AllNeutral name
    → placeholders plain (escape_identifier name ++ t) ≡ placeholders plain t
unfolding escape_identifier
name_run name t h =
    neutral_head b'[' ((double_brackets name ++ (b']' ∷ [])) ++ t) refl
    ∙ ap (placeholders plain) (append_assoc (double_brackets name) (b']' ∷ []) t)
    ∙ neutral_run (double_brackets name) (b']' ∷ t) (double_brackets-AllNeutral name h)
    ∙ neutral_head b']' t refl

mark : (t : List ℕ) → placeholders plain (b'?' ∷ t) ≡ suc (placeholders plain t)
unfolding placeholders move
mark [] = refl
mark (c ∷ t) = refl

nothing : placeholders plain [] ≡ 0
unfolding placeholders
nothing = refl

module _ {A : Type 0} where
  suffix_run :
      (value : Option A) (t : List ℕ) (params : List A)
      → placeholders plain t ≡ length params
      → placeholders plain (suffix value ++ t) ≡ length (and_param value params)
  suffix_run none t params h =
      neutral_run is_null t (refl, (refl, (refl, (refl, (refl, (refl, (refl, (refl, tt)))))))) ∙ h
  suffix_run (some v) t params h =
      neutral_run (b' ' ∷ b'=' ∷ b' ' ∷ []) (b'?' ∷ t) (refl, (refl, (refl, tt)))
      ∙ mark t
      ∙ ap suc h

  conditions_run :
      (key : List ℕ) (value : Option A) (rest : List (List ℕ × Option A))
      → AllNeutral key
      → All (λ e. AllNeutral e.0) rest
      → placeholders plain (join_conditions ((key, value) ∷ rest))
        ≡ length (params_of ((key, value) ∷ rest))
  unfolding join_conditions params_of
  conditions_run key value [] h k =
      name_run key (suffix value) h
      ∙ ap (placeholders plain) (sym (append-nil (suffix value)))
      ∙ suffix_run value [] [] nothing
  conditions_run key value ((name, v) ∷ rest) h k =
      name_run key (suffix value ++ (and_word ++ join_conditions ((name, v) ∷ rest))) h
      ∙ suffix_run value (and_word ++ join_conditions ((name, v) ∷ rest))
          (params_of ((name, v) ∷ rest))
          (neutral_run and_word (join_conditions ((name, v) ∷ rest))
              (refl, (refl, (refl, (refl, (refl, tt)))))
            ∙ conditions_run name v rest k.0 k.1)

  -- For names without a question mark, a quote, a slash or a dash: interpolateParams finds in the
  -- clause of buildWhere exactly as many placeholders as there are parameters, also where a name has
  -- brackets, and none for a null.
  pub build_where-placeholders :
      (entries : List (List ℕ × Option A))
      → All (λ e. AllNeutral e.0) entries
      → placeholders plain (build_where entries).0 ≡ length (build_where entries).1
  unfolding build_where
  build_where-placeholders [] h = nothing
  build_where-placeholders ((key, value) ∷ rest) h =
      neutral_run where_word (join_conditions ((key, value) ∷ rest))
        (refl, (refl, (refl, (refl, (refl, (refl, tt))))))
      ∙ conditions_run key value rest h.0 h.1
