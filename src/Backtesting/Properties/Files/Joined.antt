-- ===== src/Backtesting/Properties/Files/Joined.antt =====
-- Texts that are put together from fields, and cut into them again.
use hft_engine.Base.{
  ℕ, ◌≤◌, true, false, List, [], ◌∷◌, ◌++◌, ◌==◌, map, ◌≡◌, refl, All, All-append, arith,
  if◌then◌else◌,
}
use hft_engine.Fix.Bytes.{Bytes, is_empty}
use hft_engine.Fix.Bytes.Numbers.{DigitFirst, IsDigits}
use hft_engine.Backtesting.Files.{is_blank, trim_end, trim_start}
use hft_engine.Backtesting.Properties.Files.Pieces.{pieces}
use hft_engine.Backtesting.Properties.Files.Fields.{trimmed}

abbrev pub comma : ℕ
comma = b','

-- A byte that stays in its field when a line is cut and its fields are trimmed.
pub record IsPlain (b : ℕ) : Type 0 where
  pub no_comma : (b == comma) ≡ false
  pub no_newline : (b == 10) ≡ false
  pub no_blank : is_blank b ≡ false

digit-IsPlain : (b : ℕ) → 48 ≤ b → b ≤ 57 → IsPlain b
unfolding is_blank
digit-IsPlain b h k = record {
  no_comma = ground arith;
  no_newline = ground arith;
  no_blank = ground arith;
}

pub digits-ArePlain : (s : Bytes) → IsDigits s → All IsPlain s
digits-ArePlain [] h = tt
digits-ArePlain (b ∷ s) h = (digit-IsPlain b h.0.0 h.0.1, digits-ArePlain s h.1)

All-map : {P Q : ℕ → Type 0} (s : Bytes) → ((b : ℕ) → P b → Q b) → All P s → All Q s
All-map [] f h = tt
All-map (b ∷ s) f h = (f b h.0, All-map s f h.1)

-- The fields `fs` with a comma behind each, and the last one, `l`.
abbrev pub joined : List Bytes → Bytes → Bytes
joined [] l = l
joined (f ∷ fs) l = f ++ comma ∷ joined fs l

same : (n : ℕ) → (n == n) ≡ true
same n = ground arith

module _ (d : ℕ) where
  abbrev pub Lacks : Bytes → Type 0
  Lacks = All (λ b. (b == d) ≡ false)

  pub pieces-append : (s t : Bytes) → Lacks s → pieces d (s ++ d ∷ t) ≡ s ∷ pieces d t
  pieces-append [] t h = rw (same d) refl
  pieces-append (b ∷ s) t h = rw (h.0, pieces-append s t h.1) refl

  pieces_last : (b : ℕ) (s : Bytes) → Lacks (b ∷ s) → pieces d (b ∷ s) ≡ (b ∷ s) ∷ []
  pieces_last b [] h = rw h.0 refl
  pieces_last b (b' ∷ s) h = rw (h.0, pieces_last b' s h.1) refl

  pub pieces_one : (s : Bytes) → DigitFirst s → Lacks s → pieces d s ≡ s ∷ []
  pieces_one [] k h = absurd k
  pieces_one (b ∷ s) k h = pieces_last b s h

kept :
    (b : ℕ) (s : Bytes)
    → is_blank b ≡ false
    → (if is_empty s then (if is_blank b then [] else b ∷ []) else b ∷ s) ≡ b ∷ s
kept b [] h = rw h refl
kept b (b' ∷ s) h = refl

trim_end_plain : (s : Bytes) → All IsPlain s → trim_end s ≡ s
unfolding trim_end
trim_end_plain [] h = refl
trim_end_plain (b ∷ s) h = rw (trim_end_plain s h.1) (kept b s h.0.no_blank)

trim_start_plain : (s : Bytes) → All IsPlain s → trim_start s ≡ s
unfolding trim_start
trim_start_plain [] h = refl
trim_start_plain (b ∷ s) h = rw h.0.no_blank refl

trimmed_plain : (s : Bytes) → All IsPlain s → trimmed s ≡ s
trimmed_plain s h = rw (trim_end_plain s h) (trim_start_plain s h)

-- The pieces of the joined fields are the fields, and trimming does not change them.
pub fields_joined :
    (fs : List Bytes) (l : Bytes)
    → All (All IsPlain) fs
    → All IsPlain l
    → DigitFirst l
    → map trimmed (pieces comma (joined fs l)) ≡ fs ++ l ∷ []
fields_joined [] l h k e =
    rw (pieces_one comma l e (All-map l (λ b p. p.no_comma) k), trimmed_plain l k) refl
fields_joined (f ∷ fs) l h k e =
    rw
      (
        pieces-append comma f (joined fs l) (All-map f (λ b p. p.no_comma) h.0),
        trimmed_plain f h.0,
        fields_joined fs l h.1 k e,
      )
      refl

-- A joined line has no newline.
pub joined-Lacks :
    (fs : List Bytes) (l : Bytes) → All (All IsPlain) fs → All IsPlain l → Lacks 10 (joined fs l)
joined-Lacks [] l h k = All-map l (λ b p. p.no_newline) k
joined-Lacks (f ∷ fs) l h k =
    All-append (λ b. (b == 10) ≡ false) f (comma ∷ joined fs l)
      (All-map f (λ b p. p.no_newline) h.0) (refl, joined-Lacks fs l h.1 k)
