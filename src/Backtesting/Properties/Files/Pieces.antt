-- ===== src/Backtesting/Properties/Files/Pieces.antt =====
-- The pieces of a text between delimiters, against std::getline.
use hft_engine.Base.{
  ap, ◌∙◌, ℕ, ◌≤◌, Bool, true, false, Option, none, some, List, [], ◌∷◌, ◌==◌, length,
  if◌then◌else◌, ◌≡◌, refl, ap, ◌⊎◌, inl, inr, arith, Bool-cases,
}
use hft_engine.Fix.Bytes.{Bytes}
use hft_engine.Backtesting.Files.{Stream, up_to, left_over, getline}

-- A byte in front of the first piece.
abbrev glue : ℕ → List Bytes → List Bytes
glue b [] = (b ∷ []) ∷ []
glue b (l ∷ ls) = (b ∷ l) ∷ ls

abbrev pub remaining : Option Bytes → Bytes
remaining none = []
remaining (some s) = s

-- One byte of up_to, by whether it is the delimiter.
abbrev pick : Bool → ℕ → Bytes → Bytes × Option Bytes → Bytes × Option Bytes
pick x b s u = if x then ([], some s) else (b ∷ u.0, u.1)

pick_shorter :
    (x : Bool) (b : ℕ) (s : Bytes) (u : Bytes × Option Bytes)
    → length (remaining u.1) ≤ length s
    → length (remaining (pick x b s u).1) ≤ length s
pick_shorter true b s u h = omega arith
pick_shorter false b s u h = h

-- A stream from which getline takes what `pieces` says.
abbrev pub Ready : Stream → Type 0
Ready f = (f.good ≡ true) ⊎ (f.unread ≡ [])

pub left-Ready : (f : Stream) (u : Option Bytes) → f.good ≡ true → Ready (left_over f u)
unfolding left_over
left-Ready f none h = inr refl
left-Ready f (some s) h = inl h

pub left-unread : (f : Stream) (u : Option Bytes) → (left_over f u).unread ≡ remaining u
unfolding left_over
left-unread f none = refl
left-unread f (some s) = refl

-- The pieces behind the first one.
abbrev pub behind_first : List Bytes → List Bytes
behind_first [] = []
behind_first (l ∷ ls) = ls

module _ (d : ℕ) where
  -- The pieces of a text between the delimiters; the last one may lack its delimiter.
  abbrev pub pieces : Bytes → List Bytes
  pieces [] = []
  pieces (b ∷ s) = let more = pieces s in if b == d then [] ∷ more else glue b more

  pick_line :
      (x : Bool) (b : ℕ) (s : Bytes) (u : Bytes × Option Bytes)
      → pieces s ≡ u.0 ∷ pieces (remaining u.1)
      → (if x then [] ∷ pieces s else glue b (pieces s))
        ≡ (pick x b s u).0 ∷ pieces (remaining (pick x b s u).1)
  pick_line true b s u h = refl
  pick_line false b s u h = ap (glue b) h

  pick_end :
      (x : Bool) (b : ℕ)
      → (if x then [] ∷ [] else glue b [])
        ≡ (pick x b [] ([], none)).0 ∷ pieces (remaining (pick x b [] ([], none)).1)
  pick_end true b = refl
  pick_end false b = refl

  pub first_line :
      (b : ℕ) (s : Bytes)
      → pieces (b ∷ s) ≡ (up_to d (b ∷ s)).0 ∷ pieces (remaining (up_to d (b ∷ s)).1)
  unfolding up_to
  first_line b [] = pick_end (b == d) b
  first_line b (b' ∷ s) = pick_line (b == d) b (b' ∷ s) (up_to d (b' ∷ s)) (first_line b' s)

  -- What is behind the first piece is shorter than the text.
  pub shorter : (b : ℕ) (s : Bytes) → length (remaining (up_to d (b ∷ s)).1) ≤ length s
  unfolding up_to
  shorter b [] = pick_shorter (b == d) b [] ([], none) (omega arith)
  shorter b (b' ∷ s) =
      pick_shorter (b == d) b (b' ∷ s) (up_to d (b' ∷ s)) (omega (arith, shorter b' s))

  pub getline_end : (f : Stream) → f.unread ≡ [] → (getline d f).0 ≡ none
  unfolding getline
  getline_end f h = elim (Bool-cases f.good) [ inl g ↦ rw (h, g) refl | inr g ↦ rw (h, g) refl ]

  pub getline_line :
      (f : Stream) (b : ℕ) (s : Bytes)
      → f.good ≡ true
      → f.unread ≡ b ∷ s
      → getline d f ≡ (some (up_to d (b ∷ s)).0, left_over f (up_to d (b ∷ s)).1)
  unfolding getline
  getline_line f b s g h = rw (g, h) refl

  -- What getline leaves of a stream that is good.
  pub record IsSkipped (f g : Stream) : Type 0 where
    pub rest : pieces g.unread ≡ behind_first (pieces f.unread)
    pub ready : Ready g
    pub fewer : length g.unread ≤ length f.unread

  rest_lines : (s : Bytes) → pieces (remaining (up_to d s).1) ≡ behind_first (pieces s)
  unfolding up_to
  rest_lines [] = refl
  rest_lines (b ∷ s) = rw (first_line b s) refl

  rest_shorter : (s : Bytes) → length (remaining (up_to d s).1) ≤ length s
  unfolding up_to
  rest_shorter [] = omega arith
  rest_shorter (b ∷ s) = omega (arith, shorter b s)

  getline_left : (f : Stream) → f.good ≡ true → (getline d f).1 ≡ left_over f (up_to d f.unread).1
  unfolding getline
  getline_left f g = rw g refl

  pub getline-IsSkipped : (f : Stream) → f.good ≡ true → IsSkipped f (getline d f).1
  getline-IsSkipped f g =
      let u = (up_to d f.unread).1 in
      rw (getline_left f g) (record {
        rest = ap pieces (left-unread f u) ∙ rest_lines f.unread;
        ready = left-Ready f u g;
        fewer = omega (arith, ap length (left-unread f u), rest_shorter f.unread);
      })
