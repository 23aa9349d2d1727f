-- ===== src/Backtesting/Properties/Files/Fields.antt =====
-- The fields that CSVMarketDataParser::parse_csv_line makes of a line.
use hft_engine.Base.{
  ℕ, zero, suc, ◌≤◌, true, none, some, List, [], ◌∷◌, map, length, ◌≡◌, refl, ap, ◌∙◌, inl, inr,
  arith, List-cases,
}
use hft_engine.Fix.Bytes.{Bytes}
use hft_engine.Backtesting.Files.{Stream, getline, up_to, left_over, trim_end, trim_start}
use hft_engine.Backtesting.Files.Csv.{CsvFormat, fields_from, parse_csv_line}
use hft_engine.Backtesting.Properties.Files.Pieces.{
  pieces, first_line, shorter, Ready, left-Ready, left-unread, getline_end, getline_line,
}

abbrev pub trimmed : Bytes → Bytes
trimmed s = trim_start (trim_end s)

module _ (d : ℕ) where
  fields_end : (fuel : ℕ) (ss : Stream) → (getline d ss).0 ≡ none → fields_from d fuel ss ≡ []
  unfolding fields_from
  fields_end zero ss h = refl
  fields_end (suc fuel) ss h = rw (fields_from, h) refl

  fields_more :
      (fuel : ℕ) (ss ss' : Stream) (s : Bytes) (fs : List Bytes)
      → getline d ss ≡ (some s, ss')
      → fields_from d fuel ss' ≡ fs
      → fields_from d (suc fuel) ss ≡ trimmed s ∷ fs
  unfolding fields_from
  fields_more fuel ss ss' s fs h k = rw (fields_from, ap (λ x. x.0) h, ap (λ x. x.1) h, k) refl

  -- The fields are the pieces of the text: as much fuel as it has bytes is enough.
  fields_from_lem :
      (fuel : ℕ) (ss : Stream)
      → Ready ss
      → length ss.unread ≤ fuel
      → fields_from d fuel ss ≡ map trimmed (pieces d ss.unread)
  fields_from_lem zero ss k h = elim (List-cases ss.unread) [
    | inl e ↦ fields_end zero ss (getline_end d ss e) ∙ rw e refl
    | inr (b, s, e) ↦ absurd (omega (arith, h, ap length e))
  ]
  fields_from_lem (suc fuel) ss k h = elim (List-cases ss.unread) [
    | inl e ↦ fields_end (suc fuel) ss (getline_end d ss e) ∙ rw e refl
    | inr (b, s, e) ↦ elim k [
      | inr e' ↦ absurd (cc)
      | inl g ↦
          let rest = (up_to d (b ∷ s)).1 in
          fields_more fuel ss (left_over ss rest) (up_to d (b ∷ s)).0
            (map trimmed (pieces d (left_over ss rest).unread)) (getline_line d ss b s g e)
            (fields_from_lem fuel (left_over ss rest) (left-Ready ss rest g)
              (omega (arith, h, shorter d b s, ap length e, ap length (left-unread ss rest))))
          ∙ rw (left-unread ss rest, e, first_line d b s) refl
    ]
  ]

pub parse_csv_line_lem :
    (f : CsvFormat) (line : Bytes) → parse_csv_line f line ≡ map trimmed (pieces f.delimiter line)
unfolding parse_csv_line
parse_csv_line_lem f line =
    fields_from_lem f.delimiter (length line)
      (record { unread = line; good = true; is_open = true }) (inl refl) (omega arith)
