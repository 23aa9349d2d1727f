-- ===== src/Backtesting/Properties/Files/Reading.antt =====
-- What CSVMarketDataParser::read_next_tick yields of a text, against its lines.
use hft_engine.Base.{
  ℕ, zero, suc, ◌<◌, true, Option, none, some, List, [], ◌∷◌, length, ◌>>=◌, ◌≡◌, refl, sym, ap,
  ◌∙◌, inl, inr, arith, List-cases, Option-cases,
}
use hft_engine.Base.Words.{wadd}
use hft_engine.Core.{Core}
use hft_engine.Fix.Bytes.{Bytes}
use hft_engine.Analytics.Calculator.{size_mod}
use hft_engine.Backtesting.Ticks.{HistoricalTick}
use hft_engine.Backtesting.Files.{Reader, up_to, left_over}
use hft_engine.Backtesting.Files.Csv.{
  CsvFormat, CsvParser, newline, tick_of_line, read_next_tick, read_ticks,
}
use hft_engine.Backtesting.Properties.Files.Pieces.{
  pieces, first_line, shorter, Ready, left-Ready, left-unread, getline_end, getline_line,
}

pub taken : {A : Type 0} {x y : A} → some x ≡ some y → x ≡ y
taken h = cc

module _ {A : Type 0} where
  chained :
      (o : Option (List A)) (x : A) (xs : List A)
      → (o >>= λ ys. some (x ∷ ys)) ≡ some xs
      → (ys : List A) × (o ≡ some ys) × (x ∷ ys ≡ xs)
  chained none x xs h = absurd (cc)
  chained (some ys) x xs h = (ys, refl, taken h)

module _ (c : Core) (r : Reader c) where
  -- The ticks of the longest prefix of the lines that are ticks; `n` lines are counted already.
  abbrev pub ticks_of_lines :
      CsvFormat
      → c.Symbol
      → HistoricalTick c
      → (ℕ → c.TimePoint)
      → ℕ
      → List Bytes
      → List (HistoricalTick c)
  ticks_of_lines f default_symbol t clock n [] = []
  ticks_of_lines f default_symbol t clock n (l ∷ ls) =
      let n' = wadd size_mod n 1 in
      elim (tick_of_line c r f default_symbol t l n' (clock n')) [
        | none ↦ []
        | some t' ↦ t' ∷ ticks_of_lines f default_symbol t' clock n' ls
      ]

  abbrev ticks_of_parser :
      CsvParser c → HistoricalTick c → (ℕ → c.TimePoint) → List (HistoricalTick c)
  ticks_of_parser p t clock =
      ticks_of_lines p.format p.default_symbol t clock p.line_number (pieces newline p.file.unread)

  read_none :
      (fuel : ℕ) (p : CsvParser c) (t : HistoricalTick c) (clock : ℕ → c.TimePoint)
      → (read_next_tick c r p t clock).0 ≡ none
      → read_ticks c r (suc fuel) p t clock ≡ some []
  unfolding read_ticks
  read_none fuel p t clock h = rw (read_ticks, h) refl

  read_step :
      (fuel : ℕ) (p : CsvParser c) (t : HistoricalTick c) (clock : ℕ → c.TimePoint)
      → (t' : HistoricalTick c) → (read_next_tick c r p t clock).0 ≡ some t'
      → read_ticks c r (suc fuel) p t clock
        ≡ (read_ticks c r fuel (read_next_tick c r p t clock).1 t' clock >>= λ ts. some (t' ∷ ts))
  unfolding read_ticks
  read_step fuel p t clock t' h = rw (read_ticks, h) refl

  read_some :
      (fuel : ℕ) (p : CsvParser c) (t : HistoricalTick c) (clock : ℕ → c.TimePoint)
      → (t' : HistoricalTick c) → (p' : CsvParser c) → (ts : List (HistoricalTick c))
      → read_next_tick c r p t clock ≡ (some t', p')
      → read_ticks c r fuel p' t' clock ≡ some ts
      → read_ticks c r (suc fuel) p t clock ≡ some (t' ∷ ts)
  read_some fuel p t clock t' p' ts h k =
      read_step fuel p t clock t' (ap (λ x. x.0) h) ∙ rw (ap (λ x. x.1) h, k) refl

  -- What the loop has read of a parser that yields no tick, and of one that yields a tick.
  pub read_nothing :
      (fuel : ℕ) (p : CsvParser c) (t : HistoricalTick c) (clock : ℕ → c.TimePoint)
      → (ts : List (HistoricalTick c)) → (read_next_tick c r p t clock).0 ≡ none
      → read_ticks c r (suc fuel) p t clock ≡ some ts
      → [] ≡ ts
  read_nothing fuel p t clock ts h k = taken (sym (read_none fuel p t clock h) ∙ k)

  pub read_more :
      (fuel : ℕ) (p : CsvParser c) (t : HistoricalTick c) (clock : ℕ → c.TimePoint)
      → (t' : HistoricalTick c) → (ts : List (HistoricalTick c))
      → (read_next_tick c r p t clock).0 ≡ some t'
      → read_ticks c r (suc fuel) p t clock ≡ some ts
      → (ts' : List (HistoricalTick c)) × (read_ticks c r fuel
            (read_next_tick c r p t clock).1
            t'
            clock
          ≡ some ts')
        × (t' ∷ ts' ≡ ts)
  read_more fuel p t clock t' ts h k =
      chained (read_ticks c r fuel (read_next_tick c r p t clock).1 t' clock) t' ts
        (sym (read_step fuel p t clock t' h) ∙ k)

  next_end :
      (p : CsvParser c) (t : HistoricalTick c) (clock : ℕ → c.TimePoint)
      → p.file.unread ≡ []
      → (read_next_tick c r p t clock).0 ≡ none
  unfolding read_next_tick
  next_end p t clock h = rw (read_next_tick, getline_end newline p.file h) refl

  abbrev counted : CsvParser c → Option Bytes → CsvParser c
  counted p rest = record p {
    file = left_over p.file rest;
    line_number = wadd size_mod p.line_number 1;
  }

  next_line :
      (p : CsvParser c) (t : HistoricalTick c) (clock : ℕ → c.TimePoint) (b : ℕ) (s : Bytes)
      → p.file.good ≡ true
      → p.file.unread ≡ b ∷ s
      → read_next_tick c r p t clock ≡ (
        tick_of_line c r p.format p.default_symbol t
            (up_to newline (b ∷ s)).0
            (wadd size_mod p.line_number 1)
            (clock (wadd size_mod p.line_number 1)),
        counted p (up_to newline (b ∷ s)).1,
      )
  unfolding read_next_tick
  next_line p t clock b s g h =
      rw
        (
          read_next_tick,
          ap (λ x. x.0) (getline_line newline p.file b s g h),
          ap (λ x. x.1) (getline_line newline p.file b s g h),
        )
        refl

  -- The loop reads the ticks of the longest prefix of the lines that are ticks, and a line that is
  -- none ends it: fuel beyond the length of the text is enough.
  pub read_ticks_lem :
      (fuel : ℕ) (p : CsvParser c) (t : HistoricalTick c) (clock : ℕ → c.TimePoint)
      → Ready p.file
      → length p.file.unread < fuel
      → read_ticks c r fuel p t clock ≡ some (ticks_of_parser p t clock)
  read_ticks_lem zero p t clock k h = absurd (omega (arith, h))
  read_ticks_lem (suc fuel) p t clock k h = elim (List-cases p.file.unread) [
    | inl e ↦ read_none fuel p t clock (next_end p t clock e) ∙ rw e refl
    | inr (b, s, e) ↦ elim k [
      | inr e' ↦ absurd (cc)
      | inl g ↦
          elim (Option-cases (
            tick_of_line c r p.format p.default_symbol t (up_to newline (b ∷ s)).0
              (wadd size_mod p.line_number 1) (clock (wadd size_mod p.line_number 1)))) [
                | inl n ↦
                    read_none fuel p t clock (ap (λ x. x.0) (next_line p t clock b s g e) ∙ n)
                    ∙ rw (e, first_line newline b s, ticks_of_lines, n) refl
                | inr (t', n) ↦
                    let rest = (up_to newline (b ∷ s)).1 in
                    read_some fuel p t clock t' (counted p rest)
                      (ticks_of_parser (counted p rest) t' clock)
                      (next_line p t clock b s g e ∙ ap (λ x. (x, counted p rest)) n)
                      (read_ticks_lem fuel (counted p rest) t' clock (left-Ready p.file rest g) (
                        omega (
                          arith,
                          h,
                          shorter newline b s,
                          ap length e,
                          ap length (left-unread p.file rest),
                        )))
                    ∙ rw (left-unread p.file rest, e, first_line newline b s, ticks_of_lines, n)
                        refl
              ]
    ]
  ]
