-- ===== src/Backtesting/Properties/Files/Reread.antt =====
-- The records of a binary file, as BinaryMarketDataParser reads them.
use mathlib.Core.Path.{subst}
use hft_engine.Base.{
  ℕ, zero, suc, ◌+◌, ◌*◌, ◌<◌, ◌≤◌, Bool, true, false, Option, none, some, List, [], ◌∷◌, ltb,
  length, map, if◌then◌else◌, ◌>>=◌, ◌≡◌, refl, ap, inl, inr, arith, Option-cases, All,
}
use hft_engine.Base.Words.{wadd}
use hft_engine.Core.{Core}
use hft_engine.Fix.Bytes.{Bytes}
use hft_engine.Analytics.Calculator.{size_mod}
use hft_engine.Backtesting.Ticks.{HistoricalTick, complete_tick}
use hft_engine.Backtesting.Files.{Reader}
use hft_engine.Backtesting.Files.Csv.{CsvFormat, parse_csv_line, tick_of_line, read_columns}
use hft_engine.Backtesting.Files.Binary.{
  BinaryTick, BinaryHeader, BinaryParser, pack, unpack, read_binary_tick, read_binary_ticks,
}
use hft_engine.Backtesting.Properties.Files.Reading.{taken, ticks_of_lines}

module _ (c : Core) where
  abbrev pub relabel : c.Symbol → HistoricalTick c → HistoricalTick c
  relabel symbol t = record t { symbol = symbol }

module _ (c : Core) (r : Reader c) where
  unpack-pack :
      (t u : HistoricalTick c) (h : BinaryHeader)
      → ((x : c.TimePoint) → r.time_of_ns (r.ns_of x) ≡ x)
      → complete_tick c t ≡ t
      → unpack c r u h (pack c r t) ≡ relabel c (r.symbol_of h.symbol) t
  unfolding unpack pack complete_tick
  unpack-pack t u h inverse e = rw (inverse t.timestamp) (ap (relabel c (r.symbol_of h.symbol)) e)

  -- Reading does not depend on what the tick was before.
  unpack_alike :
      (t u : HistoricalTick c) (h : BinaryHeader) (b : BinaryTick c)
      → unpack c r t h b ≡ unpack c r u h b
  unfolding unpack complete_tick
  unpack_alike t u h b = refl

  abbrev pub reader_at : List (BinaryTick c) → ℕ → ℕ → BinaryHeader → BinaryParser c
  reader_at bs size pos h = record {
    unread = bs;
    good = true;
    is_open = true;
    file_size = size;
    current_position = pos;
    header = h;
  }

  before : (m n : ℕ) → m < n → ltb m n ≡ true
  before m n h = ground arith

  behind : (m n : ℕ) → n ≤ m → ltb m n ≡ false
  behind m n h = ground arith

  next_record :
      (b : BinaryTick c) (bs : List (BinaryTick c)) (size pos : ℕ) (h : BinaryHeader)
      → (u : HistoricalTick c) → pos < size
      → read_binary_tick c r (reader_at (b ∷ bs) size pos h) u
        ≡ (some (unpack c r u h b), reader_at bs size (pos + 64) h)
  unfolding read_binary_tick
  next_record b bs size pos h u k = rw (before pos size k) refl

  no_record :
      (size pos : ℕ) (h : BinaryHeader) (u : HistoricalTick c)
      → size ≤ pos
      → (read_binary_tick c r (reader_at [] size pos h) u).0 ≡ none
  unfolding read_binary_tick
  no_record size pos h u k = rw (behind pos size k) refl

  pub read_records :
      (fuel : ℕ) (bs : List (BinaryTick c)) (size pos : ℕ) (h : BinaryHeader)
      → (u v : HistoricalTick c) → size ≡ pos + 64 * length bs
      → length bs < fuel
      → read_binary_ticks c r fuel (reader_at bs size pos h) u ≡ some (map (unpack c r v h) bs)
  unfolding read_binary_ticks
  read_records zero bs size pos h u v e k = absurd (omega (arith, k))
  read_records (suc fuel) [] size pos h u v e k =
      rw (read_binary_ticks, no_record size pos h u (omega (arith, e))) refl
  read_records (suc fuel) (b ∷ bs) size pos h u v e k =
      let next = next_record b bs size pos h u (omega (arith, e)) in
      rw
        (
          read_binary_ticks,
          ap (λ x. x.0) next,
          ap (λ x. x.1) next,
          read_records fuel bs size (pos + 64) h (unpack c r u h b) v (omega (arith, e))
              (omega (arith, k)),
        )
        (ap (λ x. some (x ∷ map (unpack c r v h) bs)) (unpack_alike u v h b))

  -- The members of a tick that are computed from the others are as they should be.
  abbrev pub IsComplete : HistoricalTick c → Type 0
  IsComplete t = complete_tick c t ≡ t

  complete_tick-IsComplete : (t : HistoricalTick c) → IsComplete (complete_tick c t)
  unfolding complete_tick
  complete_tick-IsComplete t = refl

  completed :
      (few : Bool) (o : Option (HistoricalTick c)) (t' : HistoricalTick c)
      → (if few then none else (o >>= λ x. some (complete_tick c x))) ≡ some t'
      → IsComplete t'
  completed true o t' h = absurd (cc)
  completed false none t' h = absurd (cc)
  completed false (some x) t' h = subst (λ y. IsComplete y) (taken h) (complete_tick-IsComplete x)

  tick-IsComplete :
      (f : CsvFormat) (default_symbol : c.Symbol) (t : HistoricalTick c) (line : Bytes) (n : ℕ)
      → (now : c.TimePoint) → (t' : HistoricalTick c)
      → tick_of_line c r f default_symbol t line n now ≡ some t'
      → IsComplete t'
  unfolding tick_of_line
  tick-IsComplete f default_symbol t line n now t' h =
      completed (ltb (length (parse_csv_line f line)) 8)
        (read_columns c r f default_symbol t (parse_csv_line f line) n now) t' h

  pub lines-AreComplete :
      (f : CsvFormat) (default_symbol : c.Symbol) (t : HistoricalTick c) (clock : ℕ → c.TimePoint)
      → (n : ℕ) → (ls : List Bytes)
      → All IsComplete (ticks_of_lines c r f default_symbol t clock n ls)
  lines-AreComplete f default_symbol t clock n [] = tt
  lines-AreComplete f default_symbol t clock n (l ∷ ls) =
      let n' = wadd size_mod n 1 in
      elim (Option-cases (tick_of_line c r f default_symbol t l n' (clock n'))) [
        | inl e ↦ rw (ticks_of_lines, e) tt
        | inr (t', e) ↦
            rw (ticks_of_lines, e)
              (
                tick-IsComplete f default_symbol t l n' (clock n') t' e,
                lines-AreComplete f default_symbol t' clock n' ls,
              )
      ]

  pub relabelled :
      (ts : List (HistoricalTick c)) (u : HistoricalTick c) (h : BinaryHeader)
      → ((x : c.TimePoint) → r.time_of_ns (r.ns_of x) ≡ x)
      → All IsComplete ts
      → map (unpack c r u h) (map (pack c r) ts) ≡ map (relabel c (r.symbol_of h.symbol)) ts
  relabelled [] u h inverse k = refl
  relabelled (t ∷ ts) u h inverse k =
      rw (unpack-pack t u h inverse k.0, relabelled ts u h inverse k.1) refl
