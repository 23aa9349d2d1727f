-- ===== src/Backtesting/Properties/Files/Written.antt =====
-- What the loop of BinaryMarketDataParser::convert_csv_to_binary writes.
use mathlib.Core.List.{append_assoc, append-nil}
use hft_engine.Base.{
  ℕ, zero, suc, ◌+◌, ◌<◌, ◌≤◌, Bool, true, Option, none, some, List, [], ◌∷◌, ◌++◌, ltb, length,
  map, ◌≡◌, refl, ap, ◌∙◌, inl, inr, arith, Option-cases,
}
use hft_engine.Base.Words.{wadd, wadd_exact}
use hft_engine.Core.{Core}
use hft_engine.Analytics.Calculator.{size_mod}
use hft_engine.Backtesting.Ticks.{HistoricalTick}
use hft_engine.Backtesting.Files.{Reader}
use hft_engine.Backtesting.Files.Csv.{CsvParser, read_next_tick, read_ticks}
use hft_engine.Backtesting.Files.Binary.{
  BinaryTick, BinaryHeader, BinaryFile, Conversion, written, overflow, pack, first_header,
  count_record, convert_ticks,
}
use hft_engine.Backtesting.Properties.Files.Reading.{read_nothing, read_more}

module _ (c : Core) (r : Reader c) where
  -- The time of the last tick.
  abbrev last_ns : ℕ → List (HistoricalTick c) → ℕ
  last_ns ns [] = ns
  last_ns ns (t ∷ ts) = last_ns (r.ns_of t.timestamp) ts

  -- The header that the ticks get: their number, the times of the first and the last one and the
  -- symbol of the first one.
  abbrev pub header_of : List (HistoricalTick c) → BinaryHeader
  header_of [] = first_header c r
  header_of (t ∷ ts) = record (first_header c r) {
    record_count = length (t ∷ ts);
    start_time_ns = r.ns_of t.timestamp;
    end_time_ns = last_ns (r.ns_of t.timestamp) ts;
    symbol = r.symbol_text t.symbol;
  }

  abbrev pub file_of : List (HistoricalTick c) → BinaryFile c
  file_of ts = record { header = header_of ts; records = map (pack c r) ts; torn = 0 }

  -- The symbol of the first tick has at most fifteen bytes.
  abbrev pub fits : List (HistoricalTick c) → Bool
  fits [] = true
  fits (t ∷ ts) = ltb (length (r.symbol_text t.symbol)) 16

  -- The loop of the conversion over ticks that are read already.
  abbrev pub add_all :
      BinaryHeader → List (BinaryTick c) → List (HistoricalTick c) → Option (Conversion c)
  add_all h bs [] = some (written (record { header = h; records = bs; torn = 0 }))
  add_all h bs (t ∷ ts) = elim (count_record c r h t) [
    | none ↦ some overflow
    | some h' ↦ add_all h' (bs ++ pack c r t ∷ []) ts
  ]

  counted_alike :
      (o : Option BinaryHeader) (f g : BinaryHeader → Option (Conversion c))
      → ((h : BinaryHeader) → f h ≡ g h)
      → elim o [ none ↦ some overflow | some h ↦ f h ]
        ≡ elim o [ none ↦ some overflow | some h ↦ g h ]
  counted_alike none f g e = refl
  counted_alike (some h) f g e = e h

  pub convert_reads :
      (fuel : ℕ) (p : CsvParser c) (t : HistoricalTick c) (clock : ℕ → c.TimePoint)
      → (h : BinaryHeader) → (bs : List (BinaryTick c)) → (ts : List (HistoricalTick c))
      → read_ticks c r fuel p t clock ≡ some ts
      → convert_ticks c r fuel p t clock h bs ≡ add_all h bs ts
  unfolding convert_ticks read_ticks
  convert_reads zero p t clock h bs ts k = absurd (cc)
  convert_reads (suc fuel) p t clock h bs ts k =
      elim (Option-cases (read_next_tick c r p t clock).0) [
        | inl n ↦ rw (convert_ticks, n) (ap (add_all h bs) (read_nothing c r fuel p t clock ts n k))
        | inr (t', n) ↦
            let (ts', e, e') = read_more c r fuel p t clock t' ts n k in
            rw (convert_ticks, n)
              (counted_alike (count_record c r h t')
                  (λ h'.
                    convert_ticks c r fuel (read_next_tick c r p t clock).1 t' clock h'
                      (bs ++ pack c r t' ∷ []))
                  (λ h'. add_all h' (bs ++ pack c r t' ∷ []) ts')
                  (λ h'.
                    convert_reads fuel (read_next_tick c r p t clock).1 t' clock h'
                      (bs ++ pack c r t' ∷ []) ts' e)
                ∙ ap (add_all h bs) e')
      ]

  count_later :
      (h : BinaryHeader) (t : HistoricalTick c)
      → 1 ≤ h.record_count
      → h.record_count + 1 < size_mod
      → count_record c r h t
        ≡ some (record h { record_count = h.record_count + 1; end_time_ns = r.ns_of t.timestamp })
  unfolding count_record
  count_later h t k l = rw (wadd_exact size_mod h.record_count 1 l) (ground arith)

  plus_zero : (n : ℕ) → n + 0 ≡ n
  plus_zero n = omega arith

  plus_one : (n m : ℕ) → n + 1 + m ≡ n + suc m
  plus_one n m = omega arith

  one_plus : (n : ℕ) → 1 + n ≡ suc n
  one_plus n = omega arith

  add_later :
      (h : BinaryHeader) (bs : List (BinaryTick c)) (ts : List (HistoricalTick c))
      → 1 ≤ h.record_count
      → h.record_count + length ts < size_mod
      → add_all h bs ts
        ≡ some (
            written (record {
              header = record h {
                record_count = h.record_count + length ts;
                end_time_ns = last_ns h.end_time_ns ts;
              };
              records = bs ++ map (pack c r) ts;
              torn = 0;
            }))
  add_later h bs [] k l = rw (append-nil bs, plus_zero h.record_count) refl
  add_later h bs (t ∷ ts) k l =
      rw (add_all, count_later h t k (omega (arith, l)))
        (add_later
            (record h { record_count = h.record_count + 1; end_time_ns = r.ns_of t.timestamp })
            (bs ++ pack c r t ∷ []) ts (omega (arith, k)) (omega (arith, l))
          ∙ rw
              (
                append_assoc bs (pack c r t ∷ []) (map (pack c r) ts),
                plus_one h.record_count (length ts),
              )
              refl)

  abbrev header_one : HistoricalTick c → BinaryHeader
  header_one t = record (first_header c r) {
    record_count = 1;
    start_time_ns = r.ns_of t.timestamp;
    end_time_ns = r.ns_of t.timestamp;
    symbol = r.symbol_text t.symbol;
  }

  count_first :
      (t : HistoricalTick c)
      → ltb (length (r.symbol_text t.symbol)) 16 ≡ true
      → count_record c r (first_header c r) t ≡ some (header_one t)
  unfolding count_record wadd
  count_first t h = rw h refl

  pub add_all_file :
      (ts : List (HistoricalTick c))
      → fits ts ≡ true
      → length ts < size_mod
      → add_all (first_header c r) [] ts ≡ some (written (file_of ts))
  add_all_file [] h k = refl
  add_all_file (t ∷ ts) h k =
      rw (add_all, count_first t h)
        (add_later (header_one t) (pack c r t ∷ []) ts (omega arith) (omega (arith, k))
          ∙ rw (one_plus (length ts)) refl)
