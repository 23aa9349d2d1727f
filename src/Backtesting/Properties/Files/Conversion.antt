-- ===== src/Backtesting/Properties/Files/Conversion.antt =====
-- BinaryMarketDataParser::convert_csv_to_binary, and the reading of what it has written.
use hft_engine.Base.{
  ℕ, suc, ◌+◌, ◌*◌, ◌<◌, true, some, List, [], ◌∷◌, length, map, ◌≡◌, refl, ap, ◌∙◌, arith,
}
use hft_engine.Core.{Core}
use hft_engine.Fix.Bytes.{Bytes, same_bytes}
use hft_engine.Analytics.Calculator.{size_mod}
use hft_engine.Backtesting.Ticks.{HistoricalTick}
use hft_engine.Backtesting.Files.{Reader, Stream, open_stream, getline}
use hft_engine.Backtesting.Files.Csv.{
  CsvParser, default_format, newline, new_csv_parser, open_csv, read_ticks,
}
use hft_engine.Backtesting.Files.Binary.{
  BinaryParser, written, pack, first_header, read_binary_ticks, open_binary, hftd,
  convert_csv_to_binary,
}
use hft_engine.Backtesting.Properties.Files.Pieces.{pieces, behind_first, getline-IsSkipped}
use hft_engine.Backtesting.Properties.Files.Reading.{ticks_of_lines, read_ticks_lem}
use hft_engine.Backtesting.Properties.Files.Written.{
  header_of, file_of, fits, convert_reads, add_all_file,
}
use hft_engine.Backtesting.Properties.Files.Reread.{
  relabel, reader_at, read_records, lines-AreComplete, relabelled,
}

module _ (c : Core) (r : Reader c) where
  -- The ticks of a text with a header line, as a parser with the default format reads them.
  abbrev pub csv_ticks : Bytes → HistoricalTick c → (ℕ → c.TimePoint) → List (HistoricalTick c)
  csv_ticks text t clock =
      ticks_of_lines c r default_format c.no_symbol t clock 1 (behind_first (pieces newline text))

  pub opened_reads :
      (text : Bytes) (t : HistoricalTick c) (clock : ℕ → c.TimePoint)
      → read_ticks c r
          (suc (length text))
          (open_csv c r (new_csv_parser c r c.no_symbol) (some text)).1
          t
          clock
        ≡ some (csv_ticks text t clock)
  unfolding open_csv new_csv_parser open_stream
  opened_reads text t clock =
      let f : Stream = record { unread = text; good = true; is_open = true } in
      let p : CsvParser c = record (new_csv_parser c r c.no_symbol) {
        file = (getline newline f).1;
        line_number = 1;
      } in
      let k = getline-IsSkipped newline f refl in
      read_ticks_lem c r (suc (length text)) p t clock k.ready (omega (arith, k.fewer))
      ∙ ap (λ ls. some (ticks_of_lines c r default_format c.no_symbol t clock 1 ls)) k.rest

  header_magic : (ts : List (HistoricalTick c)) → (header_of c r ts).magic ≡ hftd
  header_magic [] = refl
  header_magic (t ∷ ts) = refl

  length_packed : (ts : List (HistoricalTick c)) → length (map (pack c r) ts) ≡ length ts
  length_packed [] = refl
  length_packed (t ∷ ts) = omega (arith, length_packed ts)

  -- What open makes of the file.
  open_file :
      (ts : List (HistoricalTick c)) (p : BinaryParser c)
      → open_binary c r p (some (file_of c r ts)) ≡ (
        true,
        reader_at c r
            (map (pack c r) ts)
            (56 + 64 * length (map (pack c r) ts) + 0)
            56
            (header_of c r ts),
      )
  unfolding open_binary same_bytes
  open_file ts p = rw (header_magic ts) refl

  -- Where the nanoseconds of a time give it back, the symbol of the first tick has at most fifteen
  -- bytes and there are fewer than 2 ^ 64 ticks: the conversion of any text ends, and writes the header
  -- of its ticks, which are those of the longest prefix of its lines, behind the header line, that are
  -- ticks; and a parser that opens the file reads the same ticks, all with the symbol of the first.
  pub convert_csv_to_binary_lem :
      (text : Bytes) (t u : HistoricalTick c) (clock : ℕ → c.TimePoint)
      → ((x : c.TimePoint) → r.time_of_ns (r.ns_of x) ≡ x)
      → fits c r (csv_ticks text t clock) ≡ true
      → length (csv_ticks text t clock) < size_mod
      → (convert_csv_to_binary c r (suc (length text)) (some text) true t clock
          ≡ some (written (file_of c r (csv_ticks text t clock))))
        × ((p : BinaryParser c)
            → read_binary_ticks c r
                (suc (length (csv_ticks text t clock)))
                (open_binary c r p (some (file_of c r (csv_ticks text t clock)))).1
                u
              ≡ some (
                  map
                    (relabel c (r.symbol_of (header_of c r (csv_ticks text t clock)).symbol))
                    (csv_ticks text t clock)))
  unfolding convert_csv_to_binary open_csv new_csv_parser open_stream
  convert_csv_to_binary_lem text t u clock inverse h k =
      let ts = csv_ticks text t clock in
      (
        convert_reads c r (suc (length text))
              (open_csv c r (new_csv_parser c r c.no_symbol) (some text)).1 t clock
              (first_header c r) [] ts (opened_reads text t clock)
            ∙ add_all_file c r ts h k,
        (λ p. rw (open_file ts p) (
            read_records c r (suc (length ts)) (map (pack c r) ts)
              (56 + 64 * length (map (pack c r) ts) + 0) 56 (header_of c r ts) u u (omega arith)
              (omega (arith, length_packed ts))
            ∙ ap some (
                relabelled c r ts u (header_of c r ts) inverse (
                  lines-AreComplete c r default_format c.no_symbol t clock 1
                    (behind_first (pieces newline text)))))),
      )
