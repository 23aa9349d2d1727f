-- ===== src/Backtesting/Properties/Files/Printed.antt =====
-- Two generated ticks are read again.
use hft_engine.Base.{suc, length, ℕ, ◌%◌, ◌^◌, true, some, List, [], ◌∷◌, ◌≡◌, refl, ◌++◌, arith}
use hft_engine.Core.Laws.{whole}
use hft_engine.Fix.Bytes.{Bytes, to_string}
use hft_engine.Fix.Bytes.Numbers.{stoul-to_string}
use hft_engine.Analytics.Signed.{wholes}
use hft_engine.Backtesting.Generator.{
  Draws, generate_rows, generate_csv_data, header_line, row_lines,
}
use hft_engine.Backtesting.Files.Csv.{new_csv_parser, open_csv, read_ticks}
use hft_engine.Backtesting.Properties.Files.Generated.{
  IsPrinter, ticks_of_rows, to_string-ArePlain, generate_csv_data_lem,
}
use hft_engine.Backtesting.Properties.Files.Examples.{reader, blank}

-- Prices are printed as 64-bit whole numbers.
abbrev fixed : ℕ → Bytes
fixed x = to_string (x % 2 ^ 64)

fixed-IsPrinter : IsPrinter whole reader fixed (λ x. x % 2 ^ 64)
fixed-IsPrinter = record {
  plain = λ x. to_string-ArePlain (x % 2 ^ 64);
  reads = λ x. stoul-to_string (x % 2 ^ 64) (omega arith);
}

abbrev draws : List (Draws whole)
draws =
    record {
      walk = 1;
      spread = 2;
      bid_size = 300;
      ask_size = 500;
      trade = 0;
      side = 1;
      last_size = 700;
      step = 123456;
    }
    ∷ record {
      walk = 0;
      spread = 4;
      bid_size = 100;
      ask_size = 10000;
      trade = 5;
      side = 0;
      last_size = 0;
      step = 5;
    }
    ∷ []

-- The symbol 7
abbrev symbol : Bytes
symbol = to_string 7

abbrev text : Bytes
text = header_line ++ 10 ∷ row_lines whole fixed symbol (generate_rows whole wholes 3 10 1000 draws)

text_written : generate_csv_data whole wholes fixed true symbol 10 3 1000 draws ≡ some text
unfolding generate_csv_data
text_written = refl

generate_csv_data_lem_example :
    ((open_csv whole reader (new_csv_parser whole reader 0) (some text)).0 ≡ true)
    × (read_ticks whole reader
          (suc (length text))
          (open_csv whole reader (new_csv_parser whole reader 0) (some text)).1
          blank
          (λ n. n)
        ≡ some (
            ticks_of_rows whole reader fixed
              (λ x. x % 2 ^ 64)
              symbol
              blank
              1
              (generate_rows whole wholes 3 10 1000 draws)))
generate_csv_data_lem_example =
    generate_csv_data_lem whole reader wholes fixed (λ x. x % 2 ^ 64) symbol 10 3 1000 draws text
      blank (λ n. n) fixed-IsPrinter (to_string-ArePlain 7) (omega arith)
      (
        record { bid_bounded = omega arith; ask_bounded = omega arith; last_bounded = omega arith },
        (
          record {
            bid_bounded = omega arith;
            ask_bounded = omega arith;
            last_bounded = omega arith;
          },
          tt,
        ),
      )
      text_written
