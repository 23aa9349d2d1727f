-- ===== src/Backtesting/Properties/Files/Examples.antt =====
-- A small text is converted to a binary file and read again.
use hft_engine.Base.{suc, ◌<◌, ◌≡◌, true, some, List, [], ◌∷◌, map, length, or_else, refl, arith}
use hft_engine.Base.Words.{wadd}
use hft_engine.Backtesting.Suite.{get_elem?}
use hft_engine.Core.Laws.{whole}
use hft_engine.Fix.Bytes.{
  Bytes, stoul, to_string, digits, is_space, is_digit, read_signed, read_unsigned, read_digits,
}
use hft_engine.Analytics.Calculator.{size_mod}
use hft_engine.Backtesting.Ticks.{HistoricalTick, complete_tick}
use hft_engine.Backtesting.Files.{Reader, up_to, left_over, getline, is_blank, trim_end, trim_start}
use hft_engine.Backtesting.Files.Csv.{
  tick_of_line, read_columns, parse_csv_line, fields_from, parse_timestamp,
}
use hft_engine.Backtesting.Files.Binary.{
  BinaryParser, written, convert_csv_to_binary, open_binary, read_binary_ticks,
}
use hft_engine.Backtesting.Properties.Files.Written.{header_of, file_of, fits}
use hft_engine.Backtesting.Properties.Files.Reread.{relabel}
use hft_engine.Backtesting.Properties.Files.Conversion.{csv_ticks, convert_csv_to_binary_lem}

-- Prices and symbols are whole numbers, and a time is its number of nanoseconds.
abbrev pub reader : Reader whole
reader = record {
  stod = stoul;
  time_of_ns = λ n. n;
  ns_of = λ n. n;
  symbol_of = λ s. or_else 0 (stoul s);
  symbol_text = to_string;
}

-- A header line, two ticks, and a line that is none.
abbrev text : Bytes
text =
    b'h' ∷ 10 ∷ b'7' ∷ b',' ∷ b'3' ∷ b',' ∷ b'8' ∷ b',' ∷ b' ' ∷ b'9' ∷ b',' ∷ b'8' ∷ b',' ∷ b'5'
    ∷ b',' ∷ b'6' ∷ b',' ∷ b'0' ∷ 13 ∷ 10 ∷ b'8' ∷ b',' ∷ b'4' ∷ b',' ∷ b'7' ∷ b',' ∷ b'8' ∷ b','
    ∷ b'8' ∷ b',' ∷ b'1' ∷ b',' ∷ b'1' ∷ b',' ∷ b'2' ∷ 10 ∷ b'9' ∷ b',' ∷ b'4' ∷ []

abbrev pub blank : HistoricalTick whole
blank = record {
  symbol = 0;
  timestamp = 0;
  bid_price = 0;
  ask_price = 0;
  last_price = 0;
  bid_size = 0;
  ask_size = 0;
  last_size = 0;
  sequence_number = 0;
  spread_bps = 0;
  mid_price = 0;
  is_trade_tick = true;
  trade_aggressor_side = true;
}

abbrev ticks : List (HistoricalTick whole)
ticks = csv_ticks whole reader text blank (λ n. n)

two_ticks : map (λ t. t.bid_size) ticks ≡ 5 ∷ 1 ∷ []
unfolding tick_of_line read_columns parse_csv_line fields_from parse_timestamp complete_tick
    get_elem? getline left_over up_to is_blank trim_end trim_start stoul is_space read_signed
    read_unsigned read_digits is_digit to_string digits wadd
two_ticks = refl

ticks_fit : fits whole reader ticks ≡ true
unfolding tick_of_line read_columns parse_csv_line fields_from parse_timestamp complete_tick
    get_elem? getline left_over up_to is_blank trim_end trim_start stoul is_space read_signed
    read_unsigned read_digits is_digit to_string digits wadd
ticks_fit = refl

few_ticks : length ticks < size_mod
unfolding tick_of_line read_columns parse_csv_line fields_from parse_timestamp complete_tick
    get_elem? getline left_over up_to is_blank trim_end trim_start stoul is_space read_signed
    read_unsigned read_digits is_digit to_string digits wadd
few_ticks = omega arith

convert_csv_to_binary_lem_example :
    (convert_csv_to_binary whole reader (suc (length text)) (some text) true blank (λ n. n)
      ≡ some (written (file_of whole reader ticks)))
    × ((p : BinaryParser whole)
        → read_binary_ticks whole reader
            (suc (length ticks))
            (open_binary whole reader p (some (file_of whole reader ticks))).1
            blank
          ≡ some
              (map (relabel whole (reader.symbol_of (header_of whole reader ticks).symbol)) ticks))
convert_csv_to_binary_lem_example =
    convert_csv_to_binary_lem whole reader text blank blank (λ n. n) (λ x. refl) ticks_fit few_ticks
