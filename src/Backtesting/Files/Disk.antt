-- ===== src/Backtesting/Files/Disk.antt =====
-- The parsers that BacktestingSuite::run_backtest opens, in src/backtesting/tick_replay.cpp, and the
-- ticks that the loop of TickReplayEngine::run_backtest reads of them.
use hft_engine.Base.{ℕ, suc, Option, none, some, List, length, if◌then◌else◌}
use hft_engine.Core.{Core}
use hft_engine.Fix.Bytes.{Bytes}
use hft_engine.Backtesting.Ticks.{HistoricalTick}
use hft_engine.Backtesting.Suite.{Files}
use hft_engine.Backtesting.Files.{Reader}
use hft_engine.Backtesting.Files.Csv.{new_csv_parser, open_csv, read_ticks}
use hft_engine.Backtesting.Files.Binary.{BinaryFile, BinaryParser, open_binary, read_binary_ticks}

-- What is behind the names of files, if they open; the time when a line of a text is parsed; and the
-- tick and the members of the binary parser as the memory held them before.
pub record Disk (c : Core) : Type 0 where
  pub text_of : Bytes → Option Bytes
  pub records_of : Bytes → Option (BinaryFile c)
  pub clock : ℕ → c.TimePoint
  pub old_tick : HistoricalTick c
  pub old_parser : BinaryParser c

module _ (c : Core) (r : Reader c) (d : Disk c) where
  unfoldable pub csv_ticks_of : Bytes → Option (List (HistoricalTick c))
  csv_ticks_of name = elim (d.text_of name) [
    | none ↦ none
    | some text ↦
        let p = (open_csv c r (new_csv_parser c r c.no_symbol) (some text)).1 in
        read_ticks c r (suc (length text)) p d.old_tick d.clock
  ]

  unfoldable pub binary_ticks_of : Bytes → Option (List (HistoricalTick c))
  binary_ticks_of name = elim (d.records_of name) [
    | none ↦ none
    | some f ↦
        let (opened, p) = open_binary c r d.old_parser (some f) in
        let ticks = read_binary_ticks c r (suc (length f.records)) p d.old_tick in
        if opened then ticks else none
  ]

  -- The parsers of a suite whose files are on the disk.
  unfoldable pub files_on : Files c
  files_on = record { csv_ticks = csv_ticks_of; binary_ticks = binary_ticks_of }
