-- ===== src/Backtesting/Files.antt =====
-- The files that the two parsers of src/backtesting/tick_replay.cpp read, and what they call of
-- iostreams and std::string.
pub mod Csv
pub mod Binary
pub mod Disk
use hft_engine.Base.{
  ℕ, Bool, true, false, ◌||◌, Option, none, some, List, [], ◌∷◌, ◌++◌, ◌==◌, if◌then◌else◌,
}
use hft_engine.Core.{Core}
use hft_engine.Fix.Bytes.{Bytes, is_empty}

-- What the parsers use of the numbers and symbols of a core, which the repository does not hold:
-- std::stod (`none` is an exception), the time point of a number of nanoseconds since the epoch and
-- that number, a symbol made from a text, and the text of a symbol.
pub record Reader (c : Core) : Type 0 where
  pub stod : Bytes → Option c.Price
  pub time_of_ns : ℕ → c.TimePoint
  pub ns_of : c.TimePoint → ℕ
  pub symbol_of : Bytes → c.Symbol
  pub symbol_text : c.Symbol → Bytes

-- A std::ifstream, with what is left of the text, good() and is_open().
pub record Stream : Type 0 where
  pub unread : Bytes
  pub good : Bool
  pub is_open : Bool

abbrev pub new_stream : Stream
new_stream = record { unread = []; good = true; is_open = false }

-- open, of a file that holds the text or that does not open: that sets failbit, as does a stream that
-- is open already. Otherwise the flags are cleared.
unfoldable pub open_stream : Stream → Option Bytes → Stream
open_stream f none = record f { good = false }
open_stream f (some text) =
    if f.is_open
    then record f { good = false }
    else record { unread = text; good = true; is_open = true }

-- close, which leaves the flags
abbrev pub close_stream : Stream → Stream
close_stream f = record f { unread = []; is_open = false }

-- Up to the delimiter, and what stands behind it: `none` is the end of the text.
unfoldable pub up_to : ℕ → Bytes → Bytes × Option Bytes
up_to d [] = ([], none)
up_to d (b ∷ s) = let more = up_to d s in if b == d then ([], some s) else (b ∷ more.0, more.1)

-- The stream behind std::getline: the end of the text sets eofbit.
unfoldable pub left_over : Stream → Option Bytes → Stream
left_over f none = record f { unread = []; good = false }
left_over f (some s) = record f { unread = s }

-- std::getline; it fails on a stream that is not good, and at the end of the text.
unfoldable pub getline : ℕ → Stream → Option Bytes × Stream
getline d f =
    let read = up_to d f.unread in
    if f.good
    then (if is_empty f.unread then none else some read.0, left_over f read.1)
    else (none, f)

-- The characters of " \t\r\n"
unfoldable pub is_blank : ℕ → Bool
is_blank b = b == 32 || (b == 9 || (b == 13 || b == 10))

-- s.erase(s.find_last_not_of(" \t\r\n") + 1)
unfoldable pub trim_end : Bytes → Bytes
trim_end [] = []
trim_end (b ∷ s) =
    let rest = trim_end s in if is_empty rest then (if is_blank b then [] else b ∷ []) else b ∷ rest

-- s.erase(0, s.find_first_not_of(" \t\r\n")): a text that is blank has no such position, and
-- erase(0, npos) clears it.
unfoldable pub trim_start : Bytes → Bytes
trim_start [] = []
trim_start (b ∷ s) = let rest = trim_start s in if is_blank b then rest else b ∷ s
