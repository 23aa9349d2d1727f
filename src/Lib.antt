-- ===== src/Lib.antt =====
-- A verification library for hft_engine, a trading engine in C++: orders, price levels, order books,
-- a matching engine that takes orders from a queue, matches them and reports fills, a market maker on
-- top of it, a parser and a builder for messages of the FIX protocol, analytics of
-- trades, and back tests of trading strategies.
--
-- How the parts interact. MatchingEngine (src/matching/matching_engine.cpp) owns an OrderBook
-- (src/order/order_book.cpp) or a segment tree for each symbol. submit_order puts an order into the
-- queue; the worker's process_order takes it out, matches it against the book, rests what is left and
-- calls the callbacks. An OrderBook holds a PriceLevel (src/order/price_level.cpp) for each price and
-- the orders by id. FixParser (src/fix/fix_parser.cpp) cuts messages out of the bytes that it is fed
-- with; its parsing workers take them from one queue and put what they have parsed into another, from
-- which its processing workers call the client's callback. FixMessageBuilder writes such messages.
-- MarketMakingEngine owns a MatchingEngine, submits a bid and an ask for a symbol to it, and changes
-- its positions in the callbacks. PnLCalculator (src/analytics/pnl_calculator_simple.cpp) keeps the
-- positions and results of the trades that it is told of, SlippageAnalyzer their slippage.
-- TickReplayEngine (src/backtesting/tick_replay.cpp) owns a matching engine and a PnLCalculator and
-- hands recorded ticks to its strategies, which submit orders; BacktestingSuite makes an engine for
-- each of its jobs.
--
-- Files.
--   Base, Base/Tests, Base/Lists, Base/Options, Base/Words: shared names, Boolean tests, lists, do
--     blocks of options, machine words.
--   Containers: std::map (OrderedMap) and std::unordered_map (HashMap) as association lists.
--   Core, Core/Laws: what the code uses of include/hft/core, which the repository does not hold: types,
--     constants, operators on prices and doubles, the two segment trees and the queue. They are
--     parameters; IsCore states what the proofs ask of them, and Samples and Core/Laws give instances.
--   Order: include/hft/order/order.hpp, src/order/order.cpp (struct Order).
--   PriceLevel: include/hft/order/price_level.hpp, src/order/price_level.cpp (struct PriceLevel).
--   OrderBook: include/hft/order/order_book.hpp, src/order/order_book.cpp. A method is the function
--     of its name; it returns the new book beside its result, queries too, since the cached prices are
--     mutable.
--   Engine: include/hft/matching/matching_engine.hpp, src/matching/matching_engine.cpp. Engine/State
--     has the record of the class and its queries, Engine/Requests submit_order, cancel_order and
--     modify_order, Engine/Matching and Engine/SegmentMatching the two matching loops, Engine/Process
--     process_order and the worker's round, Engine/Prices the free functions on prices,
--     Engine/TreeOrders the orders of the segment trees, Engine/Making MarketMakingEngine, with
--     Engine/Making/Rounds for the worker of its engine. Calls of callbacks are listed in the field
--     `events`, those of the maker run behind the round that makes them.
--   Fix: include/hft/fix/fix_parser.hpp, src/fix/fix_parser.cpp. Fix/Bytes has texts as lists of bytes
--     and what the code calls of std::string, Fix/Message FixMessage, Fix/Parse
--     FixParser::parse_message_internal, Fix/Feed feed_data and extract_next_message, Fix/Builder
--     FixMessageBuilder, Fix/Workers the class FixParser with its threads: a round of a worker is a
--     function, and Fix/Workers/Steps puts the rounds and the clients' calls in any order.
--   Analytics: include/hft/analytics/pnl_calculator.hpp, src/analytics/pnl_calculator_simple.cpp.
--     Analytics/Types has Trade, Position and SlippageMetrics, Analytics/Formulas the free functions,
--     Analytics/Calculator PnLCalculator and its queries, Analytics/Slippage SlippageAnalyzer,
--     Analytics/Signed whole numbers with a sign as the doubles of the examples.
--   Backtesting: include/hft/backtesting/tick_replay.hpp, src/backtesting/tick_replay.cpp.
--     Backtesting/Ticks has HistoricalTick, Backtesting/Quoting MarketMakingStrategy,
--     Backtesting/Momentum MomentumStrategy, Backtesting/Strategies their common interface,
--     Backtesting/Replay TickReplayEngine with its callbacks, Backtesting/Runs run_backtest, where the
--     worker of the matching engine makes any rounds during each tick, Backtesting/Suite
--     BacktestingSuite, and Backtesting/Files CSVMarketDataParser, BinaryMarketDataParser with
--     convert_csv_to_binary (a binary file is a header and a list of records), and the ticks that a
--     suite reads from a disk. Backtesting/Generator is generate_csv_data of
--     src/backtesting/tick_data_generator.cpp, for whatever draws of the random distributions.
--
-- Conventions. A quantity and an id are numbers that wrap round at a modulus given by Core; the
-- statistics wrap at 2 ^ 64. A time is an argument of the call that reads the clock. The loops of the
-- matching recur on fuel and return `none` when it runs out; the results say which fuel is enough: with
-- segment trees, more than the quantity that is left. The loop of feed_data needs more than the bytes
-- of the buffer. The loops over the lines of a CSV file and the records of a binary file need more
-- than the bytes and the records that are left.
--
-- Not modelled: the log, the threads themselves (a round of the worker is one step, and the engine's
-- fields are not touched by other threads within it), what the parser's threads do during
-- one call or round except between two attempts to enqueue, the loss of a message by the move into a
-- queue that refuses it, an error callback that throws out of feed_data, the average parse time, the
-- order of the locks in the analytics, the classes that pnl_calculator.hpp declares and no file
-- implements, generate_multi_symbol_data, a binary file that is shorter than its header, the printed and exported reports, and the programs and
-- scripts.
pub mod Base
pub mod Containers
pub mod Core
pub mod Order
pub mod PriceLevel
pub mod OrderBook
pub mod Engine
mod Samples
pub mod Fix
pub mod Analytics
pub mod Backtesting
