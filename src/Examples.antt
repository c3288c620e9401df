-- ===== src/Examples.antt =====
-- The definitions run on concrete inputs, and every theorem with hypotheses applied where they hold.
mod Data
mod Handling
mod Values
mod Retrying
mod Tailing
mod Records
mod Enriching
mod Asking
mod Feeding
mod Flushing
mod Analysing
mod Correlating
mod Connecting
mod Watching
mod Serving
