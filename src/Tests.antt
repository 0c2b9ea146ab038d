-- ===== src/Tests.antt =====
-- Witnesses: each property that has hypotheses, applied to a small shop.
mod Schedule
mod Seed
mod Data
mod Trade
mod Server
mod Requests
mod Stock
mod Money
mod Lists
mod Pages
