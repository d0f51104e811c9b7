-- ===== src/Pricing.antt =====
-- What an offer costs, and when prices are looked at again.
mod Cost
mod Schedule
mod Wishlist
mod Worker
mod Round
mod Grown
mod Accounted
mod Due
mod Complete
mod Reuse
mod RoundTests
mod Tests
