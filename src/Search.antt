-- ===== src/Search.antt =====
-- What buyers search and follow: the public listings, saved searches with their alerts, and the
-- watchlist.
pub mod Listings
pub mod SavedSearches
pub mod Watchlists
pub mod Alerts
pub mod Matching
pub mod Alerting
pub mod Tests
