-- ===== src/Market.antt =====
-- The services together: what one request does to the database, whichever service it goes to, and
-- what holds after any number of requests.
pub mod Frames
pub mod Others
pub mod Desk
pub mod Workers
pub mod Closing
pub mod Requests
pub mod OneDeal
pub mod History
pub mod Tests
