-- ===== src/Query.antt =====
-- Package querylang (internal/querylang): the search grammar, and the completions of a query.
pub mod Fields
pub mod Token
pub mod Parse
pub mod Caret
pub mod Values
pub mod Quote
pub mod Complete
pub mod Reading
pub mod RoundTrip
pub mod Inserted
pub mod Total
pub mod Sound
pub mod Offsets
