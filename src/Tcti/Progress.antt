-- ===== src/Tcti/Progress.antt =====
-- One receive of src/tcti-tabrmd.c over a connection that delivers: each call brings the response on.
pub mod Piece
pub mod Step
pub mod Rounds
pub mod FirstRound
pub mod Until
