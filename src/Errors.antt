-- ===== src/Errors.antt =====
-- internal/errors/classify.go: how the text of an upstream error becomes an account status code and
-- a retry class. The children hold the markers, the two classifiers and what is proved of them.
pub mod Markers
pub mod Classify
pub mod Laws
