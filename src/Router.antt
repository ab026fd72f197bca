-- ===== src/Router.antt =====
-- The inference router of src/ei/inference/router.py and the errors of src/ei/inference/errors.py.
mod Choice
mod Generate
mod Attempts
mod Once
mod Refusal
mod Errors
mod Tests
