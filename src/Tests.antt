-- ===== src/Tests.antt =====
-- Each theorem of the results at a concrete input.
mod Message
mod Server
mod Remote
mod Task
mod Text
mod Web
mod Files
mod Serving
