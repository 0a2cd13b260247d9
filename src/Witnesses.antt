-- ===== src/Witnesses.antt =====
-- Concrete runs of the model: for each theorem with hypotheses an input at which they hold, and tests.
mod Data
mod Urls
mod Admins
mod Queues
mod Directories
mod Retries
mod Headers
mod Ingests
mod Broadcasts
mod Channels
mod FanOuts
mod Workers
mod Settings
