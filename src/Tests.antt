-- ===== src/Tests.antt =====
-- Runs of the definitions on concrete inputs, and each theorem of the results at an input at which
-- its hypotheses hold.
mod Server
mod Structures
mod Handles
mod Notifications
mod Async
mod StepChains
mod Notify
mod Config
mod Lists
mod Lifecycle
mod Sums
