-- ===== src/Tests.antt =====
-- Runs on concrete data: the hypotheses of the theorems hold there.
mod Adapter
mod Machine
mod Users
mod Retries
mod Requests
mod Flights
mod Traffic
mod Contexts
mod Failures
mod Permissions
mod Monitor
mod Banners
mod SignIn
mod SignOut
mod Table
mod TableEvents
mod TablePipeline
mod Forms
mod Api
mod Wizard
mod Persistence
mod ServerErrors
mod Utils
