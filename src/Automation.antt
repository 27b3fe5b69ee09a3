-- ===== src/Automation.antt =====
-- pkg/gateway/server/cron.go: the automations of the gateway, with their own reading of cron
-- expressions. Times are seconds since 1970 in UTC; a time in the table is a text of time.RFC3339, in
-- the order of the times, or empty, which is `none`. What the model of the agent answers, and the
-- fields of an automation that no decision reads, are left out.
mod Schedule
mod Table
mod Ticks
pub mod Reading
pub mod Agreement
pub mod Runs
mod Tests
