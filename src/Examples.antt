-- ===== src/Examples.antt =====
-- Concrete runs of the program over whole decimals and a database in memory.
mod Memory
mod Whole
mod Accounts
mod Transfers
mod Services
mod Failures
mod Endpoints
mod Driver
mod Requests
mod Tests
mod Application
mod Sessions
mod Clients
mod Suites
mod Process
mod Mocked
