-- ===== src/Tests.antt =====
-- Every theorem of the library at a concrete input, and runs of the models.
mod Entities
mod Uploads
mod Validations
mod Data
mod Pipeline
mod Workers
mod Contents
mod Signing
mod Accounts
mod Storage
mod Intake
mod Limits
mod Listings
