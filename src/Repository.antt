-- ===== src/Repository.antt =====
-- The analyses table and its repository: backend/app/infrastructure/database/repositories/base.py
-- and analysis.py, over the columns and constraints of backend/app/models/analysis.py.
pub mod Rows
pub mod Session
pub mod Laws
pub mod Updates
