-- ===== src/Auth.antt =====
-- Accounts and sessions: backend/src/recruit_api/models/{user,auth}.py, services/auth_service.py,
-- services/account_service.py, security/{jwt,deps}.py, db.py and the suspension of routers/admin.py.
pub mod Emails
pub mod State
mod Samples
pub mod Rows
pub mod Service
pub mod Account
pub mod Access
pub mod History
