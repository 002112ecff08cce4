-- ===== src/Security.antt =====
-- Who may do what: security/roles.py, users.py and tokens.py.
pub mod Roles
pub mod Users
pub mod Tokens
