-- ===== src/Cooldown.antt =====
-- The cooldowns that are kept on disk: brokers/common/auth/totp_cooldown.py with the two clients that log in under it, and
-- brokers/dhan/connection_admission.py.
mod Files
mod Totp
mod Admission
mod Tests
mod LockTests
