-- ===== src/Agent/Session/Expiry.antt =====
-- The two tests of a session's expiry.
