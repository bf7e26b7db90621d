-- ===== src/Rewards/Tests.antt =====
-- Items at concrete texts.
