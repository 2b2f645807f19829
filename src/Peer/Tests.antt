-- ===== src/Peer/Tests.antt =====
-- An offer of an upload.
