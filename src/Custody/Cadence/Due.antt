-- ===== src/Custody/Cadence/Due.antt =====
-- internal/custody/packetizer.go: a tick whose quote can be taken.
